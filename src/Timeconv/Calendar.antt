-- ===== src/Timeconv/Calendar.antt =====
-- The Gregorian calendar, and that `civil_from_days` walks through it day by day.
use zephyr_siot.Base.{
  ◌^◌, ℕ, zero, suc, ◌+◌, ◌-◌, ◌*◌, ◌/◌, ◌%◌, ◌≤◌, ◌<◌, ◌≡◌, refl, Bool, true, false, ltb, leb,
  if◌then◌else◌, arith, ◌==◌, ◌||◌, ◌&&◌, not, ◌⊎◌, inl, inr, sym, ap, ◌∙◌,
}
use zephyr_siot.Base.Int.{pos, to_word, of_word, of_word-to_word}
use zephyr_siot.Timeconv.{Civil, civil_from_days, yoe_of, doy_of, mp_of}
use zephyr_siot.Timeconv.Bounds.{yoe-lt, doy-le, mp-le, day-le}

unfoldable pub is_leap : ℕ → Bool
is_leap y = y % 4 == 0 && (not (y % 100 == 0) || y % 400 == 0)

unfoldable pub month_len : ℕ → ℕ → ℕ
unfolding is_leap
month_len y m =
    if m == 2
    then (if is_leap y then 29 else 28)
    else if m == 4 || m == 6 || m == 9 || m == 11
    then 30
    else 31

-- The next day of a date in a year that is not negative.
unfoldable pub next_day : ℕ → ℕ → ℕ → ℕ × ℕ × ℕ
unfolding month_len
next_day y m d =
    if ltb d (month_len y m)
    then (y, m, d + 1)
    else if ltb m 12
    then (y, m + 1, 1)
    else (y + 1, 1, 1)

-- A day further in an era is a day further in its year, or the first day of the next one.
doe-suc :
    (doe : ℕ)
    → doe < 146096
    → (yoe_of (doe + 1) ≡ yoe_of doe
        × doy_of (doe + 1) ≡ doy_of doe + 1
        × doy_of doe < 365
        × (doy_of doe ≡ 364 → is_leap (yoe_of doe + 1) ≡ true))
      ⊎ (yoe_of (doe + 1) ≡ yoe_of doe + 1
          × doy_of (doe + 1) ≡ 0
          × (doy_of doe ≡ 365 ⊎ doy_of doe ≡ 364 × is_leap (yoe_of doe + 1) ≡ false))
unfolding yoe_of doy_of is_leap
doe-suc doe h = ground arith

is_leap-era : (y era : ℕ) → is_leap (y + era * 400) ≡ is_leap y
unfolding is_leap
is_leap-era y era = ground arith

-- The month, the day and the carry of the year for a day of the year that starts in March.
unfoldable pub month_of : ℕ → ℕ
unfolding mp_of
month_of doy = if ltb (mp_of doy) 10 then mp_of doy + 3 else mp_of doy - 9

unfoldable pub day_of : ℕ → ℕ
unfolding mp_of
day_of doy = doy - (153 * mp_of doy + 2) / 5 + 1

march_date : ℕ → ℕ → ℕ × ℕ × ℕ
unfolding month_of day_of
march_date y doy = (y + (if leb (month_of doy) 2 then 1 else 0), month_of doy, day_of doy)

march_date-suc :
    (y doy : ℕ)
    → doy < 365
    → (doy ≡ 364 → is_leap (y + 1) ≡ true)
    → march_date y (doy + 1)
      ≡ next_day (y + (if leb (month_of doy) 2 then 1 else 0)) (month_of doy) (day_of doy)
unfolding march_date month_of day_of next_day month_len mp_of
march_date-suc y doy h k = ground arith

march_date-year :
    (y doy : ℕ)
    → (doy ≡ 365 ⊎ doy ≡ 364 × is_leap (y + 1) ≡ false)
    → march_date (y + 1) 0
      ≡ next_day (y + (if leb (month_of doy) 2 then 1 else 0)) (month_of doy) (day_of doy)
unfolding march_date month_of day_of next_day month_len mp_of
march_date-year y doy h = ground arith

-- The date of a day count from 0000-03-01.
civil_of : ℕ → ℕ × ℕ × ℕ
unfolding march_date
civil_of z =
    let doe = z - z / 146097 * 146097 in march_date (yoe_of doe + z / 146097 * 400) (doy_of doe)

civil_of-within :
    (era doe : ℕ)
    → doe < 146097
    → civil_of (era * 146097 + doe) ≡ march_date (yoe_of doe + era * 400) (doy_of doe)
unfolding civil_of
civil_of-within era doe h =
    let e : (era * 146097 + doe) / 146097 ≡ era = omega arith in
    let r : era * 146097 + doe - era * 146097 ≡ doe = omega arith in rw (e, r)

-- The three numbers as arguments of `next_day`.
after : ℕ × ℕ × ℕ → ℕ × ℕ × ℕ
after (y, m, d) = next_day y m d

within-next :
    (era doe : ℕ)
    → doe < 146096
    → march_date (yoe_of (doe + 1) + era * 400) (doy_of (doe + 1))
      ≡ after (march_date (yoe_of doe + era * 400) (doy_of doe))
unfolding after march_date
within-next era doe h =
    let y = yoe_of doe + era * 400 in
    let leap : is_leap (y + 1) ≡ is_leap (yoe_of doe + 1) =
      let e : y + 1 ≡ yoe_of doe + 1 + era * 400 = omega arith in
      rw (e, is_leap-era (yoe_of doe + 1) era) in
    elim (doe-suc doe h) [
      | inl (a, b, c, d) ↦ rw (a, b, march_date-suc y (doy_of doe) c (λ e. leap ∙ d e))
      | inr (a, b, c) ↦
          let e : yoe_of doe + 1 + era * 400 ≡ y + 1 = omega arith in
          rw (a, b, e, march_date-year y (doy_of doe) (last leap c))
    ]
  where
    last :
        {l : Bool}
        → is_leap (yoe_of doe + era * 400 + 1) ≡ l
        → (doy_of doe ≡ 365 ⊎ doy_of doe ≡ 364 × l ≡ false)
        → doy_of doe ≡ 365 ⊎ doy_of doe ≡ 364 × is_leap (yoe_of doe + era * 400 + 1) ≡ false
    last e (inl c) = inl c
    last e (inr (c, d)) = inr (c, e ∙ d)

-- The last day of an era is 29 February of a year that is divisible by 400.
last-next :
    (era : ℕ)
    → march_date (yoe_of 0 + (era + 1) * 400) (doy_of 0)
      ≡ after (march_date (yoe_of 146096 + era * 400) (doy_of 146096))
unfolding after march_date yoe_of doy_of
last-next era =
    let e : 0 + (era + 1) * 400 ≡ 399 + era * 400 + 1 = omega arith in
    rw e (march_date-year (399 + era * 400) 365 (inl refl))

civil_of-suc : (z : ℕ) → civil_of (z + 1) ≡ after (civil_of z)
civil_of-suc z =
    let era = z / 146097 in
    let doe = z % 146097 in
    let b : doe < 146097 = omega arith in
    let e : z ≡ era * 146097 + doe = omega arith in
    let here : civil_of z ≡ march_date (yoe_of doe + era * 400) (doy_of doe) =
      ap civil_of e ∙ civil_of-within era doe b in
    let cases : doe < 146096 ⊎ doe ≡ 146096 = omega arith in
    elim cases [
      | inl h ↦
          let e' : z + 1 ≡ era * 146097 + (doe + 1) = omega arith in
          ap civil_of e'
          ∙ civil_of-within era (doe + 1) (omega arith)
          ∙ within-next era doe h
          ∙ sym (ap after here)
      | inr h ↦
          let e' : z + 1 ≡ (era + 1) * 146097 + 0 = omega arith in
          ap civil_of e'
          ∙ civil_of-within (era + 1) 0 (omega arith)
          ∙ last-next era
          ∙ ap (λ doe. after (march_date (yoe_of doe + era * 400) (doy_of doe))) (sym h)
          ∙ sym (ap after here)
    ]

-- The date `n` days after 1970-01-01.
unfoldable pub date_after : ℕ → ℕ × ℕ × ℕ
date_after zero = (1970, 1, 1)
date_after (suc n) = let (y, m, d) = date_after n in next_day y m d

civil_of-date_after : (n : ℕ) → civil_of (n + 719468) ≡ date_after n
unfolding date_after after civil_of march_date yoe_of doy_of mp_of month_of day_of
civil_of-date_after zero = refl
civil_of-date_after (suc n) =
    let e : suc n + 719468 ≡ n + 719468 + 1 = omega arith in
    ap civil_of e ∙ civil_of-suc (n + 719468) ∙ ap after (civil_of-date_after n)

-- The first day whose year does not fit in an `int`, 2147483648-01-01.
abbrev pub days_end : ℕ
days_end = 784351576777

pub date_after-days_end : date_after days_end ≡ (2147483648, 1, 1)
unfolding civil_of march_date yoe_of doy_of mp_of month_of day_of
date_after-days_end = sym (civil_of-date_after days_end)

-- The date as the source holds it: the year is an `int`.
civil : ℕ × ℕ × ℕ → Civil
civil (y, m, d) = record { year = of_word (to_word (pos y)); month = m; day = d }

civil_from_days-civil_of : (n : ℕ) → civil_from_days (pos n) ≡ civil (civil_of (n + 719468))
unfolding civil civil_from_days civil_of march_date month_of day_of
civil_from_days-civil_of n =
    let era = (n + 719468) / 146097 in
    let yoe = yoe_of (n + 719468 - era * 146097) in
    let e : era * 400 + yoe ≡ yoe + era * 400 = omega arith in rw e

-- The date of a day whose year fits in an `int`.
pub civil_from_days-date_after :
    (n : ℕ)
    → let (y, m, d) = date_after n in
      y < 2 ^ 31 → civil_from_days (pos n) ≡ record { year = pos y; month = m; day = d }
unfolding civil
civil_from_days-date_after n h =
    let (y, m, d) = date_after n in
    civil_from_days-civil_of n
    ∙ ap civil (civil_of-date_after n)
    ∙ ap (λ z. record { year = z; month = m; day = d }) (of_word-to_word (pos y) h)

march_date-bounds :
    (y doy : ℕ)
    → doy ≤ 365
    → let (y', m, d) = march_date y doy in (y' ≤ y + 1) × (1 ≤ m) × (m ≤ 12) × (1 ≤ d) × (d ≤ 31)
unfolding march_date month_of day_of
march_date-bounds y doy h = let a = mp-le doy h in let b = day-le doy h in ground arith

-- The dates that a count of nanoseconds in 64 bits reaches.
pub date_after-bounds :
    (n : ℕ)
    → n ≤ 213503
    → let (y, m, d) = date_after n in (y < 10000) × (1 ≤ m) × (m ≤ 12) × (1 ≤ d) × (d ≤ 31)
unfolding civil_of
date_after-bounds n h =
    let z = n + 719468 in
    let doe = z - z / 146097 * 146097 in
    let lt : doe < 146097 = omega arith in
    let bounds = march_date-bounds (yoe_of doe + z / 146097 * 400) (doy_of doe) (doy-le doe lt) in
    let e = civil_of-date_after n in
    let ey = ap (λ r. r.0) e in
    let em = ap (λ r. r.1) e in
    let ed = ap (λ r. r.2) e in let y = yoe-lt doe lt in omega (arith, ey, em, ed, y, bounds)
