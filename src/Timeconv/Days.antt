-- ===== src/Timeconv/Days.antt =====
-- The days whose year fits in an `int`, and the order of their dates.
use native.Mathlib.Decide.{ℕ_discrete}
use zephyr_siot.Base.{
  ℕ, zero, suc, ◌^◌, ◌+◌, ◌*◌, ◌≤◌, ◌<◌, ◌≡◌, ap, ltb, arith, inl, inr, Bool-cases,
}
use zephyr_siot.Base.Int.{pos}
use zephyr_siot.Timeconv.{civil_from_days}
use zephyr_siot.Timeconv.Calendar.{
  month_len, next_day, date_after, civil_from_days-date_after, days_end, date_after-days_end,
}

-- A date of the calendar, from 1970 on.
abbrev pub IsDate : ℕ → ℕ → ℕ → Type 0
IsDate y m d = (1970 ≤ y) × (1 ≤ m) × (m ≤ 12) × (1 ≤ d) × (d ≤ month_len y m)

pub month_len-bounds : (y m : ℕ) → (28 ≤ month_len y m) × (month_len y m ≤ 31)
unfolding month_len
month_len-bounds y m = ground arith

next_day-IsDate : (y m d : ℕ) → IsDate y m d → let (y', m', d') = next_day y m d in IsDate y' m' d'
unfolding next_day
next_day-IsDate y m d h =
    ground (arith, h, month_len-bounds y m, month_len-bounds y (m + 1), month_len-bounds (y + 1) 1)

pub date_after-IsDate : (n : ℕ) → let (y, m, d) = date_after n in IsDate y m d
unfolding date_after
date_after-IsDate zero = unfold month_len in omega arith
date_after-IsDate (suc n) =
    let (y, m, d) = date_after n in next_day-IsDate y m d (date_after-IsDate n)

-- A number that grows with the date.
abbrev pub place : ℕ × ℕ × ℕ → ℕ
place (y, m, d) = y * 372 + m * 31 + d

next_day-place : (y m d : ℕ) → IsDate y m d → place (y, m, d) < place (next_day y m d)
unfolding next_day
next_day-place y m d h = ground (arith, h, month_len-bounds y m)

pub later_place : (a b : ℕ) → a < b → place (date_after a) < place (date_after b)
unfolding date_after
later_place a zero h = absurd (omega (arith, h))
later_place a (suc b) h =
    let (y, m, d) = date_after b in
    let step = next_day-place y m d (date_after-IsDate b) in
    elim (ℕ_discrete a b) [
      | yes e ↦ omega (arith, ap (λ n. place (date_after n)) e, step)
      | no ne ↦ omega (arith, later_place a b (omega (arith, h, ne)), step)
    ]

pub year-lt : (n : ℕ) → n < days_end → (date_after n).0 < 2 ^ 31
year-lt n h =
    omega (arith, later_place n days_end h, ap place date_after-days_end, date_after-IsDate n)

pub days-lt : (n : ℕ) → (date_after n).0 < 2 ^ 31 → n < days_end
days-lt n h = elim (Bool-cases (ltb n days_end)) [
  | inl e ↦ ground (arith, e)
  | inr e ↦ elim (ℕ_discrete n days_end) [
    | yes same ↦
        absurd
          (omega (arith, h, ap (λ k. (date_after k).0) same, ap (λ d. d.0) date_after-days_end))
    | no ne ↦ absurd (
        omega (
          arith,
          h,
          later_place days_end n (ground (arith, e, ne)),
          ap place date_after-days_end,
          date_after-IsDate n,
          month_len-bounds (date_after n).0 (date_after n).1,
        ))
  ]
]

-- As long as the year fits in an `int`, up to the end of the year 2147483647, `civil_from_days` gives the
-- date that the Gregorian calendar reaches when it is advanced by that many days, one at a time, from
-- 1970-01-01.
pub civil_from_days_lem :
    (n : ℕ)
    → n < days_end
    → let (y, m, d) = date_after n in
      civil_from_days (pos n) ≡ record { year = pos y; month = m; day = d }
civil_from_days_lem n h = civil_from_days-date_after n (year-lt n h)
