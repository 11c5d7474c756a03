-- ===== src/Timeconv/Bijection.antt =====
-- Each date from 1970 on is the date of one day.
use mathlib.Core.Path.{subst}
use mathlib.Core.Equiv.{IsContr}
use mathlib.Core.HLevel.{Σ_prop_path}
use native.Mathlib.Decide.{ℕ_discrete}
use zephyr_siot.Base.{
  true, ℕ, zero, suc, ◌^◌, ◌+◌, ◌-◌, ◌≤◌, ◌<◌, ◌≡◌, refl, ap, sym, ◌∙◌, ltb, arith, inl, inr,
  Bool-cases,
}
use zephyr_siot.Base.Int.{pos}
use zephyr_siot.Timeconv.{Civil, civil_from_days}
use zephyr_siot.Timeconv.Calendar.{month_len, next_day, date_after, days_end}
use zephyr_siot.Timeconv.Days.{
  IsDate, month_len-bounds, later_place, days-lt, civil_from_days_lem, place,
}

date_after_injective : (a b : ℕ) → date_after a ≡ date_after b → a ≡ b
date_after_injective a b e = elim (ℕ_discrete a b) [
  | yes same ↦ same
  | no ne ↦ elim (Bool-cases (ltb a b)) [
    | inl l ↦ absurd (omega (arith, later_place a b (ground (arith, l)), ap place e))
    | inr l ↦ absurd (omega (arith, later_place b a (ground (arith, l, ne)), ap place e))
  ]
]

-- A date that the days reach.
abbrev Reached : ℕ → ℕ → ℕ → Type 0
Reached y m d = (n : ℕ) × (date_after n ≡ (y, m, d))

next-Reached :
    (y m d y' m' d' : ℕ) → Reached y m d → next_day y m d ≡ (y', m', d') → Reached y' m' d'
unfolding date_after
next-Reached y m d y' m' d' (n, e) h = (suc n, ap (λ t. next_day t.0 t.1 t.2) e ∙ h)

day-Reached : (y m d : ℕ) → Reached y m 1 → suc d ≤ month_len y m → Reached y m (suc d)
day-Reached y m zero r h = r
day-Reached y m (suc d) r h =
    next-Reached y m (suc d) y m (suc (suc d)) (day-Reached y m d r (omega (arith, h)))
      (unfold next_day in ground (arith, h))

month_end : (y m : ℕ) → Reached y m 1 → Reached y m (month_len y m)
month_end y m r =
    let (long, _) = month_len-bounds y m in
    let whole : suc (month_len y m - 1) ≡ month_len y m = omega (arith, long) in
    subst (Reached y m) whole (day-Reached y m (month_len y m - 1) r (omega (arith, long)))

month-Reached : (y m : ℕ) → Reached y 1 1 → suc m ≤ 12 → Reached y (suc m) 1
month-Reached y zero r h = r
month-Reached y (suc m) r h =
    next-Reached y (suc m) (month_len y (suc m)) y (suc (suc m)) 1
      (month_end y (suc m) (month-Reached y m r (omega (arith, h))))
      (unfold next_day in ground (arith, h))

year-Reached : (k : ℕ) → Reached (k + 1970) 1 1
unfolding date_after
year-Reached zero = (0, refl)
year-Reached (suc k) =
    next-Reached (k + 1970) 12 (month_len (k + 1970) 12) (suc k + 1970) 1 1
      (month_end (k + 1970) 12 (month-Reached (k + 1970) 11 (year-Reached k) (omega arith)))
      (unfold next_day in ground arith)

IsDate-Reached : (y m d : ℕ) → IsDate y m d → Reached y m d
IsDate-Reached y zero d (a, b, c, e, h) = absurd (omega (arith, b))
IsDate-Reached y (suc m) zero (a, b, c, e, h) = absurd (omega (arith, e))
IsDate-Reached y (suc m) (suc d) (a, b, c, e, h) =
    let year : y - 1970 + 1970 ≡ y = omega (arith, a) in
    let first : Reached y 1 1 = subst (λ x. Reached x 1 1) year (year-Reached (y - 1970)) in
    day-Reached y (suc m) d (month-Reached y m first c) h

abbrev date : ℕ × ℕ × ℕ → Civil
date (y, m, d) = record { year = pos y; month = m; day = d }

date_injective : (s t : ℕ × ℕ × ℕ) → date s ≡ date t → s ≡ t
date_injective (y, m, d) (y', m', d') e =
    let years : pos y ≡ pos y' = ap (λ c. c.year) e in
    let a : y ≡ y' = ground (arith, years) in
    let b : m ≡ m' = ap (λ c. c.month) e in
    let c : d ≡ d' = ap (λ c. c.day) e in λ i. (a i, b i, c i)

-- Each date from 1970 to the end of the year 2147483647 is what `civil_from_days` gives for exactly one number
-- of days that is not negative and whose year fits in an `int`.
pub civil_from_days-IsContr :
    (y m d : ℕ)
    → IsDate y m d
    → y < 2 ^ 31
    → IsContr (
        (n : ℕ) × ((ltb n days_end ≡ true)
          × (civil_from_days (pos n) ≡ record { year = pos y; month = m; day = d })))
civil_from_days-IsContr y m d h hy =
    let (n, e) = IsDate-Reached y m d h in
    let fits : n < days_end = days-lt n (omega (arith, hy, ap (λ t. t.0) e)) in
    (
      (n, (ground (arith, fits), civil_from_days_lem n fits ∙ ap date e)),
      λ x.
          Σ_prop_path (λ k. (hlevel))
            (date_after_injective x.0 n (
              date_injective (date_after x.0) (y, m, d)
                (sym (civil_from_days_lem x.0 (ground (arith, x.1.0))) ∙ x.1.1)
              ∙ sym e)),
    )
