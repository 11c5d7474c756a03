-- ===== src/SiotString/Numeric.antt =====
-- The characters that `itoa` writes.
use mathlib.Core.List
use mathlib.Core.Path.{subst}
use native.Mathlib.Decide.{dec_lt}
use zephyr_siot.Base.{
  ℕ, zero, suc, ◌/◌, ◌-◌, ◌%◌, ◌^◌, ◌≤◌, ◌<◌, ◌≡◌, ◌≢◌, refl, ap, sym, ◌∙◌, some, [], ◌∷◌, ◌++◌,
  ◌==◌, arith, Bool-cases, inl, inr,
}
use zephyr_siot.Base.Int.{ℤ, pos, negsuc, IsInt}
use zephyr_siot.CString.{Bytes, cstr}
use zephyr_siot.CString.Laws.{IsText, cstr-IsText}
use zephyr_siot.SiotString.{itoa}
use zephyr_siot.SiotString.Digits.{lsd, digit_char-dec}
use zephyr_siot.SiotString.RoundTrip.{int_min, itoa-pos, itoa-negsuc}

-- Digits and a minus sign.
abbrev pub IsNumeric : Bytes → Type 0
IsNumeric [] = Unit
IsNumeric (c ∷ s) = ((45 ≤ c) × (c ≤ 57)) × IsNumeric s

IsNumeric-append : (s t : Bytes) → IsNumeric s → IsNumeric t → IsNumeric (s ++ t)
IsNumeric-append [] t h k = k
IsNumeric-append (c ∷ s) t (hc, h) k = (hc, IsNumeric-append s t h k)

IsNumeric-lsd : (fuel n : ℕ) → IsNumeric (lsd fuel n 10)
unfolding lsd
IsNumeric-lsd zero n = tt
IsNumeric-lsd (suc fuel) n = elim (Bool-cases (n == 0)) [
  | inl e ↦ rw e tt
  | inr e ↦ rw (e, digit_char-dec (n % 10) (omega arith)) (omega arith, IsNumeric-lsd fuel (n / 10))
]

IsNumeric-reverse : (s : Bytes) → IsNumeric s → IsNumeric (List.reverse s)
IsNumeric-reverse [] h = h
IsNumeric-reverse (c ∷ s) (hc, h) =
    rw List.reverse-cons (IsNumeric-append (List.reverse s) _ (IsNumeric-reverse s h) (hc, tt))

IsNumeric-IsText : (s : Bytes) → IsNumeric s → IsText s
IsNumeric-IsText [] h = tt
IsNumeric-IsText (c ∷ s) (hc, h) = (omega arith, IsNumeric-IsText s h)

above : (n : ℕ) → n < 2 ^ 31 → negsuc n ≢ int_min → suc n < 2 ^ 31
above n h ne = elim (dec_lt (suc n) (2 ^ 31)) [
  | yes lt ↦ lt
  | no ge ↦ let e : n ≡ 2 ^ 31 - 1 = omega arith in absurd (ne (ap negsuc e))
]

numeric :
    (v : ℤ) → IsInt v → v ≢ int_min → (s : Bytes) × (itoa v 10 ≡ some (s ++ 0 ∷ [])) × IsNumeric s
numeric (pos zero) h ne = (b'0' ∷ [], unfold itoa in refl, omega arith)
numeric (pos (suc n)) h ne = (
  List.reverse (lsd 32 (suc n) 10),
  itoa-pos (suc n) (omega arith) h,
  IsNumeric-reverse _ (IsNumeric-lsd 32 (suc n)),
)
numeric (negsuc n) h ne =
    let small : suc n < 2 ^ 31 = above n h ne in
    (
      b'-' ∷ List.reverse (lsd 32 (suc n) 10),
      itoa-negsuc n small,
      (omega arith, IsNumeric-reverse _ (IsNumeric-lsd 32 (suc n))),
    )

-- What `itoa` writes for an `int` but INT_MIN.
pub itoa-IsNumeric :
    (v : ℤ) (s : Bytes)
    → IsInt v
    → v ≢ int_min
    → IsText s
    → itoa v 10 ≡ some (s ++ 0 ∷ [])
    → IsNumeric s
itoa-IsNumeric v s h ne t e =
    let (s', e', n) = numeric v h ne in
    let whole : s' ++ 0 ∷ [] ≡ s ++ 0 ∷ [] = let both = sym e' ∙ e in cc in
    let same : s' ≡ s =
      sym (cstr-IsText s' [] (IsNumeric-IsText s' n)) ∙ ap cstr whole ∙ cstr-IsText s [] t in
    subst IsNumeric same n
