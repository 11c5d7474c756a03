-- ===== src/SiotString/Float/Shape.antt =====
-- The form of the text that `ftoa` writes.
use zephyr_siot.Base.{
  ℕ, zero, suc, ◌+◌, ◌/◌, ◌%◌, ◌≤◌, ◌≡◌, refl, ◌⊎◌, inl, inr, [], ◌∷◌, ◌++◌, arith, ltb, ◌==◌,
  if◌then◌else◌, length, take, length-append, Bool-cases, length-take,
}
use zephyr_siot.Base.Int.{pos}
use zephyr_siot.CString.{Bytes}
use zephyr_siot.SiotString.Float.{
  Floats, int_char, whole_digits, whole_part, drop_point, rounding, fraction_loop, ftoa,
}

-- A digit, a minus sign or a point.
abbrev pub IsNumberChar : ℕ → Type 0
IsNumberChar c = ((b'0' ≤ c) × (c ≤ b'9')) ⊎ ((c ≡ b'-') ⊎ (c ≡ b'.'))

abbrev pub IsNumberText : Bytes → Type 0
IsNumberText [] = Unit
IsNumberText (c ∷ s) = IsNumberChar c × IsNumberText s

pub IsNumberText-append : (s t : Bytes) → IsNumberText s → IsNumberText t → IsNumberText (s ++ t)
IsNumberText-append [] t h k = k
IsNumberText-append (c ∷ s) t (hc, h) k = (hc, IsNumberText-append s t h k)

IsNumberText-take : (n : ℕ) (s : Bytes) → IsNumberText s → IsNumberText (take n s)
IsNumberText-take zero s h = tt
IsNumberText-take (suc n) [] h = tt
IsNumberText-take (suc n) (c ∷ s) (hc, h) = (hc, IsNumberText-take n s h)

drop_point_lem :
    (s : Bytes) → IsNumberText s → IsNumberText (drop_point s) × (length (drop_point s) ≤ length s)
unfolding drop_point
drop_point_lem [] h = (tt, omega arith)
drop_point_lem (c ∷ []) h = ground arith
drop_point_lem (c ∷ d ∷ s) (hc, h) = let (a, b) = drop_point_lem (d ∷ s) h in ((hc, a), omega arith)

whole_digits_lem :
    (fuel n : ℕ) (str : Bytes)
    → IsNumberText str
    → IsNumberText (whole_digits fuel n str)
      × (length (whole_digits fuel n str) ≤ fuel + length str)
unfolding whole_digits
whole_digits_lem zero n str h = (h, omega arith)
whole_digits_lem (suc fuel) n str h =
    let (a, b) = whole_digits_lem fuel (n / 10) ((n % 10 + b'0') ∷ str) (inl (omega arith), h) in
    elim (Bool-cases (n == 0)) [ inl e ↦ rw e (h, omega arith) | inr e ↦ rw e (a, omega arith) ]

whole_part_lem : (n : ℕ) → IsNumberText (whole_part (pos n)) × (length (whole_part (pos n)) ≤ 10)
unfolding whole_part
whole_part_lem n =
    let (a, b) = whole_digits_lem 10 n [] tt in
    elim (Bool-cases (n == 0)) [
      | inl e ↦ rw e ((inl (omega arith), tt), omega arith)
      | inr e ↦ rw e (a, omega arith)
    ]

int_char-digit : (d : ℕ) → d ≤ 9 → IsNumberChar (int_char (pos d))
unfolding int_char
int_char-digit d h = inl (omega arith)

-- What the code relies on of `float`: a fraction is a value from 0 up to, and without, 1. Times ten it
-- has a digit before the point, and without that digit it is a fraction again.
pub record Fractions (fl : Floats) : Type 1 where
  pub IsFraction : fl.F → Type 0
  pub digit :
      (f : fl.F)
      → IsFraction f
      → (d : ℕ) × (d ≤ 9)
        × (fl.trunc (fl.mul f fl.ten) ≡ pos d)
        × IsFraction (fl.sub (fl.mul f fl.ten) (fl.of_int (pos d)))

module _ (fl : Floats) (fr : Fractions fl) where
  open fl use {F, of_int, trunc, is_below_zero, neg, add, sub, half, mul, ten}
  open fr use {IsFraction, digit}

  fraction_loop_step :
      (precision d : ℕ) (f : F) (str : Bytes) (last : ℕ)
      → trunc (mul f ten) ≡ pos d
      → fraction_loop fl (suc precision) f str last
        ≡ fraction_loop fl precision
            (sub (mul f ten) (of_int (pos d)))
            (str ++ int_char (pos d) ∷ [])
            (if d == 0 then last else length (str ++ int_char (pos d) ∷ []))
  unfolding fraction_loop
  fraction_loop_step precision d f str last e = rw e

  fraction_loop_lem :
      (precision : ℕ) (f : F) (str : Bytes) (last : ℕ)
      → IsFraction f
      → IsNumberText str
      → let r = fraction_loop fl precision f str last in
        IsNumberText r.0 × (length r.0 ≡ length str + precision)
  fraction_loop_lem zero f str last h k = unfold fraction_loop in (k, omega arith)
  fraction_loop_lem (suc precision) f str last h k =
      let (d, small, is_d, later) = digit f h in
      let str' = str ++ int_char (pos d) ∷ [] in
      let (a, b) =
        fraction_loop_lem precision (sub (mul f ten) (of_int (pos d))) str'
          (if d == 0 then last else length str') later
          (IsNumberText-append str _ k (int_char-digit d small, tt)) in
      rw (fraction_loop_step precision d f str last is_d)
        (a, omega (arith, length-append str (int_char (pos d) ∷ [])))

  -- The number that `ftoa` splits: without its sign, and rounded.
  abbrev pub rounded : F → ℕ → F
  rounded num precision =
      add (if is_below_zero num then neg num else num) (rounding fl precision half)

  -- The sign and the whole part.
  abbrev head_text : F → ℕ → Bytes
  head_text num n = (if is_below_zero num then b'-' ∷ [] else []) ++ whole_part (pos n)

  head_lem : (num : F) (n : ℕ) → IsNumberText (head_text num n) × (length (head_text num n) ≤ 11)
  head_lem num n =
      let (a, b) = whole_part_lem n in
      elim (Bool-cases (is_below_zero num)) [
        | inl e ↦ rw e ((inr (inl refl), a), omega (arith, b))
        | inr e ↦ rw e (a, omega (arith, b))
      ]

  cut_lem :
      (precision last : ℕ) (digits str : Bytes)
      → IsNumberText digits
      → IsNumberText str
      → length digits ≤ 12 + precision
      → length str ≤ 11
      → let cut = if ltb 0 precision then take last digits else str in
        IsNumberText cut × (length cut ≤ 12 + precision)
  cut_lem precision last digits str d t dl tl = elim (Bool-cases (ltb 0 precision)) [
    | inl e ↦ rw e (IsNumberText-take last digits d, omega (arith, length-take last digits))
    | inr e ↦ rw e (t, omega arith)
  ]

  -- Where the whole part is an `int` and the rest is a fraction, `ftoa` writes digits, signs and
  -- points alone, and at most 12 bytes more than the digits asked for, then the terminator.
  pub ftoa_shape :
      (num : F) (precision n : ℕ)
      → trunc (rounded num precision) ≡ pos n
      → IsFraction (sub (rounded num precision) (of_int (pos n)))
      → (s : Bytes) × (ftoa fl num precision ≡ s ++ 0 ∷ [])
        × IsNumberText s
        × (length s ≤ 12 + precision)
  ftoa_shape num precision n e h =
      let str = head_text num n in
      let point = str ++ b'.' ∷ [] in
      let rest = sub (rounded num precision) (of_int (pos n)) in
      let (digits, last) = fraction_loop fl precision rest point (length point) in
      let cut = if ltb 0 precision then take last digits else str in
      let (t, tl) = head_lem num n in
      let (d, dl) =
        fraction_loop_lem precision rest point (length point) h
          (IsNumberText-append str _ t (inr (inr refl), tt)) in
      let (c, cl) =
        cut_lem precision last digits str d t (omega (arith, dl, tl, length-append str (b'.' ∷ [])))
          tl in
      let (f, shorter) = drop_point_lem cut c in
      (drop_point cut, unfold ftoa in rw e, f, omega (arith, shorter, cl))
