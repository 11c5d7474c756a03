-- ===== src/SiotString/Float.antt =====
-- `ftoa` and `atof` of lib/siot-string.c. The type `float` and its operations are a parameter: they
-- are the machine's. A `float` in memory is its 32-bit pattern.
pub mod Shape
use zephyr_siot.Base.{
  ℕ, zero, suc, ◌+◌, ◌-◌, ◌*◌, ◌/◌, ◌%◌, ◌^◌, ◌≡◌, refl, Bool, true, false, ◌&&◌, not, Option, none,
  some, List, [], ◌∷◌, ◌++◌, ltb, leb, ◌==◌, if◌then◌else◌, length, set, get_or, take,
}
use zephyr_siot.Base.Int.{ℤ, pos, negsuc, neg_ℕ, is_negative, to_word, of_word}
use zephyr_siot.CString.{Bytes, first}
use zephyr_siot.SiotString.{is_digit, is_zero, tail}

-- The operations of `float` that the code uses. `trunc` is the conversion to `int`.
pub record Floats : Type 1 where
  pub F : Type 0
  pub of_bits : ℕ → F
  pub to_bits : F → ℕ
  pub of_int : ℤ → F
  pub trunc : F → ℤ
  pub is_below_zero : F → Bool
  pub neg : F → F
  pub add : F → F → F
  pub sub : F → F → F
  pub mul : F → F → F
  pub div : F → F → F
  pub half : F
  pub ten : F
  pub tenth : F

-- `digit + '0'` stored in a `char`.
unfoldable pub int_char : ℤ → ℕ
int_char (pos d) = (d + b'0') % 256
int_char (negsuc d) = (b'0' + 256 - suc d % 256) % 256

-- The two loops that write the whole part: the digits are counted first, and then written from the
-- last one back to the first. A positive `int` has ten at most.
unfoldable pub whole_digits : ℕ → ℕ → Bytes → Bytes
whole_digits zero temp str = str
whole_digits (suc fuel) temp str =
    let next = whole_digits fuel (temp / 10) ((temp % 10 + b'0') ∷ str) in
    if temp == 0 then str else next

unfoldable pub whole_part : ℤ → Bytes
whole_part (pos n) = if n == 0 then b'0' ∷ [] else whole_digits 10 n []
whole_part (negsuc n) = []

-- `if (str[i - 1] == '.') i--`: the text cut at `i`, less a point at its end.
unfoldable pub drop_point : Bytes → Bytes
drop_point [] = []
drop_point (c ∷ []) = if c == b'.' then [] else c ∷ []
drop_point (c ∷ d ∷ s) = c ∷ drop_point (d ∷ s)

module _ (fl : Floats) where
  open fl use {F, of_int, trunc, is_below_zero, neg, add, sub, mul, div, half, ten, tenth}

  unfoldable pub rounding : ℕ → F → F
  rounding zero factor = factor
  rounding (suc j) factor = rounding j (div factor ten)

  -- The loop over the fraction: the text so far and `last_non_zero`.
  unfoldable pub fraction_loop : ℕ → F → Bytes → ℕ → Bytes × ℕ
  fraction_loop zero fraction str last = (str, last)
  fraction_loop (suc precision) fraction str last =
      let scaled = mul fraction ten in
      let digit = trunc scaled in
      let str' = str ++ int_char digit ∷ [] in
      fraction_loop precision (sub scaled (of_int digit)) str'
        (if is_zero digit then last else length str')

  -- The text that `ftoa` writes, with its terminator.
  unfoldable pub ftoa : F → ℕ → Bytes
  ftoa num precision =
      let sign = if is_below_zero num then b'-' ∷ [] else [] in
      let rounded = add (if is_below_zero num then neg num else num) (rounding precision half) in
      let whole = trunc rounded in
      let str = sign ++ whole_part whole in
      let point = str ++ b'.' ∷ [] in
      let (digits, last) =
        fraction_loop precision (sub rounded (of_int whole)) point (length point) in
      drop_point (if ltb 0 precision then take last digits else str) ++ 0 ∷ []

  -- The loop of `atof`.
  unfoldable pub atof_loop : Bytes → F → F → Bool → F
  atof_loop [] result fraction in_fraction = result
  atof_loop (c ∷ str) result fraction in_fraction =
      let digit = of_int (pos (c - b'0')) in
      let whole = atof_loop str (add (mul result ten) digit) fraction in_fraction in
      let part = atof_loop str (add result (mul digit fraction)) (mul fraction tenth) in_fraction in
      let point = atof_loop str result fraction true in
      if c == 0
      then result
      else if is_digit c
      then (if in_fraction then part else whole)
      else if c == b'.'
      then (if in_fraction then result else point)
      else result

  unfoldable pub atof : Bytes → F
  atof str =
      if first str == b'-'
      then mul (of_int (negsuc 0)) (atof_loop (tail str) (of_int (pos 0)) tenth false)
      else mul (of_int (pos 1)) (atof_loop str (of_int (pos 0)) tenth false)
