-- ===== src/Tests/Strings.antt =====
-- Numbers as text.
use zephyr_siot.Base.{
  ℕ, ◌+◌, ◌-◌, ◌*◌, ◌/◌, ◌≤◌, ◌≡◌, ◌≢◌, ◌↔◌, refl, false, some, [], ◌∷◌, ◌++◌, length, arith,
}
use zephyr_siot.Base.Int.{ℤ, pos, negsuc}
use zephyr_siot.CString.{Bytes}
use zephyr_siot.CString.Laws.{IsText}
use zephyr_siot.SiotString.{digit_char, itoa_loop, reverse, itoa, atoi}
use zephyr_siot.SiotString.RoundTrip.{int_min, atoi-itoa}
use zephyr_siot.SiotString.Float.{
  Floats, rounding, ftoa, drop_point, fraction_loop, whole_part, whole_digits, int_char,
}

atoi-itoa_example :
    (s : Bytes) × (itoa (negsuc 41) 10 ≡ some (s ++ 0 ∷ []))
    × IsText s
    × (length s ≤ 11)
    × ((atoi (s ++ 0 ∷ []) ≡ negsuc 41) ↔ (negsuc 41 ≢ int_min))
atoi-itoa_example = atoi-itoa (negsuc 41) (omega arith)

minus_42 : itoa (negsuc 41) 10 ≡ some (b'-' ∷ b'4' ∷ b'2' ∷ 0 ∷ [])
unfolding itoa itoa_loop digit_char reverse
minus_42 = refl

-- Numbers with two decimals, from 0 up, in place of `float`.
abbrev pub hundredths_of : ℤ → ℕ
hundredths_of (pos n) = n * 100
hundredths_of (negsuc n) = 0

abbrev pub hundredths : Floats
hundredths = record {
  F = ℕ;
  of_bits = λ n. n;
  to_bits = λ n. n;
  of_int = hundredths_of;
  trunc = λ x. pos (x / 100);
  is_below_zero = λ x. false;
  neg = λ x. x;
  add = λ x y. x + y;
  sub = λ x y. x - y;
  mul = λ x y. x * y / 100;
  div = λ x y. x * 100 / y;
  half = 50;
  ten = 1000;
  tenth = 10;
}

rounded_up : ftoa hundredths 375 1 ≡ b'3' ∷ b'.' ∷ b'8' ∷ 0 ∷ []
unfolding ftoa drop_point fraction_loop rounding whole_part whole_digits int_char
rounded_up = refl
