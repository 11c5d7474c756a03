-- ===== src/SiotString/RoundTrip.antt =====
-- Numbers printed by `itoa` and `utoa64` are read back by `atoi` and `atou64`.
use mathlib.Core.List
use native.Mathlib.Nat.{pow-suc}
use native.Mathlib.Decide.{dec_lt}
use zephyr_siot.Base.{
  ℕ, zero, suc, ◌-◌, ◌/◌, ◌^◌, ◌≤◌, ◌<◌, ◌≡◌, ◌≢◌, ◌↔◌, refl, ap, ◌∙◌, some, [], ◌∷◌, ◌++◌, arith,
  length, length-append, ◌==◌, ◌&&◌, true, false, Bool-cases, inl, inr,
}
use zephyr_siot.Base.Int.{ℤ, pos, negsuc, IsInt, neg_ℕ, abs, is_negative}
use zephyr_siot.CString.{Bytes, first}
use zephyr_siot.CString.Laws.{IsText}
use zephyr_siot.SiotString.{
  digit_char, itoa, itoa_loop, utoa64, is_digit, ato_loop, atoi, atou64, finish, reverse, is_zero,
  negate, quot, rem,
}
use zephyr_siot.SiotString.Digits.{
  lsd, utoa64_loop-lsd, itoa_loop-pos, finish_lem, ato_loop-lsd, first-lsd, length-lsd, IsText-lsd,
  IsText-reverse,
}
use zephyr_siot.SiotString.Reverse.{length-list_reverse}

-- `INT_MIN`
abbrev pub int_min : ℤ
int_min = negsuc (2 ^ 31 - 1)

-- What `itoa` writes in decimal for a positive number, and for a negative one above `INT_MIN`.
pub itoa-pos :
    (n : ℕ) → 0 < n → n < 2 ^ 31 → itoa (pos n) 10 ≡ some (List.reverse (lsd 32 n 10) ++ 0 ∷ [])
unfolding itoa
itoa-pos n h k =
    let ne : (n == 0) ≡ false = ground arith in
    rw (ne, itoa_loop-pos 32 n 10 [], utoa64_loop-lsd 32 n 10 [] (omega arith) (omega arith))
      (ap some (finish_lem (lsd 32 n 10)))

negate-negsuc : (n : ℕ) → suc n < 2 ^ 31 → negate (negsuc n) ≡ pos (suc n)
negate-negsuc n h = ground arith

pub itoa-negsuc :
    (n : ℕ)
    → suc n < 2 ^ 31
    → itoa (negsuc n) 10 ≡ some (b'-' ∷ List.reverse (lsd 32 (suc n) 10) ++ 0 ∷ [])
unfolding itoa
itoa-negsuc n h =
    rw
      (
        negate-negsuc n h,
        itoa_loop-pos 32 (suc n) 10 [],
        utoa64_loop-lsd 32 (suc n) 10 [] (omega arith) (omega arith),
      )
      (ap some (
        finish_lem (lsd 32 (suc n) 10 ++ b'-' ∷ [])
        ∙ ap (λ s. s ++ 0 ∷ []) (List.reverse-append (lsd 32 (suc n) 10) (b'-' ∷ []))))

first-digit : (s : Bytes) → is_digit (first s) ≡ true → (first s == b'-') ≡ false
unfolding is_digit
first-digit s h = ground arith

atoi-pos : (n : ℕ) → 0 < n → n < 2 ^ 31 → atoi (List.reverse (lsd 32 n 10) ++ 0 ∷ []) ≡ pos n
unfolding atoi
atoi-pos n h k =
    rw
      (
        first-digit _ (first-lsd 32 n (0 ∷ []) (omega arith) h),
        ato_loop-lsd 32 32 n (0 ∷ []) (omega arith) (omega arith),
      )
      (unfold ato_loop in ground arith)

atoi-negsuc :
    (n : ℕ) → suc n < 2 ^ 31 → atoi (b'-' ∷ List.reverse (lsd 32 (suc n) 10) ++ 0 ∷ []) ≡ negsuc n
unfolding atoi first
atoi-negsuc n h =
    rw (ato_loop-lsd 32 32 (suc n) (0 ∷ []) (omega arith) (omega arith))
      (unfold ato_loop in ground arith)

length-printed : (n : ℕ) → n < 10 ^ 10 → length (List.reverse (lsd 32 n 10)) ≤ 10
length-printed n h = omega (arith, length-list_reverse (lsd 32 n 10), length-lsd 32 n 10 h)

-- `-./,),(-*,(`, which `itoa` writes for `INT_MIN`.
abbrev int_min_text : Bytes
int_min_text = b'-' ∷ b'.' ∷ b'/' ∷ b',' ∷ b')' ∷ b',' ∷ b'(' ∷ b'-' ∷ b'*' ∷ b',' ∷ b'(' ∷ []

itoa-int_min : itoa int_min 10 ≡ some (int_min_text ++ 0 ∷ [])
unfolding itoa itoa_loop digit_char reverse
itoa-int_min = refl

atoi-int_min_text : atoi (int_min_text ++ 0 ∷ []) ≡ pos 0
unfolding atoi first ato_loop
atoi-int_min_text = refl

read_iff : {v : ℤ} (s : Bytes) → atoi s ≡ v → v ≢ int_min → (atoi s ≡ v) ↔ (v ≢ int_min)
read_iff s e n = (λ _. n, λ _. e)

-- In decimal `itoa` ends for every `int` and writes a text of at most 11 bytes and its terminator.
-- `atoi` reads the number back for every `int` but `INT_MIN`, and for that one it does not.
pub atoi-itoa :
    (v : ℤ)
    → IsInt v
    → (s : Bytes) × (itoa v 10 ≡ some (s ++ 0 ∷ []))
      × IsText s
      × (length s ≤ 11)
      × ((atoi (s ++ 0 ∷ []) ≡ v) ↔ (v ≢ int_min))
atoi-itoa (pos zero) h = (
  b'0' ∷ [],
  unfold itoa in refl,
  omega arith,
  omega arith,
  read_iff _ (unfold atoi first ato_loop in refl) (λ e. cc),
)
atoi-itoa (pos (suc n)) h = (
  List.reverse (lsd 32 (suc n) 10),
  itoa-pos (suc n) (omega arith) h,
  IsText-reverse _ (IsText-lsd 32 (suc n)),
  omega (arith, length-printed (suc n) (omega arith)),
  read_iff _ (atoi-pos (suc n) (omega arith) h) (λ e. cc),
)
atoi-itoa (negsuc n) h = elim (dec_lt (suc n) (2 ^ 31)) [
  | yes lt ↦ (
    b'-' ∷ List.reverse (lsd 32 (suc n) 10),
    itoa-negsuc n lt,
    (omega arith, IsText-reverse _ (IsText-lsd 32 (suc n))),
    omega (arith, length-printed (suc n) (omega arith)),
    read_iff _ (atoi-negsuc n lt) (λ e. absurd (ground (arith, e))),
  )
  | no ge ↦
      let e : n ≡ 2 ^ 31 - 1 = omega arith in
      (
        int_min_text,
        rw e itoa-int_min,
        omega arith,
        omega arith,
        (λ r. absurd (ground (arith, r, atoi-int_min_text)), λ ne. absurd (ne (ap negsuc e))),
      )
]

-- `utoa64` in decimal ends for every `uint64_t` and writes at most 21 bytes, and `atou64` reads the
-- number back.
pub atou64-utoa64 :
    (n : ℕ) → n < 2 ^ 64 → (s : Bytes) × (utoa64 n 10 ≡ some s) × (length s ≤ 21) × (atou64 s ≡ n)
atou64-utoa64 zero h =
    (b'0' ∷ 0 ∷ [], unfold utoa64 in refl, omega arith, unfold atou64 first ato_loop in refl)
atou64-utoa64 (suc n) h = (List.reverse (lsd 64 (suc n) 10) ++ 0 ∷ [], printed, fits, read_back)
  where
    printed : utoa64 (suc n) 10 ≡ some (List.reverse (lsd 64 (suc n) 10) ++ 0 ∷ [])
    printed =
        unfold utoa64 in
        let ne : (suc n == 0) ≡ false = ground arith in
        rw (ne, utoa64_loop-lsd 64 (suc n) 10 [] (omega arith) h)
          (ap some (finish_lem (lsd 64 (suc n) 10)))

    fits : length (List.reverse (lsd 64 (suc n) 10) ++ 0 ∷ []) ≤ 21
    fits = omega (
      arith,
      length-append (List.reverse (lsd 64 (suc n) 10)) (0 ∷ []),
      length-list_reverse (lsd 64 (suc n) 10),
      length-lsd 64 (suc n) 20 (omega arith),
    )

    read_back : atou64 (List.reverse (lsd 64 (suc n) 10) ++ 0 ∷ []) ≡ suc n
    read_back =
        unfold atou64 in
        rw
          (
            first-digit _ (first-lsd 64 (suc n) (0 ∷ []) h (omega arith)),
            ato_loop-lsd 64 64 (suc n) (0 ∷ []) h h,
          )
          (unfold ato_loop in refl)

div-lt : (n base fuel : ℕ) → 2 ≤ base → n < 2 ^ suc fuel → n / base < 2 ^ fuel
div-lt n base fuel h k = grind (arith, pow-suc 2 fuel)

abs-neg_ℕ : (n : ℕ) → abs (neg_ℕ n) ≡ n
abs-neg_ℕ n = ground arith

abs-quot : (v : ℤ) (base fuel : ℕ) → 2 ≤ base → abs v < 2 ^ suc fuel → abs (quot v base) < 2 ^ fuel
abs-quot (pos n) base fuel h k = div-lt n base fuel h k
abs-quot (negsuc n) base fuel h k = rw abs-neg_ℕ (div-lt (suc n) base fuel h k)

pub itoa_loop_total :
    (fuel base : ℕ) (v : ℤ) (str : Bytes)
    → 2 ≤ base
    → abs v < 2 ^ fuel
    → (s : Bytes) × (itoa_loop fuel v base str ≡ some s)
unfolding itoa_loop
itoa_loop_total zero base v str h k = (str, ground arith)
itoa_loop_total (suc fuel) base v str h k =
    let next =
      itoa_loop_total fuel base (quot v base) (str ++ digit_char (rem v base) ∷ []) h
        (abs-quot v base fuel h k) in
    elim (Bool-cases (is_zero v)) [ inl e ↦ (str, rw e) | inr e ↦ (next.0, rw e next.1) ]

abs_bound : (v : ℤ) → IsInt v → abs v < 2 ^ 32
abs_bound (pos n) h = omega arith
abs_bound (negsuc n) h = omega arith

abs-negate : (v : ℤ) → IsInt v → abs (negate v) < 2 ^ 32
abs-negate (pos n) h = ground arith
abs-negate (negsuc n) h = ground arith

-- `itoa` ends for every `int` in every base from 2 up, `INT_MIN` included.
pub itoa_total : (v : ℤ) (base : ℕ) → IsInt v → 2 ≤ base → (s : Bytes) × (itoa v base ≡ some s)
unfolding itoa
itoa_total v base h k =
    let plain = itoa_loop_total 32 base v [] k (abs_bound v h) in
    let negated = itoa_loop_total 32 base (negate v) [] k (abs-negate v h) in
    elim (Bool-cases (is_zero v)) [
      | inl e ↦ (b'0' ∷ 0 ∷ [], rw e)
      | inr e ↦ elim (Bool-cases (is_negative v && base == 10)) [
        | inl e' ↦ (finish (negated.0 ++ b'-' ∷ []), rw (e, e', negated.1))
        | inr e' ↦ (finish plain.0, rw (e, e', plain.1))
      ]
    ]
