-- ===== src/SiotString/Digits.antt =====
-- The digit loops of `itoa` and `utoa64` against the digits of a number, last one first.
use mathlib.Core.List
use native.Mathlib.Nat.{pow-suc, mod-eq_of_lt}
use zephyr_siot.Base.{
  ℕ, zero, suc, ◌+◌, ◌-◌, ◌*◌, ◌/◌, ◌%◌, ◌^◌, ◌≤◌, ◌<◌, ◌≡◌, refl, some, [], ◌∷◌, ◌++◌, arith,
  length, append-nil, append_assoc, if◌then◌else◌, ◌==◌, true, false, Bool-cases, inl, inr,
}
use zephyr_siot.Base.Int.{pos}
use zephyr_siot.CString.{Bytes, first}
use zephyr_siot.CString.Laws.{IsText, IsText-append}
use zephyr_siot.SiotString.{digit_char, itoa_loop, utoa64_loop, is_digit, ato_loop, finish}
use zephyr_siot.SiotString.Reverse.{reverse_lem}

-- The characters of the digits of `n`, from the last; `fuel` is at least their number.
unfoldable pub lsd : ℕ → ℕ → ℕ → Bytes
lsd zero n base = []
lsd (suc fuel) n base =
    let higher = lsd fuel (n / base) base in
    if n == 0 then [] else digit_char (pos (n % base)) ∷ higher

div-lt_pow : (n base fuel : ℕ) → 2 ≤ base → n < 2 ^ suc fuel → n / base < 2 ^ fuel
div-lt_pow n base fuel h k = grind (arith, pow-suc 2 fuel)

pub utoa64_loop-lsd :
    (fuel n base : ℕ) (str : Bytes)
    → 2 ≤ base
    → n < 2 ^ fuel
    → utoa64_loop fuel n base str ≡ some (str ++ lsd fuel n base)
unfolding utoa64_loop lsd
utoa64_loop-lsd zero n base str h k = let e : n ≡ 0 = omega arith in rw (e, append-nil)
utoa64_loop-lsd (suc fuel) n base str h k = ground (
  arith,
  append-nil str,
  append_assoc str (digit_char (pos (n % base)) ∷ []) (lsd fuel (n / base) base),
  utoa64_loop-lsd fuel (n / base) base (str ++ digit_char (pos (n % base)) ∷ []) h
      (div-lt_pow n base fuel h k),
)

pub itoa_loop-pos :
    (fuel n base : ℕ) (str : Bytes) → itoa_loop fuel (pos n) base str ≡ utoa64_loop fuel n base str
unfolding itoa_loop utoa64_loop
itoa_loop-pos zero n base str = refl
itoa_loop-pos (suc fuel) n base str =
    ground (arith, itoa_loop-pos fuel (n / base) base (str ++ digit_char (pos (n % base)) ∷ []))

pub finish_lem : (str : Bytes) → finish str ≡ List.reverse str ++ 0 ∷ []
finish_lem str = reverse_lem str (0 ∷ [])

pub digit_char-dec : (r : ℕ) → r < 10 → digit_char (pos r) ≡ r + b'0'
unfolding digit_char
digit_char-dec r h = ground arith

-- Reading the last digit of `n` after the digits before it gives `n`.
step :
    (w n : ℕ) (ys : Bytes)
    → n < 2 ^ w
    → ato_loop w (digit_char (pos (n % 10)) ∷ ys) (n / 10) ≡ ato_loop w ys n
unfolding ato_loop
step w n ys h =
    let digit : digit_char (pos (n % 10)) ≡ n % 10 + b'0' = digit_char-dec (n % 10) (omega arith) in
    let sum : n / 10 * 10 + (n % 10 + b'0' - b'0') ≡ n = omega arith in
    rw (digit, sum, mod-eq_of_lt h) (ground arith)

pub ato_loop-lsd :
    (fuel w n : ℕ) (ys : Bytes)
    → n < 2 ^ fuel
    → n < 2 ^ w
    → ato_loop w (List.reverse (lsd fuel n 10) ++ ys) 0 ≡ ato_loop w ys n
unfolding lsd
ato_loop-lsd zero w n ys h k = let e : n ≡ 0 = omega arith in rw e
ato_loop-lsd (suc fuel) w n ys h k = elim (Bool-cases (n == 0)) [
  | inl e ↦ let e' : n ≡ 0 = ground arith in rw (e, e')
  | inr e ↦
      rw
        (
          e,
          List.reverse-cons,
          append_assoc,
          ato_loop-lsd fuel w (n / 10) (digit_char (pos (n % 10)) ∷ ys)
              (div-lt_pow n 10 fuel (omega arith) h) (omega arith),
        )
        (step w n ys k)
]

pub lsd-zero : (fuel : ℕ) → lsd fuel 0 10 ≡ []
unfolding lsd
lsd-zero zero = refl
lsd-zero (suc fuel) = refl

-- A positive number is printed with a digit in front.
pub first-lsd :
    (fuel n : ℕ) (ys : Bytes)
    → n < 2 ^ fuel
    → 0 < n
    → is_digit (first (List.reverse (lsd fuel n 10) ++ ys)) ≡ true
unfolding lsd
first-lsd zero n ys h k = absurd (omega arith)
first-lsd (suc fuel) n ys h k =
    let c = digit_char (pos (n % 10)) in
    let ne : (n == 0) ≡ false = ground arith in
    rw (ne, List.reverse-cons, append_assoc)
      (elim (Bool-cases (n / 10 == 0)) [
        | inl e ↦
            let e' : n / 10 ≡ 0 = ground arith in
            rw (e', lsd-zero fuel, digit_char-dec (n % 10) (omega arith))
              (unfold first is_digit in ground arith)
        | inr e ↦
            first-lsd fuel (n / 10) (c ∷ ys) (div-lt_pow n 10 fuel (omega arith) h) (ground arith)
      ])

-- A number below `10 ^ k` has at most `k` digits.
pub length-lsd : (fuel n k : ℕ) → n < 10 ^ k → length (lsd fuel n 10) ≤ k
unfolding lsd
length-lsd zero n k h = omega arith
length-lsd (suc fuel) n zero h = let e : n ≡ 0 = omega arith in rw e (omega arith)
length-lsd (suc fuel) n (suc k) h =
    ground (arith, length-lsd fuel (n / 10) k (omega (arith, pow-suc 10 k)))

pub IsText-lsd : (fuel n : ℕ) → IsText (lsd fuel n 10)
unfolding lsd
IsText-lsd zero n = tt
IsText-lsd (suc fuel) n = elim (Bool-cases (n == 0)) [
  | inl e ↦ rw e tt
  | inr e ↦ rw (e, digit_char-dec (n % 10) (omega arith)) (omega arith, IsText-lsd fuel (n / 10))
]

pub IsText-reverse : (s : Bytes) → IsText s → IsText (List.reverse s)
IsText-reverse [] h = h
IsText-reverse (c ∷ s) (hc, h) =
    rw List.reverse-cons (IsText-append (List.reverse s) _ (IsText-reverse s h) (hc, tt))
