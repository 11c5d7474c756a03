-- ===== src/Timeconv/Fraction.antt =====
-- The fraction at the end of a timestamp, as the parser of lib/timeconv.c reads it.
use zephyr_siot.Base.{
  ℕ, zero, suc, ◌+◌, ◌-◌, ◌*◌, ◌/◌, ◌^◌, ◌≤◌, ◌<◌, ◌≡◌, refl, ap, sym, ◌∙◌, true, false, Option,
  none, some, [], ◌∷◌, ◌++◌, ◌==◌, ltb, if◌then◌else◌, arith, take, drop, Bool-cases, inl, inr,
}
use native.Mathlib.Numerals.{unary_clauses}
use zephyr_siot.CString.{Bytes, cstr, strlen}
use zephyr_siot.SiotString.{is_digit}
use zephyr_siot.Timeconv.{nsec_loop, fraction_of, is_end}

-- The digits in front of a text, and what stands behind them.
unfoldable leading : Bytes → Bytes
leading [] = []
leading (c ∷ s) = let rest = leading s in if is_digit c then c ∷ rest else []

unfoldable behind : Bytes → Bytes
behind [] = []
behind (c ∷ s) = let rest = behind s in if is_digit c then rest else c ∷ s

-- Some characters are all digits.
abbrev pub AreDigits : Bytes → Type 0
AreDigits [] = Unit
AreDigits (c ∷ s) = (is_digit c ≡ true) × AreDigits s

-- The nanoseconds of a decimal fraction of a second: its first `n` digits, of which the first counts
-- `10 ^ (n - 1)`.
unfoldable pub nanoseconds : ℕ → Bytes → ℕ
nanoseconds zero s = 0
nanoseconds (suc n) [] = 0
nanoseconds (suc n) (c ∷ s) = (c - b'0') * 10 ^ n + nanoseconds n s

-- The weight of the next of `n` digits.
abbrev weight : ℕ → ℕ
weight zero = 0
weight (suc n) = 10 ^ n

weight-suc : (n : ℕ) → weight (suc n) / 10 ≡ weight n
weight-suc zero = refl
weight-suc (suc n) = simp unary_clauses (tenth (10 ^ n))
  where
    tenth : (k : ℕ) → k * 10 / 10 ≡ k
    tenth k = omega arith

0-lt-pow : (n : ℕ) → 0 < 10 ^ n
0-lt-pow zero = omega arith
0-lt-pow (suc n) = omega (arith, 0-lt-pow n)

leading-AreDigits : (s : Bytes) → AreDigits (leading s)
unfolding leading
leading-AreDigits [] = tt
leading-AreDigits (c ∷ s) = elim (Bool-cases (is_digit c)) [
  | inl e ↦ rw e (e, leading-AreDigits s)
  | inr e ↦ rw e tt
]

nsec_loop_lem :
    (n : ℕ) (s : Bytes) (nsec : ℕ)
    → nsec_loop s nsec (weight n) ≡ (nsec + nanoseconds n (leading s), behind s)
unfolding nsec_loop leading behind nanoseconds
nsec_loop_lem zero [] nsec = ap (λ x. (x, [])) (omega arith)
nsec_loop_lem (suc n) [] nsec = ap (λ x. (x, [])) (omega arith)
nsec_loop_lem zero (c ∷ s) nsec = elim (Bool-cases (is_digit c)) [
  | inl e ↦ rw e (nsec_loop_lem zero s nsec)
  | inr e ↦ rw e (ap (λ x. (x, c ∷ s)) (omega arith))
]
nsec_loop_lem (suc n) (c ∷ s) nsec = elim (Bool-cases (is_digit c)) [
  | inl e ↦
      let some_left : ltb 0 (10 ^ n) ≡ true = ground (arith, 0-lt-pow n) in
      rw (e, some_left, weight-suc n)
        (nsec_loop_lem n s (nsec + (c - b'0') * 10 ^ n) ∙ ap (λ x. (x, behind s)) (omega arith))
  | inr e ↦ rw e (ap (λ x. (x, c ∷ s)) (omega arith))
]

pub cstr-split : (n : ℕ) (s : Bytes) → n ≤ strlen s → cstr s ≡ take n s ++ cstr (drop n s)
unfolding strlen cstr
cstr-split zero s h = refl
cstr-split (suc n) [] h = refl
cstr-split (suc n) (c ∷ s) h = elim (Bool-cases (c == 0)) [
  | inl e ↦ let z : strlen (c ∷ s) ≡ 0 = rw e refl in absurd (omega (arith, z, h))
  | inr e ↦
      let z : strlen (c ∷ s) ≡ suc (strlen s) = rw e refl in
      rw e (ap (λ x. c ∷ x) (cstr-split n s (omega (arith, z, h))))
]

leading-behind : (s : Bytes) → cstr s ≡ leading s ++ cstr (behind s)
unfolding leading behind cstr is_digit
leading-behind [] = refl
leading-behind (c ∷ s) = elim (Bool-cases (is_digit c)) [
  | inl e ↦ let z : (c == 0) ≡ false = ground arith in rw (e, z, leading-behind s) refl
  | inr e ↦ rw e refl
]

is_end-cstr : (s : Bytes) → is_end s ≡ true → cstr s ≡ b'Z' ∷ []
unfolding cstr
is_end-cstr [] h = absurd cc
is_end-cstr (c ∷ []) h = let e : c ≡ 90 = ground arith in rw e refl
is_end-cstr (c ∷ d ∷ s) h =
    let e : c ≡ 90 = ground arith in let e' : d ≡ 0 = ground arith in rw (e, e') refl

cstr-dot : (s : Bytes) → cstr (b'.' ∷ s) ≡ b'.' ∷ cstr s
unfolding cstr
cstr-dot s = refl

-- The end of a timestamp: a "Z", with a fraction before it or without.
abbrev pub ending : Option Bytes → Bytes
ending none = b'Z' ∷ []
ending (some ds) = (b'.' ∷ ds) ++ b'Z' ∷ []

abbrev pub digits_in : Option Bytes → Bytes
digits_in none = []
digits_in (some ds) = ds

pub fraction_of_lem :
    (s : Bytes)
    → is_end (fraction_of s).1 ≡ true
    → (o : Option Bytes) × (AreDigits (digits_in o))
      × (cstr s ≡ ending o)
      × ((fraction_of s).0 ≡ nanoseconds 9 (digits_in o))
unfolding fraction_of nanoseconds
fraction_of_lem [] h = absurd cc
fraction_of_lem (c ∷ s) h = elim (Bool-cases (c == b'.')) [
  | inl e ↦
      let dot : c ≡ b'.' = ground arith in
      let read : fraction_of (c ∷ s) ≡ (nanoseconds 9 (leading s), behind s) =
        rw e (nsec_loop_lem 9 s 0 ∙ ap (λ n. (n, behind s)) (omega arith)) in
      let end : is_end (behind s) ≡ true = ap (λ r. is_end r.1) (sym read) ∙ h in
      (
        some (leading s),
        leading-AreDigits s,
        rw dot (
            cstr-dot s
            ∙ ap (λ x. b'.' ∷ x)
                (leading-behind s ∙ ap (λ x. leading s ++ x) (is_end-cstr (behind s) end))),
        ap (λ r. r.0) read,
      )
  | inr e ↦
      let read : fraction_of (c ∷ s) ≡ (0, c ∷ s) = rw e refl in
      (none, tt, is_end-cstr (c ∷ s) (ap (λ r. is_end r.1) (sym read) ∙ h), ap (λ r. r.0) read)
]
