-- ===== src/CString/Laws.antt =====
-- What the C string functions and `copy_str_field` guarantee.
use zephyr_siot.Base.{
  ℕ, zero, suc, ◌-◌, ◌≤◌, ◌<◌, ◌≡◌, refl, ap, ◌≢◌, ◌↔◌, true, false, [], ◌∷◌, arith, ◌==◌, length,
  set, take, drop, length-set, ◌∙◌, bytes_eq, bytes_eq→eq, bytes_eq_refl, ◌++◌, ◌+◌, Bool-cases,
  inl, inr,
}
use zephyr_siot.CString.{
  strlen, Bytes, first, rest, cstr, strnlen, strncpy, strncmp_eq, copy_str_field,
}

pub cstr-rest : (s : Bytes) → first s ≢ 0 → cstr s ≡ first s ∷ cstr (rest s)
unfolding cstr first rest
cstr-rest [] h = absurd (h refl)
cstr-rest (c ∷ s) h = ground arith

pub cstr-first : (s : Bytes) → first s ≡ 0 → cstr s ≡ []
unfolding cstr first
cstr-first [] h = refl
cstr-first (c ∷ s) h = ground arith

pub length-strncpy : (dest src : Bytes) (n : ℕ) → length (strncpy dest src n) ≡ length dest
unfolding strncpy
length-strncpy dest src zero = refl
length-strncpy [] src (suc n) = refl
length-strncpy (d ∷ dest) src (suc n) = ap suc (length-strncpy dest (rest src) n)

cstr-cons_copied :
    (src s : Bytes) (n : ℕ)
    → cstr s ≡ take n (cstr (rest src))
    → cstr (first src ∷ s) ≡ take (suc n) (cstr src)
unfolding cstr first rest
cstr-cons_copied [] s n h = refl
cstr-cons_copied (c ∷ src) s n h = ground arith

terminated :
    (n : ℕ) (dest src : Bytes)
    → n < length dest
    → cstr (set (strncpy dest src n) n 0) ≡ take n (cstr src)
unfolding strncpy
terminated zero [] src h = absurd (omega arith)
terminated zero (d ∷ dest) src h = unfold cstr in refl
terminated (suc n) [] src h = absurd (omega arith)
terminated (suc n) (d ∷ dest) src h =
    cstr-cons_copied src _ n (terminated n dest (rest src) (omega arith))

beyond :
    (n : ℕ) (dest src : Bytes) → drop (suc n) (set (strncpy dest src n) n 0) ≡ drop (suc n) dest
unfolding strncpy
beyond zero [] src = refl
beyond zero (d ∷ dest) src = refl
beyond (suc n) [] src = refl
beyond (suc n) (d ∷ dest) src = beyond n dest (rest src)

-- A field copy always leaves a C string: the source cut to `dest_len - 1` bytes. It keeps the size
-- of the buffer and touches no byte past `dest_len`, so the next field of the struct is safe.
pub copy_str_field_lem :
    (dest src : Bytes) (dest_len : ℕ)
    → 0 < dest_len
    → dest_len ≤ length dest
    → (cstr (copy_str_field dest src dest_len) ≡ take (dest_len - 1) (cstr src))
      × (length (copy_str_field dest src dest_len) ≡ length dest)
      × (drop dest_len (copy_str_field dest src dest_len) ≡ drop dest_len dest)
unfolding copy_str_field
copy_str_field_lem dest src zero h k = absurd (omega arith)
copy_str_field_lem dest src (suc n) h k =
    let e : suc n - 1 ≡ n = omega arith in
    rw e (
      terminated n dest src (omega arith),
      length-set _ n 0 ∙ length-strncpy dest src n,
      beyond n dest src,
    )

length-rest : (s : Bytes) (n : ℕ) → length s ≤ suc n → length (rest s) ≤ n
unfolding rest
length-rest [] n h = omega arith
length-rest (c ∷ s) n h = ground arith

length-zero : (s : Bytes) → length s ≤ 0 → s ≡ []
length-zero [] h = refl
length-zero (c ∷ s) h = absurd (omega arith)

pub strncmp_eq-bytes_eq :
    (a b : Bytes) (n : ℕ)
    → length a ≤ n
    → length b ≤ n
    → strncmp_eq a b n ≡ bytes_eq (cstr a) (cstr b)
unfolding strncmp_eq bytes_eq
strncmp_eq-bytes_eq a b zero h k = rw (length-zero a h, length-zero b k) (unfold cstr in refl)
strncmp_eq-bytes_eq a b (suc n) h k = ground (
  arith,
  cstr-first a,
  cstr-first b,
  cstr-rest a,
  cstr-rest b,
  length-rest a n h,
  length-rest b n k,
  strncmp_eq-bytes_eq (rest a) (rest b) n,
)

-- On two whole fields of at most `n` bytes, `strncmp` compares the C strings that they hold.
pub strncmp_eq_iff :
    (a b : Bytes) (n : ℕ)
    → length a ≤ n
    → length b ≤ n
    → (strncmp_eq a b n ≡ true) ↔ (cstr a ≡ cstr b)
strncmp_eq_iff a b n h k =
    rw (strncmp_eq-bytes_eq a b n h k)
      (bytes_eq→eq (cstr a) (cstr b), λ e. rw e (bytes_eq_refl (cstr b)))

-- No terminator among the bytes.
abbrev pub IsText : Bytes → Type 0
IsText [] = Unit
IsText (c ∷ s) = (c ≢ 0) × IsText s

pub IsText-append : (s t : Bytes) → IsText s → IsText t → IsText (s ++ t)
IsText-append [] t h k = k
IsText-append (c ∷ s) t (hc, h) k = (hc, IsText-append s t h k)

pub cstr-IsText : (s t : Bytes) → IsText s → cstr (s ++ 0 ∷ t) ≡ s
unfolding cstr
cstr-IsText [] t h = refl
cstr-IsText (c ∷ s) t (hc, h) = ground (arith, cstr-IsText s t h)

pub cstr-IsText_end : (s : Bytes) → IsText s → cstr s ≡ s
unfolding cstr
cstr-IsText_end [] h = refl
cstr-IsText_end (c ∷ s) (hc, h) = ground (arith, cstr-IsText_end s h)

-- A text with its terminator in a buffer of `n` bytes is found again by `strnlen`.
pub take-strnlen :
    (s t : Bytes) (n : ℕ) → IsText s → length s ≤ n → take (strnlen (s ++ 0 ∷ t) n) (s ++ 0 ∷ t) ≡ s
unfolding strnlen
take-strnlen [] t zero h k = refl
take-strnlen [] t (suc n) h k = refl
take-strnlen (c ∷ s) t zero h k = absurd (omega arith)
take-strnlen (c ∷ s) t (suc n) (hc, h) k =
    let ne : (c == 0) ≡ false = ground arith in
    rw ne (ap (λ r. c ∷ r) (take-strnlen s t n h (omega arith)))

-- What `cstr` cuts off is a text.
pub IsText-cstr : (s : Bytes) → IsText (cstr s)
unfolding cstr
IsText-cstr [] = tt
IsText-cstr (c ∷ s) = elim (Bool-cases (c == 0)) [
  | inl e ↦ rw e tt
  | inr e ↦ rw e ((λ z. ground (arith, z)), IsText-cstr s)
]

pub cstr-cstr : (s : Bytes) → cstr (cstr s) ≡ cstr s
cstr-cstr s = cstr-IsText_end (cstr s) (IsText-cstr s)

pub strlen-cons : (c : ℕ) (t : Bytes) → c ≢ 0 → strlen (c ∷ t) ≡ suc (strlen t)
unfolding strlen cstr
strlen-cons c t h = ground arith

pub strlen-append : (s t : Bytes) → IsText s → strlen (s ++ t) ≡ length s + strlen t
strlen-append [] t h = omega arith
strlen-append (c ∷ s) t (hc, h) =
    let e = strlen-append s t h in omega (arith, strlen-cons c (s ++ t) hc, e)

-- The C string functions see a string up to its terminator.
pub first-cstr : (s : Bytes) → first (cstr s) ≡ first s
unfolding first cstr
first-cstr [] = refl
first-cstr (c ∷ s) = ground arith

pub strncpy-cstr : (dest src : Bytes) (n : ℕ) → strncpy dest (cstr src) n ≡ strncpy dest src n
unfolding strncpy cstr rest first
strncpy-cstr dest src zero = refl
strncpy-cstr [] src (suc n) = refl
strncpy-cstr (d ∷ dest) [] (suc n) = refl
strncpy-cstr (d ∷ dest) (c ∷ src) (suc n) = elim (Bool-cases (c == 0)) [
  | inl e ↦ rw e (ap (λ x. x ∷ strncpy dest [] n) (ground (arith, e)))
  | inr e ↦ rw e (rw e (ap (λ t. c ∷ t) (strncpy-cstr dest src n)))
]

pub copy_str_field-cstr :
    (dest src : Bytes) (n : ℕ) → copy_str_field dest (cstr src) n ≡ copy_str_field dest src n
unfolding copy_str_field
copy_str_field-cstr dest src n = ap (λ d. set d (n - 1) 0) (strncpy-cstr dest src (n - 1))

pub strncmp_eq-cstr : (a b : Bytes) (n : ℕ) → strncmp_eq (cstr a) b n ≡ strncmp_eq a b n
unfolding strncmp_eq cstr rest first
strncmp_eq-cstr a b zero = refl
strncmp_eq-cstr [] b (suc n) = refl
strncmp_eq-cstr (c ∷ a) b (suc n) = elim (Bool-cases (c == 0)) [
  | inl e ↦ let z : c ≡ 0 = ground (arith, e) in rw z refl
  | inr e ↦ rw e (rw e (rw (strncmp_eq-cstr a (rest b) n) refl))
]

pub strnlen-IsText : (s : Bytes) (n : ℕ) → IsText (take (strnlen s n) s)
unfolding strnlen
strnlen-IsText [] zero = tt
strnlen-IsText [] (suc n) = tt
strnlen-IsText (c ∷ s) zero = tt
strnlen-IsText (c ∷ s) (suc n) = elim (Bool-cases (c == 0)) [
  | inl e ↦ rw e tt
  | inr e ↦ rw e ((λ z. ground (arith, e, z)), strnlen-IsText s n)
]
