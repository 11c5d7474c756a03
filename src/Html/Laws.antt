-- ===== src/Html/Laws.antt =====
-- Form data that is encoded is decoded to the same fields.
use zephyr_siot.Base.{
  ℕ, ◌+◌, ◌/◌, ◌%◌, ◌≤◌, ◌<◌, ◌≡◌, ◌≢◌, refl, ap, ◌∙◌, Bool, true, false, ◌&&◌, ◌||◌, [], ◌∷◌, ◌++◌,
  leb, ltb, ◌==◌, if◌then◌else◌, length, arith, Bool-cases, inl, inr,
}
use zephyr_siot.CString.{Bytes, strlen}
use zephyr_siot.CString.Laws.{IsText, strlen-cons}
use zephyr_siot.Html.{isxdigit, hex_value, plain_char, url_decode}

nonzero : (c : ℕ) → (c == 0) ≡ false → c ≢ 0
nonzero c h z = ground (arith, h, z)

escape-nonzero : (c a b : ℕ) → (c == b'%' && isxdigit a && isxdigit b) ≡ true → (a ≢ 0) × (b ≢ 0)
unfolding isxdigit
escape-nonzero c a b h = ground arith

-- The decoded text is never longer than the source, so that it fits the memory taken for it.
pub length-url_decode : (src : Bytes) → length (url_decode src) ≤ strlen src
unfolding url_decode
length-url_decode [] = omega arith
length-url_decode (c ∷ []) = elim (Bool-cases (c == 0)) [
  | inl e ↦ rw e (omega arith)
  | inr e ↦ rw e (omega (arith, strlen-cons c [] (nonzero c e)))
]
length-url_decode (c ∷ a ∷ []) = elim (Bool-cases (c == 0)) [
  | inl e ↦ rw e (omega arith)
  | inr e ↦ rw e (omega (arith, strlen-cons c (a ∷ []) (nonzero c e), length-url_decode (a ∷ [])))
]
length-url_decode (c ∷ a ∷ b ∷ src) =
    let later = length-url_decode (a ∷ b ∷ src) in
    elim (Bool-cases (c == 0)) [
      | inl e ↦ rw e (omega arith)
      | inr e ↦
          let one = strlen-cons c (a ∷ b ∷ src) (nonzero c e) in
          elim (Bool-cases (c == b'%' && isxdigit a && isxdigit b)) [
            | inl h ↦
                let (ha, hb) = escape-nonzero c a b h in
                rw (e, h)
                  (omega (
                    arith,
                    one,
                    strlen-cons a (b ∷ src) ha,
                    strlen-cons b src hb,
                    length-url_decode src,
                  ))
            | inr h ↦ rw (e, h) (omega (arith, one, later))
          ]
    ]

-- A digit of a percent escape.
abbrev pub hex_char : ℕ → ℕ
hex_char d = if ltb 9 d then d + 55 else d + b'0'

-- A character that stands for itself: a letter, a digit, or one of `-`, `.`, `_` and `*`.
abbrev pub is_unreserved : ℕ → Bool
is_unreserved c =
    (leb b'a' c && leb c b'z')
    || (leb b'A' c && leb c b'Z')
    || (leb b'0' c && leb c b'9')
    || c == b'-'
    || c == b'.'
    || c == b'_'
    || c == b'*'

unfoldable pub encoded_char : ℕ → Bytes
encoded_char c =
    if is_unreserved c
    then c ∷ []
    else if c == b' '
    then b'+' ∷ []
    else b'%' ∷ hex_char (c / 16) ∷ hex_char (c % 16) ∷ []

-- The encoding of a form field, as a browser does it.
unfoldable pub url_encode : Bytes → Bytes
unfolding encoded_char
url_encode [] = []
url_encode (c ∷ v) = encoded_char c ++ url_encode v

abbrev pub IsBytes : Bytes → Type 0
IsBytes [] = Unit
IsBytes (c ∷ v) = (c < 256) × IsBytes v

isxdigit-hex_char : (d : ℕ) → d < 16 → isxdigit (hex_char d) ≡ true
unfolding isxdigit
isxdigit-hex_char d h = ground arith

hex_value-hex_char : (d : ℕ) → d < 16 → hex_value (hex_char d) ≡ d
unfolding hex_value
hex_value-hex_char d h = ground arith

url_decode-plain :
    (c : ℕ) (s : Bytes) → c ≢ 0 → c ≢ b'%' → url_decode (c ∷ s) ≡ plain_char c ∷ url_decode s
unfolding url_decode
url_decode-plain c [] h k = ground arith
url_decode-plain c (a ∷ []) h k = ground arith
url_decode-plain c (a ∷ b ∷ s) h k = ground arith

url_decode-escape :
    (c : ℕ) (s : Bytes)
    → c < 256
    → url_decode (b'%' ∷ hex_char (c / 16) ∷ hex_char (c % 16) ∷ s) ≡ c ∷ url_decode s
unfolding url_decode
url_decode-escape c s h =
    rw
      (
        isxdigit-hex_char (c / 16) (omega arith),
        isxdigit-hex_char (c % 16) (omega arith),
        hex_value-hex_char (c / 16) (omega arith),
        hex_value-hex_char (c % 16) (omega arith),
      )
      (ap (λ d. d ∷ url_decode s) (omega arith))

-- A value of bytes other than zero is decoded from its encoding.
pub url_decode-url_encode : (v : Bytes) → IsText v → IsBytes v → url_decode (url_encode v) ≡ v
unfolding url_encode encoded_char
url_decode-url_encode [] t b = unfold url_decode in refl
url_decode-url_encode (c ∷ v) (nz, t) (lt, b) =
    let later = url_decode-url_encode v t b in
    elim (Bool-cases (is_unreserved c)) [
      | inl e ↦
          let (percent, same) = unreserved c e in
          rw e (
            url_decode-plain c (url_encode v) nz percent
            ∙ ap (λ d. d ∷ url_decode (url_encode v)) same
            ∙ ap (λ w. c ∷ w) later)
      | inr e ↦ elim (Bool-cases (c == b' ')) [
        | inl s ↦
            rw (e, s)
              (url_decode-plain b'+' (url_encode v) (omega arith) (omega arith)
                ∙ ap (λ d. d ∷ url_decode (url_encode v)) (space c s)
                ∙ ap (λ w. c ∷ w) later)
        | inr s ↦ rw (e, s) (url_decode-escape c (url_encode v) lt ∙ ap (λ w. c ∷ w) later)
      ]
    ]
  where
    space : (c : ℕ) → (c == b' ') ≡ true → plain_char b'+' ≡ c
    space c h = unfold plain_char in ground arith

    unreserved : (c : ℕ) → is_unreserved c ≡ true → (c ≢ b'%') × (plain_char c ≡ c)
    unreserved c h = unfold plain_char in ground arith
