-- ===== src/Json/Unescape/RoundTrip.antt =====
-- Which values come back from the escape and its inverse as they were.
use zephyr_siot.Base.{
  ℕ, zero, suc, ◌+◌, ◌*◌, ◌-◌, ◌≤◌, ◌<◌, ◌≡◌, ◌≢◌, ◌↔◌, refl, ap, ◌∙◌, Bool, true, false, [], ◌∷◌,
  ◌++◌, ◌==◌, if◌then◌else◌, length, take, arith, length-append, Bool-cases, inl, inr, replicate,
}
use zephyr_siot.CString.{Bytes, cstr}
use zephyr_siot.Json.{
  quote, backslash, decode_escape, escape_char, json_escape_string, json_unescape_string,
}
use zephyr_siot.Json.Escape.{value, escaped, json_escape_string-all, length-escape_char}
use zephyr_siot.Json.Unescape.{decoded, unescaped, json_unescape_string_lem}

abbrev slash : ℕ
slash = b'/'

-- Every backslash of the value has a slash behind it.
unfoldable pub survives : Bytes → Bool
survives [] = true
survives (c ∷ []) = if c == backslash then false else true
survives (c ∷ d ∷ s) =
    let escape = survives s in
    let plain = survives (d ∷ s) in
    if c == backslash then (if d == slash then escape else false) else plain

unescaped-plain :
    (c : ℕ) (s : Bytes) → (c == backslash) ≡ false → unescaped (c ∷ s) ≡ c ∷ unescaped s
unfolding unescaped decoded
unescaped-plain c [] h = refl
unescaped-plain c (d ∷ s) h = ground arith

unescaped_pair :
    (d : ℕ) (s : Bytes)
    → (d == backslash) ≡ false
    → decode_escape backslash d ≢ backslash
    → unescaped (backslash ∷ d ∷ s) ≡ decode_escape backslash d ∷ unescaped s
unfolding unescaped decoded
unescaped_pair d s h k = ground arith

unescaped-backslash :
    (s : Bytes) → unescaped (backslash ∷ backslash ∷ s) ≡ backslash ∷ unescaped (backslash ∷ s)
unfolding unescaped decoded decode_escape
unescaped-backslash s = refl

-- A value after the way through JSON, and one that a backslash stands before.
abbrev back : Bytes → Bytes
back s = unescaped (escaped s)

abbrev behind : Bytes → Bytes
behind s = unescaped (backslash ∷ escaped s)

back-backslash : (s : Bytes) → back (backslash ∷ s) ≡ backslash ∷ behind s
unfolding escaped escape_char
back-backslash s = unescaped-backslash (escaped s)

back-plain : (c : ℕ) (s : Bytes) → (c == backslash) ≡ false → back (c ∷ s) ≡ c ∷ back s
unfolding escaped escape_char decode_escape
back-plain c s h = elim (Bool-cases (c == quote)) [
  | inl e ↦ let q : c ≡ quote = ground arith in rw q (unescaped_pair quote (escaped s) refl (cc))
  | inr e ↦ rw (e, h) (unescaped-plain c (escaped s) h)
]

behind-backslash : (s : Bytes) → behind (backslash ∷ s) ≡ backslash ∷ backslash ∷ behind s
unfolding escaped escape_char
behind-backslash s = unescaped-backslash _ ∙ ap (λ t. backslash ∷ t) (unescaped-backslash _)

behind-slash : (s : Bytes) → behind (slash ∷ s) ≡ slash ∷ back s
unfolding escaped escape_char decode_escape
behind-slash s = unescaped_pair slash (escaped s) refl (cc)

decode_escape-ne :
    (d : ℕ)
    → (d == backslash) ≡ false
    → (d == slash) ≡ false
    → (d == quote) ≡ false
    → decode_escape backslash d ≢ d
unfolding decode_escape
decode_escape-ne d h k q = ground arith

head_changes :
    (d : ℕ) (t s : Bytes)
    → (d == backslash) ≡ false
    → (d == slash) ≡ false
    → (d == quote) ≡ false
    → unescaped (backslash ∷ d ∷ t) ≢ d ∷ s
unfolding unescaped decoded
head_changes d t s h k q e = ground (arith, decode_escape-ne d h k q)

tail_eq : {a b : ℕ} {s t : Bytes} → a ∷ s ≡ b ∷ t → s ≡ t
tail_eq e = cc

two_more :
    (n : ℕ) (t : Bytes)
    → replicate (suc (suc n)) backslash ++ t ≡ replicate n backslash ++ backslash ∷ backslash ∷ t
two_more zero t = refl
two_more (suc n) t = ap (λ r. backslash ∷ r) (two_more n t)

longer :
    (k : ℕ) (s : Bytes)
    → replicate k backslash ++ backslash ∷ backslash ∷ behind s ≡ s
    → replicate (suc (suc k)) backslash ++ behind s ≡ s
longer k s e = two_more k (behind s) ∙ e

-- The character behind a backslash changes, unless it is a slash.
behind-other :
    (d : ℕ) (s : Bytes) → (d == backslash) ≡ false → (d == slash) ≡ false → behind (d ∷ s) ≢ d ∷ s
unfolding escaped escape_char
behind-other d s h k e = elim (Bool-cases (d == quote)) [
  | inl q ↦
      let q' : d ≡ quote = ground arith in
      ground (arith, rw q' at e, unescaped-backslash (quote ∷ escaped s))
  | inr q ↦ head_changes d (escaped s) s h k q (rw (q, h) at e)
]

-- Backslashes before a value that a backslash stands before are too many.
too_many : (k : ℕ) (s : Bytes) → replicate (suc k) backslash ++ behind s ≢ s
too_many k [] e = cc
too_many k (d ∷ s) e = elim (Bool-cases (d == backslash)) [
  | inl b ↦
      let b' : d ≡ backslash = ground arith in
      too_many (suc k) s (longer k s (tail_eq (rw (b', behind-backslash s) at e)))
  | inr b ↦ ground (arith, e)
]

pub survives→back : (s : Bytes) → survives s ≡ true → back s ≡ s
unfolding survives
survives→back [] h = unfold unescaped escaped in refl
survives→back (c ∷ []) h =
    back-plain c [] (ground arith) ∙ ap (λ t. c ∷ t) (unfold unescaped escaped in refl)
survives→back (c ∷ d ∷ s) h = elim (Bool-cases (c == backslash)) [
  | inl b ↦
      let c' : c ≡ backslash = ground arith in
      let d' : d ≡ slash = ground arith in
      rw (c', d', back-backslash, behind-slash)
        (ap (λ t. backslash ∷ slash ∷ t) (survives→back s (ground arith)))
  | inr b ↦ back-plain c (d ∷ s) b ∙ ap (λ t. c ∷ t) (survives→back (d ∷ s) (ground arith))
]

nonempty : behind [] ≢ []
unfolding escaped unescaped
nonempty e = cc

behind→survives :
    (d : ℕ) (s : Bytes)
    → behind (d ∷ s) ≡ d ∷ s
    → (back s ≡ s → survives s ≡ true)
    → (if d == slash then survives s else false) ≡ true
behind→survives d s e ih = elim (Bool-cases (d == slash)) [
  | inl l ↦ let l' : d ≡ slash = ground arith in rw l (ih (tail_eq (rw (l', behind-slash) at e)))
  | inr l ↦ elim (Bool-cases (d == backslash)) [
    | inl b ↦
        let b' : d ≡ backslash = ground arith in
        absurd (too_many 0 s (tail_eq (rw (b', behind-backslash) at e)))
    | inr b ↦ absurd (behind-other d s b l e)
  ]
]

back→survives : (s : Bytes) → back s ≡ s → survives s ≡ true
unfolding survives
back→survives [] h = refl
back→survives (c ∷ []) h = elim (Bool-cases (c == backslash)) [
  | inl b ↦
      let c' : c ≡ backslash = ground arith in
      absurd (nonempty (tail_eq (rw (c', back-backslash) at h)))
  | inr b ↦ ground arith
]
back→survives (c ∷ d ∷ s) h = elim (Bool-cases (c == backslash)) [
  | inl b ↦
      let c' : c ≡ backslash = ground arith in
      rw b (behind→survives d s (tail_eq (rw (c', back-backslash) at h)) (λ e. back→survives s e))
  | inr b ↦ rw b (back→survives (d ∷ s) (tail_eq (rw (back-plain c (d ∷ s) b) at h)))
]

length-unescaped : (s : Bytes) → length (unescaped s) ≤ length s
unfolding unescaped
length-unescaped [] = omega arith
length-unescaped (c ∷ []) = omega arith
length-unescaped (c ∷ d ∷ s) = ground (arith, length-unescaped (d ∷ s), length-unescaped s)

length-escaped : (s : Bytes) → length (escaped s) ≤ 2 * length s
unfolding escaped
length-escaped [] = omega arith
length-escaped (c ∷ s) =
    omega (arith, length-append (escape_char c) (escaped s), length-escape_char c, length-escaped s)

pub take-le : (n : ℕ) (s : Bytes) → length s ≤ n → take n s ≡ s
take-le zero [] h = refl
take-le (suc n) [] h = refl
take-le zero (c ∷ s) h = absurd (omega arith)
take-le (suc n) (c ∷ s) h = ap (λ t. c ∷ t) (take-le n s (omega arith))

pub cstr-escaped : (v : Bytes) → cstr v ≡ v → cstr (escaped v) ≡ escaped v
unfolding cstr escaped escape_char
cstr-escaped [] h = refl
cstr-escaped (c ∷ v) h = ground (
  arith,
  cstr-escaped v (elim (Bool-cases (c == 0)) [
    | inl e ↦ absurd (ground (arith, h))
    | inr e ↦ tail_eq (rw e at h)
  ]),
)

-- A value with no terminator in it is read whole.
pub value-whole : (v : Bytes) (n : ℕ) → cstr v ≡ v → length v ≤ n → value v n ≡ v
value-whole v n h k = rw (take-le n v k) h

-- With buffers that hold the whole value, a value comes back from `json_escape_string` and
-- `json_unescape_string` unchanged exactly when each of its backslashes has a slash behind it: any
-- other backslash is changed on the way.
pub json_unescape-escape :
    (v : Bytes) (mid_len dst_len : ℕ)
    → cstr v ≡ v
    → 2 * length v < mid_len
    → 2 * length v + 2 < dst_len
    → let wire = json_escape_string v (length v) mid_len in
      (json_unescape_string wire (length wire) dst_len ≡ v) ↔ (survives v ≡ true)
json_unescape-escape v mid_len dst_len h k l = rw (wire, read) (back→survives v, survives→back v)
  where
    whole : value v (length v) ≡ v
    whole = value-whole v (length v) h (omega arith)

    wire : json_escape_string v (length v) mid_len ≡ escaped v
    wire = json_escape_string-all v (length v) mid_len (rw whole k) ∙ ap escaped whole

    read : json_unescape_string (escaped v) (length (escaped v)) dst_len ≡ back v
    read =
        (json_unescape_string_lem (escaped v) (length (escaped v)) dst_len (omega arith)).0
        ∙ (ap (λ t. take (dst_len - 1) (unescaped t))
              (value-whole (escaped v) _ (cstr-escaped v h) (omega arith))
            ∙ take-le (dst_len - 1) (back v)
                (omega (arith, length-unescaped (escaped v), length-escaped v)))
