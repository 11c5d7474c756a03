-- ===== src/Json/Escape.antt =====
-- What `json_escape_string` writes.
use zephyr_siot.Base.{
  ℕ, zero, suc, ◌+◌, ◌*◌, ◌≤◌, ◌<◌, ◌≡◌, refl, ap, ◌∙◌, sym, Bool, true, false, ◌||◌, [], ◌∷◌, ◌++◌,
  leb, ◌==◌, if◌then◌else◌, length, take, arith, append-nil, append_assoc, length-append,
  Bool-cases, inl, inr,
}
use zephyr_siot.CString.{Bytes, cstr}
use zephyr_siot.Json.{quote, backslash, escape_char, escape_loop, json_escape_string}

-- The escape of a whole value.
unfoldable pub escaped : Bytes → Bytes
escaped [] = []
escaped (c ∷ s) = escape_char c ++ escaped s

-- Reading a JSON string body: whether no quote closes it early and no escape is cut off at its end.
unfoldable pub is_string_body : Bytes → Bool
is_string_body [] = true
is_string_body (c ∷ []) = if c == quote || c == backslash then false else true
is_string_body (c ∷ d ∷ s) =
    let escape = is_string_body s in
    let plain = is_string_body (d ∷ s) in
    if c == quote then false else if c == backslash then escape else plain

escape_char-body : (c : ℕ) (s : Bytes) → is_string_body (escape_char c ++ s) ≡ is_string_body s
escape_char-body c [] = unfold escape_char is_string_body in ground arith
escape_char-body c (d ∷ s) = unfold escape_char is_string_body in ground arith

escaped-body : (s : Bytes) → is_string_body (escaped s) ≡ true
unfolding escaped
escaped-body [] = unfold is_string_body in refl
escaped-body (c ∷ s) = escape_char-body c (escaped s) ∙ escaped-body s

-- The value that `json_escape_string` reads: `src_len` bytes at most, up to a terminator.
abbrev pub value : Bytes → ℕ → Bytes
value src src_len = cstr (take src_len src)

-- How many characters of the value still fit when `used` bytes are written.
pub room : Bytes → ℕ → ℕ → ℕ
room [] dst_len used = 0
room (c ∷ s) dst_len used =
    if leb dst_len (used + length (escape_char c))
    then 0
    else suc (room s dst_len (used + length (escape_char c)))

escape_loop-escaped :
    (src : Bytes) (left dst_len : ℕ) (out : Bytes)
    → escape_loop src left dst_len out
      ≡ out ++ escaped (take (room (value src left) dst_len (length out)) (value src left))
unfolding escape_loop escaped room cstr
escape_loop-escaped [] zero dst_len out = sym (append-nil out)
escape_loop-escaped [] (suc left) dst_len out = sym (append-nil out)
escape_loop-escaped (c ∷ src) zero dst_len out = sym (append-nil out)
escape_loop-escaped (c ∷ src) (suc left) dst_len out = elim (Bool-cases (c == 0)) [
  | inl e ↦ rw (e) (sym (append-nil out))
  | inr e ↦ elim (Bool-cases (leb dst_len (length out + length (escape_char c)))) [
    | inl e' ↦ rw (e, e') (sym (append-nil out))
    | inr e' ↦ rw (
      e,
      e',
      escape_loop-escaped src left dst_len (out ++ escape_char c),
      length-append out (escape_char c),
      append_assoc,
    )
  ]
]

pub length-escape_char : (c : ℕ) → (1 ≤ length (escape_char c)) × (length (escape_char c) ≤ 2)
unfolding escape_char
length-escape_char c = ground arith

-- Enough room for the whole value.
room-all :
    (s : Bytes) (dst_len used : ℕ) → used + 2 * length s < dst_len → room s dst_len used ≡ length s
unfolding room
room-all [] dst_len used h = refl
room-all (c ∷ s) dst_len used h =
    ground (arith, length-escape_char c, room-all s dst_len (used + length (escape_char c)))

take-all : (s : Bytes) → take (length s) s ≡ s
take-all [] = refl
take-all (c ∷ s) = ap (λ t. c ∷ t) (take-all s)

room_fits :
    (s : Bytes) (dst_len used : ℕ)
    → used < dst_len
    → used + length (escaped (take (room s dst_len used) s)) < dst_len
unfolding room escaped
room_fits [] dst_len used h = omega arith
room_fits (c ∷ s) dst_len used h = ground (
  arith,
  length-append (escape_char c) (escaped (take (room s dst_len (used + length (escape_char c))) s)),
  room_fits s dst_len (used + length (escape_char c)),
)

written :
    (src : Bytes) (src_len dst_len : ℕ)
    → 0 < dst_len
    → json_escape_string src src_len dst_len
      ≡ escaped (take (room (value src src_len) dst_len 0) (value src src_len))
unfolding json_escape_string
written src src_len dst_len h =
    let e : (dst_len == 0) ≡ false = ground arith in
    rw e (escape_loop-escaped src src_len dst_len [])

-- For every source and every buffer, `json_escape_string` writes the escape of the first characters
-- of the value. It leaves room for the terminator, and what it wrote is a JSON string body: no quote
-- closes it early, and no escape is cut in two.
pub json_escape_string_lem :
    (src : Bytes) (src_len dst_len : ℕ)
    → 0 < dst_len
    → let out = json_escape_string src src_len dst_len in
      ((k : ℕ) × (out ≡ escaped (take k (value src src_len))))
      × (length out < dst_len)
      × (is_string_body out ≡ true)
json_escape_string_lem src src_len dst_len h =
    let v = value src src_len in
    let w = written src src_len dst_len h in
    (
      (room v dst_len 0, w),
      rw w (omega (arith, room_fits v dst_len 0 h)),
      rw w (escaped-body (take (room v dst_len 0) v)),
    )

-- A buffer of more than twice the length of the value gets the escape of the whole value.
pub json_escape_string-all :
    (src : Bytes) (src_len dst_len : ℕ)
    → 2 * length (value src src_len) < dst_len
    → json_escape_string src src_len dst_len ≡ escaped (value src src_len)
json_escape_string-all src src_len dst_len h =
    let v = value src src_len in
    written src src_len dst_len (omega arith)
    ∙ (ap (λ n. escaped (take n v)) (room-all v dst_len 0 (omega arith)) ∙ ap escaped (take-all v))
