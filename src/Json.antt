-- ===== src/Json.antt =====
-- The escaping of data values in lib/point.c, and its inverse. The bytes written to `dst` are a list:
-- its length is `di`, the value that the functions return, and the terminator follows it.
pub mod Escape
pub mod Unescape
pub mod PointJs
use zephyr_siot.Base.{
  ℕ, zero, suc, ◌+◌, ◌≡◌, refl, Bool, true, false, ◌||◌, List, [], ◌∷◌, ◌++◌, leb, ◌==◌,
  if◌then◌else◌, length,
}
use zephyr_siot.CString.{Bytes}

abbrev pub quote : ℕ
quote = b'"'

abbrev pub backslash : ℕ
backslash = b'\\'

-- What a character of the value is written as; its length is `needed`.
unfoldable pub escape_char : ℕ → Bytes
escape_char c = if c == quote || c == backslash then backslash ∷ c ∷ [] else c ∷ []

-- The loop of `json_escape_string`, with `left` of the `src_len` bytes to go.
unfoldable pub escape_loop : Bytes → ℕ → ℕ → Bytes → Bytes
escape_loop [] left dst_len out = out
escape_loop (c ∷ src) zero dst_len out = out
escape_loop (c ∷ src) (suc left) dst_len out =
    if c == 0
    then out
    else if leb dst_len (length out + length (escape_char c))
    then out
    else escape_loop src left dst_len (out ++ escape_char c)

unfoldable pub json_escape_string : Bytes → ℕ → ℕ → Bytes
json_escape_string src src_len dst_len =
    if dst_len == 0 then [] else escape_loop src src_len dst_len []

-- The `switch` on the character behind a backslash `c`.
unfoldable pub decode_escape : ℕ → ℕ → ℕ
decode_escape c next =
    if next == quote || next == backslash || next == b'/'
    then next
    else if next == b'b'
    then 8
    else if next == b'f'
    then 12
    else if next == b'n'
    then 10
    else if next == b'r'
    then 13
    else if next == b't'
    then 9
    else c

-- The loop of `json_unescape_string`. Behind a backslash with `si + 1 < src_len` it looks at the next
-- character, and steps over it if what it decoded is not the backslash itself.
unfoldable pub unescape_loop : Bytes → ℕ → ℕ → Bytes → Bytes
unescape_loop [] left dst_len out = out
unescape_loop (c ∷ src) zero dst_len out = out
unescape_loop (c ∷ []) (suc left) dst_len out =
    if c == 0 then out else if leb dst_len (length out + 1) then out else out ++ c ∷ []
unescape_loop (c ∷ next ∷ src) (suc zero) dst_len out =
    if c == 0 then out else if leb dst_len (length out + 1) then out else out ++ c ∷ []
unescape_loop (c ∷ next ∷ src) (suc (suc left)) dst_len out =
    let decoded = if c == backslash then decode_escape c next else c in
    let step = unescape_loop (next ∷ src) (suc left) dst_len (out ++ decoded ∷ []) in
    let skip = unescape_loop src left dst_len (out ++ decoded ∷ []) in
    if c == 0
    then out
    else if leb dst_len (length out + 1)
    then out
    else if decoded == c
    then step
    else skip

unfoldable pub json_unescape_string : Bytes → ℕ → ℕ → Bytes
json_unescape_string src src_len dst_len =
    if dst_len == 0 then [] else unescape_loop src src_len dst_len []
