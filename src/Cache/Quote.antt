-- ===== src/Cache/Quote.antt =====
-- `quote_field` of lib/point-cache.c: a value as one word of a shell line.
pub mod Laws
use zephyr_siot.Base.{
  ℕ, zero, suc, ◌+◌, ◌-◌, ◌≡◌, refl, Bool, true, false, ◌||◌, Option, none, some, List, [], ◌∷◌,
  ◌++◌, ltb, leb, ◌==◌, if◌then◌else◌, length,
}
use zephyr_siot.CString.{Bytes, first, cstr}

abbrev pub quote : ℕ
quote = b'"'

abbrev pub backslash : ℕ
backslash = b'\\'

-- The test of one character for quotes round the value.
unfoldable pub is_special : ℕ → Bool
is_special c =
    c == b' ' || c == quote || c == backslash || c == 9 || c == 13 || c == 10 || ltb c 0x20

unfoldable pub any_special : Bytes → Bool
unfolding is_special
any_special [] = false
any_special (c ∷ src) = if c == 0 then false else if is_special c then true else any_special src

unfoldable pub needs_quote : Bytes → Bool
unfolding any_special first
needs_quote src = if first src == 0 then true else any_special src

-- The copy of a value that needs no quotes. `none` is the result -1; `out` is what stands in `dst`.
unfoldable pub copy_bare : Bytes → ℕ → Bytes → Option Bytes
copy_bare [] dst_len out = some out
copy_bare (c ∷ src) dst_len out =
    let next = copy_bare src dst_len (out ++ c ∷ []) in
    if c == 0 then some out else if leb dst_len (length out + 1) then none else next

-- `esc`, or 0 for a character that is written as it is.
unfoldable pub escape_of : ℕ → ℕ
escape_of c =
    if c == quote
    then quote
    else if c == backslash
    then backslash
    else if c == 13
    then b'r'
    else if c == 10
    then b'n'
    else if c == 9
    then b't'
    else 0

unfoldable pub copy_quoted : Bytes → ℕ → Bytes → Option Bytes
copy_quoted [] dst_len out = some out
copy_quoted (c ∷ src) dst_len out =
    let esc = escape_of c in
    let escaped = copy_quoted src dst_len (out ++ backslash ∷ esc ∷ []) in
    let plain = copy_quoted src dst_len (out ++ c ∷ []) in
    if c == 0
    then some out
    else if ltb 0 esc
    then (if leb dst_len (length out + 2) then none else escaped)
    else (if leb dst_len (length out + 1) then none else plain)

-- `di + 2 > dst_len - 1`, where `dst_len` is not 0.
abbrev pub close_quote : ℕ → Option Bytes → Option Bytes
close_quote dst_len none = none
close_quote dst_len (some out) =
    if ltb (dst_len - 1) (length out + 2) then none else some (out ++ quote ∷ [])

-- The text in `dst`, whose length is the result, with the terminator behind it. For a bare value
-- the terminator is written without a test; the callers' buffers are not empty.
unfoldable pub quote_field : Bytes → ℕ → Option Bytes
quote_field src dst_len =
    if needs_quote src
    then (if leb dst_len 1
        then none
        else close_quote dst_len (copy_quoted src dst_len (quote ∷ [])))
    else copy_bare src dst_len []
