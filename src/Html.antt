-- ===== src/Html.antt =====
-- lib/html.c: the decoding of form data. Memory is taken to be there when it is asked for, since the
-- code does not go on without it.
pub mod Laws
pub mod Form
use zephyr_siot.Base.{
  ℕ, zero, suc, ◌+◌, ◌-◌, ◌*◌, ◌%◌, ◌≡◌, Bool, true, false, ◌&&◌, ◌||◌, not, List, [], ◌∷◌, ◌++◌,
  leb, ◌==◌, if◌then◌else◌,
}
use zephyr_siot.CString.{Bytes, cstr}

-- `z_strdup(str)`: the text; the terminator behind it is the end of the list.
abbrev pub z_strdup : Bytes → Bytes
z_strdup str = cstr str

unfoldable pub isxdigit : ℕ → Bool
isxdigit c = (leb b'0' c && leb c b'9') || (leb b'A' c && leb c b'F') || (leb b'a' c && leb c b'f')

-- The value of a hexadecimal digit, as the two steps on `a` and on `b` compute it.
unfoldable pub hex_value : ℕ → ℕ
hex_value a =
    let upper = if leb b'a' a then a - 32 else a in
    if leb b'A' upper then upper - 55 else upper - b'0'

-- A character that does not start an escape.
unfoldable pub plain_char : ℕ → ℕ
plain_char c = if c == b'+' then b' ' else c

-- The text that is written to `dst`; its terminator follows. No byte of a C string past its
-- terminator is read, and no escape has a zero in it.
unfoldable pub url_decode : Bytes → Bytes
unfolding isxdigit hex_value plain_char
url_decode [] = []
url_decode (c ∷ []) = if c == 0 then [] else plain_char c ∷ []
url_decode (c ∷ a ∷ []) = if c == 0 then [] else plain_char c ∷ url_decode (a ∷ [])
url_decode (c ∷ a ∷ b ∷ src) =
    let escaped = (16 * hex_value a + hex_value b) % 256 ∷ url_decode src in
    let plain = plain_char c ∷ url_decode (a ∷ b ∷ src) in
    if c == 0 then [] else if c == b'%' && isxdigit a && isxdigit b then escaped else plain

-- The stretches of a C string between the delimiters, empty ones too.
unfoldable pub push : ℕ → List Bytes → List Bytes
push c [] = (c ∷ []) ∷ []
push c (t ∷ ts) = (c ∷ t) ∷ ts

unfoldable pub stretches : ℕ → Bytes → List Bytes
unfolding push
stretches delim [] = [] ∷ []
stretches delim (c ∷ s) =
    let later = stretches delim s in
    if c == 0 then [] ∷ [] else if c == delim then [] ∷ later else push c later

unfoldable pub nonempty : List Bytes → List Bytes
nonempty [] = []
nonempty ([] ∷ ts) = nonempty ts
nonempty ((c ∷ t) ∷ ts) = (c ∷ t) ∷ nonempty ts

-- What successive calls of `strtok_r` return for one text: the stretches that are not empty.
unfoldable pub tokens : ℕ → Bytes → List Bytes
unfolding stretches nonempty
tokens delim s = nonempty (stretches delim s)

-- One round of the loop: the key and the value, if there is a key, are what the callback gets.
unfoldable pub field_of : List Bytes → List (Bytes × Bytes)
unfolding url_decode
field_of [] = []
field_of (key ∷ []) = (key, url_decode []) ∷ []
field_of (key ∷ value ∷ ignored) = (key, url_decode value) ∷ []

unfoldable pub fields_loop : List Bytes → List (Bytes × Bytes)
unfolding tokens field_of
fields_loop [] = []
fields_loop (key_value ∷ later) = field_of (tokens b'=' key_value) ++ fields_loop later

-- The arguments of the callback, in the order of its calls.
unfoldable pub html_parse_form_data : Bytes → List (Bytes × Bytes)
unfolding fields_loop tokens
html_parse_form_data body = fields_loop (tokens b'&' (z_strdup body))
