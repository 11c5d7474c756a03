-- ===== src/CString.antt =====
-- The C string functions that the library calls (strlen, strncpy, strncmp) over byte buffers, and
-- `copy_str_field` of lib/point.c. A buffer is the list of its bytes; the end of a list reads as
-- the terminator, so a C string may be given with or without it.
pub mod Laws
use zephyr_siot.Base.{
  ℕ, zero, suc, ◌+◌, ◌-◌, ◌≡◌, refl, Bool, true, false, ◌&&◌, List, [], ◌∷◌, ◌++◌, drop, ◌==◌,
  if◌then◌else◌, length, set,
}

abbrev pub Bytes : Type 0
Bytes = List ℕ

-- `s[0]`
unfoldable pub first : Bytes → ℕ
first [] = 0
first (c ∷ s) = c

-- Where the pointer of a C string stands one step on; it does not move past the terminator.
unfoldable pub rest : Bytes → Bytes
rest [] = []
rest (c ∷ s) = if c == 0 then [] else s

-- The bytes before the terminator.
unfoldable pub cstr : Bytes → Bytes
cstr [] = []
cstr (c ∷ s) = if c == 0 then [] else c ∷ cstr s

unfoldable pub strlen : Bytes → ℕ
unfolding cstr
strlen s = length (cstr s)

-- `strnlen(s, n)`
unfoldable pub strnlen : Bytes → ℕ → ℕ
strnlen s zero = 0
strnlen [] (suc n) = 0
strnlen (c ∷ s) (suc n) = if c == 0 then 0 else suc (strnlen s n)

-- `strncpy(dest, src, n)`: the bytes of `src`, then zeros, `n` in all.
unfoldable pub strncpy : Bytes → Bytes → ℕ → Bytes
unfolding first rest
strncpy dest src zero = dest
strncpy [] src (suc n) = []
strncpy (d ∷ dest) src (suc n) = first src ∷ strncpy dest (rest src) n

-- `strncmp(a, b, n) == 0`
unfoldable pub strncmp_eq : Bytes → Bytes → ℕ → Bool
unfolding first rest
strncmp_eq a b zero = true
strncmp_eq a b (suc n) =
    if first a == first b
    then (if first a == 0 then true else strncmp_eq (rest a) (rest b) n)
    else false

-- `copy_str_field(dest, src, dest_len)`; its callers pass a `dest_len` of at least 1.
unfoldable pub copy_str_field : Bytes → Bytes → ℕ → Bytes
unfolding strncpy
copy_str_field dest src dest_len = set (strncpy dest src (dest_len - 1)) (dest_len - 1) 0

-- A buffer after `s` was written at its start.
abbrev pub write_at_start : Bytes → Bytes → Bytes
write_at_start buf s = s ++ drop (length s) buf
