-- ===== src/Point.antt =====
-- include/point.h and the accessors at the top of lib/point.c. A point's `char` fields are buffers
-- of 24, 23 and 20 bytes; `data` is `payload` here, since `data` is a reserved word.
pub mod Fields
pub mod Merge
pub mod Dump
use zephyr_siot.Base.{
  ℕ, zero, suc, ◌+◌, ◌*◌, ◌/◌, ◌%◌, ◌^◌, ◌≡◌, Bool, true, false, ◌||◌, List, [], ◌∷◌, ◌==◌, leb,
  if◌then◌else◌, length, set, get_or, replicate,
}
use zephyr_siot.Base.Int.{ℤ, pos, negsuc, to_word, of_word}
use zephyr_siot.CString.{Bytes, first, strnlen, copy_str_field}

abbrev pub type_size : ℕ
type_size = 24

abbrev pub key_size : ℕ
key_size = 23

abbrev pub data_size : ℕ
data_size = 20

pub record Point : Type 0 where
  pub time : ℕ
  pub type : Bytes
  pub key : Bytes
  pub data_type : ℕ
  pub payload : Bytes

-- The sizes that the C type fixes.
pub record IsPoint (p : Point) : Type 0 where
  pub type_len : length p.type ≡ type_size
  pub key_len : length p.key ≡ key_size
  pub data_len : length p.payload ≡ data_size

-- `point p = {}`
abbrev pub zero_point : Point
zero_point = record {
  time = 0;
  type = replicate type_size 0;
  key = replicate key_size 0;
  data_type = 0;
  payload = replicate data_size 0;
}

-- The constants `POINT_DATA_TYPE_…`.
abbrev pub type_unknown : ℕ
type_unknown = 0

abbrev pub type_float : ℕ
type_float = 1

abbrev pub type_int : ℕ
type_int = 2

abbrev pub type_string : ℕ
type_string = 3

abbrev pub type_json : ℕ
type_json = 4

abbrev pub type_end : ℕ
type_end = 5

unfoldable pub point_set_type : Point → Bytes → Point
point_set_type p t = record p { type = copy_str_field p.type t type_size }

unfoldable pub point_set_key : Point → Bytes → Point
point_set_key p k = record p { key = copy_str_field p.key k key_size }

unfoldable pub point_set_type_key : Point → Bytes → Bytes → Point
point_set_type_key p t k = record p {
  type = copy_str_field p.type t type_size;
  key = copy_str_field p.key k key_size;
}

-- A 32-bit store and load at the start of a buffer; the supported targets are little-endian.
unfoldable pub store32 : Bytes → ℕ → Bytes
store32 b w =
    set (set (set (set b 0 (w % 256)) 1 (w / 256 % 256)) 2 (w / 65536 % 256)) 3 (w / 16777216 % 256)

unfoldable pub load32 : Bytes → ℕ
load32 b = get_or b 0 0 + 256 * get_or b 1 0 + 65536 * get_or b 2 0 + 16777216 * get_or b 3 0

unfoldable pub point_get_int : Point → ℤ
unfolding load32
point_get_int p = of_word (load32 p.payload)

-- A `float` is its 32-bit pattern.
unfoldable pub point_get_float : Point → ℕ
unfolding load32
point_get_float p = load32 p.payload

-- `dest` is the caller's buffer, and the result is what it holds afterwards.
unfoldable pub point_get_string : Point → Bytes → ℤ → Bytes
point_get_string p dest (pos zero) = dest
point_get_string p dest (pos (suc n)) = copy_str_field dest p.payload (suc n)
point_get_string p dest (negsuc n) = dest

unfoldable pub point_put_int : Point → ℤ → Point
unfolding store32
point_put_int p v = record p { data_type = type_int; payload = store32 p.payload (to_word v) }

unfoldable pub point_put_float : Point → ℕ → Point
unfolding store32
point_put_float p v = record p { data_type = type_float; payload = store32 p.payload v }

unfoldable pub point_put_string : Point → Bytes → Point
point_put_string p v = record p {
  data_type = type_string;
  payload = copy_str_field p.payload v data_size;
}

unfoldable pub point_data_len : Point → ℕ
point_data_len p =
    if p.data_type == type_int || p.data_type == type_float
    then 4
    else if p.data_type == type_string
    then strnlen p.payload 19 + 1
    else 0

-- `p->type[0] == 0`, the test for a slot that holds no point.
unfoldable pub is_empty : Point → Bool
unfolding first
is_empty p = first p.type == 0

-- The test of `points_merge`, `points_json_encode` and `point_emit` for an unusable data type.
unfoldable pub is_unknown : Point → Bool
is_unknown p = p.data_type == type_unknown || leb type_end p.data_type
