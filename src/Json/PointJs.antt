-- ===== src/Json/PointJs.antt =====
-- `struct point_js` of lib/point.c, the conversions between it and a point, and the encoders and
-- decoders. Zephyr's JSON library is a parameter; so are the operations of `float`.
pub mod RoundTrip
pub mod Sizes
pub mod Array
use zephyr_siot.Base.{
  ℕ, zero, suc, ◌+◌, ◌-◌, ◌*◌, ◌≡◌, refl, Bool, true, false, ◌&&◌, ◌||◌, not, Option, none, some,
  List, [], ◌∷◌, ◌++◌, ltb, leb, ◌==◌, if◌then◌else◌, length, set, get_or, take, drop, min,
  replicate,
}
use zephyr_siot.Base.Int.{ℤ, pos, negsuc, is_negative, to_word}
use zephyr_siot.CString.{Bytes, first, strnlen, strncpy, strncmp_eq, copy_str_field, write_at_start}
use zephyr_siot.Point.{
  type_size, key_size, data_size, Point, type_unknown, type_float, type_int, type_string, type_json,
  point_get_int, point_get_float, store32, is_empty, is_unknown,
}
use zephyr_siot.Point.Merge.{neg_enomem}
use zephyr_siot.SiotString.{itoa, atoi}
use zephyr_siot.SiotString.Float.{Floats, ftoa, atof}
use zephyr_siot.Json.{json_escape_string, json_unescape_string}

-- A null pointer is `none`; a token is the bytes that it spans.
pub record PointJs : Type 0 where
  pub t : Option Bytes
  pub k : Option Bytes
  pub dt : Option Bytes
  pub d : Bytes

-- "FLT", "INT", "STR" and "JSN".
abbrev pub flt_s : Bytes
flt_s = b'F' ∷ b'L' ∷ b'T' ∷ []

abbrev pub int_s : Bytes
int_s = b'I' ∷ b'N' ∷ b'T' ∷ []

abbrev pub str_s : Bytes
str_s = b'S' ∷ b'T' ∷ b'R' ∷ []

abbrev pub jsn_s : Bytes
jsn_s = b'J' ∷ b'S' ∷ b'N' ∷ []

-- `POINT_JSON_DATA_BUF_SIZE` and `POINT_JS_ARRAY_MAX`
abbrev pub json_data_buf_size : ℕ
json_data_buf_size = data_size * 2

abbrev pub js_array_max : ℕ
js_array_max = 47

-- What `itoa` leaves in a buffer; in base 10 it always ends.
abbrev pub write_text : Bytes → Option Bytes → Bytes
write_text buf none = buf
write_text buf (some s) = write_at_start buf s

-- The text in a buffer, as a token: `start` is the buffer and `length` is `strnlen(buf, buf_len)`.
abbrev pub token_of : Option Bytes → ℕ → Bytes
token_of none buf_len = []
token_of (some buf) buf_len = take (strnlen buf buf_len) buf

module _ (fl : Floats) where
  -- The buffer is `none` for a null pointer; `buf_len` is the size that the caller passes.
  unfoldable pub point_data_to_string : Point → Option Bytes → ℕ → Option Bytes × ℤ
  point_data_to_string p none buf_len = (none, negsuc 0)
  point_data_to_string p (some buf) buf_len =
      if buf_len == 0
      then (some buf, negsuc 0)
      else if p.data_type == type_float
      then (some (write_at_start buf (ftoa fl (fl.of_bits (point_get_float p)) 4)), pos 0)
      else if p.data_type == type_int
      then (some (write_text buf (itoa (point_get_int p) 10)), pos 0)
      else if p.data_type == type_string || p.data_type == type_json
      then (some (set (strncpy buf p.payload (buf_len - 1)) (buf_len - 1) 0), pos 0)
      else (some (set buf 0 0), negsuc 0)

  -- The token of a number: it is rendered into the buffer.
  abbrev pub number_token : Point → Bytes → ℕ → Bytes
  number_token p buf buf_len = token_of (point_data_to_string p (some buf) buf_len).0 buf_len

  unfoldable pub point_to_point_js : Point → Bytes → ℕ → PointJs
  point_to_point_js p buf buf_len =
      if p.data_type == type_float
      then record {
        t = some p.type;
        k = some p.key;
        dt = some flt_s;
        d = number_token p buf buf_len;
      }
      else if p.data_type == type_int
      then record {
        t = some p.type;
        k = some p.key;
        dt = some int_s;
        d = number_token p buf buf_len;
      }
      else if p.data_type == type_string
      then record {
        t = some p.type;
        k = some p.key;
        dt = some str_s;
        d = json_escape_string p.payload data_size buf_len;
      }
      else if p.data_type == type_json
      then record {
        t = some p.type;
        k = some p.key;
        dt = some jsn_s;
        d = json_escape_string p.payload data_size buf_len;
      }
      else record { t = some p.type; k = some p.key; dt = some str_s; d = [] }

  -- `char buf[30]` with the token copied in, cut to 29 bytes, and terminated.
  abbrev pub scan_buf : Bytes → Bytes
  scan_buf d = take (min (length d) 29) d ++ 0 ∷ []

  -- The four branches on the data type.
  unfoldable pub decode_data : Bytes → Bytes → Point → Point × ℤ
  decode_data dt d p =
      if strncmp_eq dt flt_s 3
      then (
        record p {
          data_type = type_float;
          payload = store32 p.payload (fl.to_bits (atof fl (scan_buf d)));
        },
        pos 0,
      )
      else if strncmp_eq dt int_s 3
      then (
        record p {
          data_type = type_int;
          payload = store32 p.payload (to_word (atoi (scan_buf d)));
        },
        pos 0,
      )
      else if strncmp_eq dt str_s 3
      then (
        record p {
          data_type = type_string;
          payload =
              write_at_start p.payload (json_unescape_string d (length d) data_size ++ 0 ∷ []);
        },
        pos 0,
      )
      else if strncmp_eq dt jsn_s 3
      then (
        record p {
          data_type = type_json;
          payload =
              write_at_start p.payload (json_unescape_string d (length d) data_size ++ 0 ∷ []);
        },
        pos 0,
      )
      else (record p { data_type = type_unknown; payload = set p.payload 0 0 }, negsuc 0)

  -- The strings of a point, then its data, if none of the three pointers is null.
  abbrev pub decode_named : Option Bytes → Option Bytes → Option Bytes → Bytes → Point → Point × ℤ
  decode_named (some t) (some k) (some dt) d p =
      decode_data dt d (record p {
        type = copy_str_field p.type t type_size;
        key = copy_str_field p.key k key_size;
      })
  decode_named _ _ _ d p = (p, negsuc 0)

  -- The point, a buffer that the caller owns, is filled in place.
  unfoldable pub point_js_to_point : PointJs → Point → Point × ℤ
  point_js_to_point js p = decode_named js.t js.k js.dt js.d (record p { time = 0 })
