-- ===== src/Json/PointJs/RoundTrip.antt =====
-- A point that is encoded and decoded again.
use zephyr_siot.Base.{
  ◌≤◌, ◌≡◌, ◌≢◌, refl, ap, ◌∙◌, sym, true, some, arith, append_assoc, [], ◌∷◌, ◌++◌, length, take,
  min, inl, inr, ◌⊎◌,
}
use zephyr_siot.Base.Int.{ℤ, pos, IsInt, to_word, of_word, of_word-to_word}
use zephyr_siot.CString.{write_at_start, Bytes, cstr, copy_str_field, strncmp_eq}
use zephyr_siot.CString.Laws.{
  IsText-cstr, cstr-cstr, copy_str_field_lem, IsText, cstr-IsText, take-strnlen,
}
use zephyr_siot.Point.{
  type_size, key_size, data_size, Point, IsPoint, type_int, type_string, type_json, point_get_int,
  store32,
}
use zephyr_siot.Point.Fields.{load32-store32, to_word-lt}
use zephyr_siot.SiotString.{itoa, atoi}
use zephyr_siot.SiotString.RoundTrip.{int_min, atoi-itoa}
use zephyr_siot.SiotString.Float.{Floats}
use zephyr_siot.Json.{json_escape_string, json_unescape_string}
use zephyr_siot.Json.Escape.{value, escaped, json_escape_string-all}
use zephyr_siot.Json.Unescape.{unescaped, json_unescape_string_lem}
use zephyr_siot.Json.Unescape.RoundTrip.{
  survives, survives→back, value-whole, cstr-escaped, take-le,
}
use zephyr_siot.Json.PointJs.{
  json_data_buf_size, write_text, point_data_to_string, number_token, point_to_point_js, scan_buf,
  decode_data, point_js_to_point,
}

-- The strings of a point end inside their fields, as the setters leave them.
pub record IsTerminated (p : Point) : Type 0 where
  pub type_ends : length (cstr p.type) ≤ 23
  pub key_ends : length (cstr p.key) ≤ 22
  pub data_ends : length (cstr p.payload) ≤ 19

-- What a decoded point has of the point that was encoded.
pub record SameName (p q : Point) : Type 0 where
  pub same_type : cstr q.type ≡ cstr p.type
  pub same_key : cstr q.key ≡ cstr p.key
  pub same_data_type : q.data_type ≡ p.data_type
  pub no_time : q.time ≡ 0

pub stored_int :
    (r : Point) (b : Bytes) (z v : ℤ)
    → r.payload ≡ store32 b (to_word z)
    → 4 ≤ length b
    → z ≡ v
    → IsInt v
    → point_get_int r ≡ v
unfolding point_get_int
stored_int r b z v e h k i =
    rw (e, k) (ap of_word (load32-store32 b _ h (to_word-lt v)) ∙ of_word-to_word v i)

-- The text of a point, escaped into the scratch buffer and unescaped into the data field.
through_json :
    (p : Point)
    → IsPoint p
    → IsTerminated p
    → survives (cstr p.payload) ≡ true
    → let d = json_escape_string p.payload data_size json_data_buf_size in
      json_unescape_string d (length d) data_size ≡ cstr p.payload
through_json p vp z s = rw (wire, read) (take-le 19 v z.data_ends)
  where
    v : Bytes
    v = cstr p.payload

    whole : value p.payload data_size ≡ v
    whole = ap cstr (take-le data_size p.payload (omega arith))

    wire : json_escape_string p.payload data_size json_data_buf_size ≡ escaped v
    wire =
        json_escape_string-all p.payload data_size json_data_buf_size
          (rw whole (omega (arith, z.data_ends)))
        ∙ ap escaped whole

    read : json_unescape_string (escaped v) (length (escaped v)) data_size ≡ take 19 v
    read =
        (json_unescape_string_lem (escaped v) (length (escaped v)) data_size (omega arith)).0
        ∙ ap (take 19) (
            ap unescaped
              (value-whole (escaped v) _ (cstr-escaped v (cstr-cstr p.payload)) (omega arith))
            ∙ survives→back v s)

module _ (fl : Floats) where
  -- The point that the decoder fills, once its names are set.
  abbrev named : Point → Point → Point
  named p q = record q {
    time = 0;
    type = copy_str_field q.type p.type type_size;
    key = copy_str_field q.key p.key key_size;
  }

  named_lem :
      (p q : Point)
      → IsPoint q
      → IsTerminated p
      → (cstr (named p q).type ≡ cstr p.type) × (cstr (named p q).key ≡ cstr p.key)
  named_lem p q v z =
      let (a, _, _) = copy_str_field_lem q.type p.type type_size (omega arith) (omega arith) in
      let (b, _, _) = copy_str_field_lem q.key p.key key_size (omega arith) (omega arith) in
      (a ∙ take-le 23 (cstr p.type) z.type_ends, b ∙ take-le 22 (cstr p.key) z.key_ends)

  rendered_int :
      (p : Point) (buf : Bytes)
      → p.data_type ≡ type_int
      → point_data_to_string fl p (some buf) json_data_buf_size
        ≡ (some (write_text buf (itoa (point_get_int p) 10)), pos 0)
  unfolding point_data_to_string
  rendered_int p buf e = simp e

  -- The text of an INT point as a token.
  number_token-int :
      (p : Point) (buf s : Bytes)
      → p.data_type ≡ type_int
      → itoa (point_get_int p) 10 ≡ some (s ++ 0 ∷ [])
      → IsText s
      → length s ≤ 11
      → number_token fl p buf json_data_buf_size ≡ s
  number_token-int p buf s e i t h =
      rw (rendered_int p buf e, i) (rw append_assoc (take-strnlen s _ 40 t (omega arith)))

  pub scan_buf-short : (s : Bytes) → length s ≤ 29 → scan_buf fl s ≡ s ++ 0 ∷ []
  scan_buf-short s h =
      let e : min (length s) 29 ≡ length s = omega arith in
      rw (e, take-le (length s) s (omega arith))

  -- The encoder and the decoder on an INT point, in one step.
  decoded_int :
      (p q : Point) (buf s : Bytes)
      → p.data_type ≡ type_int
      → number_token fl p buf json_data_buf_size ≡ s
      → point_js_to_point fl (point_to_point_js fl p buf json_data_buf_size) q ≡ (
        record (named p q) {
          data_type = type_int;
          payload = store32 q.payload (to_word (atoi (scan_buf fl s)));
        },
        pos 0,
      )
  unfolding point_js_to_point point_to_point_js decode_data strncmp_eq
  decoded_int p q buf s e n = simp e (rw n)

  decoded_text :
      (p q : Point) (buf : Bytes)
      → (p.data_type ≡ type_string) ⊎ (p.data_type ≡ type_json)
      → let d = json_escape_string p.payload data_size json_data_buf_size in
        point_js_to_point fl (point_to_point_js fl p buf json_data_buf_size) q ≡ (
          record (named p q) {
            data_type = p.data_type;
            payload =
                write_at_start q.payload (json_unescape_string d (length d) data_size ++ 0 ∷ []);
          },
          pos 0,
        )
  unfolding point_js_to_point point_to_point_js decode_data strncmp_eq
  decoded_text p q buf (inl e) = simp e
  decoded_text p q buf (inr e) = simp e

  -- An INT point comes back with its names, its type and its value, unless the value is INT_MIN. The
  -- decoder returns 0.
  pub point_js-int :
      (p q : Point) (buf : Bytes)
      → IsPoint q
      → IsTerminated p
      → p.data_type ≡ type_int
      → IsInt (point_get_int p)
      → point_get_int p ≢ int_min
      → let (r, ret) = point_js_to_point fl (point_to_point_js fl p buf json_data_buf_size) q in
        (ret ≡ pos 0) × SameName p r × (point_get_int r ≡ point_get_int p)
  point_js-int p q buf v z e i ne =
      let (s, printed, text, short, back) = atoi-itoa (point_get_int p) i in
      let (a, b) = named_lem p q v z in
      rw (decoded_int p q buf s e (number_token-int p buf s e printed text short)) (
        refl,
        record { same_type = a; same_key = b; same_data_type = sym e; no_time = refl },
        stored_int _ q.payload _ _ refl (omega arith)
            (ap atoi (scan_buf-short s (omega arith)) ∙ back.1 ne) i,
      )

  -- A STRING or JSON point comes back with its names, its type and its text, if each backslash of the
  -- text has a slash behind it. The decoder returns 0.
  pub point_js-text :
      (p q : Point) (buf : Bytes)
      → IsPoint p
      → IsPoint q
      → IsTerminated p
      → (p.data_type ≡ type_string) ⊎ (p.data_type ≡ type_json)
      → survives (cstr p.payload) ≡ true
      → let (r, ret) = point_js_to_point fl (point_to_point_js fl p buf json_data_buf_size) q in
        (ret ≡ pos 0) × SameName p r × (cstr r.payload ≡ cstr p.payload)
  point_js-text p q buf vp v z e s =
      let v' = cstr p.payload in
      let (a, b) = named_lem p q v z in
      rw (decoded_text p q buf e) (
        refl,
        record { same_type = a; same_key = b; same_data_type = refl; no_time = refl },
        rw (through_json p vp z s, append_assoc) (cstr-IsText v' _ (IsText-cstr p.payload)),
      )
