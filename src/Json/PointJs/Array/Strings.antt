-- ===== src/Json/PointJs/Array/Strings.antt =====
-- What the JSON library gets and gives back are C strings: only the bytes before the terminator count.
use zephyr_siot.Base.{
  ℕ, zero, suc, ◌+◌, ◌≡◌, refl, ap, sym, ◌∙◌, Option, none, some, List, [], ◌∷◌, ◌==◌, map, take,
  length, arith, Bool-cases, inl, inr,
}
use zephyr_siot.CString.{Bytes, cstr}
use zephyr_siot.CString.Laws.{
  IsText, IsText-append, IsText-cstr, strnlen-IsText, copy_str_field-cstr, strncmp_eq-cstr,
}
use zephyr_siot.Point.{
  type_size, key_size, data_size, Point, type_float, type_int, type_string, type_json,
}
use zephyr_siot.SiotString.Float.{Floats}
use zephyr_siot.Json.{escape_char, json_escape_string}
use zephyr_siot.Json.Escape.{escaped, value, json_escape_string_lem}
use zephyr_siot.Json.PointJs.{
  PointJs, flt_s, int_s, str_s, jsn_s, json_data_buf_size, token_of, point_data_to_string,
  point_to_point_js, decode_data, decode_named, point_js_to_point,
}
use zephyr_siot.Json.PointJs.Array.{decode_loop}
use zephyr_siot.Json.PointJs.Array.Laws.{converted}

abbrev pub text_of : Option Bytes → Option Bytes
text_of none = none
text_of (some s) = some (cstr s)

-- The strings as the JSON library sees them; the token of the data has a length of its own.
abbrev pub as_strings : PointJs → PointJs
as_strings js = record { t = text_of js.t; k = text_of js.k; dt = text_of js.dt; d = js.d }

pub length-same_strings :
    (js js' : List PointJs) → map as_strings js' ≡ map as_strings js → length js' ≡ length js
length-same_strings js js' e = sym (length-as_strings js') ∙ ap length e ∙ length-as_strings js
  where
    length-as_strings : (js : List PointJs) → length (map as_strings js) ≡ length js
    length-as_strings [] = refl
    length-as_strings (j ∷ js) = ap suc (length-as_strings js)

module _ (fl : Floats) where
  decode_data-cstr :
      (dt d : Bytes) (p : Point) → decode_data fl (cstr dt) d p ≡ decode_data fl dt d p
  unfolding decode_data
  decode_data-cstr dt d p =
      rw
        (
          strncmp_eq-cstr dt flt_s 3,
          strncmp_eq-cstr dt int_s 3,
          strncmp_eq-cstr dt str_s 3,
          strncmp_eq-cstr dt jsn_s 3,
        )
        refl

  decode_named-cstr :
      (t k dt : Option Bytes) (d : Bytes) (p : Point)
      → decode_named fl (text_of t) (text_of k) (text_of dt) d p ≡ decode_named fl t k dt d p
  decode_named-cstr none k dt d p = refl
  decode_named-cstr (some t) none dt d p = refl
  decode_named-cstr (some t) (some k) none d p = refl
  decode_named-cstr (some t) (some k) (some dt) d p =
      rw (copy_str_field-cstr p.type t type_size, copy_str_field-cstr p.key k key_size)
        (decode_data-cstr dt d _)

  -- Decoding depends on the strings alone.
  point_js_to_point-as_strings :
      (js : PointJs) (p : Point)
      → point_js_to_point fl (as_strings js) p ≡ point_js_to_point fl js p
  unfolding point_js_to_point
  point_js_to_point-as_strings js p = decode_named-cstr js.t js.k js.dt js.d (record p { time = 0 })

  pub decode_loop-as_strings :
      (js : List PointJs) (pts : List Point)
      → decode_loop fl (map as_strings js) pts ≡ decode_loop fl js pts
  unfolding decode_loop
  decode_loop-as_strings [] pts = refl
  decode_loop-as_strings (j ∷ js) [] = refl
  decode_loop-as_strings (j ∷ js) (p ∷ pts) =
      rw (point_js_to_point-as_strings j p, decode_loop-as_strings js pts) refl

IsText-escape_char : (c : ℕ) (s : Bytes) → IsText (c ∷ s) → IsText (escape_char c)
unfolding escape_char
IsText-escape_char c s h = ground (arith, h)

IsText-escaped : (s : Bytes) (n : ℕ) → IsText s → IsText (escaped (take n s))
unfolding escaped
IsText-escaped s zero h = tt
IsText-escaped [] (suc n) h = tt
IsText-escaped (c ∷ s) (suc n) h =
    IsText-append (escape_char c) (escaped (take n s)) (IsText-escape_char c s h)
      (IsText-escaped s n h.1)

IsText-token_of : (o : Option Bytes) (n : ℕ) → IsText (token_of o n)
IsText-token_of none n = tt
IsText-token_of (some s) n = strnlen-IsText s n

-- No token has a terminator in it.
abbrev pub AreTokens : List PointJs → Type 0
AreTokens [] = Unit
AreTokens (j ∷ js) = IsText j.d × AreTokens js

IsText-json_escape_string : (s : Bytes) → IsText (json_escape_string s data_size json_data_buf_size)
IsText-json_escape_string s =
    let ((k, e), _, _) = json_escape_string_lem s data_size json_data_buf_size (omega arith) in
    rw e (IsText-escaped (value s data_size) k (IsText-cstr _))

IsText-point_to_point_js :
    (fl : Floats) (p : Point) (buf : Bytes)
    → IsText (point_to_point_js fl p buf json_data_buf_size).d
unfolding point_to_point_js
IsText-point_to_point_js fl p buf =
    let number =
      IsText-token_of (point_data_to_string fl p (some buf) json_data_buf_size).0
        json_data_buf_size in
    let text = IsText-json_escape_string p.payload in
    elim (Bool-cases (p.data_type == type_float)) [
      | inl a ↦ rw a number
      | inr a ↦ elim (Bool-cases (p.data_type == type_int)) [
        | inl b ↦ rw (a, b) number
        | inr b ↦ elim (Bool-cases (p.data_type == type_string)) [
          | inl c ↦ rw (a, b, c) text
          | inr c ↦ elim (Bool-cases (p.data_type == type_json)) [
            | inl d ↦ rw (a, b, c, d) text
            | inr d ↦ rw (a, b, c, d) tt
          ]
        ]
      ]
    ]

pub converted-AreTokens :
    (fl : Floats) (bufs : ℕ → Bytes) (i : ℕ) (pts : List Point)
    → AreTokens (converted fl bufs i pts)
unfolding converted
converted-AreTokens fl bufs i [] = tt
converted-AreTokens fl bufs i (p ∷ pts) =
    (IsText-point_to_point_js fl p (bufs i), converted-AreTokens fl bufs (i + 1) pts)
