-- ===== src/Json/PointJs/Sizes.antt =====
-- A point that is decoded keeps the sizes of its fields, whatever the strings are.
use zephyr_siot.Base.{
  ℕ, ◌-◌, ◌≤◌, ◌≡◌, ◌∙◌, Bool-cases, inl, inr, Option, none, some, List, [], ◌∷◌, ◌++◌, length,
  length-append, length-set, drop, length-drop, ltb, arith,
}
use zephyr_siot.Base.Int.{abs}
use zephyr_siot.CString.{Bytes, strncmp_eq, copy_str_field, write_at_start}
use zephyr_siot.CString.Laws.{length-strncpy}
use zephyr_siot.Point.{type_size, key_size, data_size, Point, IsPoint}
use zephyr_siot.Point.Fields.{length-store32}
use zephyr_siot.Point.Merge.View.{ArePoints}
use zephyr_siot.SiotString.Float.{Floats}
use zephyr_siot.Json.{json_unescape_string}
use zephyr_siot.Json.Unescape.{json_unescape_string_lem}
use zephyr_siot.Json.PointJs.{
  PointJs, flt_s, int_s, str_s, jsn_s, decode_data, decode_named, point_js_to_point,
}
use zephyr_siot.Json.PointJs.Array.{JsonLib, decode_loop, points_json_decode}

pub length-write_at_start :
    (buf s : Bytes) → length s ≤ length buf → length (write_at_start buf s) ≡ length buf
length-write_at_start buf s h =
    omega (arith, length-append s (drop (length s) buf), length-drop (length s) buf)

length-unescaped_text :
    (buf d : Bytes)
    → length buf ≡ data_size
    → length (write_at_start buf (json_unescape_string d (length d) data_size ++ 0 ∷ []))
      ≡ data_size
length-unescaped_text buf d h =
    let text = json_unescape_string d (length d) data_size in
    let short = (json_unescape_string_lem d (length d) data_size (omega arith)).1 in
    length-write_at_start buf (text ++ 0 ∷ []) (omega (arith, length-append text (0 ∷ []))) ∙ h

length-copy_str_field :
    (dest src : Bytes) (n : ℕ) → length (copy_str_field dest src n) ≡ length dest
unfolding copy_str_field
length-copy_str_field dest src n = length-set _ (n - 1) 0 ∙ length-strncpy dest src (n - 1)

module _ (fl : Floats) where
  decode_data-IsPoint : (dt d : Bytes) (p : Point) → IsPoint p → IsPoint (decode_data fl dt d p).0
  unfolding decode_data
  decode_data-IsPoint dt d p v = elim (Bool-cases (strncmp_eq dt flt_s 3)) [
    | inl e ↦ rw e (sized (length-store32 p.payload _ ∙ v.data_len))
    | inr e ↦ elim (Bool-cases (strncmp_eq dt int_s 3)) [
      | inl f ↦ rw (e, f) (sized (length-store32 p.payload _ ∙ v.data_len))
      | inr f ↦ elim (Bool-cases (strncmp_eq dt str_s 3)) [
        | inl g ↦ rw (e, f, g) (sized (length-unescaped_text p.payload d v.data_len))
        | inr g ↦ elim (Bool-cases (strncmp_eq dt jsn_s 3)) [
          | inl i ↦ rw (e, f, g, i) (sized (length-unescaped_text p.payload d v.data_len))
          | inr i ↦ rw (e, f, g, i) (sized (length-set p.payload 0 0 ∙ v.data_len))
        ]
      ]
    ]
  ]
    where
      sized :
          {n : ℕ} {b : Bytes}
          → length b ≡ data_size
          → IsPoint (record p { data_type = n; payload = b })
      sized h = record { type_len = v.type_len; key_len = v.key_len; data_len = h }

  decode_named-IsPoint :
      (t k dt : Option Bytes) (d : Bytes) (p : Point)
      → IsPoint p
      → IsPoint (decode_named fl t k dt d p).0
  decode_named-IsPoint (some t) (some k) (some dt) d p v = decode_data-IsPoint dt d _ (record {
    type_len = length-copy_str_field p.type t type_size ∙ v.type_len;
    key_len = length-copy_str_field p.key k key_size ∙ v.key_len;
    data_len = v.data_len;
  })
  decode_named-IsPoint none k dt d p v = v
  decode_named-IsPoint (some t) none dt d p v = v
  decode_named-IsPoint (some t) (some k) none d p v = v

  pub point_js_to_point-IsPoint :
      (js : PointJs) (p : Point) → IsPoint p → IsPoint (point_js_to_point fl js p).0
  unfolding point_js_to_point
  point_js_to_point-IsPoint js p v =
      decode_named-IsPoint js.t js.k js.dt js.d (record p { time = 0 })
        (record { type_len = v.type_len; key_len = v.key_len; data_len = v.data_len })

  decode_loop-ArePoints :
      (js : List PointJs) (pts : List Point) → ArePoints pts → ArePoints (decode_loop fl js pts)
  unfolding decode_loop
  decode_loop-ArePoints [] pts v = v
  decode_loop-ArePoints (j ∷ js) [] v = v
  decode_loop-ArePoints (j ∷ js) (p ∷ pts) (vp, v) =
      (point_js_to_point-IsPoint j p vp, decode_loop-ArePoints js pts v)

  pub points_json_decode-ArePoints :
      (lib : JsonLib) (json : Bytes) (json_len : ℕ) (pts : List Point)
      → ArePoints pts
      → ArePoints (points_json_decode fl lib json json_len pts).0
  unfolding points_json_decode
  points_json_decode-ArePoints lib json json_len pts v =
      let (ret, js) = lib.arr_parse json json_len in
      elim (Bool-cases (ltb 0 (abs ret))) [
        | inl e ↦ rw e v
        | inr e ↦ rw e (decode_loop-ArePoints js pts v)
      ]
