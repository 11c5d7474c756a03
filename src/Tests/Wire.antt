-- ===== src/Tests/Wire.antt =====
-- Points and texts on the way through JSON.
use zephyr_siot.Base.{◌≡◌, ◌↔◌, inl, refl, true, [], ◌∷◌, length, arith, replicate}
use zephyr_siot.Base.Int.{pos}
use zephyr_siot.CString.{Bytes, cstr}
use zephyr_siot.Point.{zero_point, point_get_int, load32}
use zephyr_siot.Json.{json_escape_string, json_unescape_string}
use zephyr_siot.Json.Unescape.RoundTrip.{survives, json_unescape-escape}
use zephyr_siot.Json.PointJs.{json_data_buf_size, point_to_point_js, point_js_to_point}
use zephyr_siot.Json.PointJs.RoundTrip.{IsTerminated, SameName, point_js-int, point_js-text}
use zephyr_siot.Tests.{temp, named, named-IsPoint}
use zephyr_siot.Point.Fields.{zero_point-IsPoint}
use zephyr_siot.Tests.Strings.{hundredths}

-- `say "a\b"`
abbrev quoted_s : Bytes
quoted_s = b's' ∷ b'"' ∷ b'a' ∷ b'\\' ∷ b'b' ∷ b'"' ∷ []

-- The backslash of the text has no slash behind it.
json_unescape-escape_example :
    let wire = json_escape_string quoted_s 6 40 in
    (json_unescape_string wire (length wire) 40 ≡ quoted_s) ↔ (survives quoted_s ≡ true)
unfolding cstr
json_unescape-escape_example = json_unescape-escape quoted_s 40 40 refl (omega arith) (omega arith)

pub temp-IsTerminated : IsTerminated temp
unfolding cstr
temp-IsTerminated = record {
  type_ends = omega arith;
  key_ends = omega arith;
  data_ends = omega arith;
}

pub named-IsTerminated : IsTerminated named
unfolding cstr
named-IsTerminated = record {
  type_ends = omega arith;
  key_ends = omega arith;
  data_ends = omega arith;
}

point_js-int_example :
    let (r, ret) =
      point_js_to_point hundredths
        (point_to_point_js hundredths temp (replicate 40 7) json_data_buf_size)
        zero_point in
    (ret ≡ pos 0) × SameName temp r × (point_get_int r ≡ point_get_int temp)
unfolding point_get_int load32
point_js-int_example =
    point_js-int hundredths temp zero_point (replicate 40 7) zero_point-IsPoint temp-IsTerminated
      refl (omega arith) (λ e. ground (arith, e))

point_js-text_example :
    let (r, ret) =
      point_js_to_point hundredths
        (point_to_point_js hundredths named (replicate 40 7) json_data_buf_size)
        zero_point in
    (ret ≡ pos 0) × SameName named r × (cstr r.payload ≡ cstr named.payload)
unfolding cstr survives
point_js-text_example =
    point_js-text hundredths named zero_point (replicate 40 7) named-IsPoint zero_point-IsPoint
      named-IsTerminated (inl refl) refl
