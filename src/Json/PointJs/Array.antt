-- ===== src/Json/PointJs/Array.antt =====
-- The encoders and decoders of lib/point.c for one point and for arrays of points.
pub mod Laws
pub mod Strings
pub mod RoundTrip
use zephyr_siot.Base.{
  ℕ, zero, suc, ◌+◌, ◌-◌, ◌≡◌, refl, Bool, true, false, ◌||◌, Option, none, some, List, [], ◌∷◌,
  ◌++◌, ltb, leb, ◌==◌, if◌then◌else◌, length, min, map,
}
use zephyr_siot.Base.Int.{ℤ, pos, negsuc, is_negative, abs}
use zephyr_siot.CString.{Bytes}
use zephyr_siot.Point.{Point, is_empty, is_unknown}
use zephyr_siot.Point.Merge.{neg_enomem}
use zephyr_siot.SiotString.Float.{Floats}
use zephyr_siot.Json.PointJs.{
  PointJs, json_data_buf_size, js_array_max, point_to_point_js, point_js_to_point,
}

-- Zephyr's JSON library, with the descriptors of this file. An encoder is given the buffer and its size,
-- and returns its code and what the buffer holds then.
pub record JsonLib : Type 0 where
  pub calc_encoded_len : PointJs → ℤ
  pub obj_encode_buf : PointJs → Bytes → ℕ → ℤ × Bytes
  pub arr_encode_buf : List PointJs → Bytes → ℕ → ℤ × Bytes
  pub obj_parse : Bytes → ℕ → ℤ × PointJs
  pub arr_parse : Bytes → ℕ → ℤ × List PointJs

module _ (fl : Floats) where
  -- The loop of `points_json_encode`. `bufs i` is what `data_buf[i]` holds, and `out` is `pts_out`.
  unfoldable pub encode_loop : (ℕ → Bytes) → List Point → List PointJs → List PointJs
  encode_loop bufs [] out = out
  encode_loop bufs (p ∷ pts) out = encode_loop bufs pts (
      if is_empty p
      then out
      else if is_unknown p
      then out
      else out ++ point_to_point_js fl p (bufs (length out)) json_data_buf_size ∷ [])

  -- The loop of `points_json_decode`: it ends with the shorter of the two arrays.
  unfoldable pub decode_loop : List PointJs → List Point → List Point
  decode_loop [] pts = pts
  decode_loop (js ∷ later) [] = []
  decode_loop (js ∷ later) (p ∷ pts) = (point_js_to_point fl js p).0 ∷ decode_loop later pts

module _ (fl : Floats) (lib : JsonLib) where
  -- `enc_len > len` compares as unsigned numbers, so a negative length is too long.
  unfoldable pub point_json_encode : Point → Bytes → Bytes → ℕ → ℤ × Bytes
  point_json_encode p data_buf buf len =
      let js = point_to_point_js fl p data_buf json_data_buf_size in
      let enc_len = lib.calc_encoded_len js in
      if is_negative enc_len || ltb len (abs enc_len)
      then (neg_enomem, buf)
      else lib.obj_encode_buf js buf len

  -- What a successful parse leaves to do; the result of `point_js_to_point` is not looked at.
  abbrev pub decode_parsed : Option Bytes → Option Bytes → PointJs → Point → Point × ℤ
  decode_parsed (some t) (some k) js p = ((point_js_to_point fl js p).0, pos 0)
  decode_parsed _ _ js p = (p, negsuc 199)

  unfoldable pub point_json_decode : Bytes → ℕ → Point → Point × ℤ
  point_json_decode json json_len p =
      let (ret, js) = lib.obj_parse json json_len in
      if is_negative ret then (p, ret) else decode_parsed js.t js.k js p

  -- `count` is the length of the list. The mutex is held from before the loop until after the
  -- encoder, so the call is one step.
  unfoldable pub points_json_encode : (ℕ → Bytes) → List Point → Bytes → ℕ → ℤ × Bytes
  points_json_encode bufs pts_in buf len =
      if ltb js_array_max (length pts_in)
      then (neg_enomem, buf)
      else lib.arr_encode_buf (encode_loop fl bufs pts_in []) buf len

  -- `p_cnt` is the length of `pts`.
  unfoldable pub points_json_decode : Bytes → ℕ → List Point → List Point × ℤ
  points_json_decode json json_len pts =
      let (ret, js) = lib.arr_parse json json_len in
      if ltb 0 (abs ret)
      then (pts, ret)
      else (decode_loop fl js pts, pos (min (length pts) (length js)))
