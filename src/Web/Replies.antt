-- ===== src/Web/Replies.antt =====
-- What the server replies, merges and publishes, and when a write leaves the payload's buffer.
use zephyr_siot.Base.{
  ℕ, zero, suc, ◌+◌, ◌≤◌, ◌≡◌, refl, ap, ◌∙◌, true, false, not, some, List, [], ◌∷◌, ◌++◌, ◌==◌,
  ltb, if◌then◌else◌, length, take, map, arith, min, Bool-cases, inl, inr, bytes_eq,
}
use zephyr_siot.Base.Int.{ℤ, pos, negsuc, abs, is_negative}
use zephyr_siot.CString.{Bytes, cstr, strlen, write_at_start}
use zephyr_siot.Point.{Point}
use zephyr_siot.Point.Merge.{points_merge, default_key}
use zephyr_siot.Point.Merge.View.Outcome.{merge_all}
use zephyr_siot.SiotString.{is_zero}
use zephyr_siot.SiotString.Float.{Floats}
use zephyr_siot.Json.PointJs.{PointJs}
use zephyr_siot.Json.PointJs.Array.{JsonLib, points_json_decode, decode_loop}
use zephyr_siot.Json.PointJs.Array.Laws.{
  drop-decode_loop, converted, usable_points, points_json_encode_lem,
}
use zephyr_siot.Web.{
  Web, payload_size, no_points, no_error, recv_size, web_points_size, http_get, final, advanced,
  terminate, merge_received, get_points, post_points, post_decoded, reply, transact, v1_handler,
  points_url,
}
use zephyr_siot.Web.Chunks.{post, copy_payload-advanced}

-- What Zephyr documents of `json_arr_parse`: 0, or a negative error.
abbrev pub IsParser : JsonLib → Type 0
IsParser lib =
    (json : Bytes) (n : ℕ)
    → is_negative (lib.arr_parse json n).0 ≡ not (is_zero (lib.arr_parse json n).0)

-- The loop over decoded points merges them in order, publishes each with its default key, and writes
-- nothing else.
merge_received_lem :
    (n : ℕ) (pts : List Point) (v : Web)
    → n ≤ length pts
    → merge_received n pts v ≡ (
      record v { web_points = merge_all v.web_points (take n pts) },
      map default_key (take n pts),
    )
unfolding merge_received merge_all
merge_received_lem zero pts v h = refl
merge_received_lem (suc n) [] v h = absurd (omega arith)
merge_received_lem (suc n) (p ∷ pts) v h =
    rw
      (merge_received_lem n pts (record v { web_points = (points_merge v.web_points p).points })
        (omega arith))
      (unfold points_merge in refl)

-- The points that a decoder's result stands for.
abbrev pub decoded_points : List Point × ℤ → List Point
decoded_points (pts, pos n) = take n pts
decoded_points (pts, negsuc n) = []

-- The result of the decoder counts points of the array.
abbrev IsCount : List Point × ℤ → Type 0
IsCount (pts, pos n) = n ≤ length pts
IsCount (pts, negsuc n) = Unit

terminate_lem :
    (v : Web)
    → ((terminate v).web_points ≡ v.web_points)
      × ((terminate v).overran ≡ (if ltb v.cursor payload_size then v.overran else true))
unfolding terminate
terminate_lem v = elim (Bool-cases (ltb v.cursor payload_size)) [
  | inl e ↦ rw e (refl, refl)
  | inr e ↦ rw e (refl, refl)
]

-- The reply as a text, and its length.
no_error_lem :
    (buf : Bytes)
    → let b = write_at_start buf (cstr no_error ++ 0 ∷ []) in (cstr b ≡ no_error) × (strlen b ≡ 12)
unfolding cstr strlen
no_error_lem buf = (refl, refl)

module _ (fl : Floats) (lib : JsonLib) where
  count_lem :
      (ret : ℤ) (js : List PointJs) (pts : List Point)
      → is_negative ret ≡ not (is_zero ret)
      → IsCount (
          if ltb 0 (abs ret)
          then (pts, ret)
          else (decode_loop fl js pts, pos (min (length pts) (length js))))
  count_lem (pos zero) js pts h = omega (arith, (drop-decode_loop fl js pts).1)
  count_lem (pos (suc n)) js pts h = absurd (ground (arith, h))
  count_lem (negsuc n) js pts h = ground arith

  points_json_decode-IsCount :
      (json : Bytes) (n : ℕ) (pts : List Point)
      → IsParser lib
      → IsCount (points_json_decode fl lib json n pts)
  unfolding points_json_decode
  points_json_decode-IsCount json n pts h =
      count_lem (lib.arr_parse json n).0 (lib.arr_parse json n).1 pts (h json n)

  post_decoded_lem :
      (v : Web) (r : List Point × ℤ)
      → IsCount r
      → let (v', published) = post_decoded fl lib v r in
        (v'.web_points ≡ merge_all v.web_points (decoded_points r))
        × (published ≡ map default_key (decoded_points r))
        × (v'.overran ≡ v.overran)
  post_decoded_lem v (pts, negsuc n) h = (unfold merge_all in refl, refl, refl)
  post_decoded_lem v (pts, pos n) h = rw (merge_received_lem n pts v h) (refl, refl, refl)

  module _ (board : Bytes) (bufs : ℕ → Bytes) (url chunk : Bytes) (v : Web) where
    -- The variables when the decoder is called, and what it gives.
    abbrev pub at_end : Web
    at_end = terminate (advanced v chunk)

    abbrev pub decoded : List Point × ℤ
    decoded = points_json_decode fl lib at_end.v1_payload_buf at_end.cursor no_points

    -- The last call of a POST of points that fits in its buffer merges the points that were decoded, in
    -- order, publishes each of them with its default key, and starts the next payload at the front. Its
    -- reply is an empty error, whether the payload was decoded or not. The JSON library's parser
    -- returns 0 or a negative number.
    pub v1_handler-post :
        IsParser lib
        → bytes_eq (cstr url) points_url ≡ true
        → length chunk + v.cursor ≤ payload_size
        → let h = v1_handler fl lib board bufs (post url final chunk) v in
          (h.ret ≡ pos 0)
          × (h.web.web_points ≡ merge_all v.web_points (decoded_points decoded))
          × (h.published ≡ map default_key (decoded_points decoded))
          × (h.web.cursor ≡ 0)
          × (h.response
              ≡ some (record { body = h.web.recv_buffer; body_len = 12; final_chunk = true }))
          × (cstr h.web.recv_buffer ≡ no_error)
    unfolding v1_handler transact reply post_points
    v1_handler-post parser u fits =
        let (a, b, c) =
          post_decoded_lem at_end decoded (points_json_decode-IsCount _ _ no_points parser) in
        rw (copy_payload-advanced v chunk fits) (
          rw u (
            refl,
            a
                ∙ ap (λ pts. merge_all pts (decoded_points decoded))
                    (terminate_lem (advanced v chunk)).0,
            b,
            refl,
            ap
                (λ n. some (record {
                  body = write_at_start buf (cstr no_error ++ 0 ∷ []);
                  body_len = n;
                  final_chunk = true;
                }))
                (no_error_lem buf).1,
            (no_error_lem buf).0,
          ))
      where
        buf : Bytes
        buf = (post_decoded fl lib at_end decoded).0.recv_buffer

    -- A POST of points whose payload fits writes outside of the payload's buffer exactly if the payload
    -- fills the buffer: its terminator is then written behind the end. The parser returns 0 or a
    -- negative number.
    pub v1_handler-overran :
        IsParser lib
        → bytes_eq (cstr url) points_url ≡ true
        → length chunk + v.cursor ≤ payload_size
        → v.overran ≡ false
        → (v1_handler fl lib board bufs (post url final chunk) v).web.overran
          ≡ (length chunk + v.cursor == payload_size)
    unfolding v1_handler transact reply post_points
    v1_handler-overran parser u fits o =
        let (a, b, c) =
          post_decoded_lem at_end decoded (points_json_decode-IsCount _ _ no_points parser) in
        rw (copy_payload-advanced v chunk fits)
          (rw u (c ∙ (terminate_lem (advanced v chunk)).1 ∙ ground (arith, o, fits)))

    -- A GET of the points replies with what the JSON encoder makes of the usable points of the table, in
    -- their order, in the buffer of 2048 bytes. It publishes nothing and changes no point.
    pub v1_handler_get :
        bytes_eq (cstr url) points_url ≡ true
        → length v.web_points ≡ web_points_size
        → let js = converted fl bufs 0 (usable_points v.web_points) in
          let buf = (lib.arr_encode_buf js v.recv_buffer recv_size).1 in
          v1_handler fl lib board bufs
            (record { method = http_get; url = url; chunk = chunk; status = final })
            v
          ≡ record {
            ret = pos 0;
            web = record v { recv_buffer = buf; cursor = 0 };
            response = some (record { body = buf; body_len = strlen buf; final_chunk = true });
            published = [];
          }
    unfolding v1_handler transact reply get_points
    v1_handler_get u len =
        let (e, _, _) = points_json_encode_lem fl lib bufs v.web_points v.recv_buffer recv_size in
        let few : ltb 47 (length v.web_points) ≡ false = rw len refl in rw u (rw e (rw few refl))
