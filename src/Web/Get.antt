-- ===== src/Web/Get.antt =====
-- What a client gets that decodes the reply to a GET.
use zephyr_siot.Base.{
  ℕ, ◌≤◌, ◌≡◌, refl, ap, ◌∙◌, true, false, some, List, [], length, min, ltb, arith, bytes_eq,
}
use zephyr_siot.Base.Int.{pos}
use zephyr_siot.CString.{Bytes, cstr, strlen}
use zephyr_siot.Point.{Point}
use zephyr_siot.Point.Merge.View.{ArePoints}
use zephyr_siot.SiotString.Float.{Floats}
use zephyr_siot.Json.PointJs.Array.{JsonLib, points_json_encode, points_json_decode}
use zephyr_siot.Json.PointJs.Array.Laws.{
  usable_points, length-usable_points, converted, points_json_encode_lem,
}
use zephyr_siot.Json.PointJs.Array.RoundTrip.{
  IsCodec, AreSendable, AreReceived, usable_points-AreSendable, points_json-round_trip,
}
use zephyr_siot.Web.{Web, http_get, final, points_url, recv_size, web_points_size, v1_handler}
use zephyr_siot.Web.Replies.{v1_handler_get}

module _ (fl : Floats) (lib : JsonLib) where
  -- The encoder makes the same of the usable points alone.
  encode-usable :
      (bufs : ℕ → Bytes) (pts : List Point) (buf : Bytes) (len : ℕ)
      → AreSendable (usable_points pts)
      → length pts ≤ 47
      → points_json_encode fl lib bufs (usable_points pts) buf len
        ≡ lib.arr_encode_buf (converted fl bufs 0 (usable_points pts)) buf len
  encode-usable bufs pts buf len h few =
      let (e, _, _) = points_json_encode_lem fl lib bufs (usable_points pts) buf len in
      let l : ltb 47 (length (usable_points pts)) ≡ false =
        ground (arith, few, length-usable_points pts) in
      e ∙ rw l (rw (usable_points-AreSendable (usable_points pts) h) refl)

  -- A GET of the points publishes nothing, leaves the table as it is, and replies with a text from which a
  -- client decodes the usable points of the table: its slots get their names, types and values in order, as
  -- far as there are slots, and the number of points is returned. The table has 40 slots, its usable
  -- points can be sent, the client's slots have fields of the right sizes, the encoder succeeds, and the
  -- JSON library reads the strings and tokens that it wrote. A point can be sent if its strings end inside
  -- their fields, it has a type, its type and key need no escape in JSON, and it has an integer other than
  -- INT_MIN or a text without control characters in which each backslash has a slash behind it.
  pub v1_handler-points_json_decode :
      (board : Bytes) (bufs : ℕ → Bytes) (url chunk : Bytes) (v : Web) (slots : List Point)
      → IsCodec fl lib
      → bytes_eq (cstr url) points_url ≡ true
      → length v.web_points ≡ web_points_size
      → AreSendable (usable_points v.web_points)
      → ArePoints slots
      → (lib.arr_encode_buf
          (converted fl bufs 0 (usable_points v.web_points))
          v.recv_buffer
          recv_size).0
        ≡ pos 0
      → let h =
          v1_handler fl lib board bufs
            (record { method = http_get; url = url; chunk = chunk; status = final })
            v in
        let reply = h.web.recv_buffer in
        let (after, n) = points_json_decode fl lib reply (strlen reply) slots in
        (h.published ≡ [])
        × (h.web.web_points ≡ v.web_points)
        × (h.response ≡ some (record { body = reply; body_len = strlen reply; final_chunk = true }))
        × (n ≡ pos (min (length slots) (length (usable_points v.web_points))))
        × AreReceived (usable_points v.web_points) after
  v1_handler-points_json_decode board bufs url chunk v slots codec u len h vs ok =
      let few : length v.web_points ≤ 47 = omega (arith, len) in
      let e = encode-usable bufs v.web_points v.recv_buffer recv_size h few in
      let (count, got) =
        points_json-round_trip fl lib bufs (usable_points v.web_points) slots v.recv_buffer
          recv_size codec h (omega (arith, few, length-usable_points v.web_points)) vs
          (ap (λ r. r.0) e ∙ ok) in
      let same = ap (λ r. r.1) e in
      rw (v1_handler_get fl lib board bufs url chunk v u len)
        (refl, refl, refl, (rw same at count), (rw same at got))
