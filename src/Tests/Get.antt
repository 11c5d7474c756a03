-- ===== src/Tests/Get.antt =====
-- A client that reads a table of two points.
use zephyr_siot.Base.{◌≡◌, refl, true, some, [], ◌∷◌, replicate, length, min, bytes_eq}
use zephyr_siot.Base.Int.{pos}
use zephyr_siot.CString.{cstr, strlen, first}
use zephyr_siot.Point.{zero_point, is_empty, is_unknown}
use zephyr_siot.Point.Fields.{zero_point-IsPoint}
use zephyr_siot.Point.Merge.View.{is_usable}
use zephyr_siot.Json.PointJs.Array.{points_json_decode}
use zephyr_siot.Json.PointJs.Array.Laws.{usable_points}
use zephyr_siot.Json.PointJs.Array.RoundTrip.{AreSendable, AreReceived}
use zephyr_siot.Web.{Web, initial_web, http_get, final, points_url, v1_handler}
use zephyr_siot.Web.Get.{v1_handler-points_json_decode}
use zephyr_siot.Tests.{temp, named}
use zephyr_siot.Tests.Strings.{hundredths}
use zephyr_siot.Tests.Web.{
  counted, bufs, board, slots, counted-IsCodec, temp-IsSendable, named-IsSendable,
}

abbrev filled : Web
filled = record initial_web { web_points = temp ∷ zero_point ∷ named ∷ replicate 37 zero_point }

filled-AreSendable : AreSendable (usable_points filled.web_points)
unfolding usable_points is_usable is_empty is_unknown first
filled-AreSendable = (temp-IsSendable, (named-IsSendable, tt))

v1_handler-points_json_decode_example :
    let h =
      v1_handler hundredths counted board bufs
        (record { method = http_get; url = points_url; chunk = []; status = final })
        filled in
    let reply = h.web.recv_buffer in
    let (after, n) = points_json_decode hundredths counted reply (strlen reply) slots in
    (h.published ≡ [])
    × (h.web.web_points ≡ filled.web_points)
    × (h.response ≡ some (record { body = reply; body_len = strlen reply; final_chunk = true }))
    × (n ≡ pos (min (length slots) (length (usable_points filled.web_points))))
    × AreReceived (usable_points filled.web_points) after
unfolding cstr bytes_eq
v1_handler-points_json_decode_example =
    v1_handler-points_json_decode hundredths counted board bufs points_url [] filled slots
      counted-IsCodec refl refl filled-AreSendable
      (zero_point-IsPoint, (zero_point-IsPoint, (zero_point-IsPoint, tt))) refl
