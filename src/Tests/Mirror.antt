-- ===== src/Tests/Mirror.antt =====
-- The web server and the console with one point.
use mathlib.Core.Path.{subst}
use zephyr_siot.Base.{
  ◌≡◌, ◌≤◌, refl, sym, ap, ◌∙◌, true, false, List, [], ◌∷◌, map, length, arith, bytes_eq,
}
use zephyr_siot.CString.{cstr, first, strncmp_eq, copy_str_field}
use zephyr_siot.SiotString.{atoi, ato_loop}
use zephyr_siot.Json.PointJs.{point_js_to_point, decode_data}
use zephyr_siot.Json.PointJs.Array.{points_json_decode, decode_loop}
use zephyr_siot.Point.{store32, Point, is_empty, is_unknown}
use zephyr_siot.Point.Merge.{points_merge, default_key}
use zephyr_siot.Point.Merge.View.{Agree, has_name, is_usable, lookup}
use zephyr_siot.Point.Merge.View.Latest.{latest, AreMerged}
use zephyr_siot.Point.Merge.Scan.{or_else}
use zephyr_siot.Cache.{Cache, initial}
use zephyr_siot.Cache.Laws.{zeros_lem}
use zephyr_siot.Cache.Shell.{Message, point_cache_thread}
use zephyr_siot.Cache.Shell.Laws.{received, messages}
use zephyr_siot.Point.Merge.View.Order.{Reordered, swap, AreUsable, free}
use zephyr_siot.Point.Merge.View.Table.{table}
use zephyr_siot.Cache.Shell.Order.{point_cache_thread_order}
use zephyr_siot.Cache.Shell.Latest.{point_cache_thread-latest}
use zephyr_siot.Web.{terminate, initial_web, points_url, final, v1_handler}
use zephyr_siot.Web.Chunks.{post}
use zephyr_siot.Web.Invariant.{initial_web-IsWeb}
use zephyr_siot.Web.Replies.{decoded, decoded_points}
use zephyr_siot.Web.Mirror.{v1_handler-Agree}
use zephyr_siot.Tests.{
  temp_s, one_s, temp, named, blank, temp-IsPoint, named-IsPoint, blank-IsPoint,
}
use zephyr_siot.Tests.Strings.{hundredths}
use zephyr_siot.Tests.Web.{read_all, counted, board, bufs, payload}

abbrev cache : Cache
cache = initial 3

-- A point with a blank key, one of another channel, and one of another name.
abbrev heard : List Message
heard =
    record { is_point_chan = true; point = blank }
    ∷ record { is_point_chan = false; point = temp }
    ∷ record { is_point_chan = true; point = named }
    ∷ []

cache-AreMerged : AreMerged cache.slots (received heard)
unfolding received points_merge default_key is_usable is_empty is_unknown first
cache-AreMerged = (blank-IsPoint, refl, refl, (named-IsPoint, refl, refl, tt))

web-AreMerged : AreMerged initial_web.web_points (received heard)
unfolding received points_merge default_key is_usable is_empty is_unknown first
web-AreMerged = (blank-IsPoint, refl, refl, (named-IsPoint, refl, refl, tt))

empty-Agree : Agree initial_web.web_points cache.slots
unfolding lookup is_usable is_empty first
empty-Agree t k = refl

point_cache_thread-latest_example :
    lookup temp_s one_s (point_cache_thread hundredths true [] cache heard).0.slots
    ≡ or_else (latest temp_s one_s (received heard)) (lookup temp_s one_s cache.slots)
point_cache_thread-latest_example =
    point_cache_thread-latest hundredths true [] temp_s one_s cache heard (zeros_lem 3).0
      (zeros_lem 3).1 cache-AreMerged

-- The same messages in another order.
abbrev heard_later : List Message
heard_later =
    record { is_point_chan = true; point = named }
    ∷ record { is_point_chan = true; point = blank }
    ∷ record { is_point_chan = false; point = temp }
    ∷ []

heard-AreUsable : AreUsable (received heard)
unfolding received default_key is_usable is_empty is_unknown first
heard-AreUsable = (blank-IsPoint, refl, (named-IsPoint, refl, tt))

heard-Reordered : Reordered (received heard) (received heard_later)
unfolding received default_key has_name cstr bytes_eq first
heard-Reordered = swap blank named [] refl

room : length (received heard) ≤ free cache.slots
unfolding received free is_empty first
room = omega arith

point_cache_thread_order_example :
    table (point_cache_thread hundredths true [] cache heard).0.slots
    ≡ table (point_cache_thread hundredths true [] cache heard_later).0.slots
point_cache_thread_order_example =
    point_cache_thread_order hundredths true [] cache heard heard_later (zeros_lem 3).0
      (zeros_lem 3).1 heard-AreUsable room heard-Reordered

-- The point that the payload is decoded to.
sent_point :
    decoded_points (decoded hundredths counted board bufs points_url payload initial_web)
    ≡ temp ∷ []
unfolding points_json_decode decode_loop point_js_to_point decode_data copy_str_field strncmp_eq
    store32 atoi terminate read_all ato_loop
sent_point = refl

abbrev sent : List Point
sent = decoded_points (decoded hundredths counted board bufs points_url payload initial_web)

default_sent : map default_key sent ≡ temp ∷ []
default_sent = ap (map default_key) sent_point ∙ (unfold default_key in unfold first in refl)

web_temp-AreMerged : AreMerged initial_web.web_points (temp ∷ [])
unfolding points_merge default_key is_usable is_empty is_unknown first
web_temp-AreMerged = (temp-IsPoint, refl, refl, tt)

cache_temp-AreMerged : AreMerged cache.slots (temp ∷ [])
unfolding points_merge default_key is_usable is_empty is_unknown first
cache_temp-AreMerged = (temp-IsPoint, refl, refl, tt)

v1_handler-Agree_example :
    let h = v1_handler hundredths counted board bufs (post points_url final payload) initial_web in
    Agree h.web.web_points
      (point_cache_thread hundredths true [] cache (messages h.published)).0.slots
unfolding cstr bytes_eq
v1_handler-Agree_example =
    v1_handler-Agree hundredths true [] counted board bufs points_url payload initial_web cache
      (λ json n. refl) refl (omega arith) initial_web-IsWeb (zeros_lem 3).0 (zeros_lem 3).1
      (subst (AreMerged initial_web.web_points) (sym sent_point) web_temp-AreMerged)
      (subst (AreMerged cache.slots) (sym default_sent) cache_temp-AreMerged) empty-Agree
