-- ===== src/Web/Mirror.antt =====
-- The table of the web server and the cache of the console show the same points.
use zephyr_siot.Base.{
  ◌+◌, ◌≤◌, ◌≡◌, refl, ap, sym, ◌∙◌, Bool, true, List, [], ◌∷◌, map, length, take, bytes_eq, ℕ,
  zero, suc, Bool-cases, inl, inr,
}
use mathlib.Core.Path.{subst}
use zephyr_siot.Base.Int.{ℤ, pos, negsuc}
use zephyr_siot.CString.{Bytes, cstr}
use zephyr_siot.Point.{Point}
use zephyr_siot.Point.Merge.{default_key, points_merge}
use zephyr_siot.Point.Merge.Scan.{or_else}
use zephyr_siot.Point.Merge.View.{ArePoints, lookup, Agree, Distinct}
use zephyr_siot.Point.Merge.View.Outcome.{merge_all}
use zephyr_siot.Point.Merge.View.Latest.{latest, latest-map, AreMerged, lookup-merge_all}
use zephyr_siot.SiotString.Float.{Floats}
use zephyr_siot.Json.PointJs.Array.{JsonLib}
use zephyr_siot.Json.PointJs.Sizes.{points_json_decode-ArePoints}
use zephyr_siot.Cache.{Cache}
use zephyr_siot.Cache.Laws.{zeros_lem}
use zephyr_siot.Cache.Shell.{Message, point_cache_thread}
use zephyr_siot.Cache.Shell.Laws.{received, messages, received-messages}
use zephyr_siot.Cache.Shell.Latest.{point_cache_thread-latest}
use zephyr_siot.Web.{
  Web, payload_size, no_points, final, points_url, v1_handler, web_round, web_thread,
}
use zephyr_siot.Web.Chunks.{post}
use zephyr_siot.Web.Invariant.{IsWeb}
use zephyr_siot.Web.Replies.{IsParser, decoded, decoded_points, v1_handler-post}

web_thread-merge_all :
    (v : Web) (ms : List Message)
    → (web_thread v ms).web_points ≡ merge_all v.web_points (received ms)
unfolding web_thread web_round received merge_all
web_thread-merge_all v [] = refl
web_thread-merge_all v (m ∷ ms) = elim (Bool-cases m.is_point_chan) [
  | inl e ↦ rw e (
      web_thread-merge_all (record v { web_points = (points_merge v.web_points m.point).points })
        ms)
  | inr e ↦ rw e (web_thread-merge_all v ms)
]

ArePoints-take : (n : ℕ) (ps : List Point) → ArePoints ps → ArePoints (take n ps)
ArePoints-take zero ps v = tt
ArePoints-take (suc n) [] v = tt
ArePoints-take (suc n) (p ∷ ps) (vp, v) = (vp, ArePoints-take n ps v)

ArePoints-decoded_points : (r : List Point × ℤ) → ArePoints r.0 → ArePoints (decoded_points r)
ArePoints-decoded_points (ps, pos n) v = ArePoints-take n ps v
ArePoints-decoded_points (ps, negsuc n) v = tt

module _ (fl : Floats) (has_shell : Bool) (raw : Bytes) where
  -- The two threads keep their tables in agreement over any messages whose points are all merged in both.
  -- Both tables are well formed before.
  pub web_thread-Agree :
      (v : Web) (c : Cache) (ms : List Message)
      → IsWeb v
      → ArePoints c.slots
      → Distinct c.slots
      → AreMerged v.web_points (received ms)
      → AreMerged c.slots (received ms)
      → Agree v.web_points c.slots
      → Agree (web_thread v ms).web_points (point_cache_thread fl has_shell raw c ms).0.slots
  web_thread-Agree v c ms w vc dc hv hc a t k =
      ap (lookup t k) (web_thread-merge_all v ms)
      ∙ lookup-merge_all t k v.web_points (received ms) w.points w.distinct hv
      ∙ ap (or_else (latest t k (received ms))) (a t k)
      ∙ sym (point_cache_thread-latest fl has_shell raw t k c ms vc dc hc)

  -- A POST reaches the cache: when the thread of the cache has got the points that the POST published, the
  -- cache agrees with the table of the web server again. The POST fits in its buffer, the points of the
  -- POST are all merged in both tables, the tables are well formed and agreed before, and the parser returns 0 or a
  -- negative number.
  pub v1_handler-Agree :
      (lib : JsonLib) (board : Bytes) (bufs : ℕ → Bytes) (url chunk : Bytes) (v : Web) (c : Cache)
      → IsParser lib
      → bytes_eq (cstr url) points_url ≡ true
      → length chunk + v.cursor ≤ payload_size
      → IsWeb v
      → ArePoints c.slots
      → Distinct c.slots
      → let ps = decoded_points (decoded fl lib board bufs url chunk v) in
        AreMerged v.web_points ps
        → AreMerged c.slots (map default_key ps)
        → Agree v.web_points c.slots
        → let h = v1_handler fl lib board bufs (post url final chunk) v in
          Agree h.web.web_points
            (point_cache_thread fl has_shell raw c (messages h.published)).0.slots
  v1_handler-Agree lib board bufs url chunk v c parser u fits w vc dc hv hc a t k =
      let (_, table, sent, _, _, _) = v1_handler-post fl lib board bufs url chunk v parser u fits in
      let ps = decoded_points (decoded fl lib board bufs url chunk v) in
      let got = received-messages (map default_key ps) in
      let sized =
        ArePoints-decoded_points (decoded fl lib board bufs url chunk v)
          (points_json_decode-ArePoints fl lib _ _ no_points (zeros_lem 5).0) in
      let cache =
        point_cache_thread-latest fl has_shell raw t k c (messages (map default_key ps)) vc dc
          (subst (AreMerged c.slots) (sym got) hc) in
      ap (lookup t k) table
      ∙ lookup-merge_all t k v.web_points ps w.points w.distinct hv
      ∙ ap (λ o. or_else o (lookup t k v.web_points))
          (sym (latest-map t k ps sized) ∙ ap (latest t k) (sym got))
      ∙ ap (or_else (latest t k (received (messages (map default_key ps))))) (a t k)
      ∙ sym cache
      ∙ ap (λ qs. lookup t k (point_cache_thread fl has_shell raw c (messages qs)).0.slots)
          (sym sent)
