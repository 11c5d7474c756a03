-- ===== src/Cache/Shell/Latest.antt =====
-- The cache after the messages of the bus holds the last point of each name.
use zephyr_siot.Base.{◌≡◌, refl, ap, ◌∙◌, Bool, List, [], ◌∷◌}
use zephyr_siot.CString.{Bytes}
use zephyr_siot.Point.{Point}
use zephyr_siot.Point.Merge.Scan.{or_else}
use zephyr_siot.Point.Merge.View.{ArePoints, lookup, Distinct}
use zephyr_siot.Point.Merge.View.Outcome.{merge_all}
use zephyr_siot.Point.Merge.View.Latest.{latest, AreMerged, lookup-merge_all}
use zephyr_siot.SiotString.Float.{Floats}
use zephyr_siot.Cache.{Cache, point_cache_merge}
use zephyr_siot.Cache.Laws.{merged}
use zephyr_siot.Cache.Shell.{Message, point_cache_thread}
use zephyr_siot.Cache.Shell.Laws.{received, point_cache_thread-merged}

pub merged-merge_all : (c : Cache) (ps : List Point) → (merged c ps).slots ≡ merge_all c.slots ps
unfolding merged merge_all point_cache_merge
merged-merge_all c [] = refl
merged-merge_all c (p ∷ ps) = merged-merge_all (point_cache_merge c p).0 ps

-- After messages whose points are all merged, the cache holds for each name the last point that came with
-- that name over `point_chan`, and what it held before if none came. The slots have fields of the right sizes and one slot at most for
-- each name.
pub point_cache_thread-latest :
    (fl : Floats) (has_shell : Bool) (raw t k : Bytes) (c : Cache) (ms : List Message)
    → ArePoints c.slots
    → Distinct c.slots
    → AreMerged c.slots (received ms)
    → lookup t k (point_cache_thread fl has_shell raw c ms).0.slots
      ≡ or_else (latest t k (received ms)) (lookup t k c.slots)
point_cache_thread-latest fl has_shell raw t k c ms v d h =
    ap (λ x. lookup t k x.slots) (point_cache_thread-merged fl has_shell raw c ms)
    ∙ ap (lookup t k) (merged-merge_all c (received ms))
    ∙ lookup-merge_all t k c.slots (received ms) v d h
