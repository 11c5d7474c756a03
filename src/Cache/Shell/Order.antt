-- ===== src/Cache/Shell/Order.antt =====
-- The order in which the points of the bus arrive at the cache.
use zephyr_siot.Base.{◌≡◌, ap, sym, ◌∙◌, ◌≤◌, Bool, List, length}
use mathlib.Core.Quot
use zephyr_siot.CString.{Bytes}
use zephyr_siot.Point.Merge.View.{ArePoints, Distinct}
use zephyr_siot.Point.Merge.View.Order.{Reordered, AreUsable, free, merge_all-Agree}
use zephyr_siot.Point.Merge.View.Outcome.{merge_all}
use zephyr_siot.Point.Merge.View.Table.{table}
use zephyr_siot.SiotString.Float.{Floats}
use zephyr_siot.Cache.{Cache}
use zephyr_siot.Cache.Shell.{Message, point_cache_thread}
use zephyr_siot.Cache.Shell.Laws.{received, point_cache_thread-merged}
use zephyr_siot.Cache.Shell.Latest.{merged-merge_all}

module _ (fl : Floats) (has_shell : Bool) (raw : Bytes) (c : Cache) where
  slots-merge_all :
      (ms : List Message)
      → (point_cache_thread fl has_shell raw c ms).0.slots ≡ merge_all c.slots (received ms)
  slots-merge_all ms =
      ap (λ x. x.slots) (point_cache_thread-merged fl has_shell raw c ms)
      ∙ merged-merge_all c (received ms)

  -- The order in which points of different names arrive at the cache does not matter: messages whose
  -- points of `point_chan` are the same up to swaps of neighbours with different names leave the same
  -- table, up to the slots in which the points stand. The points are usable, the cache has a free slot for
  -- each, and its slots have fields of the right sizes and one slot at most for each name.
  pub point_cache_thread_order :
      (ms ms' : List Message)
      → ArePoints c.slots
      → Distinct c.slots
      → AreUsable (received ms)
      → length (received ms) ≤ free c.slots
      → Reordered (received ms) (received ms')
      → table (point_cache_thread fl has_shell raw c ms).0.slots
        ≡ table (point_cache_thread fl has_shell raw c ms').0.slots
  point_cache_thread_order ms ms' v d u h r =
      ap table (slots-merge_all ms)
      ∙ Quot.sound (merge_all-Agree c.slots (received ms) (received ms') v d u h r)
      ∙ ap table (sym (slots-merge_all ms'))
