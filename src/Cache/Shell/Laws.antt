-- ===== src/Cache/Shell/Laws.antt =====
-- What the console commands and the thread do to the cache and to the console.
use zephyr_siot.Base.{
  ◌≡◌, refl, ap, ◌∙◌, Bool, true, false, map, List, [], ◌∷◌, ◌++◌, append-nil, append_assoc,
  if◌then◌else◌, arith, inl, inr, Bool-cases,
}
use zephyr_siot.Base.Int.{pos}
use zephyr_siot.CString.{Bytes}
use zephyr_siot.Point.{Point}
use zephyr_siot.SiotString.Float.{Floats}
use zephyr_siot.Cache.{Cache, point_cache_merge, point_cache_foreach}
use zephyr_siot.Cache.Laws.{occupied, merged, visit, point_cache_foreach-visit}
use zephyr_siot.Cache.Shell.{
  Line, point_emit, emit_cb, cmd_siot_dump, Message, thread_round, point_cache_thread,
}

-- The points of the messages that came over `point_chan`.
unfoldable pub received : List Message → List Point
received [] = []
received (m ∷ ms) = if m.is_point_chan then m.point ∷ received ms else received ms

-- The messages that carry some points.
abbrev pub messages : List Point → List Message
messages ps = map (λ p. record { is_point_chan = true; point = p }) ps

pub received-messages : (ps : List Point) → received (messages ps) ≡ ps
unfolding received
received-messages [] = refl
received-messages (p ∷ ps) = ap (λ qs. p ∷ qs) (received-messages ps)

module _ (fl : Floats) (has_shell : Bool) (raw : Bytes) where
  -- What the console gets for a list of points.
  unfoldable pub emitted : List Point → List Line
  emitted [] = []
  emitted (p ∷ ps) = point_emit fl has_shell raw p ++ emitted ps

  visit-emitted :
      (ps : List Point) (lines : List Line)
      → visit (λ p u. u ++ point_emit fl has_shell raw p) (λ p u. pos 0) ps lines (pos 0)
        ≡ (lines ++ emitted ps, pos 0)
  unfolding visit emitted
  visit-emitted [] lines = rw (append-nil lines)
  visit-emitted (p ∷ ps) lines =
      visit-emitted ps (lines ++ point_emit fl has_shell raw p)
      ∙ ap (λ l. (l, pos 0)) (append_assoc lines (point_emit fl has_shell raw p) (emitted ps))

  -- The dump leaves the cache as it is, returns 0 and prints the lines of each slot that holds a
  -- point, in the order of the slots.
  pub cmd_siot_dump-emitted :
      (c : Cache) → cmd_siot_dump fl has_shell raw c ≡ (c, emitted (occupied c.slots), pos 0)
  unfolding cmd_siot_dump emit_cb
  cmd_siot_dump-emitted c =
      let v =
        visit (λ p u. u ++ point_emit fl has_shell raw p) (λ p u. pos 0) (occupied c.slots) []
          (pos 0) in
      let seen : point_cache_foreach c (emit_cb fl has_shell raw) [] ≡ (c, v.0, v.1) =
        point_cache_foreach-visit (λ p u. u ++ point_emit fl has_shell raw p) (λ p u. pos 0) c [] in
      ap (λ r. (r.0, r.1, pos 0)) seen
      ∙ ap (λ l. (c, l.0, pos 0)) (visit-emitted (occupied c.slots) [])

  thread_round-quiet :
      (c : Cache) (m : Message)
      → c.streaming ≡ false
      → thread_round fl has_shell raw c m
          ≡ (if m.is_point_chan then (point_cache_merge c m.point).0 else c, [])
        × (thread_round fl has_shell raw c m).0.streaming ≡ false
  unfolding thread_round point_cache_merge
  thread_round-quiet c m h = ground arith

  thread_round-cache :
      (c : Cache) (m : Message)
      → (thread_round fl has_shell raw c m).0
        ≡ (if m.is_point_chan then (point_cache_merge c m.point).0 else c)
  unfolding thread_round
  thread_round-cache c m = ground arith

  -- The thread merges the points that came over `point_chan`, in order, and nothing else, whether
  -- it streams them or not.
  pub point_cache_thread-merged :
      (c : Cache) (ms : List Message)
      → (point_cache_thread fl has_shell raw c ms).0 ≡ merged c (received ms)
  unfolding point_cache_thread merged received
  point_cache_thread-merged c [] = refl
  point_cache_thread-merged c (m ∷ ms) =
      point_cache_thread-merged (thread_round fl has_shell raw c m).0 ms ∙ step
    where
      step :
          merged (thread_round fl has_shell raw c m).0 (received ms) ≡ merged c (received (m ∷ ms))
      step = elim (Bool-cases m.is_point_chan) [
        | inl e ↦ rw (thread_round-cache c m, e)
        | inr e ↦ rw (thread_round-cache c m, e)
      ]

  -- With streaming off the thread prints nothing, whatever messages it gets.
  pub point_cache_thread-quiet :
      (c : Cache) (ms : List Message)
      → c.streaming ≡ false
      → (point_cache_thread fl has_shell raw c ms).1 ≡ []
  unfolding point_cache_thread
  point_cache_thread-quiet c [] h = refl
  point_cache_thread-quiet c (m ∷ ms) h =
      let (e, h') = thread_round-quiet c m h in
      let later = point_cache_thread-quiet (thread_round fl has_shell raw c m).0 ms h' in
      rw (ap (λ r. r.1) e, later)
