-- ===== src/Metrics.antt =====
-- lib/metrics.c: the points that a round of `siot_metrics_thread` publishes. The kernel's statistics and
-- the arithmetic of `double` are parameters.
use zephyr_siot.Base.{
  ℕ, ◌%◌, ◌^◌, ◌<◌, ◌≡◌, refl, ap, ◌∙◌, true, not, List, [], ◌∷◌, if◌then◌else◌, arith,
}
use zephyr_siot.Base.Int.{ℤ, pos, of_word, of_word-IsInt}
use zephyr_siot.CString.{Bytes, cstr}
use zephyr_siot.Point.{
  Point, IsPoint, zero_point, point_set_type_key, point_put_float, point_put_int, point_get_float,
  point_get_int, type_float, type_int,
}
use zephyr_siot.Point.Fields.{
  zero_point-IsPoint, point_set_type_key_lem, point_get_float-put_float, point_get_int-put_int,
}
use zephyr_siot.SiotString.{is_zero}

-- `k_thread_runtime_stats_all_get`: what it returns, and two of the counters.
pub record Stats : Type 0 where
  pub rc : ℤ
  pub total_cycles : ℕ
  pub execution_cycles : ℕ

-- POINT_TYPE_METRIC_SYS_CPU_PERCENT
abbrev pub cpu_percent_s : Bytes
cpu_percent_s =
    b'm' ∷ b'e' ∷ b't' ∷ b'r' ∷ b'i' ∷ b'c' ∷ b'S' ∷ b'y' ∷ b's' ∷ b'C' ∷ b'P' ∷ b'U' ∷ b'P' ∷ b'e'
    ∷ b'r' ∷ b'c' ∷ b'e' ∷ b'n' ∷ b't' ∷ []

-- POINT_TYPE_UPTIME
abbrev pub uptime_s : Bytes
uptime_s = b'u' ∷ b'p' ∷ b't' ∷ b'i' ∷ b'm' ∷ b'e' ∷ []

-- `percent total execution` is the pattern of `(float)((double)total * 100 / execution)`. The uptime is
-- the `uint32_t` of `k_uptime_seconds`.
unfoldable pub metrics_round : (ℕ → ℕ → ℕ) → Stats → ℕ → List Point
metrics_round percent stats uptime =
    if not (is_zero stats.rc)
    then []
    else (let p1 =
          point_put_float (point_set_type_key zero_point cpu_percent_s [])
            (percent stats.total_cycles stats.execution_cycles) in
        let p2 = point_put_int (point_set_type_key p1 uptime_s []) (of_word (uptime % 2 ^ 32)) in
        p1 ∷ p2 ∷ [])

-- The name of a point, with a blank key.
abbrev pub IsNamed : Bytes → Point → Type 0
IsNamed t p = IsPoint p × (cstr p.type ≡ t) × (cstr p.key ≡ [])

-- With statistics, two points with a blank key are published: the use of the processor, whose pattern
-- is read back as it was computed, and the uptime, which is read back as the seconds below 2^31. The
-- pattern of a `float` has 32 bits.
pub metrics_round-IsNamed :
    (percent : ℕ → ℕ → ℕ) (stats : Stats) (uptime : ℕ)
    → stats.rc ≡ pos 0
    → percent stats.total_cycles stats.execution_cycles < 2 ^ 32
    → uptime < 2 ^ 31
    → (p1 p2 : Point) × (metrics_round percent stats uptime ≡ p1 ∷ p2 ∷ [])
      × IsNamed cpu_percent_s p1
      × (p1.data_type ≡ type_float)
      × (point_get_float p1 ≡ percent stats.total_cycles stats.execution_cycles)
      × IsNamed uptime_s p2
      × (p2.data_type ≡ type_int)
      × (point_get_int p2 ≡ pos uptime)
unfolding metrics_round
metrics_round-IsNamed percent stats uptime rc h k =
    let cpu = percent stats.total_cycles stats.execution_cycles in
    let q1 = point_set_type_key zero_point cpu_percent_s [] in
    let (v1, t1, k1, _, _, _) =
      point_set_type_key_lem zero_point cpu_percent_s [] zero_point-IsPoint in
    let p1 = point_put_float q1 cpu in
    let (w1, f1, d1, _, n1, m1) = point_get_float-put_float q1 cpu v1 h in
    let q2 = point_set_type_key p1 uptime_s [] in
    let (v2, t2, k2, _, _, _) = point_set_type_key_lem p1 uptime_s [] w1 in
    let z = of_word (uptime % 2 ^ 32) in
    let p2 = point_put_int q2 z in
    let (w2, f2, d2, _, n2, m2) =
      point_get_int-put_int q2 z v2 (of_word-IsInt (uptime % 2 ^ 32) (omega arith)) in
    let ok : is_zero stats.rc ≡ true = rw rc refl in
    (
      p1,
      p2,
      rw ok refl,
      (w1, ap cstr n1 ∙ t1 ∙ unfold cstr in refl, ap cstr m1 ∙ k1 ∙ unfold cstr in refl),
      d1,
      f1,
      (w2, ap cstr n2 ∙ t2 ∙ unfold cstr in refl, ap cstr m2 ∙ k2 ∙ unfold cstr in refl),
      d2,
      f2 ∙ ground arith,
    )
