-- ===== src/Cache/Shell/Sizes.antt =====
-- The sizes of the fields of a point that the command `p` publishes.
use mathlib.Core.Path.{subst}
use zephyr_siot.Base.{◌≡◌, ◌==◌, ltb, some, List, [], ◌∷◌, arith, inl, inr, Bool-cases}
use zephyr_siot.Base.Int.{ℤ, abs}
use zephyr_siot.CString.{Bytes, cstr, strlen}
use zephyr_siot.Point.{Point, IsPoint, zero_point}
use zephyr_siot.Point.Fields.{zero_point-IsPoint}
use zephyr_siot.SiotString.Float.{Floats}
use zephyr_siot.Timeconv.{Tm, timeconv_epoch_ns_from_rfc3339}
use zephyr_siot.Json.PointJs.{PointJs, point_js_to_point}
use zephyr_siot.Json.PointJs.Sizes.{point_js_to_point-IsPoint}
use zephyr_siot.Cache.Shell.{send_timed, send_point, handle_sendpoint}

module _ (fl : Floats) (timegm : Tm → ℤ) where
  send_timed-IsPoint :
      (times : List Bytes) (p q : Point)
      → IsPoint p
      → (send_timed timegm times p).published ≡ some q
      → IsPoint q
  send_timed-IsPoint [] p q v e = subst IsPoint (ground (arith, e)) v
  send_timed-IsPoint (time ∷ times) p q v e =
      let t = timeconv_epoch_ns_from_rfc3339 timegm (some time) (strlen time) in
      elim (Bool-cases (t == 0)) [
        | inl z ↦ absurd (ground (arith, e, z))
        | inr z ↦
            let same : record p { time = t } ≡ q = ground (arith, e, z) in
            subst IsPoint same
              (record { type_len = v.type_len; key_len = v.key_len; data_len = v.data_len })
      ]

  send_point-IsPoint :
      (times : List Bytes) (p q : Point) (ret : ℤ)
      → IsPoint p
      → (send_point timegm times (p, ret)).published ≡ some q
      → IsPoint q
  send_point-IsPoint times p q ret v e = elim (Bool-cases (ltb 0 (abs ret))) [
    | inl z ↦ absurd (ground (arith, e, z))
    | inr z ↦ send_timed-IsPoint times p q v (ground (arith, e, z))
  ]

  -- A `p` command publishes points with fields of the right sizes.
  pub handle_sendpoint-IsPoint :
      (args : List Bytes) (q : Point)
      → (handle_sendpoint fl timegm args).published ≡ some q
      → IsPoint q
  unfolding handle_sendpoint
  handle_sendpoint-IsPoint (n ∷ t ∷ k ∷ dt ∷ d ∷ times) q e =
      let js : PointJs = record { t = some t; k = some k; dt = some dt; d = cstr d } in
      let (p, ret) = point_js_to_point fl js zero_point in
      send_point-IsPoint times p q ret
        (point_js_to_point-IsPoint fl js zero_point zero_point-IsPoint) e
  handle_sendpoint-IsPoint _ q e = absurd (ground (arith, e))
