-- ===== src/Cache/Shell/Stamped.antt =====
-- The timestamp of a `pt` line, and the command `p` with a timestamp behind its data.
use zephyr_siot.Base.{
  ◌^◌, ◌<◌, ℕ, zero, suc, ◌≤◌, ◌<◌, ◌≡◌, refl, ap, ◌==◌, true, false, Option, none, some, List, [],
  ◌∷◌, ◌++◌, leb, ltb, arith, Bool-cases, inl, inr,
}
use zephyr_siot.Base.Int.{ℤ, pos, negsuc, abs}
use zephyr_siot.CString.{Bytes, cstr, strlen}
use zephyr_siot.Point.{Point, zero_point, is_unknown, point_get_float, point_get_int}
use zephyr_siot.SiotString.Float.{Floats}
use zephyr_siot.Timeconv.{Tm, timeconv_epoch_ns_from_rfc3339}
use zephyr_siot.Timeconv.Printed.{printed, printed_lem, cstr-printed}
use zephyr_siot.Json.PointJs.{PointJs, point_data_to_string, point_js_to_point}
use zephyr_siot.Cache.Shell.{
  Line, text, pt_line, dt_name, point_emit, emit_data, emit_quoted, point_time_min,
  handle_sendpoint,
}

-- The point without its time.
abbrev pub untimed : Point → Point
untimed p = record p { time = 0 }

abbrev text_of : List Line → Bytes
text_of (text l ∷ ls) = l
text_of _ = []

emit_quoted-stamped :
    (x y z : Option Bytes) (p : Point) (l : Bytes)
    → point_time_min ≤ p.time
    → p.time < 2 ^ 64
    → emit_quoted x y z (untimed p) ≡ text l ∷ []
    → emit_quoted x y z p ≡ text (l ++ b' ' ∷ printed p.time) ∷ []
emit_quoted-stamped (some d) (some t) (some k) p l h b e =
    let late : leb point_time_min p.time ≡ true = ground arith in
    let same : pt_line t k (dt_name p.data_type) d ≡ l = ap text_of e in
    rw (late, printed_lem p.time b, cstr-printed p.time)
      (ap (λ x. text (x ++ b' ' ∷ printed p.time) ∷ []) same)
emit_quoted-stamped none y z p l h b e = absurd (cc)
emit_quoted-stamped (some d) none z p l h b e = absurd (cc)
emit_quoted-stamped (some d) (some t) none p l h b e = absurd (cc)

emit_data-stamped :
    (r : Option Bytes × ℤ) (p : Point) (l : Bytes)
    → point_time_min ≤ p.time
    → p.time < 2 ^ 64
    → emit_data r (untimed p) ≡ text l ∷ []
    → emit_data r p ≡ text (l ++ b' ' ∷ printed p.time) ∷ []
emit_data-stamped (some raw, pos zero) p l h b e = emit_quoted-stamped _ _ _ p l h b e
emit_data-stamped (some raw, pos (suc n)) p l h b e = absurd (cc)
emit_data-stamped (some raw, negsuc n) p l h b e = absurd (cc)
emit_data-stamped (none, n) p l h b e = absurd (cc)

module _ (fl : Floats) where
  untimed-text :
      (raw : Bytes) (p : Point)
      → point_data_to_string fl (untimed p) (some raw) 21 ≡ point_data_to_string fl p (some raw) 21
  unfolding point_data_to_string point_get_float point_get_int
  untimed-text raw p = refl

  untimed-is_unknown : (p : Point) → is_unknown (untimed p) ≡ is_unknown p
  unfolding is_unknown
  untimed-is_unknown p = refl

  -- A point with a plausible time is printed as without one, with the time behind it.
  pub point_emit-stamped :
      (raw : Bytes) (p : Point) (l : Bytes)
      → point_time_min ≤ p.time
      → p.time < 2 ^ 64
      → point_emit fl true raw (untimed p) ≡ text l ∷ []
      → point_emit fl true raw p ≡ text (l ++ b' ' ∷ printed p.time) ∷ []
  unfolding point_emit
  point_emit-stamped raw p l h b e = elim (Bool-cases (is_unknown p)) [
    | inl u ↦ let e' = rw (untimed-is_unknown p, u) at e in absurd (cc)
    | inr u ↦
        let e' = rw (untimed-text raw p, untimed-is_unknown p, u) at e in
        rw u (emit_data-stamped (point_data_to_string fl p (some raw) 21) p l h b e')
  ]

  -- A command that publishes a point publishes it with the time that a further word gives.
  pub handle_sendpoint-stamped :
      (timegm : Tm → ℤ) (name t k dt d time : Bytes) (q : Point) (n : ℕ)
      → handle_sendpoint fl timegm (name ∷ t ∷ k ∷ dt ∷ d ∷ [])
        ≡ record { ret = pos 0; lines = []; published = some q }
      → timeconv_epoch_ns_from_rfc3339 timegm (some time) (strlen time) ≡ n
      → 0 < n
      → handle_sendpoint fl timegm (name ∷ t ∷ k ∷ dt ∷ d ∷ time ∷ [])
        ≡ record { ret = pos 0; lines = []; published = some (record q { time = n }) }
  unfolding handle_sendpoint
  handle_sendpoint-stamped timegm name t k dt d time q n e r h =
      let js : PointJs = record { t = some t; k = some k; dt = some dt; d = cstr d } in
      let (p, ret) = point_js_to_point fl js zero_point in
      let nonzero : (n == 0) ≡ false = ground arith in
      elim (Bool-cases (ltb 0 (abs ret))) [
        | inl z ↦ let e' = ap (λ s. s.published) e in absurd (ground (arith, z, e'))
        | inr z ↦
            let same : p ≡ q = ground (arith, z, ap (λ s. s.published) e) in
            rw (z, r, nonzero, same) refl
      ]
