-- ===== src/Cache/Shell/Told/Published.antt =====
-- The point that a `pt` line publishes as a `p` command.
use zephyr_siot.Base.{List, ◌≡◌, refl, ap, ◌∙◌, ◌==◌, true, false, arith, inl, inr}
use zephyr_siot.Base.Int.{ℤ}
use zephyr_siot.CString.{Bytes, first}
use zephyr_siot.CString.Laws.{first-cstr}
use zephyr_siot.Point.{Point, IsPoint, is_empty}
use zephyr_siot.Point.Merge.{default_key}
use zephyr_siot.Point.Merge.View.{is_usable, has_name}
use zephyr_siot.SiotString.Float.{Floats}
use zephyr_siot.Timeconv.{Tm}
use zephyr_siot.Cache.Shell.Sizes.{handle_sendpoint-IsPoint}
use zephyr_siot.Cache.Shell.Told.{PtLine, usable_lem}

module _ (fl : Floats) (timegm : Tm → ℤ) (argv : Bytes → List Bytes) (raw : Bytes) where
  abbrev LineOf : Point → Type 0
  LineOf p = PtLine fl timegm argv raw p

  -- The point that is published has the sizes, a type and a key.
  pub told-IsPoint : (p : Point) (t : LineOf p) → IsPoint t.told_point
  told-IsPoint p t =
      handle_sendpoint-IsPoint fl timegm _ t.told_point (ap (λ s. s.published) t.command.sent)

  told-typed : (p : Point) (t : LineOf p) → is_empty p ≡ false → is_empty t.told_point ≡ false
  unfolding is_empty
  told-typed p t e =
      ground (arith, e, first-cstr t.told_point.type, first-cstr p.type, t.copy.same_type)

  pub told-default :
      (p : Point) (t : LineOf p)
      → (first p.key == 0) ≡ false
      → default_key t.told_point ≡ t.told_point
  unfolding default_key
  told-default p t e =
      ground (arith, e, first-cstr t.told_point.key, first-cstr p.key, t.copy.same_key)

  pub told-usable : (p : Point) (t : LineOf p) → is_empty p ≡ false → is_usable t.told_point ≡ true
  told-usable p t e =
      let d = t.copy.same_data_type in
      usable_lem t.told_point (told-typed p t e)
        (elim t.copy.same_value [ inl (f, _) ↦ inl (d ∙ f) | inr (f, _) ↦ inr (d ∙ f) ])

  pub told-name :
      (p : Point) (t : LineOf p) (ty k : Bytes) → has_name ty k t.told_point ≡ has_name ty k p
  unfolding has_name
  told-name p t ty k = rw (t.copy.same_type, t.copy.same_key) refl
