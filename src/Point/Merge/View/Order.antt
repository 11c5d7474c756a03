-- ===== src/Point/Merge/View/Order.antt =====
-- Merges of points in another order: the order matters only among points of one name.
use zephyr_siot.Base.{
  ℕ, zero, suc, ◌+◌, ◌≤◌, ◌<◌, ◌≡◌, refl, ap, sym, ◌∙◌, Bool, true, false, Option, none, some, List,
  [], ◌∷◌, if◌then◌else◌, length, set, arith, Bool-cases, Option-cases, inl, inr,
}
use zephyr_siot.Base.Int.{pos}
use zephyr_siot.CString.{Bytes, cstr}
use zephyr_siot.Point.{Point, IsPoint, is_empty}
use zephyr_siot.Point.Merge.{default_key, points_merge}
use zephyr_siot.Point.Merge.Scan.{
  or_else, find_empty, Placed, replaced, added, full, points_merge-Placed,
}
use zephyr_siot.Point.Merge.View.{
  ArePoints, is_usable, has_name, has_name_both, lookup, Agree, Distinct,
}
use zephyr_siot.Point.Merge.View.Keeps.{points_merge-keeps}
use zephyr_siot.Point.Merge.View.Outcome.{merge_all}
use zephyr_siot.Point.Merge.View.Latest.{latest, AreMerged, lookup-merge_all}

-- Two points that go to different slots: their names differ, a blank key read as "0".
abbrev pub IsOther : Point → Point → Type 0
IsOther p q =
    has_name (cstr (default_key p).type) (cstr (default_key p).key) (default_key q) ≡ false

-- The same points in another order, in which the points of one name follow each other as before.
pub data Reordered : List Point → List Point → Type 0 where
  same : (ps : List Point) → Reordered ps ps
  keep : (p : Point) {ps qs : List Point} → Reordered ps qs → Reordered (p ∷ ps) (p ∷ qs)
  swap : (p q : Point) (ps : List Point) → IsOther p q → Reordered (p ∷ q ∷ ps) (q ∷ p ∷ ps)
  step : {ps qs rs : List Point} → Reordered ps qs → Reordered qs rs → Reordered ps rs

-- Each of the points can be merged into a table with room.
abbrev pub AreUsable : List Point → Type 0
AreUsable [] = Unit
AreUsable (p ∷ ps) = IsPoint p × (is_usable (default_key p) ≡ true) × AreUsable ps

-- The slots that are free.
unfoldable pub free : List Point → ℕ
free [] = 0
free (q ∷ pts) = (if is_empty q then 1 else 0) + free pts

or_else-swap :
    (o : Option Point) (b c : Bool) (x y : Point)
    → (b ≡ true → c ≡ false)
    → or_else (or_else o (if b then some x else none)) (if c then some y else none)
      ≡ or_else (or_else o (if c then some y else none)) (if b then some x else none)
or_else-swap (some z) b c x y h = refl
or_else-swap none true true x y h = absurd (let e = h refl in cc)
or_else-swap none true false x y h = refl
or_else-swap none false true x y h = refl
or_else-swap none false false x y h = refl

latest-Reordered :
    (t k : Bytes) {ps qs : List Point} → Reordered ps qs → latest t k ps ≡ latest t k qs
unfolding latest
latest-Reordered t k (same ps) = refl
latest-Reordered t k (keep p r) =
    ap (λ o. or_else o (if has_name t k (default_key p) then some (default_key p) else none))
      (latest-Reordered t k r)
latest-Reordered t k (swap p q ps d) =
    or_else-swap (latest t k ps) (has_name t k (default_key q)) (has_name t k (default_key p))
      (default_key q) (default_key p)
      (λ h. elim (Bool-cases (has_name t k (default_key p))) [
        | inl e ↦ absurd (let both = has_name_both (default_key q) (default_key p) t k h e in cc)
        | inr e ↦ e
      ])
latest-Reordered t k (step r r') = latest-Reordered t k r ∙ latest-Reordered t k r'

length-Reordered : {ps qs : List Point} → Reordered ps qs → length ps ≡ length qs
length-Reordered (same ps) = refl
length-Reordered (keep p r) = ap suc (length-Reordered r)
length-Reordered (swap p q ps d) = refl
length-Reordered (step r r') = length-Reordered r ∙ length-Reordered r'

AreUsable-Reordered : {ps qs : List Point} → Reordered ps qs → AreUsable ps → AreUsable qs
AreUsable-Reordered (same ps) u = u
AreUsable-Reordered (keep p r) (v, u, us) = (v, u, AreUsable-Reordered r us)
AreUsable-Reordered (swap p q ps d) (v, u, (v', u', us)) = (v', u', (v, u, us))
AreUsable-Reordered (step r r') u = AreUsable-Reordered r' (AreUsable-Reordered r u)

free-set : (pts : List Point) (j : ℕ) (p : Point) → free pts ≤ free (set pts j p) + 1
unfolding free
free-set [] j p = omega arith
free-set (q ∷ pts) zero p = ground arith
free-set (q ∷ pts) (suc j) p = ground (arith, free-set pts j p)

find_empty-free : (pts : List Point) → find_empty pts ≡ none → free pts ≡ 0
unfolding find_empty free
find_empty-free [] h = refl
find_empty-free (q ∷ pts) h = ground (arith, Option-cases (find_empty pts), find_empty-free pts)

-- A merge into a table with a free slot succeeds and takes one slot at most.
Placed-room :
    (pts : List Point) (q : Point) {after : List Point} {ret : _}
    → 0 < free pts
    → Placed pts q after ret
    → (ret ≡ pos 0) × (free pts ≤ free after + 1)
Placed-room pts q h (replaced j e) = (refl, free-set pts j q)
Placed-room pts q h (added j e k) = (refl, free-set pts j q)
Placed-room pts q h (full e k) = absurd (omega (arith, h, find_empty-free pts k))

-- Points that can be used are merged into a table with a free slot for each.
pub AreMerged-free :
    (pts ps : List Point)
    → ArePoints pts
    → Distinct pts
    → AreUsable ps
    → length ps ≤ free pts
    → AreMerged pts ps
AreMerged-free pts [] v d u h = tt
AreMerged-free pts (p ∷ ps) v d (vp, u, us) h =
    let (v', d', _) = points_merge-keeps pts p v vp d in
    let (r, f) = Placed-room pts (default_key p) (omega (arith, h)) (points_merge-Placed pts p) in
    (vp, u, r, AreMerged-free (points_merge pts p).points ps v' d' us (omega (arith, h, f)))

-- Points that can be used, merged into a table with a free slot for each, give tables that agree in every
-- order that keeps the order of the points of one name.
pub merge_all-Agree :
    (pts ps qs : List Point)
    → ArePoints pts
    → Distinct pts
    → AreUsable ps
    → length ps ≤ free pts
    → Reordered ps qs
    → Agree (merge_all pts ps) (merge_all pts qs)
merge_all-Agree pts ps qs v d u h r t k =
    lookup-merge_all t k pts ps v d (AreMerged-free pts ps v d u h)
    ∙ ap (λ o. or_else o (lookup t k pts)) (latest-Reordered t k r)
    ∙ sym (
        lookup-merge_all t k pts qs v d (
          AreMerged-free pts qs v d (AreUsable-Reordered r u)
            (omega (arith, h, length-Reordered r))))
