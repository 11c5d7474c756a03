-- ===== src/Point/Merge/View/Latest.antt =====
-- A table after a sequence of merges holds, for each name, the last point of that name.
use zephyr_siot.Base.{
  ◌<◌, ◌≡◌, ◌==◌, refl, ap, ◌∙◌, Bool, true, false, Option, none, some, List, [], ◌∷◌,
  if◌then◌else◌, map, Bool-cases, inl, inr, length, arith,
}
use zephyr_siot.Base.Int.{pos}
use zephyr_siot.CString.{Bytes, first, strncpy}
use zephyr_siot.Point.{Point, IsPoint}
use zephyr_siot.Point.Merge.{default_key, points_merge}
use zephyr_siot.Point.Merge.Scan.{or_else}
use zephyr_siot.Point.Merge.View.{ArePoints, is_usable, has_name, lookup, Distinct}
use zephyr_siot.Point.Merge.View.Lookup.{lookup-points_merge}
use zephyr_siot.Point.Merge.View.Keeps.{default_key-IsPoint, points_merge-keeps}
use zephyr_siot.Point.Merge.View.Outcome.{merge_all}

-- The last of the points that has the name `(t, k)`, with its default key.
unfoldable pub latest : Bytes → Bytes → List Point → Option Point
latest t k [] = none
latest t k (p ∷ ps) =
    or_else (latest t k ps) (if has_name t k (default_key p) then some (default_key p) else none)

-- Each of the points is usable, and its merge succeeds.
abbrev pub AreMerged : List Point → List Point → Type 0
AreMerged pts [] = Unit
AreMerged pts (p ∷ ps) =
    IsPoint p
    × (is_usable (default_key p) ≡ true)
    × ((points_merge pts p).ret ≡ pos 0)
    × AreMerged (points_merge pts p).points ps

or_else-if :
    (o : Option Point) (b : Bool) (x : Point) (y : Option Point)
    → or_else o (if b then some x else y) ≡ or_else (or_else o (if b then some x else none)) y
or_else-if none true x y = refl
or_else-if none false x y = refl
or_else-if (some z) b x y = refl

-- After merges that succeed, a table holds for each name the last point merged with that name, and what
-- it held before if there is none.
pub lookup-merge_all :
    (t k : Bytes) (pts ps : List Point)
    → ArePoints pts
    → Distinct pts
    → AreMerged pts ps
    → lookup t k (merge_all pts ps) ≡ or_else (latest t k ps) (lookup t k pts)
unfolding merge_all latest
lookup-merge_all t k pts [] v d h = refl
lookup-merge_all t k pts (p ∷ ps) v d (vp, u, r, h) =
    let (v', d', _) = points_merge-keeps pts p v vp d in
    let q = default_key p in
    lookup-merge_all t k (points_merge pts p).points ps v' d' h
    ∙ ap (or_else (latest t k ps)) (lookup-points_merge t k pts p v (default_key-IsPoint p vp) u r)
    ∙ or_else-if (latest t k ps) (has_name t k q) q (lookup t k pts)

first-zero_key : (key : Bytes) → 0 < length key → first (strncpy key (b'0' ∷ []) 2) ≡ b'0'
unfolding first strncpy
first-zero_key [] h = absurd (omega arith)
first-zero_key (c ∷ key) h = refl

-- A key that is not blank stays.
pub default_key-default_key : (p : Point) → IsPoint p → default_key (default_key p) ≡ default_key p
unfolding default_key
default_key-default_key p v = elim (Bool-cases (first p.key == 0)) [
  | inl e ↦
      let f = first-zero_key p.key (omega (arith, v.key_len)) in
      let g : (first (strncpy p.key (b'0' ∷ []) 2) == 0) ≡ false = rw f refl in rw e (rw g refl)
  | inr e ↦ rw e (rw e refl)
]

-- The points as they were published are the latest of the points as they came.
pub latest-map :
    (t k : Bytes) (ps : List Point) → ArePoints ps → latest t k (map default_key ps) ≡ latest t k ps
unfolding latest
latest-map t k [] v = refl
latest-map t k (p ∷ ps) (vp, v) = rw (latest-map t k ps v, default_key-default_key p vp) refl
