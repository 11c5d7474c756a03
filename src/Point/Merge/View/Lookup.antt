-- ===== src/Point/Merge/View/Lookup.antt =====
-- A merge is an update of the map: the name of the point gets it, every other name is unchanged.
use zephyr_siot.Base.{
  ℕ, zero, suc, ◌≡◌, true, false, ◌&&◌, none, some, List, [], ◌∷◌, arith, if◌then◌else◌, set,
  Option-cases, inl, inr,
}
use zephyr_siot.Base.Int.{pos}
use zephyr_siot.CString.{Bytes, cstr}
use zephyr_siot.Point.{Point, IsPoint, is_empty}
use zephyr_siot.Point.Merge.{default_key, points_merge}
use zephyr_siot.Point.Merge.Scan.{is_match, find_match, find_empty, points_merge-place}
use zephyr_siot.Point.Merge.View.{
  ArePoints, is_usable, has_name, lookup, is_match-eq, same_name-eq, has_name-same, has_name_both,
}

pub is_match-name :
    (p q : Point)
    → IsPoint p
    → IsPoint q
    → is_match p q ≡ is_usable q && has_name (cstr p.type) (cstr p.key) q
is_match-name p q vp vq = ground (arith, is_match-eq p q, same_name-eq q p vq vp)

empty-usable : (q : Point) → is_empty q ≡ true → is_usable q ≡ false
unfolding is_usable
empty-usable q h = ground arith

module _ (t k : Bytes) (p : Point) (vp : IsPoint p) where
  lookup-set_match :
      (pts : List Point) (j : ℕ)
      → ArePoints pts
      → is_usable p ≡ true
      → find_match p pts ≡ some j
      → lookup t k (set pts j p) ≡ (if has_name t k p then some p else lookup t k pts)
  unfolding lookup find_match
  lookup-set_match [] j v u h = cc
  lookup-set_match (q ∷ pts) zero (vq, v) u h =
      ground
        (arith, is_match-name p q vp vq, has_name-same q p t k, Option-cases (find_match p pts))
  lookup-set_match (q ∷ pts) (suc j) (vq, v) u h = ground (
    arith,
    is_match-name p q vp vq,
    has_name_both q p t k,
    Option-cases (find_match p pts),
    lookup-set_match pts j v u,
  )

  lookup-set_empty :
      (pts : List Point) (j : ℕ)
      → ArePoints pts
      → is_usable p ≡ true
      → find_match p pts ≡ none
      → find_empty pts ≡ some j
      → lookup t k (set pts j p) ≡ (if has_name t k p then some p else lookup t k pts)
  unfolding lookup find_match find_empty
  lookup-set_empty [] j v u n h = cc
  lookup-set_empty (q ∷ pts) zero (vq, v) u n h =
      ground (arith, empty-usable q, Option-cases (find_empty pts))
  lookup-set_empty (q ∷ pts) (suc j) (vq, v) u n h = ground (
    arith,
    is_match-name p q vp vq,
    has_name_both q p t k,
    Option-cases (find_match p pts),
    Option-cases (find_empty pts),
    lookup-set_empty pts j v u,
  )

-- A successful merge of a usable point is an update of the map at the name of the point.
pub lookup-points_merge :
    (t k : Bytes) (pts : List Point) (p : Point)
    → ArePoints pts
    → IsPoint (default_key p)
    → is_usable (default_key p) ≡ true
    → (points_merge pts p).ret ≡ pos 0
    → lookup t k (points_merge pts p).points
      ≡ (if has_name t k (default_key p) then some (default_key p) else lookup t k pts)
lookup-points_merge t k pts p v vq u h =
    let q = default_key p in
    elim (Option-cases (find_match q pts)) [
      | inl e ↦ elim (Option-cases (find_empty pts)) [
        | inl e' ↦ ground (arith, points_merge-place pts p)
        | inr (j, e') ↦
            ground (arith, points_merge-place pts p, lookup-set_empty t k q vq pts j v u e e')
      ]
      | inr (j, e) ↦ ground (arith, points_merge-place pts p, lookup-set_match t k q vq pts j v u e)
    ]
