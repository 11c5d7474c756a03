-- ===== src/Point/Merge/View/Keeps.antt =====
-- What a merge keeps: the sizes of the fields, one slot for each name, and slots it cannot use.
use zephyr_siot.Base.{
  ℕ, zero, suc, ◌≡◌, true, false, ◌&&◌, none, some, List, [], ◌∷◌, arith, refl, set, length,
  Option-cases, length-set, bytes_eq→eq,
}
use zephyr_siot.Base.Int.{ℤ}
use zephyr_siot.CString.{Bytes, cstr}
use zephyr_siot.CString.Laws.{length-strncpy}
use zephyr_siot.Point.{Point, IsPoint, is_empty, is_unknown}
use zephyr_siot.Point.Merge.{default_key, points_merge}
use zephyr_siot.Point.Merge.Scan.{
  is_match, find_match, Placed, replaced, added, full, points_merge-Placed,
}
use zephyr_siot.Point.Merge.View.{
  ArePoints, is_usable, has_name, lookup, Distinct, has_name_self, has_name_both,
}
use zephyr_siot.Point.Merge.View.Lookup.{is_match-name}

pub default_key-IsPoint : (p : Point) → IsPoint p → IsPoint (default_key p)
unfolding default_key
default_key-IsPoint p v = ground (arith, length-strncpy p.key (b'0' ∷ []) 2)

pub is_usable-default_key : (p : Point) → is_usable (default_key p) ≡ is_usable p
unfolding default_key is_usable is_empty is_unknown
is_usable-default_key p = ground arith

has_name→eq :
    (p q : Point)
    → has_name (cstr p.type) (cstr p.key) q ≡ true
    → (cstr q.type ≡ cstr p.type) × (cstr q.key ≡ cstr p.key)
unfolding has_name
has_name→eq p q h =
    ground (arith, bytes_eq→eq (cstr q.type) (cstr p.type), bytes_eq→eq (cstr q.key) (cstr p.key))

ArePoints-set :
    (pts : List Point) (j : ℕ) (p : Point) → ArePoints pts → IsPoint p → ArePoints (set pts j p)
ArePoints-set [] j p v w = v
ArePoints-set (q ∷ pts) zero p (_, v) w = (w, v)
ArePoints-set (q ∷ pts) (suc j) p (vq, v) w = (vq, ArePoints-set pts j p v w)

lookup-set-none :
    (t k : Bytes) (pts : List Point) (j : ℕ) (p : Point)
    → lookup t k pts ≡ none
    → (is_usable p && has_name t k p) ≡ false
    → lookup t k (set pts j p) ≡ none
unfolding lookup
lookup-set-none t k [] j p h e = refl
lookup-set-none t k (q ∷ pts) zero p h e = ground arith
lookup-set-none t k (q ∷ pts) (suc j) p h e = ground (arith, lookup-set-none t k pts j p)

pub find_match-some_zero :
    (p q : Point) (pts : List Point) → find_match p (q ∷ pts) ≡ some 0 → is_match p q ≡ true
unfolding find_match
find_match-some_zero p q pts h = ground (arith, Option-cases (find_match p pts))

pub find_match-some-suc :
    (p q : Point) (pts : List Point) (j : ℕ)
    → find_match p (q ∷ pts) ≡ some (suc j)
    → (is_match p q ≡ false) × (find_match p pts ≡ some j)
unfolding find_match
find_match-some-suc p q pts j h = ground (arith, Option-cases (find_match p pts))

find_match-none :
    (p q : Point) (pts : List Point)
    → find_match p (q ∷ pts) ≡ none
    → (is_match p q ≡ false) × (find_match p pts ≡ none)
unfolding find_match
find_match-none p q pts h = ground (arith, Option-cases (find_match p pts))

module _ (p : Point) (vp : IsPoint p) where
  lookup-no_match :
      (pts : List Point)
      → ArePoints pts
      → find_match p pts ≡ none
      → lookup (cstr p.type) (cstr p.key) pts ≡ none
  unfolding lookup find_match
  lookup-no_match [] v h = refl
  lookup-no_match (q ∷ pts) (vq, v) h =
      ground
        (arith, is_match-name p q vp vq, Option-cases (find_match p pts), lookup-no_match pts v)

  -- A slot that is not a match is not found under the name of `p`, and the other way round.
  not_named :
      (q : Point)
      → IsPoint q
      → is_match p q ≡ false
      → is_usable q ≡ true
      → (is_usable p && has_name (cstr q.type) (cstr q.key) p) ≡ false
  not_named q vq h u = ground (
    arith,
    is_match-name p q vp vq,
    has_name_self q,
    has_name_both q p (cstr q.type) (cstr q.key),
  )

  -- The new head of a table, in the place of a match.
  head_replaced :
      (q : Point) (pts : List Point)
      → IsPoint q
      → is_match p q ≡ true
      → (is_usable q ≡ true → lookup (cstr q.type) (cstr q.key) pts ≡ none)
      → lookup (cstr p.type) (cstr p.key) pts ≡ none
  head_replaced q pts vq m dq = ground (arith, is_match-name p q vp vq, has_name→eq p q, dq)

  Distinct-set_match :
      (pts : List Point) (j : ℕ)
      → ArePoints pts
      → Distinct pts
      → find_match p pts ≡ some j
      → Distinct (set pts j p)
  Distinct-set_match [] j v d h = d
  Distinct-set_match (q ∷ pts) zero (vq, v) (dq, d) h =
      (λ _. head_replaced q pts vq (find_match-some_zero p q pts h) dq, d)
  Distinct-set_match (q ∷ pts) (suc j) (vq, v) (dq, d) h =
      let (m, h') = find_match-some-suc p q pts j h in
      (
        λ u. lookup-set-none _ _ pts j p (dq u) (not_named q vq m u),
        Distinct-set_match pts j v d h',
      )

  Distinct-set_empty :
      (pts : List Point) (j : ℕ)
      → ArePoints pts
      → Distinct pts
      → find_match p pts ≡ none
      → Distinct (set pts j p)
  Distinct-set_empty [] j v d h = d
  Distinct-set_empty (q ∷ pts) zero (vq, v) (dq, d) h =
      (λ _. lookup-no_match pts v (find_match-none p q pts h).1, d)
  Distinct-set_empty (q ∷ pts) (suc j) (vq, v) (dq, d) h =
      let (m, h') = find_match-none p q pts h in
      (
        λ u. lookup-set-none _ _ pts j p (dq u) (not_named q vq m u),
        Distinct-set_empty pts j v d h',
      )

Placed-keeps :
    (pts : List Point) (q : Point) {after : List Point} {ret : ℤ}
    → ArePoints pts
    → IsPoint q
    → Distinct pts
    → Placed pts q after ret
    → ArePoints after × Distinct after × (length after ≡ length pts)
Placed-keeps pts q v vq d (replaced j h) =
    (ArePoints-set pts j q v vq, Distinct-set_match q vq pts j v d h, length-set pts j q)
Placed-keeps pts q v vq d (added j h k) =
    (ArePoints-set pts j q v vq, Distinct-set_empty q vq pts j v d h, length-set pts j q)
Placed-keeps pts q v vq d (full h k) = (v, d, refl)

-- A merge of any point, usable or not, keeps the table well formed: field sizes, at most one usable
-- slot for each name, and the number of slots.
pub points_merge-keeps :
    (pts : List Point) (p : Point)
    → ArePoints pts
    → IsPoint p
    → Distinct pts
    → let after = (points_merge pts p).points in
      ArePoints after × Distinct after × (length after ≡ length pts)
points_merge-keeps pts p v vp d =
    Placed-keeps pts (default_key p) v (default_key-IsPoint p vp) d (points_merge-Placed pts p)
