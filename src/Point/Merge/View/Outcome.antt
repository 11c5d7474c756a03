-- ===== src/Point/Merge/View/Outcome.antt =====
-- When a merge fails, and the slots that no merge can use again.
use zephyr_siot.Base.{
  ℕ, zero, suc, ◌≡◌, ◌≢◌, ◌↔◌, true, false, none, some, List, [], ◌∷◌, arith, refl, set, get_elem?,
  Option-cases, inl, inr, ◌⊎◌, ap, ◌∙◌, get_elem?-set_ne,
}
use native.Mathlib.Decide.{ℕ_discrete}
use zephyr_siot.Base.Int.{ℤ, pos}
use zephyr_siot.CString.{cstr}
use zephyr_siot.Point.{Point, IsPoint, is_empty, is_unknown}
use zephyr_siot.Point.Merge.{neg_enomem, default_key, points_merge}
use zephyr_siot.Point.Merge.Scan.{
  is_match, find_match, find_empty, Placed, replaced, added, full, points_merge-Placed,
}
use zephyr_siot.Point.Merge.View.{ArePoints, lookup}
use zephyr_siot.Point.Merge.View.Lookup.{is_match-name}
use zephyr_siot.Point.Merge.View.Keeps.{
  default_key-IsPoint, find_match-some_zero, find_match-some-suc,
}

-- Every slot holds a point.
abbrev pub IsFull : List Point → Type 0
IsFull [] = Unit
IsFull (q ∷ pts) = (is_empty q ≡ false) × IsFull pts

find_empty-IsFull : (pts : List Point) → (find_empty pts ≡ none) ↔ IsFull pts
unfolding find_empty
find_empty-IsFull [] = (λ _. tt, λ _. refl)
find_empty-IsFull (q ∷ pts) =
    let ih = find_empty-IsFull pts in
    let cases = Option-cases (find_empty pts) in
    (λ h. ground (arith, ih.0), λ h. ground (arith, ih.1))

pub find_match-lookup :
    (p : Point) (pts : List Point)
    → IsPoint p
    → ArePoints pts
    → (find_match p pts ≡ none) ↔ (lookup (cstr p.type) (cstr p.key) pts ≡ none)
unfolding find_match lookup
find_match-lookup p [] vp v = (λ _. refl, λ _. refl)
find_match-lookup p (q ∷ pts) vp (vq, v) =
    let ih = find_match-lookup p pts vp v in
    let cases = Option-cases (find_match p pts) in
    let name = is_match-name p q vp vq in (λ h. ground (arith, ih.0), λ h. ground (arith, ih.1))

full_iff :
    (pts : List Point) (q : Point) {after : List Point} {ret : ℤ}
    → Placed pts q after ret
    → (ret ≡ neg_enomem) ↔ ((find_match q pts ≡ none) × (find_empty pts ≡ none))
full_iff pts q (replaced j h) = (λ e. cc, λ e. absurd (ground (arith, e)))
full_iff pts q (added j h k) = (λ e. cc, λ e. absurd (ground (arith, e)))
full_iff pts q (full h k) = (λ _. (h, k), λ _. refl)

full_unchanged :
    (pts : List Point) (q : Point) {after : List Point} {ret : ℤ}
    → Placed pts q after ret
    → (ret ≡ pos 0) ⊎ ((ret ≡ neg_enomem) × (after ≡ pts))
full_unchanged pts q (replaced j h) = inl refl
full_unchanged pts q (added j h k) = inl refl
full_unchanged pts q (full h k) = inr (refl, refl)

-- A merge fails with -ENOMEM exactly when every slot holds a point and no usable one has the name of
-- the new point (its key read as "0" when blank). It returns 0 otherwise, and a failure leaves the
-- table unchanged.
pub points_merge_fails :
    (pts : List Point) (p : Point)
    → ArePoints pts
    → IsPoint p
    → let q = default_key p in
      let r = points_merge pts p in
      ((r.ret ≡ neg_enomem) ↔ (IsFull pts × (lookup (cstr q.type) (cstr q.key) pts ≡ none)))
      × ((r.ret ≡ pos 0) ⊎ ((r.ret ≡ neg_enomem) × (r.points ≡ pts)))
points_merge_fails pts p v vp =
    let q = default_key p in
    let iff = full_iff pts q (points_merge-Placed pts p) in
    let named = find_match-lookup q pts (default_key-IsPoint p vp) v in
    let room = find_empty-IsFull pts in
    (
      (λ e. (room.0 (iff.0 e).1, named.0 (iff.0 e).0), λ e. iff.1 (named.1 e.1, room.1 e.0)),
      full_unchanged pts q (points_merge-Placed pts p),
    )

pub find_match-get :
    (p : Point) (pts : List Point) (j : ℕ)
    → find_match p pts ≡ some j
    → (x : Point) × (get_elem? pts j ≡ some x) × (is_match p x ≡ true)
find_match-get p [] j h = unfold find_match in cc
find_match-get p (q ∷ pts) zero h = (q, refl, find_match-some_zero p q pts h)
find_match-get p (q ∷ pts) (suc j) h = find_match-get p pts j (find_match-some-suc p q pts j h).1

pub find_empty-get :
    (pts : List Point) (j : ℕ)
    → find_empty pts ≡ some j
    → (x : Point) × (get_elem? pts j ≡ some x) × (is_empty x ≡ true)
find_empty-get [] j h = unfold find_empty in cc
find_empty-get (q ∷ pts) zero h =
    (q, refl, unfold find_empty in ground (arith, Option-cases (find_empty pts)))
find_empty-get (q ∷ pts) (suc j) h =
    find_empty-get pts j (unfold find_empty in ground (arith, Option-cases (find_empty pts)))

set-other :
    (pts : List Point) (i j : ℕ) (p q : Point)
    → get_elem? pts i ≡ some q
    → ((x : Point) × (get_elem? pts j ≡ some x) × (x ≢ q))
    → get_elem? (set pts j p) i ≡ some q
set-other pts i j p q h (x, g, ne) = elim (ℕ_discrete j i) [
  | yes e ↦ absurd (ne (cc))
  | no n ↦ get_elem?-set_ne pts p n ∙ h
]

stuck_slot :
    (pts : List Point) (p q : Point) (i : ℕ) {after : List Point} {ret : ℤ}
    → get_elem? pts i ≡ some q
    → is_empty q ≡ false
    → is_unknown q ≡ true
    → Placed pts p after ret
    → get_elem? after i ≡ some q
stuck_slot pts p q i g e u (replaced j h) =
    let (x, gx, m) = find_match-get p pts j h in
    set-other pts i j p q g (x, gx, λ r. unfold is_match in ground (arith, ap is_unknown r))
stuck_slot pts p q i g e u (added j h k) =
    let (x, gx, m) = find_empty-get pts j k in
    set-other pts i j p q g (x, gx, λ r. ground (arith, ap is_empty r))
stuck_slot pts p q i g e u (full h k) = g

-- The table after a sequence of merges, as the subscriber threads make them.
unfoldable pub merge_all : List Point → List Point → List Point
merge_all pts [] = pts
merge_all pts (p ∷ ps) = merge_all (points_merge pts p).points ps

-- A slot that holds a point of unknown data type keeps that very point through any sequence of
-- merges, also of points with its type and key: the slot is lost to the table.
pub merge_all-stuck :
    (ps pts : List Point) (q : Point) (i : ℕ)
    → get_elem? pts i ≡ some q
    → is_empty q ≡ false
    → is_unknown q ≡ true
    → get_elem? (merge_all pts ps) i ≡ some q
unfolding merge_all
merge_all-stuck [] pts q i g e u = g
merge_all-stuck (p ∷ ps) pts q i g e u =
    merge_all-stuck ps _ q i (stuck_slot pts (default_key p) q i g e u (points_merge-Placed pts p))
      e u
