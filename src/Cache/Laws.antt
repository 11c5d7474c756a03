-- ===== src/Cache/Laws.antt =====
-- The invariant of the cache, its count, and the order of its iteration.
use zephyr_siot.Base.{
  ℕ, zero, suc, ◌+◌, ◌≡◌, ◌≢◌, refl, ap, ◌∙◌, Bool, false, Option, none, some, List, [], ◌∷◌, arith,
  if◌then◌else◌, length, set, replicate, length-replicate, get_elem?, Option-cases, inl, inr, ltb,
}
use zephyr_siot.Base.Int.{ℤ, pos, abs}
use zephyr_siot.CString.{cstr, first}
use zephyr_siot.Point.{Point, IsPoint, zero_point, is_empty}
use zephyr_siot.Point.Merge.{default_key, points_merge}
use zephyr_siot.Point.Merge.Scan.{
  is_match, find_match, Placed, replaced, added, full, points_merge-Placed,
}
use zephyr_siot.Point.Merge.View.{ArePoints, is_usable, lookup, Distinct}
use zephyr_siot.Point.Merge.View.Keeps.{points_merge-keeps, default_key-IsPoint}
use zephyr_siot.Point.Merge.View.Outcome.{find_match-get, find_empty-get, find_match-lookup}
use zephyr_siot.Cache.{
  Cache, initial, point_cache_merge, count_loop, point_cache_count, foreach_loop,
  point_cache_foreach,
}

-- A cache of `size` slots with fields of the right sizes and one slot at most for each name.
pub record IsCache (size : ℕ) (c : Cache) : Type 0 where
  pub points : ArePoints c.slots
  pub distinct : Distinct c.slots
  pub slots_len : length c.slots ≡ size

zero_point-unusable : is_usable zero_point ≡ false
unfolding is_usable is_empty first
zero_point-unusable = refl

pub zeros_lem : (n : ℕ) → ArePoints (replicate n zero_point) × Distinct (replicate n zero_point)
zeros_lem zero = (tt, tt)
zeros_lem (suc n) =
    let (a, b) = zeros_lem n in
    (
      (record { type_len = refl; key_len = refl; data_len = refl }, a),
      (λ u. ground (arith, zero_point-unusable), b),
    )

pub initial-IsCache : (size : ℕ) → IsCache size (initial size)
initial-IsCache size =
    let (a, b) = zeros_lem size in
    record { points = a; distinct = b; slots_len = length-replicate size zero_point }

-- The points that were merged into a cache, in order.
unfoldable pub merged : Cache → List Point → Cache
merged c [] = c
merged c (p ∷ ps) = merged (point_cache_merge c p).0 ps

-- Merging keeps the invariant of the cache, whatever the points: one slot at most for each name, the
-- sizes of the fields and the number of slots.
pub merged-IsCache :
    (size : ℕ) (ps : List Point) (c : Cache)
    → IsCache size c
    → ArePoints ps
    → IsCache size (merged c ps)
unfolding merged point_cache_merge
merged-IsCache size [] c v h = v
merged-IsCache size (p ∷ ps) c v (hp, h) =
    let (a, b, len) = points_merge-keeps c.slots p v.points hp v.distinct in
    merged-IsCache size ps _ (record { points = a; distinct = b; slots_len = len ∙ v.slots_len }) h

-- The slots that hold a point.
unfoldable pub occupied : List Point → List Point
occupied [] = []
occupied (q ∷ slots) = if is_empty q then occupied slots else q ∷ occupied slots

count_loop-occupied :
    (slots : List Point) (n : ℕ) → count_loop slots n ≡ n + length (occupied slots)
unfolding count_loop occupied
count_loop-occupied [] n = omega arith
count_loop-occupied (q ∷ slots) n =
    ground (arith, count_loop-occupied slots n, count_loop-occupied slots (n + 1))

length-occupied-set :
    (slots : List Point) (j : ℕ) (x p : Point)
    → get_elem? slots j ≡ some x
    → is_empty p ≡ false
    → length (occupied (set slots j p)) ≡ length (occupied slots) + (if is_empty x then 1 else 0)
unfolding occupied
length-occupied-set [] j x p h e = cc
length-occupied-set (q ∷ slots) zero x p h e = ground arith
length-occupied-set (q ∷ slots) (suc j) x p h e = ground (arith, length-occupied-set slots j x p)

count-Placed :
    (slots : List Point) (p : Point) {after : List Point} {ret : ℤ}
    → is_empty p ≡ false
    → ret ≡ pos 0
    → Placed slots p after ret
    → (find_match p slots ≡ none → length (occupied after) ≡ length (occupied slots) + 1)
      × (find_match p slots ≢ none → length (occupied after) ≡ length (occupied slots))
count-Placed slots p e r (replaced j h) =
    let (x, g, m) = find_match-get p slots j h in
    let nonempty : is_empty x ≡ false = unfold is_match in ground arith in
    (
      λ n. absurd (ground (arith, n, h)),
      λ _. omega (arith, length-occupied-set slots j x p g e, ap grown nonempty),
    )
  where
    grown : Bool → ℕ
    grown b = if b then 1 else 0
count-Placed slots p e r (added j h k) =
    let (x, g, m) = find_empty-get slots j k in
    (λ _. omega (arith, length-occupied-set slots j x p g e, ap grown m), λ n. absurd (n h))
  where
    grown : Bool → ℕ
    grown b = if b then 1 else 0
count-Placed slots p e r (full h k) = absurd (ground (arith, r))

-- What a merge adds to the count, by the point that had the name before.
abbrev pub growth : Option Point → ℕ
growth none = 1
growth (some q) = 0

-- A successful merge of a point with a type adds one to the count if the cache had no usable point of
-- its name, and leaves the count if it had one.
pub point_cache_count-merge :
    (c : Cache) (p : Point)
    → ArePoints c.slots
    → IsPoint p
    → is_empty (default_key p) ≡ false
    → (point_cache_merge c p).2 ≡ pos 0
    → point_cache_count (point_cache_merge c p).0
      ≡ point_cache_count c
        + growth (lookup (cstr (default_key p).type) (cstr (default_key p).key) c.slots)
unfolding point_cache_merge point_cache_count
point_cache_count-merge c p v vp e r =
    let q = default_key p in
    let named = find_match-lookup q c.slots (default_key-IsPoint p vp) v in
    let (new, old) = count-Placed c.slots q e r (points_merge-Placed c.slots p) in
    let before = count_loop-occupied c.slots 0 in
    let after = count_loop-occupied (points_merge c.slots p).points 0 in
    elim (Option-cases (lookup (cstr q.type) (cstr q.key) c.slots)) [
      | inl h ↦ rw h (omega (arith, before, after, new (named.1 h)))
      | inr (x, h) ↦
          let other : find_match q c.slots ≢ none = λ n. absurd (ground (arith, named.0 n, h)) in
          rw h (omega (arith, before, after, old other))
    ]

-- The callbacks of the file leave the point as it is.
module _ {ℓ} {U : Type ℓ} (step : Point → U → U) (code : Point → U → ℤ) where
  -- What an iteration does over a list of points: each is visited, until a code is not 0.
  unfoldable pub visit : List Point → U → ℤ → U × ℤ
  visit [] u ret = (u, ret)
  visit (q ∷ slots) u ret =
      let next = visit slots (step q u) (code q u) in
      if ltb 0 (abs (code q u)) then (step q u, code q u) else next

  foreach_loop-visit :
      (slots : List Point) (u : U) (ret : ℤ)
      → foreach_loop (λ q w. (q, step q w, code q w)) slots u ret
        ≡ (slots, (visit (occupied slots) u ret).0, (visit (occupied slots) u ret).1)
  unfolding foreach_loop visit occupied
  foreach_loop-visit [] u ret = refl
  foreach_loop-visit (q ∷ slots) u ret =
      ground (arith, foreach_loop-visit slots u ret, foreach_loop-visit slots (step q u) (code q u))

  -- A callback that leaves the points alone is called for each slot that holds a point, in order,
  -- until it returns a code other than 0. That code is the result, and the cache is unchanged.
  pub point_cache_foreach-visit :
      (c : Cache) (u : U)
      → let seen = visit (occupied c.slots) u (pos 0) in
        point_cache_foreach c (λ q w. (q, step q w, code q w)) u ≡ (c, seen.0, seen.1)
  unfolding point_cache_foreach
  point_cache_foreach-visit c u = rw (foreach_loop-visit c.slots u (pos 0))
