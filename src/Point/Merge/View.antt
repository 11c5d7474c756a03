-- ===== src/Point/Merge/View.antt =====
-- A table of points as a map from names to points.

pub mod Lookup
pub mod Keeps
pub mod Outcome
pub mod Latest
pub mod Order
pub mod Table
use zephyr_siot.Base.{
  ℕ, ◌≡◌, ◌≢◌, Bool, true, false, ◌&&◌, not, Option, none, some, List, [], ◌∷◌, arith, refl,
  bytes_eq, bytes_eq→eq, bytes_eq_refl, if◌then◌else◌,
}
use zephyr_siot.CString.{Bytes, cstr}
use zephyr_siot.CString.Laws.{strncmp_eq-bytes_eq}
use zephyr_siot.Point.{type_size, key_size, Point, IsPoint, is_empty, is_unknown}
use zephyr_siot.Point.Merge.{same_name}
use zephyr_siot.Point.Merge.Scan.{is_match}

-- Every slot has the sizes of the C type.
abbrev pub ArePoints : List Point → Type 0
ArePoints [] = Unit
ArePoints (q ∷ pts) = IsPoint q × ArePoints pts

-- A point that `points_merge` can find again: it has a type, and a known data type.
unfoldable pub is_usable : Point → Bool
is_usable q = not (is_empty q) && not (is_unknown q)

unfoldable pub has_name : Bytes → Bytes → Point → Bool
has_name t k q = bytes_eq (cstr q.type) t && bytes_eq (cstr q.key) k

-- The value of the name `(t, k)` in the table.
unfoldable pub lookup : Bytes → Bytes → List Point → Option Point
lookup t k [] = none
lookup t k (q ∷ pts) = if is_usable q && has_name t k q then some q else lookup t k pts

-- Two tables hold the same points by name.
abbrev pub Agree : List Point → List Point → Type 0
Agree pts qts = (t k : Bytes) → lookup t k pts ≡ lookup t k qts

-- No two usable slots have one name.
abbrev pub Distinct : List Point → Type 0
Distinct [] = Unit
Distinct (q ∷ pts) =
    (is_usable q ≡ true → lookup (cstr q.type) (cstr q.key) pts ≡ none) × Distinct pts

pub is_match-eq : (p q : Point) → is_match p q ≡ is_usable q && same_name q p
unfolding is_match is_usable
is_match-eq p q = ground arith

pub same_name-eq :
    (q p : Point) → IsPoint q → IsPoint p → same_name q p ≡ has_name (cstr p.type) (cstr p.key) q
unfolding same_name has_name
same_name-eq q p vq vp =
    ground
      (arith, strncmp_eq-bytes_eq q.type p.type type_size, strncmp_eq-bytes_eq q.key p.key key_size)

pub has_name-same :
    (q p : Point) (t k : Bytes)
    → has_name (cstr p.type) (cstr p.key) q ≡ true
    → has_name t k q ≡ has_name t k p
unfolding has_name
has_name-same q p t k h =
    ground (arith, bytes_eq→eq (cstr q.type) (cstr p.type), bytes_eq→eq (cstr q.key) (cstr p.key))

pub has_name_both :
    (q p : Point) (t k : Bytes)
    → has_name t k q ≡ true
    → has_name t k p ≡ true
    → has_name (cstr p.type) (cstr p.key) q ≡ true
unfolding has_name
has_name_both q p t k h h' = ground (
  arith,
  bytes_eq→eq (cstr q.type) t,
  bytes_eq→eq (cstr q.key) k,
  bytes_eq→eq (cstr p.type) t,
  bytes_eq→eq (cstr p.key) k,
  bytes_eq_refl t,
  bytes_eq_refl k,
)

pub has_name_self : (p : Point) → has_name (cstr p.type) (cstr p.key) p ≡ true
unfolding has_name
has_name_self p = ground (arith, bytes_eq_refl (cstr p.type), bytes_eq_refl (cstr p.key))
