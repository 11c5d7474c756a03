-- ===== src/Point/Merge/Scan.antt =====
-- The loop of `points_merge` in one step: where it writes, and what it returns.
use zephyr_siot.Base.{
  ℕ, suc, ◌+◌, ◌≡◌, refl, ap, Bool, Option, none, some, List, [], ◌∷◌, arith, if◌then◌else◌, set,
  ◌&&◌, not,
}
use zephyr_siot.Base.Int.{ℤ, pos}
use zephyr_siot.Point.{Point, is_empty, is_unknown}
use zephyr_siot.Point.Merge.{
  neg_enomem, same_name, note_empty, add_point, merge_loop, default_key, points_merge,
}

-- A slot whose point has the name of `p` and a usable data type.
unfoldable pub is_match : Point → Point → Bool
is_match p q = not (is_empty q) && (not (is_unknown q) && same_name q p)

abbrev pub shift : Option ℕ → Option ℕ
shift none = none
shift (some i) = some (suc i)

-- The first slot that matches, and the first that is empty.
unfoldable pub find_match : Point → List Point → Option ℕ
unfolding is_match
find_match p [] = none
find_match p (q ∷ pts) = if is_match p q then some 0 else shift (find_match p pts)

unfoldable pub find_empty : List Point → Option ℕ
find_empty [] = none
find_empty (q ∷ pts) = if is_empty q then some 0 else shift (find_empty pts)

-- The first of two values that is there.
abbrev pub or_else {ℓ} : {A : Type ℓ} → Option A → Option A → Option A
or_else none b = b
or_else (some i) b = some i

abbrev pub up : ℕ → Option ℕ → Option ℕ
up i none = none
up i (some j) = some (i + j)

abbrev pub place : List Point → Option ℕ → Option ℕ → Point → List Point × ℤ
place pts (some j) empty p = (set pts j p, pos 0)
place pts none empty p = add_point pts empty p

up-shift : (i : ℕ) (o : Option ℕ) → up i (shift o) ≡ up (i + 1) o
up-shift i none = refl
up-shift i (some j) = ap some (omega arith)

merge_loop_rec :
    (pts later : List Point) (i : ℕ) (empty_i : Option ℕ) (p : Point)
    → merge_loop pts later i empty_i p
      ≡ place pts (up i (find_match p later)) (or_else empty_i (up i (find_empty later))) p
unfolding merge_loop find_match find_empty is_match
merge_loop_rec pts [] i none p = refl
merge_loop_rec pts [] i (some e) p = refl
merge_loop_rec pts (q ∷ later) i empty_i p =
    let seen = if is_empty q then note_empty empty_i i else empty_i in
    ground (
      arith,
      merge_loop_rec pts later (i + 1) seen p,
      up-shift i (find_match p later),
      up-shift i (find_empty later),
    )

up-zero : (o : Option ℕ) → up 0 o ≡ o
up-zero none = refl
up-zero (some j) = ap some (omega arith)

-- `points_merge` writes to the first match, else to the first empty slot, else fails.
pub points_merge-place :
    (pts : List Point) (p : Point)
    → let q = default_key p in
      let r = place pts (find_match q pts) (find_empty pts) q in
      (points_merge pts p ≡ record { points = r.0; point = q; ret = r.1 })
unfolding points_merge
points_merge-place pts p =
    let q = default_key p in
    ground
      (arith, merge_loop_rec pts pts 0 none q, up-zero (find_match q pts), up-zero (find_empty pts))

-- The table that a merge leaves: the old one, or the old one with the point in one slot.
pub data Placed (pts : List Point) (q : Point) : List Point → ℤ → Type 0 where
  replaced : (j : ℕ) → find_match q pts ≡ some j → Placed pts q (set pts j q) (pos 0)
  added :
      (j : ℕ)
      → find_match q pts ≡ none
      → find_empty pts ≡ some j
      → Placed pts q (set pts j q) (pos 0)
  full : find_match q pts ≡ none → find_empty pts ≡ none → Placed pts q pts neg_enomem

place-Placed :
    (pts : List Point) (q : Point) (m e : Option ℕ)
    → find_match q pts ≡ m
    → find_empty pts ≡ e
    → Placed pts q (place pts m e q).0 (place pts m e q).1
place-Placed pts q (some j) e h k = replaced j h
place-Placed pts q none (some j) h k = added j h k
place-Placed pts q none none h k = full h k

pub points_merge-Placed :
    (pts : List Point) (p : Point)
    → Placed pts (default_key p) (points_merge pts p).points (points_merge pts p).ret
points_merge-Placed pts p =
    rw (points_merge-place pts p) (place-Placed pts (default_key p) _ _ refl refl)
