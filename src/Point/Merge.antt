-- ===== src/Point/Merge.antt =====
-- `points_merge` of lib/point.c: a table of points in which a point replaces the one of its name.
pub mod Scan
pub mod View
use zephyr_siot.Base.{
  ℕ, zero, suc, ◌+◌, ◌≡◌, Bool, true, false, ◌&&◌, Option, none, some, List, [], ◌∷◌, ◌==◌,
  if◌then◌else◌, set,
}
use zephyr_siot.Base.Int.{ℤ, pos, negsuc}
use zephyr_siot.CString.{Bytes, first, strncpy, strncmp_eq}
use zephyr_siot.Point.{type_size, key_size, Point, is_empty, is_unknown}

-- `-ENOMEM`
abbrev pub neg_enomem : ℤ
neg_enomem = negsuc 11

-- `strcpy(p->key, "0")` if the key is blank. The caller's point is changed.
unfoldable pub default_key : Point → Point
unfolding first strncpy
default_key p = if first p.key == 0 then record p { key = strncpy p.key (b'0' ∷ []) 2 } else p

-- The two comparisons of the loop.
unfoldable pub same_name : Point → Point → Bool
unfolding strncmp_eq
same_name q p = strncmp_eq q.type p.type type_size && strncmp_eq q.key p.key key_size

-- `empty_i` after a round at an empty slot: -1 is `none`.
abbrev pub note_empty : Option ℕ → ℕ → Option ℕ
note_empty none i = some i
note_empty (some e) i = some e

-- The end of the loop: the new point goes to the first empty slot.
abbrev pub add_point : List Point → Option ℕ → Point → List Point × ℤ
add_point pts none p = (pts, neg_enomem)
add_point pts (some e) p = (set pts e p, pos 0)

-- The loop at index `i`; the second list is `pts` from `i` on.
pub merge_loop : List Point → List Point → ℕ → Option ℕ → Point → List Point × ℤ
merge_loop pts [] i empty_i p = add_point pts empty_i p
merge_loop pts (q ∷ later) i empty_i p =
    let seen = if is_empty q then note_empty empty_i i else empty_i in
    let next = merge_loop pts later (i + 1) seen p in
    if is_empty q
    then next
    else if is_unknown q
    then next
    else if same_name q p
    then (set pts i p, pos 0)
    else next

pub record Merged : Type 0 where
  pub points : List Point
  pub point : Point
  pub ret : ℤ

-- The table, the caller's point and the return code.
unfoldable pub points_merge : List Point → Point → Merged
unfolding merge_loop default_key is_empty is_unknown same_name
points_merge pts p =
    let q = default_key p in
    let (after, ret) = merge_loop pts pts 0 none q in
    record { points = after; point = q; ret = ret }
