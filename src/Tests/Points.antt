-- ===== src/Tests/Points.antt =====
-- Points and tables of points.
use zephyr_siot.Base.{
  ◌≡◌, refl, none, some, List, [], ◌∷◌, length, if◌then◌else◌, ◌↔◌, ◌⊎◌, get_elem?, bytes_eq,
}
use zephyr_siot.Base.Int.{pos}
use zephyr_siot.CString.{Bytes, cstr}
use zephyr_siot.Point.{Point, zero_point, is_empty, is_unknown}
use zephyr_siot.Point.Fields.{zero_point-IsPoint}
use zephyr_siot.Point.Merge.{neg_enomem, default_key, points_merge}
use zephyr_siot.Point.Merge.View.{ArePoints, is_usable, has_name, lookup, Distinct}
use zephyr_siot.Point.Merge.View.Lookup.{lookup-points_merge}
use zephyr_siot.Point.Merge.View.Keeps.{points_merge-keeps, default_key-IsPoint}
use zephyr_siot.Point.Merge.View.Outcome.{IsFull, points_merge_fails, merge_all, merge_all-stuck}
use zephyr_siot.Tests.{
  temp_s, temp, blank, named, unknown, temp-IsPoint, blank-IsPoint, named-IsPoint,
}

-- A table with a text, a temperature and a free slot.
abbrev table : List Point
table = named ∷ temp ∷ zero_point ∷ []

table-ArePoints : ArePoints table
table-ArePoints = (named-IsPoint, (temp-IsPoint, (zero_point-IsPoint, tt)))

abbrev zero_s : Bytes
zero_s = b'0' ∷ []

-- The blank key is read as "0", so the point is another one than the temperature of key "1".
lookup-points_merge_example : lookup temp_s zero_s (points_merge table blank).points ≡ (
    if has_name temp_s zero_s (default_key blank)
    then some (default_key blank)
    else lookup temp_s zero_s table)
unfolding points_merge default_key is_usable is_empty is_unknown
lookup-points_merge_example =
    lookup-points_merge temp_s zero_s table blank table-ArePoints
      (default_key-IsPoint blank blank-IsPoint) refl refl

points_merge-keeps_example :
    let after = (points_merge table blank).points in
    ArePoints after × Distinct after × (length after ≡ length table)
unfolding lookup is_usable has_name is_empty is_unknown bytes_eq cstr
points_merge-keeps_example =
    points_merge-keeps table blank table-ArePoints blank-IsPoint
      ((λ _. refl), ((λ _. refl), ((λ _. refl), tt)))

-- A full table: the new point has no slot.
points_merge_fails_example :
    let q = default_key blank in
    let r = points_merge (named ∷ temp ∷ []) blank in
    ((r.ret ≡ neg_enomem) ↔ (
      IsFull (named ∷ temp ∷ []) × (lookup (cstr q.type) (cstr q.key) (named ∷ temp ∷ []) ≡ none)))
    × ((r.ret ≡ pos 0) ⊎ ((r.ret ≡ neg_enomem) × (r.points ≡ named ∷ temp ∷ [])))
points_merge_fails_example =
    points_merge_fails (named ∷ temp ∷ []) blank (named-IsPoint, (temp-IsPoint, tt)) blank-IsPoint

full_table : (points_merge (named ∷ temp ∷ []) blank).ret ≡ neg_enomem
unfolding points_merge
full_table = refl

-- The slot of a point of unknown data type is not used for a point of its name.
merge_all-stuck_example :
    get_elem? (merge_all (unknown ∷ zero_point ∷ []) (named ∷ named ∷ [])) 0 ≡ some unknown
unfolding is_empty is_unknown
merge_all-stuck_example =
    merge_all-stuck (named ∷ named ∷ []) (unknown ∷ zero_point ∷ []) unknown 0 refl refl refl
