-- ===== src/Cache.antt =====
-- lib/point-cache.c: the cache of current points, its shell commands and its subscriber thread. Each
-- function holds the lock from its first access to its last, so a call is one step on the state.
pub mod Quote
pub mod Laws
pub mod Shell
use zephyr_siot.Base.{
  ℕ, zero, suc, ◌+◌, ◌≡◌, Bool, true, false, ◌&&◌, ◌||◌, Option, none, some, List, [], ◌∷◌, ◌++◌,
  ltb, leb, ◌==◌, if◌then◌else◌, length, replicate, bytes_eq,
}
use zephyr_siot.Base.Int.{ℤ, pos, negsuc, abs}
use zephyr_siot.CString.{Bytes, cstr}
use zephyr_siot.Point.{
  Point, zero_point, is_empty, is_unknown, type_float, type_int, type_string, type_json,
}
use zephyr_siot.Point.Merge.{points_merge, Merged}
use zephyr_siot.SiotString.Float.{Floats}
use zephyr_siot.Json.PointJs.{flt_s, int_s, str_s, jsn_s, point_data_to_string}
use zephyr_siot.Json.PointJs.Array.{JsonLib, points_json_encode}

-- The file's variables: the table, of CONFIG_SIOT_POINT_CACHE_SIZE slots, and `streaming`.
pub record Cache : Type 0 where
  pub slots : List Point
  pub streaming : Bool

-- The state before the first call; the size is a build option from 1 to 47.
abbrev pub initial : ℕ → Cache
initial size = record { slots = replicate size zero_point; streaming = false }

-- The cache, the caller's point and the return code.
unfoldable pub point_cache_merge : Cache → Point → Cache × Point × ℤ
point_cache_merge c p =
    let m = points_merge c.slots p in (record c { slots = m.points }, m.point, m.ret)

unfoldable pub count_loop : List Point → ℕ → ℕ
count_loop [] count = count
count_loop (q ∷ slots) count = count_loop slots (if is_empty q then count else count + 1)

unfoldable pub point_cache_count : Cache → ℕ
unfolding count_loop
point_cache_count c = count_loop c.slots 0

-- The callback gets a point and the user's data, and may change both; a result other than 0 ends the
-- loop. `ret` is the result so far.
unfoldable pub foreach_loop {ℓ} :
    {U : Type ℓ} → (Point → U → Point × U × ℤ) → List Point → U → ℤ → List Point × U × ℤ
foreach_loop cb [] user_data ret = ([], user_data, ret)
foreach_loop cb (q ∷ slots) user_data ret =
    let (q', user_data', ret') = cb q user_data in
    let skipped = foreach_loop cb slots user_data ret in
    let continued = foreach_loop cb slots user_data' ret' in
    if is_empty q
    then (q ∷ skipped.0, skipped.1, skipped.2)
    else if ltb 0 (abs ret')
    then (q' ∷ slots, user_data', ret')
    else (q' ∷ continued.0, continued.1, continued.2)

unfoldable pub point_cache_foreach {ℓ} :
    {U : Type ℓ} → Cache → (Point → U → Point × U × ℤ) → U → Cache × U × ℤ
unfolding foreach_loop
point_cache_foreach c cb user_data =
    let (slots, u, ret) = foreach_loop cb c.slots user_data (pos 0) in
    (record c { slots = slots }, u, ret)

unfoldable pub point_cache_json_encode :
    Floats → JsonLib → (ℕ → Bytes) → Cache → Bytes → ℕ → ℤ × Bytes
point_cache_json_encode fl lib bufs c buf buf_len =
    points_json_encode fl lib bufs c.slots buf buf_len
