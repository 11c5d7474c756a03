-- ===== src/Json/PointJs/Array/Laws.antt =====
-- What the array encoder hands to the JSON library, and what the array decoder fills.
use zephyr_siot.Base.{
  ℕ, zero, suc, ◌+◌, ◌≤◌, ◌≡◌, ◌≢◌, refl, ap, sym, true, false, none, some, List, [], ◌∷◌, ◌++◌,
  ltb, if◌then◌else◌, length, min, arith, append-nil, append_assoc, length-append, get_elem?, drop,
}
use zephyr_siot.Base.Int.{ℤ, pos, negsuc, abs}
use zephyr_siot.CString.{Bytes}
use zephyr_siot.Point.{Point}
use zephyr_siot.Point.Merge.{neg_enomem}
use zephyr_siot.Point.Merge.View.{is_usable}
use zephyr_siot.SiotString.Float.{Floats}
use zephyr_siot.Json.PointJs.{PointJs, json_data_buf_size, point_to_point_js, point_js_to_point}
use zephyr_siot.Json.PointJs.Array.{
  JsonLib, encode_loop, points_json_encode, decode_loop, points_json_decode,
}

-- The points of an array that the encoder does not skip, in order.
unfoldable pub usable_points : List Point → List Point
usable_points [] = []
usable_points (p ∷ pts) = if is_usable p then p ∷ usable_points pts else usable_points pts

pub length-usable_points : (pts : List Point) → length (usable_points pts) ≤ length pts
unfolding usable_points
length-usable_points [] = omega arith
length-usable_points (p ∷ pts) = ground (arith, length-usable_points pts)

-- None of the three pointers is null, which the JSON encoder needs.
abbrev pub IsPopulated : PointJs → Type 0
IsPopulated js = (js.t ≢ none) × (js.k ≢ none) × (js.dt ≢ none)

abbrev pub ArePopulated : List PointJs → Type 0
ArePopulated [] = Unit
ArePopulated (js ∷ later) = IsPopulated js × ArePopulated later

module _ (fl : Floats) where
  pub point_to_point_js-IsPopulated :
      (p : Point) (buf : Bytes) (n : ℕ) → IsPopulated (point_to_point_js fl p buf n)
  unfolding point_to_point_js
  point_to_point_js-IsPopulated p buf n = ground arith

  -- Each of the points converted with the scratch buffer of its place.
  unfoldable pub converted : (ℕ → Bytes) → ℕ → List Point → List PointJs
  converted bufs i [] = []
  converted bufs i (p ∷ pts) =
      point_to_point_js fl p (bufs i) json_data_buf_size ∷ converted bufs (i + 1) pts

  pub length-converted :
      (bufs : ℕ → Bytes) (i : ℕ) (pts : List Point) → length (converted bufs i pts) ≡ length pts
  unfolding converted
  length-converted bufs i [] = refl
  length-converted bufs i (p ∷ pts) = ap suc (length-converted bufs (i + 1) pts)

  converted-ArePopulated :
      (bufs : ℕ → Bytes) (i : ℕ) (pts : List Point) → ArePopulated (converted bufs i pts)
  unfolding converted
  converted-ArePopulated bufs i [] = tt
  converted-ArePopulated bufs i (p ∷ pts) = (
    point_to_point_js-IsPopulated p (bufs i) json_data_buf_size,
    converted-ArePopulated bufs (i + 1) pts,
  )

  encode_loop-converted :
      (bufs : ℕ → Bytes) (pts : List Point) (out : List PointJs)
      → encode_loop fl bufs pts out ≡ out ++ converted bufs (length out) (usable_points pts)
  unfolding encode_loop usable_points converted is_usable
  encode_loop-converted bufs [] out = sym (append-nil out)
  encode_loop-converted bufs (p ∷ pts) out =
      let js = point_to_point_js fl p (bufs (length out)) json_data_buf_size in
      let more = append_assoc out (js ∷ []) (converted bufs (length out + 1) (usable_points pts)) in
      let kept = encode_loop-converted bufs pts (out ++ js ∷ []) in
      let skipped = encode_loop-converted bufs pts out in
      let longer : length (out ++ js ∷ []) ≡ length out + 1 =
        omega (arith, length-append out (js ∷ [])) in
      ground (arith, more, kept, skipped, longer)

module _ (fl : Floats) (lib : JsonLib) where
  -- More than 47 points are refused with -ENOMEM and the buffer is untouched. Otherwise the JSON
  -- encoder is called once, with the usable points in their order and no other. They are no more than
  -- the points given, and none of their three pointers is null.
  pub points_json_encode_lem :
      (bufs : ℕ → Bytes) (pts : List Point) (buf : Bytes) (len : ℕ)
      → let js = converted fl bufs 0 (usable_points pts) in
        (points_json_encode fl lib bufs pts buf len
          ≡ (if ltb 47 (length pts) then (neg_enomem, buf) else lib.arr_encode_buf js buf len))
        × (length js ≤ length pts)
        × ArePopulated js
  unfolding points_json_encode
  points_json_encode_lem bufs pts buf len = (
    rw (encode_loop-converted fl bufs pts []) refl,
    omega (arith, length-converted fl bufs 0 (usable_points pts), length-usable_points pts),
    converted-ArePopulated fl bufs 0 (usable_points pts),
  )

module _ (fl : Floats) where
  decode_loop-get :
      (js : List PointJs) (pts : List Point) (i : ℕ) (j : PointJs) (p : Point)
      → get_elem? js i ≡ some j
      → get_elem? pts i ≡ some p
      → get_elem? (decode_loop fl js pts) i ≡ some (point_js_to_point fl j p).0
  unfolding decode_loop
  decode_loop-get [] pts i j p h k = cc
  decode_loop-get (x ∷ js) [] i j p h k = cc
  decode_loop-get (x ∷ js) (q ∷ pts) zero j p h k = cc
  decode_loop-get (x ∷ js) (q ∷ pts) (suc i) j p h k = decode_loop-get js pts i j p h k

  pub drop-decode_loop :
      (js : List PointJs) (pts : List Point)
      → (drop (length js) (decode_loop fl js pts) ≡ drop (length js) pts)
        × (length (decode_loop fl js pts) ≡ length pts)
  unfolding decode_loop
  drop-decode_loop [] pts = (refl, refl)
  drop-decode_loop (x ∷ js) [] = (refl, refl)
  drop-decode_loop (x ∷ js) (q ∷ pts) = let (a, b) = drop-decode_loop js pts in (a, ap suc b)

nonzero : (r : ℤ) → r ≢ pos 0 → ltb 0 (abs r) ≡ true
nonzero (pos zero) h = absurd (h refl)
nonzero (pos (suc n)) h = ground arith
nonzero (negsuc n) h = ground arith

module _ (fl : Floats) (lib : JsonLib) (json : Bytes) (json_len : ℕ) (pts : List Point) where
  -- If the parser fails, its code is returned and the array is untouched.
  pub points_json_decode_fails :
      (lib.arr_parse json json_len).0 ≢ pos 0
      → points_json_decode fl lib json json_len pts ≡ (pts, (lib.arr_parse json json_len).0)
  unfolding points_json_decode
  points_json_decode_fails h = rw (nonzero (lib.arr_parse json json_len).0 h)

  -- After a successful parse the result is the number of points decoded, which is never more than the
  -- array holds. The slots behind them are untouched, and the array keeps its size.
  pub points_json_decode_lem :
      (lib.arr_parse json json_len).0 ≡ pos 0
      → let js = (lib.arr_parse json json_len).1 in
        let (after, n) = points_json_decode fl lib json json_len pts in
        (n ≡ pos (min (length pts) (length js)))
        × (drop (length js) after ≡ drop (length js) pts)
        × (length after ≡ length pts)
  unfolding points_json_decode
  points_json_decode_lem h =
      let e : ltb 0 (abs (lib.arr_parse json json_len).0) ≡ false = ground (arith, h) in
      let (a, b) = drop-decode_loop fl (lib.arr_parse json json_len).1 pts in rw e (refl, a, b)

  -- After a successful parse each slot holds the decoded point of its place, if there is one.
  pub points_json_decode-get :
      (i : ℕ) (j : PointJs) (p : Point)
      → (lib.arr_parse json json_len).0 ≡ pos 0
      → get_elem? (lib.arr_parse json json_len).1 i ≡ some j
      → get_elem? pts i ≡ some p
      → get_elem? (points_json_decode fl lib json json_len pts).0 i
        ≡ some (point_js_to_point fl j p).0
  unfolding points_json_decode
  points_json_decode-get i j p h hj hp =
      let e : ltb 0 (abs (lib.arr_parse json json_len).0) ≡ false = ground (arith, h) in
      rw e (decode_loop-get fl (lib.arr_parse json json_len).1 pts i j p hj hp)
