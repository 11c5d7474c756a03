-- ===== src/Json/PointJs/Array/RoundTrip.antt =====
-- An array of points that is encoded and decoded.
use zephyr_siot.Base.{
  ℕ, ◌+◌, ◌≤◌, ◌≡◌, ◌≢◌, refl, ap, sym, ◌∙◌, Bool, true, false, ◌&&◌, ◌||◌, map, not, List, [], ◌∷◌,
  ltb, leb, ◌==◌, length, min, ◌⊎◌, inl, inr, arith,
}
use zephyr_siot.Base.Int.{pos, IsInt}
use zephyr_siot.CString.{Bytes, cstr, strlen}
use zephyr_siot.Point.{
  Point, IsPoint, type_int, type_string, type_json, point_get_int, is_empty, is_unknown,
}
use zephyr_siot.Point.Merge.View.{ArePoints, is_usable}
use zephyr_siot.SiotString.Float.{Floats}
use zephyr_siot.SiotString.RoundTrip.{int_min}
use zephyr_siot.Json.Unescape.RoundTrip.{survives}
use zephyr_siot.Json.PointJs.{json_data_buf_size, point_to_point_js, point_js_to_point}
use zephyr_siot.Json.PointJs.RoundTrip.{IsTerminated, SameName, point_js-int, point_js-text}
use zephyr_siot.Json.PointJs.Array.{JsonLib, decode_loop, points_json_encode, points_json_decode}
use zephyr_siot.Json.PointJs.Array.Strings.{as_strings, length-same_strings, decode_loop-as_strings}
use zephyr_siot.Json.PointJs.Array.Laws.{
  usable_points, converted, length-converted, points_json_encode_lem,
}

-- A string that stands in JSON as it is.
unfoldable pub is_plain : Bytes → Bool
is_plain [] = true
is_plain (c ∷ s) = leb 32 c && not (c == b'"') && not (c == b'\\') && is_plain s

unfoldable pub has_controls : Bytes → Bool
has_controls [] = false
has_controls (c ∷ s) = ltb c 32 || has_controls s

-- A value that comes back: an INT but INT_MIN, or a text without control characters in which each backslash
-- has a slash behind it.
pub data IsCarried (p : Point) : Type 0 where
  carried_int :
      p.data_type ≡ type_int → IsInt (point_get_int p) → point_get_int p ≢ int_min → IsCarried p
  carried_text :
      (p.data_type ≡ type_string) ⊎ (p.data_type ≡ type_json)
      → survives (cstr p.payload) ≡ true
      → has_controls (cstr p.payload) ≡ false
      → IsCarried p

-- A point that comes back.
pub record IsSendable (p : Point) : Type 0 where
  pub sizes : IsPoint p
  pub ends : IsTerminated p
  pub shown : is_empty p ≡ false
  pub plain : is_plain (cstr p.type) && is_plain (cstr p.key) ≡ true
  pub carried : IsCarried p

abbrev pub AreSendable : List Point → Type 0
AreSendable [] = Unit
AreSendable (p ∷ pts) = IsSendable p × AreSendable pts

-- What `r` has of the point `p`.
pub record IsReceived (p r : Point) : Type 0 where
  pub name : SameName p r
  pub int_value : p.data_type ≡ type_int → point_get_int r ≡ point_get_int p
  pub text_value :
      (p.data_type ≡ type_string) ⊎ (p.data_type ≡ type_json) → cstr r.payload ≡ cstr p.payload

-- The points of the first list arrived in the second, as far as it has slots.
abbrev pub AreReceived : List Point → List Point → Type 0
AreReceived [] rs = Unit
AreReceived (p ∷ pts) [] = Unit
AreReceived (p ∷ pts) (r ∷ rs) = IsReceived p r × AreReceived pts rs

-- What Zephyr documents of its JSON library, whose strings are C strings: the parser reads the strings and the
-- tokens of an array that the encoder wrote, as long as the array is not longer than its descriptor says. Names
-- that need an escape and control characters are left out.
abbrev pub IsCodec : Floats → JsonLib → Type 0
IsCodec fl lib =
    (bufs : ℕ → Bytes) (pts : List Point) (buf : Bytes) (len : ℕ)
    → AreSendable pts
    → length pts ≤ 47
    → let js = converted fl bufs 0 pts in
      let (ret, out) = lib.arr_encode_buf js buf len in
      ret ≡ pos 0
      → let (parsed, read) = lib.arr_parse out (strlen out) in
        (parsed ≡ pos 0) × (map as_strings read ≡ map as_strings js)

IsCarried-known : (p : Point) → IsCarried p → is_unknown p ≡ false
unfolding is_unknown
IsCarried-known p (carried_int e _ _) = rw e refl
IsCarried-known p (carried_text (inl e) _ _) = rw e refl
IsCarried-known p (carried_text (inr e) _ _) = rw e refl

pub usable_points-AreSendable : (pts : List Point) → AreSendable pts → usable_points pts ≡ pts
unfolding usable_points is_usable
usable_points-AreSendable [] h = refl
usable_points-AreSendable (p ∷ pts) (h, hs) =
    rw (IsCarried-known p h.carried, h.shown) (rw (usable_points-AreSendable pts hs) refl)

module _ (fl : Floats) where
  point_js-IsReceived :
      (p q : Point) (buf : Bytes)
      → IsSendable p
      → IsPoint q
      → IsReceived p (point_js_to_point fl (point_to_point_js fl p buf json_data_buf_size) q).0
  point_js-IsReceived p q buf h v = elim h.carried [
    | carried_int e i ne ↦
        let (_, name, back) = point_js-int fl p q buf v h.ends e i ne in
        record {
          name = name;
          int_value = λ _. back;
          text_value =
              λ t. absurd (elim t [ inl x ↦ ground (arith, e, x) | inr x ↦ ground (arith, e, x) ]);
        }
    | carried_text e s _ ↦
        let (_, name, back) = point_js-text fl p q buf h.sizes v h.ends e s in
        record {
          name = name;
          int_value =
              λ i. absurd (elim e [ inl x ↦ ground (arith, i, x) | inr x ↦ ground (arith, i, x) ]);
          text_value = λ _. back;
        }
  ]

  decode_loop-AreReceived :
      (bufs : ℕ → Bytes) (i : ℕ) (pts slots : List Point)
      → AreSendable pts
      → ArePoints slots
      → AreReceived pts (decode_loop fl (converted fl bufs i pts) slots)
  unfolding decode_loop converted
  decode_loop-AreReceived bufs i [] slots h v = tt
  decode_loop-AreReceived bufs i (p ∷ pts) [] h v = tt
  decode_loop-AreReceived bufs i (p ∷ pts) (q ∷ slots) (h, hs) (v, vs) =
      (point_js-IsReceived p q (bufs i) h v, decode_loop-AreReceived bufs (i + 1) pts slots hs vs)

  -- Points that can be sent, 47 at most, are encoded and decoded again into slots of the right sizes: the
  -- slots get the names, types and values of the points in order, as far as there are slots, and the
  -- number of points that arrived is returned. The encoder succeeds, and the JSON library reads the strings
  -- and tokens that it wrote. A point can be sent if its strings end inside their fields, it has a type, its
  -- type and key need no escape in JSON, and it has an integer other than INT_MIN or a text without control
  -- characters in which each backslash has a slash behind it.
  pub points_json-round_trip :
      (lib : JsonLib) (bufs : ℕ → Bytes) (pts slots : List Point) (buf : Bytes) (len : ℕ)
      → IsCodec fl lib
      → AreSendable pts
      → length pts ≤ 47
      → ArePoints slots
      → (points_json_encode fl lib bufs pts buf len).0 ≡ pos 0
      → let out = (points_json_encode fl lib bufs pts buf len).1 in
        let (after, n) = points_json_decode fl lib out (strlen out) slots in
        (n ≡ pos (min (length slots) (length pts))) × AreReceived pts after
  unfolding points_json_decode
  points_json-round_trip lib bufs pts slots buf len codec h few v ok =
      let js = converted fl bufs 0 pts in
      let (encoded, _, _) = points_json_encode_lem fl lib bufs pts buf len in
      let l : ltb 47 (length pts) ≡ false = ground (arith, few) in
      let written : points_json_encode fl lib bufs pts buf len ≡ lib.arr_encode_buf js buf len =
        encoded ∙ rw l (rw (usable_points-AreSendable pts h) refl) in
      let out = (lib.arr_encode_buf js buf len).1 in
      let read = (lib.arr_parse out (strlen out)).1 in
      let (parsed, same) = codec bufs pts buf len h few (ap (λ r. r.0) (sym written) ∙ ok) in
      let decodes : decode_loop fl read slots ≡ decode_loop fl js slots =
        sym (decode_loop-as_strings fl read slots)
        ∙ ap (λ x. decode_loop fl x slots) same
        ∙ decode_loop-as_strings fl js slots in
      let counts : length read ≡ length pts =
        length-same_strings js read same ∙ length-converted fl bufs 0 pts in
      rw written (
        rw parsed (
          ap (λ n. pos (min (length slots) n)) counts,
          rw decodes (decode_loop-AreReceived bufs 0 pts slots h v),
        ))
