-- ===== src/Tests/Web.antt =====
-- The web server with a JSON library that writes the length of each string before it.
use zephyr_siot.Base.{
  ℕ, zero, suc, ◌+◌, ◌≤◌, ◌≡◌, ◌==◌, refl, ap, ◌∙◌, true, Option, none, some, List, [], ◌∷◌, ◌++◌,
  inl, map, length, take, drop, length-append, take-append, drop-append, replicate, min, arith,
  bytes_eq,
}
use zephyr_siot.Base.Int.{pos}
use zephyr_siot.CString.{Bytes, cstr, strlen, first}
use zephyr_siot.Point.{Point, zero_point, is_empty, point_get_int, load32}
use zephyr_siot.Point.Merge.{default_key}
use zephyr_siot.Point.Merge.View.Outcome.{merge_all}
use zephyr_siot.Json.PointJs.{PointJs, int_s}
use zephyr_siot.Json.PointJs.Array.{JsonLib, points_json_encode, points_json_decode}
use zephyr_siot.Json.PointJs.Array.Laws.{converted}
use zephyr_siot.CString.Laws.{IsText, IsText-append, IsText-cstr, cstr-IsText, cstr-cstr}
use zephyr_siot.Json.PointJs.Array.Strings.{text_of, as_strings, AreTokens, converted-AreTokens}
use zephyr_siot.Json.PointJs.Array.RoundTrip.{
  has_controls, is_plain, IsSendable, carried_int, carried_text, AreReceived, IsCodec,
  points_json-round_trip,
}
use zephyr_siot.Json.Unescape.RoundTrip.{survives}
use zephyr_siot.Cache.Shell.{Message}
use zephyr_siot.Web.{initial_web, no_error, points_url, Request, http_get, more, final, v1_handler}
use zephyr_siot.Web.Chunks.{post, joined, feed, v1_handler-feed}
use zephyr_siot.Web.Invariant.{IsWeb, requested, received, after, after-IsWeb}
use zephyr_siot.Web.Replies.{decoded_points, decoded, v1_handler-post, v1_handler-overran}
use zephyr_siot.Tests.{temp_s, one_s, temp, named, temp-IsPoint, named-IsPoint}
use zephyr_siot.Point.Fields.{zero_point-IsPoint}
use zephyr_siot.Tests.Wire.{temp-IsTerminated, named-IsTerminated}
use zephyr_siot.Tests.Strings.{hundredths}

abbrev put_text : Option Bytes → Bytes → Bytes
put_text none later = 1 ∷ later
put_text (some s) later = suc (suc (length s)) ∷ (s ++ later)

abbrev put_js : PointJs → Bytes → Bytes
put_js js later = put_text js.t (put_text js.k (put_text js.dt (put_text (some js.d) later)))

abbrev put_all : List PointJs → Bytes
put_all [] = []
put_all (js ∷ later) = 1 ∷ put_js js (put_all later)

abbrev read_text : Bytes → Option Bytes × Bytes
read_text [] = (none, [])
read_text (zero ∷ s) = (none, s)
read_text (suc zero ∷ s) = (none, s)
read_text (suc (suc n) ∷ s) = (some (take n s), drop n s)

abbrev text_or : Option Bytes → Bytes
text_or none = []
text_or (some s) = s

abbrev read_js : Bytes → PointJs × Bytes
read_js s =
    let (t, s1) = read_text s in
    let (k, s2) = read_text s1 in
    let (dt, s3) = read_text s2 in
    let (d, s4) = read_text s3 in (record { t = t; k = k; dt = dt; d = text_or d }, s4)

-- One object more for each 1, on fuel.
unfoldable pub read_all : ℕ → Bytes → List PointJs
read_all zero s = []
read_all (suc n) [] = []
read_all (suc n) (zero ∷ s) = []
read_all (suc n) (suc c ∷ s) = let later = read_all n (read_js s).1 in (read_js s).0 ∷ later

abbrev pub counted : JsonLib
counted = record {
  calc_encoded_len = λ js. pos (length (put_js js []));
  obj_encode_buf = λ js buf len. (pos 0, put_js (as_strings js) (0 ∷ []));
  arr_encode_buf = λ js buf len. (pos 0, put_all (map as_strings js) ++ 0 ∷ []);
  obj_parse = λ json len. (pos 15, (read_js (take len json)).0);
  arr_parse = λ json len. (pos 0, read_all len (take len json));
}

read_text-put_text : (o : Option Bytes) (s : Bytes) → read_text (put_text o s) ≡ (o, s)
read_text-put_text none s = refl
read_text-put_text (some t) s =
    let behind : drop (length t) (t ++ s) ≡ s =
      ap (λ n. drop n (t ++ s)) (omega arith) ∙ drop-append t s 0 in
    rw (take-append t s, behind) refl

read_steps :
    {t k dt d : Option Bytes} (x s1 s2 s3 : Bytes) {s4 : Bytes}
    → read_text x ≡ (t, s1)
    → read_text s1 ≡ (k, s2)
    → read_text s2 ≡ (dt, s3)
    → read_text s3 ≡ (d, s4)
    → read_js x ≡ (record { t = t; k = k; dt = dt; d = text_or d }, s4)
read_steps x s1 s2 s3 a b c d = rw a (rw b (rw c (rw d refl)))

read_js-put_js : (js : PointJs) (s : Bytes) → read_js (put_js js s) ≡ (js, s)
read_js-put_js js s =
    let s3 = put_text (some js.d) s in
    let s2 = put_text js.dt s3 in
    let s1 = put_text js.k s2 in
    read_steps (put_js js s) s1 s2 s3 (read_text-put_text js.t s1) (read_text-put_text js.k s2)
      (read_text-put_text js.dt s3) (read_text-put_text (some js.d) s)

read_all-put_all : (n : ℕ) (js : List PointJs) → length js ≤ n → read_all n (put_all js) ≡ js
unfolding read_all
read_all-put_all zero [] h = refl
read_all-put_all (suc n) [] h = refl
read_all-put_all zero (j ∷ js) h = absurd (omega arith)
read_all-put_all (suc n) (j ∷ js) h =
    ap (λ r. r.0 ∷ read_all n r.1) (read_js-put_js j (put_all js))
    ∙ ap (λ l. j ∷ l) (read_all-put_all n js (omega arith))

length-put_text : (o : Option Bytes) (s : Bytes) → length s ≤ length (put_text o s)
length-put_text none s = omega arith
length-put_text (some t) s = omega (arith, length-append t s)

length-put_all : (js : List PointJs) → length js ≤ length (put_all js)
length-put_all [] = omega arith
length-put_all (j ∷ js) =
    let s = put_all js in
    let s3 = put_text (some j.d) s in
    let s2 = put_text j.dt s3 in
    let s1 = put_text j.k s2 in
    omega (
      arith,
      length-put_all js,
      length-put_text (some j.d) s,
      length-put_text j.dt s3,
      length-put_text j.k s2,
      length-put_text j.t s1,
    )

IsText-put_text :
    (o : Option Bytes) (s : Bytes) → IsText (text_or o) → IsText s → IsText (put_text o s)
IsText-put_text none s t h = (omega arith, h)
IsText-put_text (some x) s t h = (omega arith, IsText-append x s t h)

IsText-text_of : (o : Option Bytes) → IsText (text_or (text_of o))
IsText-text_of none = tt
IsText-text_of (some s) = IsText-cstr s

IsText-put_all : (js : List PointJs) → AreTokens js → IsText (put_all (map as_strings js))
IsText-put_all [] h = tt
IsText-put_all (j ∷ js) (h, hs) =
    let s = put_all (map as_strings js) in
    let s3 = put_text (some j.d) s in
    let s2 = put_text (text_of j.dt) s3 in
    let s1 = put_text (text_of j.k) s2 in
    let t3 = IsText-put_text (some j.d) s h (IsText-put_all js hs) in
    let t2 = IsText-put_text (text_of j.dt) s3 (IsText-text_of j.dt) t3 in
    let t1 = IsText-put_text (text_of j.k) s2 (IsText-text_of j.k) t2 in
    (omega arith, IsText-put_text (text_of j.t) s1 (IsText-text_of j.t) t1)

text_twice : (o : Option Bytes) → text_of (text_of o) ≡ text_of o
text_twice none = refl
text_twice (some s) = ap some (cstr-cstr s)

strings_twice : (js : List PointJs) → map as_strings (map as_strings js) ≡ map as_strings js
strings_twice [] = refl
strings_twice (j ∷ js) = rw (text_twice j.t, text_twice j.k, text_twice j.dt, strings_twice js) refl

pub counted-IsCodec : IsCodec hundredths counted
unfolding strlen
counted-IsCodec bufs pts buf len h few ok =
    let js = converted hundredths bufs 0 pts in
    let body = put_all (map as_strings js) in
    let cut : cstr (body ++ 0 ∷ []) ≡ body =
      cstr-IsText body [] (IsText-put_all js (converted-AreTokens hundredths bufs 0 pts)) in
    let whole : take (length body) (body ++ 0 ∷ []) ≡ body = take-append body (0 ∷ []) in
    let read : read_all (length body) body ≡ map as_strings js =
      read_all-put_all (length body) (map as_strings js) (length-put_all (map as_strings js)) in
    (refl, rw cut (rw whole (rw read (strings_twice js))))

-- An INT and a text.
pub temp-IsSendable : IsSendable temp
unfolding is_plain cstr is_empty first point_get_int load32
temp-IsSendable = record {
  sizes = temp-IsPoint;
  ends = temp-IsTerminated;
  shown = refl;
  plain = refl;
  carried = carried_int refl (omega arith) (λ e. cc);
}

pub named-IsSendable : IsSendable named
unfolding is_plain cstr is_empty first survives has_controls
named-IsSendable = record {
  sizes = named-IsPoint;
  ends = named-IsTerminated;
  shown = refl;
  plain = refl;
  carried = carried_text (inl refl) refl refl;
}

abbrev pub bufs : ℕ → Bytes
bufs i = replicate 40 0

abbrev pub slots : List Point
slots = zero_point ∷ zero_point ∷ zero_point ∷ []

points_json-round_trip_example :
    let out = (points_json_encode hundredths counted bufs (temp ∷ named ∷ []) [] 500).1 in
    let (back, n) = points_json_decode hundredths counted out (strlen out) slots in
    (n ≡ pos (min 3 2)) × AreReceived (temp ∷ named ∷ []) back
unfolding points_json_encode
points_json-round_trip_example =
    points_json-round_trip hundredths counted bufs (temp ∷ named ∷ []) slots [] 500 counted-IsCodec
      (temp-IsSendable, (named-IsSendable, tt)) (omega arith)
      (zero_point-IsPoint, (zero_point-IsPoint, (zero_point-IsPoint, tt))) refl

-- CONFIG_BOARD_TARGET, and a payload with one point.
abbrev pub board : Bytes
board = b'e' ∷ b's' ∷ b'p' ∷ []

abbrev pub payload : Bytes
payload =
    put_all (record { t = some temp_s; k = some one_s; dt = some int_s; d = b'2' ∷ b'1' ∷ [] } ∷ [])

v1_handler-feed_example :
    v1_handler hundredths counted board bufs (post points_url final (drop 12 payload)) (
      feed hundredths counted board bufs points_url
        (take 9 payload ∷ take 3 (drop 9 payload) ∷ [])
        initial_web)
    ≡ v1_handler hundredths counted board bufs
        (post points_url final
          (joined (take 9 payload ∷ take 3 (drop 9 payload) ∷ []) ++ drop 12 payload))
        initial_web
unfolding joined
v1_handler-feed_example =
    v1_handler-feed hundredths counted board bufs points_url
      (take 9 payload ∷ take 3 (drop 9 payload) ∷ []) (drop 12 payload) initial_web refl
      (omega arith)

abbrev page : Request
page = record { method = http_get; url = points_url; chunk = []; status = final }

abbrev message : Message
message = record { is_point_chan = true; point = temp }

-- A point over the bus, a part of a POST, and a GET.
after-IsWeb_example : IsWeb (
    after hundredths counted board
      (λ n. bufs)
      (requested page ∷ requested (post points_url more payload) ∷ received message ∷ []))
after-IsWeb_example =
    after-IsWeb hundredths counted board (λ n. bufs)
      (requested page ∷ requested (post points_url more payload) ∷ received message ∷ [])
      (temp-IsPoint, tt)

v1_handler-post_example :
    let h = v1_handler hundredths counted board bufs (post points_url final payload) initial_web in
    let d = decoded hundredths counted board bufs points_url payload initial_web in
    (h.ret ≡ pos 0)
    × (h.web.web_points ≡ merge_all initial_web.web_points (decoded_points d))
    × (h.published ≡ map default_key (decoded_points d))
    × (h.web.cursor ≡ 0)
    × (h.response ≡ some (record { body = h.web.recv_buffer; body_len = 12; final_chunk = true }))
    × (cstr h.web.recv_buffer ≡ no_error)
unfolding cstr bytes_eq
v1_handler-post_example =
    v1_handler-post hundredths counted board bufs points_url payload initial_web (λ json n. refl)
      refl (omega arith)

-- A payload of 256 bytes.
abbrev full_payload : Bytes
full_payload = replicate 256 0

v1_handler-overran_example :
    (v1_handler hundredths counted board bufs
      (post points_url final full_payload)
      initial_web).web.overran
    ≡ (length full_payload + 0 == 256)
unfolding cstr bytes_eq
v1_handler-overran_example =
    v1_handler-overran hundredths counted board bufs points_url full_payload initial_web
      (λ json n. refl) refl (omega arith) refl
