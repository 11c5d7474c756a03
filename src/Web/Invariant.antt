-- ===== src/Web/Invariant.antt =====
-- The variables of the web server stay well formed, and where a write leaves the payload's buffer.
use zephyr_siot.Base.{
  ℕ, zero, suc, ◌+◌, ◌≤◌, ◌≡◌, ◌∙◌, some, List, [], ◌∷◌, ltb, length, length-set, length-replicate,
  arith, Bool-cases, inl, inr, Option-cases, bytes_eq,
}
use zephyr_siot.Base.Int.{ℤ, pos, negsuc}
use zephyr_siot.CString.{Bytes, cstr}
use zephyr_siot.Point.{Point, IsPoint, zero_point}
use zephyr_siot.Point.Merge.{points_merge}
use zephyr_siot.Point.Merge.View.{ArePoints, Distinct}
use zephyr_siot.Point.Merge.View.Keeps.{points_merge-keeps}
use zephyr_siot.SiotString.Float.{Floats}
use zephyr_siot.Json.PointJs.Array.{JsonLib, points_json_decode}
use zephyr_siot.Json.PointJs.Sizes.{points_json_decode-ArePoints}
use zephyr_siot.Cache.Laws.{zeros_lem}
use zephyr_siot.Cache.Shell.{Message}
use zephyr_siot.Web.{
  Web, initial_web, payload_size, web_points_size, no_points, Request, is_post, aborted, more,
  final, complete, Status, advanced, copy_payload, terminate, merge_received, get_points,
  post_points, post_decoded, reply, transact, v1_handler, web_round, points_url,
}
use zephyr_siot.Web.Chunks.{length-advanced}

-- A table of 40 slots with fields of the right sizes and one slot at most for each name, and a payload
-- that ends in its buffer.
pub record AreSound (pts : List Point) (payload : Bytes) (cursor : ℕ) : Type 0 where
  pub points : ArePoints pts
  pub distinct : Distinct pts
  pub points_len : length pts ≡ web_points_size
  pub payload_len : length payload ≡ payload_size
  pub cursor_end : cursor ≤ payload_size

abbrev pub IsWeb : Web → Type 0
IsWeb v = AreSound v.web_points v.v1_payload_buf v.cursor

pub initial_web-IsWeb : IsWeb initial_web
initial_web-IsWeb =
    let (a, b) = zeros_lem web_points_size in
    record {
      points = a;
      distinct = b;
      points_len = length-replicate web_points_size zero_point;
      payload_len = length-replicate {A = ℕ} payload_size 0;
      cursor_end = omega arith;
    }

merge-IsWeb :
    (v : Web) (p : Point)
    → IsWeb v
    → IsPoint p
    → IsWeb (record v { web_points = (points_merge v.web_points p).points })
merge-IsWeb v p w vp =
    let (a, b, len) = points_merge-keeps v.web_points p w.points vp w.distinct in
    record {
      points = a;
      distinct = b;
      points_len = len ∙ w.points_len;
      payload_len = w.payload_len;
      cursor_end = w.cursor_end;
    }

with_payload :
    {pts : List Point} {b b' : Bytes} {c c' : ℕ}
    → AreSound pts b c
    → length b' ≡ payload_size
    → c' ≤ payload_size
    → AreSound pts b' c'
with_payload w h k = record {
  points = w.points;
  distinct = w.distinct;
  points_len = w.points_len;
  payload_len = h;
  cursor_end = k;
}

rewound : {pts : List Point} {b : Bytes} {c : ℕ} → AreSound pts b c → AreSound pts b 0
rewound w = with_payload w w.payload_len (omega arith)

terminate-IsWeb : (v : Web) → IsWeb v → IsWeb (terminate v)
unfolding terminate
terminate-IsWeb v w = elim (Bool-cases (ltb v.cursor payload_size)) [
  | inl e ↦
      rw e (with_payload w (length-set v.v1_payload_buf v.cursor 0 ∙ w.payload_len) w.cursor_end)
  | inr e ↦ rw e w
]

merge_received-IsWeb :
    (n : ℕ) (pts : List Point) (v : Web)
    → IsWeb v
    → ArePoints pts
    → IsWeb (merge_received n pts v).0
unfolding merge_received
merge_received-IsWeb zero pts v w h = w
merge_received-IsWeb (suc n) [] v w h = w
merge_received-IsWeb (suc n) (p ∷ pts) v w (hp, h) =
    merge_received-IsWeb n pts _ (merge-IsWeb v p w hp) h

copy_payload-IsWeb : (v v' : Web) (c : Bytes) → IsWeb v → copy_payload v c ≡ some v' → IsWeb v'
unfolding copy_payload
copy_payload-IsWeb v v' c w e = elim (Bool-cases (ltb payload_size (length c + v.cursor))) [
  | inl b ↦ absurd (ground (arith, b, e))
  | inr b ↦
      let q : v' ≡ advanced v c = ground (arith, b, e) in
      let fits : v.cursor + length c ≤ payload_size = ground (arith, b) in
      rw q
        (with_payload w (length-advanced v c (omega (arith, w.payload_len)) ∙ w.payload_len) fits)
]

module _ (fl : Floats) (lib : JsonLib) (board : Bytes) (bufs : ℕ → Bytes) where
  post_decoded-IsWeb :
      (v : Web) (r : List Point × ℤ) → IsWeb v → ArePoints r.0 → IsWeb (post_decoded fl lib v r).0
  post_decoded-IsWeb v (pts, negsuc n) w h = w
  post_decoded-IsWeb v (pts, pos n) w h = merge_received-IsWeb n pts v w h

  reply-IsWeb : (r : Request) (v : Web) → IsWeb v → IsWeb (reply fl lib board bufs r v).0
  unfolding reply get_points post_points
  reply-IsWeb r v w = elim (Bool-cases (bytes_eq (cstr r.url) points_url)) [
    | inl e ↦ elim (Bool-cases (is_post r.method)) [
      | inl f ↦
          let v' = terminate v in
          rw (e, f)
            (post_decoded-IsWeb v' (points_json_decode fl lib v'.v1_payload_buf v'.cursor no_points)
              (terminate-IsWeb v w)
              (points_json_decode-ArePoints fl lib v'.v1_payload_buf v'.cursor no_points
                (zeros_lem 5).0))
      | inr f ↦ rw (e, f) w
    ]
    | inr e ↦ rw e w
  ]

  transact-IsWeb :
      (r : Request) (s : Status) (v : Web) → IsWeb v → IsWeb (transact fl lib board bufs r s v).web
  unfolding transact
  transact-IsWeb r aborted v w = rewound w
  transact-IsWeb r final v w = rewound (reply-IsWeb r v w)
  transact-IsWeb r more v w = w
  transact-IsWeb r complete v w = w

  v1_handler-IsWeb :
      (r : Request) (v : Web) → IsWeb v → IsWeb (v1_handler fl lib board bufs r v).web
  unfolding v1_handler
  v1_handler-IsWeb r v w = elim (Bool-cases (is_post r.method)) [
    | inl e ↦ elim (Option-cases (copy_payload v r.chunk)) [
      | inl n ↦ rw (e, n) (rewound w)
      | inr (v', s) ↦ rw (e, s) (transact-IsWeb r r.status v' (copy_payload-IsWeb v v' r.chunk w s))
    ]
    | inr e ↦ rw e (transact-IsWeb r r.status v w)
  ]

-- What comes to the server: a call of the handler, or a message of the bus.
pub data Input : Type 0 where
  requested : Request → Input
  received : Message → Input

module _ (fl : Floats) (lib : JsonLib) (board : Bytes) where
  -- The variables after some inputs, the last first. The scratch buffers of the encoder may hold
  -- anything at each of them.
  unfoldable pub after : (ℕ → ℕ → Bytes) → List Input → Web
  unfolding v1_handler web_round
  after bufs [] = initial_web
  after bufs (requested r ∷ is) = (v1_handler fl lib board (bufs (length is)) r (after bufs is)).web
  after bufs (received m ∷ is) = web_round (after bufs is) m

  -- The fields of the points that come over the bus have the sizes of the C type.
  abbrev pub AreInputs : List Input → Type 0
  AreInputs [] = Unit
  AreInputs (requested r ∷ is) = AreInputs is
  AreInputs (received m ∷ is) = IsPoint m.point × AreInputs is

  -- After any requests and messages, in any order, the table has 40 slots with fields of the right
  -- sizes and one slot at most for each name, and the payload ends in its buffer. The points of the bus
  -- have fields of the right sizes.
  pub after-IsWeb : (bufs : ℕ → ℕ → Bytes) (is : List Input) → AreInputs is → IsWeb (after bufs is)
  unfolding after web_round
  after-IsWeb bufs [] h = initial_web-IsWeb
  after-IsWeb bufs (requested r ∷ is) h =
      v1_handler-IsWeb fl lib board (bufs (length is)) r (after bufs is) (after-IsWeb bufs is h)
  after-IsWeb bufs (received m ∷ is) (hp, h) =
      let w = after-IsWeb bufs is h in
      elim (Bool-cases m.is_point_chan) [
        | inl e ↦ rw e (merge-IsWeb (after bufs is) m.point w hp)
        | inr e ↦ rw e w
      ]
