-- ===== src/Web.antt =====
-- apps/siot-net/src/web.c: the handler of the `/v1/` pages and the thread that mirrors the points. The
-- HTTP server, the JSON library and the bus are parameters.
pub mod Chunks
pub mod Invariant
pub mod Replies
pub mod Mirror
pub mod Get
use zephyr_siot.Base.{
  ℕ, zero, suc, ◌+◌, ◌≡◌, Bool, true, false, Option, none, some, List, [], ◌∷◌, ◌++◌, ltb, leb,
  ◌==◌, if◌then◌else◌, length, take, drop, set, replicate, bytes_eq,
}
use zephyr_siot.Base.Int.{ℤ, pos, negsuc, is_negative, abs}
use zephyr_siot.CString.{Bytes, cstr, strlen, write_at_start}
use zephyr_siot.Point.{Point, zero_point}
use zephyr_siot.Point.Merge.{neg_enomem, points_merge}
use zephyr_siot.SiotString.Float.{Floats}
use zephyr_siot.Json.PointJs.Array.{JsonLib, points_json_encode, points_json_decode}
use zephyr_siot.Cache.Shell.{Message}

-- The static variables. `overran` tells that something was read or written outside of its array.
pub record Web : Type 0 where
  pub web_points : List Point
  pub recv_buffer : Bytes
  pub v1_payload_buf : Bytes
  pub cursor : ℕ
  pub overran : Bool

abbrev pub payload_size : ℕ
payload_size = 256

abbrev pub recv_size : ℕ
recv_size = 2048

abbrev pub web_points_size : ℕ
web_points_size = 40

abbrev pub initial_web : Web
initial_web = record {
  web_points = replicate web_points_size zero_point;
  recv_buffer = replicate recv_size 0;
  v1_payload_buf = replicate payload_size 0;
  cursor = 0;
  overran = false;
}

pub data Method : Type 0 where
  http_get http_post : Method

abbrev pub is_post : Method → Bool
is_post http_get = false
is_post http_post = true

-- `enum http_transaction_status`
pub data Status : Type 0 where
  aborted more final complete : Status

-- What the server hands to the handler.
pub record Request : Type 0 where
  pub method : Method
  pub url : Bytes
  pub chunk : Bytes
  pub status : Status

-- The fields of the response that the handler sets.
pub record Response : Type 0 where
  pub body : Bytes
  pub body_len : ℕ
  pub final_chunk : Bool

-- What a call of the handler returns, the response if it set one, and the points that it published.
pub record Handled : Type 0 where
  pub ret : ℤ
  pub web : Web
  pub response : Option Response
  pub published : List Point

abbrev pub points_url : Bytes
points_url = b'/' ∷ b'v' ∷ b'1' ∷ b'/' ∷ b'p' ∷ b'o' ∷ b'i' ∷ b'n' ∷ b't' ∷ b's' ∷ []

-- {"error":"error decoding data"}
abbrev pub decoding_error : Bytes
decoding_error =
    b'{' ∷ b'"' ∷ b'e' ∷ b'r' ∷ b'r' ∷ b'o' ∷ b'r' ∷ b'"' ∷ b':' ∷ b'"' ∷ b'e' ∷ b'r' ∷ b'r' ∷ b'o'
    ∷ b'r' ∷ b' ' ∷ b'd' ∷ b'e' ∷ b'c' ∷ b'o' ∷ b'd' ∷ b'i' ∷ b'n' ∷ b'g' ∷ b' ' ∷ b'd' ∷ b'a'
    ∷ b't' ∷ b'a' ∷ b'"' ∷ b'}' ∷ []

-- {"error":""}
abbrev pub no_error : Bytes
no_error = b'{' ∷ b'"' ∷ b'e' ∷ b'r' ∷ b'r' ∷ b'o' ∷ b'r' ∷ b'"' ∷ b':' ∷ b'"' ∷ b'"' ∷ b'}' ∷ []

-- `strcpy(recv_buffer, s)`
abbrev pub write_reply : Web → Bytes → Web
write_reply v s = record v { recv_buffer = write_at_start v.recv_buffer (cstr s ++ 0 ∷ []) }

-- `memcpy(v1_payload_buf + cursor, data, data_len)`, and the step of the cursor.
abbrev pub advanced : Web → Bytes → Web
advanced v chunk = record v {
  v1_payload_buf =
      take v.cursor v.v1_payload_buf ++ chunk ++ drop (v.cursor + length chunk) v.v1_payload_buf;
  cursor = v.cursor + length chunk;
}

-- The copy of the payload; `none` if there is no room.
unfoldable pub copy_payload : Web → Bytes → Option Web
copy_payload v chunk =
    if ltb payload_size (length chunk + v.cursor) then none else some (advanced v chunk)

-- `v1_payload_buf[cursor] = 0`
unfoldable pub terminate : Web → Web
terminate v =
    if ltb v.cursor payload_size
    then record v { v1_payload_buf = set v.v1_payload_buf v.cursor 0 }
    else record v { overran = true }

-- The loop over the first `n` points that were decoded: the table, and what is published.
pub merge_received : ℕ → List Point → Web → Web × List Point
merge_received zero pts v = (v, [])
merge_received (suc n) [] v = (record v { overran = true }, [])
merge_received (suc n) (p ∷ pts) v =
    let merged = points_merge v.web_points p in
    let (v', published) = merge_received n pts (record v { web_points = merged.points }) in
    (v', merged.point ∷ published)

-- `point pts[5] = {}`
abbrev pub no_points : List Point
no_points = replicate 5 zero_point

module _ (fl : Floats) (lib : JsonLib) where
  -- GET of the points: a failure of the encoder is only logged. `bufs` is what the encoder's scratch
  -- buffers hold.
  unfoldable pub get_points : (ℕ → Bytes) → Web → Web
  get_points bufs v = record v {
    recv_buffer = (points_json_encode fl lib bufs v.web_points v.recv_buffer recv_size).1;
  }

  -- What a POST does with the result of the decoder.
  abbrev pub post_decoded : Web → List Point × ℤ → Web × List Point
  post_decoded v (pts, negsuc n) = (write_reply v decoding_error, [])
  post_decoded v (pts, pos n) = merge_received n pts v

  unfoldable pub post_points : Web → Web × List Point
  unfolding terminate merge_received
  post_points v =
      let v1 = terminate v in
      let (v2, published) =
        post_decoded v1 (points_json_decode fl lib v1.v1_payload_buf v1.cursor no_points) in
      (write_reply v2 no_error, published)

  -- The reply to a whole request. `board` is CONFIG_BOARD_TARGET.
  unfoldable pub reply : Bytes → (ℕ → Bytes) → Request → Web → Web × List Point
  unfolding get_points post_points
  reply board bufs r v =
      if bytes_eq (cstr r.url) points_url
      then (if is_post r.method then post_points v else (get_points bufs v, []))
      else (write_reply v board, [])

  -- The handler behind the copy of the payload.
  unfoldable pub transact : Bytes → (ℕ → Bytes) → Request → Status → Web → Handled
  unfolding reply
  transact board bufs r aborted v = record {
    ret = pos 0;
    web = record v { cursor = 0 };
    response = none;
    published = [];
  }
  transact board bufs r final v =
      let (v', published) = reply board bufs r v in
      record {
        ret = pos 0;
        web = record v' { cursor = 0 };
        response = some (record {
          body = v'.recv_buffer;
          body_len = strlen v'.recv_buffer;
          final_chunk = true;
        });
        published = published;
      }
  transact board bufs r more v = record { ret = pos 0; web = v; response = none; published = [] }
  transact board bufs r complete v = record {
    ret = pos 0;
    web = v;
    response = none;
    published = [];
  }

  abbrev pub copied : Bytes → (ℕ → Bytes) → Request → Web → Option Web → Handled
  copied board bufs r v none = record {
    ret = neg_enomem;
    web = record v { cursor = 0 };
    response = none;
    published = [];
  }
  copied board bufs r v (some v') = transact board bufs r r.status v'

  unfoldable pub v1_handler : Bytes → (ℕ → Bytes) → Request → Web → Handled
  unfolding copy_payload transact
  v1_handler board bufs r v =
      if is_post r.method
      then copied board bufs r v (copy_payload v r.chunk)
      else transact board bufs r r.status v

-- One round of the thread; an error of the merge is only logged.
unfoldable pub web_round : Web → Message → Web
web_round v m =
    if m.is_point_chan
    then record v { web_points = (points_merge v.web_points m.point).points }
    else v

-- The thread over the messages that it got so far.
unfoldable pub web_thread : Web → List Message → Web
unfolding web_round
web_thread v [] = v
web_thread v (m ∷ ms) = web_thread (web_round v m) ms
