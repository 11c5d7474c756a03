-- ===== src/Cache/Shell.antt =====
-- The console of lib/point-cache.c and of lib/point.c: points as `pt` lines, the commands of `siot`, the
-- command `p`, and the thread that keeps the cache.
pub mod Laws
pub mod Lines
pub mod Argv
pub mod Replay
pub mod Latest
pub mod Order
pub mod Sizes
pub mod Stamped
pub mod Told
pub mod Copy
use mathlib.Core.Option.{Option, none, some}
use zephyr_siot.Base.{
  ℕ, zero, suc, ◌+◌, ◌*◌, ◌≡◌, Bool, true, false, ◌&&◌, ◌||◌, List, [], ◌∷◌, ◌++◌, ltb, leb, ◌==◌,
  if◌then◌else◌, length, replicate, bytes_eq,
}
use zephyr_siot.Base.Int.{ℤ, pos, negsuc, abs}
use zephyr_siot.CString.{Bytes, cstr, strlen}
use zephyr_siot.Point.{
  data_size, type_size, key_size, Point, zero_point, is_unknown, type_float, type_int, type_string,
}
use zephyr_siot.SiotString.Float.{Floats}
use zephyr_siot.Timeconv.{
  Tm, rfc3339_max_len, timeconv_rfc3339_from_epoch_ns_utc, timeconv_epoch_ns_from_rfc3339,
}
use zephyr_siot.Json.PointJs.{
  PointJs, flt_s, int_s, str_s, jsn_s, point_data_to_string, point_js_to_point,
}
use zephyr_siot.Cache.{Cache, point_cache_merge, point_cache_count, point_cache_foreach}
use zephyr_siot.Cache.Quote.{quote_field}

-- A line that `shell_print` writes. The texts that do not carry a point are constructors.
pub data Line : Type 0 where
  text : Bytes → Line
  streaming_is : Bool → Line
  stream_usage : Line
  points_cached : ℕ → ℕ → Line
  p_usage : Line
  invalid_point : Line
  invalid_time : Bytes → Line

-- `POINT_TIME_MIN`
abbrev pub point_time_min : ℕ
point_time_min = 1577836800000000000

-- The switch over the data type, where it is none of the first three.
abbrev pub dt_name : ℕ → Bytes
dt_name dt =
    if dt == type_float
    then flt_s
    else if dt == type_int
    then int_s
    else if dt == type_string
    then str_s
    else jsn_s

-- "pt %s %s %s %s"
abbrev pub pt_line : Bytes → Bytes → Bytes → Bytes → Bytes
pt_line type_q key_q dt data_q =
    (b'p' ∷ b't' ∷ b' ' ∷ type_q) ++ (b' ' ∷ key_q) ++ (b' ' ∷ dt) ++ b' ' ∷ data_q

-- The line with its timestamp, unless the conversion fails.
abbrev pub stamped : Option Bytes × ℤ → Bytes → Line
stamped (some time_buf, pos zero) line = text (line ++ b' ' ∷ cstr time_buf)
stamped _ line = text line

abbrev pub time_text : ℕ → Option Bytes × ℤ
time_text time =
    timeconv_rfc3339_from_epoch_ns_utc time (some (replicate rfc3339_max_len 0)) rfc3339_max_len

-- The three quoted fields, if each fits its buffer.
abbrev pub emit_quoted : Option Bytes → Option Bytes → Option Bytes → Point → List Line
emit_quoted (some data_q) (some type_q) (some key_q) p =
    let line = pt_line type_q key_q (dt_name p.data_type) data_q in
    (if leb point_time_min p.time then stamped (time_text p.time) line else text line) ∷ []
emit_quoted _ _ _ p = []

-- From the conversion of the data on.
abbrev pub emit_data : Option Bytes × ℤ → Point → List Line
emit_data (some raw, pos zero) p =
    emit_quoted (quote_field raw ((data_size + 1) * 2 + 3)) (quote_field p.type (type_size * 2 + 3))
      (quote_field p.key (key_size * 2 + 3)) p
emit_data _ p = []

-- The lines that are printed. `has_shell` tells whether there is a shell backend, and `raw` is what
-- the buffer of that name holds before the call.
unfoldable pub point_emit : Floats → Bool → Bytes → Point → List Line
point_emit fl has_shell raw p =
    if has_shell
    then (if is_unknown p
        then []
        else emit_data (point_data_to_string fl p (some raw) (data_size + 1)) p)
    else []

-- The callback of the dump: the user's data are the lines so far.
unfoldable pub emit_cb : Floats → Bool → Bytes → Point → List Line → Point × List Line × ℤ
unfolding point_emit
emit_cb fl has_shell raw p lines = (p, lines ++ point_emit fl has_shell raw p, pos 0)

unfoldable pub cmd_siot_dump : Floats → Bool → Bytes → Cache → Cache × List Line × ℤ
unfolding emit_cb point_cache_foreach
cmd_siot_dump fl has_shell raw c =
    let (c', lines, ret) = point_cache_foreach c (emit_cb fl has_shell raw) [] in (c', lines, pos 0)

abbrev pub on_s : Bytes
on_s = b'o' ∷ b'n' ∷ []

abbrev pub off_s : Bytes
off_s = b'o' ∷ b'f' ∷ b'f' ∷ []

-- The arguments start with the command's own name.
unfoldable pub cmd_siot_stream : Cache → List Bytes → Cache × List Line × ℤ
cmd_siot_stream c [] = (c, streaming_is c.streaming ∷ [], pos 0)
cmd_siot_stream c (name ∷ []) = (c, streaming_is c.streaming ∷ [], pos 0)
cmd_siot_stream c (name ∷ arg ∷ args) =
    if bytes_eq (cstr arg) on_s
    then (record c { streaming = true }, [], pos 0)
    else if bytes_eq (cstr arg) off_s
    then (record c { streaming = false }, [], pos 0)
    else (c, stream_usage ∷ [], negsuc 0)

unfoldable pub cmd_siot_status : Cache → List Line × ℤ
cmd_siot_status c =
    (points_cached (point_cache_count c) (length c.slots) ∷ streaming_is c.streaming ∷ [], pos 0)

-- A message that the subscriber got: whether it came over `point_chan`, and the point.
pub record Message : Type 0 where
  pub is_point_chan : Bool
  pub point : Point

-- One round of the thread: the cache, and what is printed. The point that is emitted is the one that
-- the merge left, which has a key.
unfoldable pub thread_round : Floats → Bool → Bytes → Cache → Message → Cache × List Line
unfolding point_cache_merge
thread_round fl has_shell raw c m =
    if m.is_point_chan
    then (let (c', p, ret) = point_cache_merge c m.point in
        (c', if c'.streaming then point_emit fl has_shell raw p else []))
    else (c, [])

-- The thread over the messages that it got so far.
unfoldable pub point_cache_thread : Floats → Bool → Bytes → Cache → List Message → Cache × List Line
unfolding thread_round
point_cache_thread fl has_shell raw c [] = (c, [])
point_cache_thread fl has_shell raw c (m ∷ ms) =
    let (c', lines) = thread_round fl has_shell raw c m in
    let (c'', more) = point_cache_thread fl has_shell raw c' ms in (c'', lines ++ more)

-- What `handle_sendpoint` returns, prints and publishes.
pub record Sent : Type 0 where
  pub ret : ℤ
  pub lines : List Line
  pub published : Option Point

-- The optional timestamp, which is set last.
abbrev pub send_timed : (Tm → ℤ) → List Bytes → Point → Sent
send_timed timegm [] p = record { ret = pos 0; lines = []; published = some p }
send_timed timegm (time ∷ args) p =
    let t = timeconv_epoch_ns_from_rfc3339 timegm (some time) (strlen time) in
    if t == 0
    then record { ret = negsuc 0; lines = invalid_time (cstr time) ∷ []; published = none }
    else record { ret = pos 0; lines = []; published = some (record p { time = t }) }

abbrev pub send_point : (Tm → ℤ) → List Bytes → Point × ℤ → Sent
send_point timegm times (p, ret) =
    if ltb 0 (abs ret)
    then record { ret = negsuc 0; lines = invalid_point ∷ []; published = none }
    else send_timed timegm times p

-- `p <type> <key> <INT|FLT|STR|JSN> <data> [<time>]`
unfoldable pub handle_sendpoint : Floats → (Tm → ℤ) → List Bytes → Sent
handle_sendpoint fl timegm (name ∷ t ∷ k ∷ dt ∷ d ∷ times) =
    let js : PointJs = record { t = some t; k = some k; dt = some dt; d = cstr d } in
    send_point timegm times (point_js_to_point fl js zero_point)
handle_sendpoint fl timegm _ = record { ret = negsuc 0; lines = p_usage ∷ []; published = none }
