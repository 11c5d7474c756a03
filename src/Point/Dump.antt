-- ===== src/Point/Dump.antt =====
-- `point_dump` and `points_dump` of lib/point.c: points as texts for the log. The conversions `%i` and `%f`
-- of `snprintf` are a parameter.
pub mod Laws
pub mod Overrun
pub mod Several
use zephyr_siot.Base.{
  ℕ, zero, suc, ◌+◌, ◌-◌, ◌≡◌, Bool, true, false, List, [], ◌∷◌, ◌++◌, ltb, leb, ◌==◌,
  if◌then◌else◌, length, take, splice, replicate,
}
use zephyr_siot.Base.Int.{ℤ, pos, negsuc, is_negative}
use zephyr_siot.CString.{Bytes, cstr}
use zephyr_siot.Point.{
  Point, type_unknown, type_int, type_float, type_string, point_get_int, point_get_float, is_empty,
}
use zephyr_siot.Point.Merge.{neg_enomem}
use zephyr_siot.SiotString.{is_zero}

pub record Printf : Type 0 where
  pub percent_i : ℤ → Bytes
  pub percent_f : ℕ → Bytes

-- The caller's buffer; `overran` tells that something was written outside of it.
pub record Out : Type 0 where
  pub buf : Bytes
  pub overran : Bool

-- A write of bytes from an index on. What falls behind the end of the buffer is cut off here.
abbrev pub put : Out → ℕ → Bytes → Out
put o i s =
    if leb (i + length s) (length o.buf)
    then record o { buf = splice i s o.buf }
    else record { buf = take (length o.buf) (splice i s o.buf); overran = true }

-- `a - n`
abbrev pub minus : ℤ → ℕ → ℤ
minus (pos a) n = if leb n a then pos (a - n) else negsuc (n - a - 1)
minus (negsuc a) n = negsuc (a + n)

-- `snprintf(buf + i, size, ...)` of a text: as a `size_t`, a negative size is larger than any text.
abbrev pub snprintf : Out → ℕ → ℤ → Bytes → Out
snprintf o i (pos zero) t = o
snprintf o i (pos (suc n)) t = put o i (take n t ++ 0 ∷ [])
snprintf o i (negsuc n) t = put o i (t ++ 0 ∷ [])

-- What `point_dump` keeps between two texts.
pub record Dump : Type 0 where
  pub out : Out
  pub offset : ℕ
  pub remaining : ℤ

-- One `snprintf` at `buf + offset`, and the two updates; `start` is the index where `buf` points to.
unfoldable pub print : ℕ → Dump → Bytes → Dump
print start d t = record {
  out = snprintf d.out (start + d.offset) d.remaining t;
  offset = d.offset + length t;
  remaining = minus d.remaining (length t);
}

-- ".%s: ", or ": " for an empty key.
abbrev pub key_text : Bytes → Bytes
key_text [] = b':' ∷ b' ' ∷ []
key_text (c ∷ k) = (b'.' ∷ c ∷ k) ++ b':' ∷ b' ' ∷ []

-- "unknown point type"
abbrev pub unknown_s : Bytes
unknown_s =
    b'u' ∷ b'n' ∷ b'k' ∷ b'n' ∷ b'o' ∷ b'w' ∷ b'n' ∷ b' ' ∷ b'p' ∷ b'o' ∷ b'i' ∷ b'n' ∷ b't' ∷ b' '
    ∷ b't' ∷ b'y' ∷ b'p' ∷ b'e' ∷ []

-- "invalid point type"
abbrev pub invalid_s : Bytes
invalid_s =
    b'i' ∷ b'n' ∷ b'v' ∷ b'a' ∷ b'l' ∷ b'i' ∷ b'd' ∷ b' ' ∷ b'p' ∷ b'o' ∷ b'i' ∷ b'n' ∷ b't' ∷ b' '
    ∷ b't' ∷ b'y' ∷ b'p' ∷ b'e' ∷ []

-- "\r\n\t- "
abbrev pub bullet : Bytes
bullet = 13 ∷ 10 ∷ 9 ∷ b'-' ∷ b' ' ∷ []

-- `offset + cnt`, which is not negative in the loop.
abbrev pub plus : ℕ → ℤ → ℕ
plus n (pos a) = n + a
plus n (negsuc a) = n - suc a

-- `remaining - cnt`
abbrev pub less : ℤ → ℤ → ℤ
less r (pos a) = minus r a
less (pos r) (negsuc a) = pos (r + suc a)
less (negsuc r) (negsuc a) = if leb r a then pos (a - r) else negsuc (r - a - 1)

module _ (pf : Printf) where
  -- The switch over the data type.
  unfoldable pub data_text : Point → Bytes
  data_text p =
      if p.data_type == type_int
      then (b'I' ∷ b'N' ∷ b'T' ∷ b':' ∷ b' ' ∷ []) ++ pf.percent_i (point_get_int p)
      else if p.data_type == type_float
      then (b'F' ∷ b'L' ∷ b'T' ∷ b':' ∷ b' ' ∷ []) ++ pf.percent_f (point_get_float p)
      else if p.data_type == type_string
      then (b'S' ∷ b'T' ∷ b'R' ∷ b':' ∷ b' ' ∷ []) ++ cstr p.payload
      else if p.data_type == type_unknown
      then unknown_s
      else invalid_s

  -- `point_dump(p, buf, len)` where `buf` points to the index `start`: the buffer and what is returned.
  unfoldable pub point_dump : Point → Out → ℕ → ℕ → Out × ℤ
  unfolding print data_text
  point_dump p o start len =
      if leb len 1
      then (o, negsuc 0)
      else (let d0 : Dump = record { out = o; offset = 0; remaining = pos (len - 1) } in
          let d1 = print start d0 (cstr p.type) in
          let d2 = print start d1 (key_text (cstr p.key)) in
          let d3 = print start d2 (data_text p) in (d3.out, pos d3.offset))

  -- The loop of `points_dump`. `strncpy` fills what remains of the buffer with zeros.
  dump_loop : List Point → Out → ℕ → ℤ → Out × ℕ
  dump_loop [] o offset remaining = (o, offset)
  dump_loop (p ∷ pts) o offset (negsuc r) =
      if is_empty p then dump_loop pts o offset (negsuc r) else (o, offset)
  dump_loop (p ∷ pts) o offset (pos r) =
      let o1 = put o offset (bullet ++ replicate (r - 5) 0) in
      let (o2, cnt) = point_dump p o1 (offset + 5) (r - 5) in
      let shown = dump_loop pts o2 (plus (offset + 5) cnt) (less (pos (r - 5)) cnt) in
      let skipped = dump_loop pts o offset (pos r) in
      if is_empty p then skipped else if ltb r 6 then (o, offset) else shown

  -- `points_dump(pts, pts_len, buf, buf_len)`; `buf_len` is the size of the buffer.
  unfoldable pub points_dump : List Point → Out → ℕ → Out × ℤ
  unfolding dump_loop
  points_dump pts o buf_len =
      if buf_len == 0
      then (o, neg_enomem)
      else (let (o', offset) = dump_loop pts (put o 0 (0 ∷ [])) 0 (pos (buf_len - 1)) in
          (o', pos offset))
