-- ===== src/SiotString.antt =====
-- lib/siot-string.c: printing and reading integers. A `char *` that a function fills is the list of
-- the bytes written, the terminator included; `int` arithmetic wraps at 32 bits.
pub mod Reverse
pub mod Digits
pub mod RoundTrip
pub mod Numeric
pub mod Float
use zephyr_siot.Base.{
  ℕ, zero, suc, ◌+◌, ◌-◌, ◌*◌, ◌/◌, ◌%◌, ◌^◌, ◌≡◌, refl, Bool, true, false, ◌&&◌, Option, none,
  some, List, [], ◌∷◌, ◌++◌, ltb, leb, ◌==◌, if◌then◌else◌, length, set, get_or,
}
use mathlib.Core.Option
use zephyr_siot.Base.Int.{ℤ, pos, negsuc, neg_ℕ, is_negative, to_word, of_word}
use zephyr_siot.CString.{Bytes, first}

-- The loop of `reverse`, with `fuel` rounds at most.
reverse_loop : ℕ → Bytes → ℕ → ℕ → Bytes
reverse_loop zero str start end = str
reverse_loop (suc fuel) str start end =
    let temp = get_or str start 0 in
    let swapped = set (set str start (get_or str end 0)) end temp in
    let next = reverse_loop fuel swapped (start + 1) (end - 1) in
    if ltb start end then next else str

-- `reverse(str, length)`: each round brings the two indices together, so `length` rounds are enough.
unfoldable pub reverse : Bytes → ℕ → Bytes
unfolding reverse_loop
reverse str length = reverse_loop length str 0 (length - 1)

-- C's division and remainder round towards zero.
abbrev pub quot : ℤ → ℕ → ℤ
quot (pos n) base = pos (n / base)
quot (negsuc n) base = neg_ℕ (suc n / base)

abbrev pub rem : ℤ → ℕ → ℤ
rem (pos n) base = pos (n % base)
rem (negsuc n) base = neg_ℕ (suc n % base)

abbrev pub is_zero : ℤ → Bool
is_zero (pos n) = n == 0
is_zero (negsuc n) = false

-- `(rem > 9) ? (rem - 10) + 'a' : rem + '0'`, stored in a `char`.
unfoldable pub digit_char : ℤ → ℕ
digit_char (pos r) = if ltb 9 r then (r - 10 + b'a') % 256 else r + b'0'
digit_char (negsuc r) = (b'0' + 256 - suc r % 256) % 256

-- `-num` in an `int`.
abbrev pub negate : ℤ → ℤ
negate num = of_word ((2 ^ 32 - to_word num) % 2 ^ 32)

-- The digit loop of `itoa`; `none` if it has not ended after `fuel` rounds.
unfoldable pub itoa_loop : ℕ → ℤ → ℕ → Bytes → Option Bytes
itoa_loop zero num base str = if is_zero num then some str else none
itoa_loop (suc fuel) num base str =
    let next = itoa_loop fuel (quot num base) base (str ++ digit_char (rem num base) ∷ []) in
    if is_zero num then some str else next

-- The end of `itoa` and of `utoa64`: the terminator, and the digits turned round.
abbrev pub finish : Bytes → Bytes
finish str = reverse (str ++ 0 ∷ []) (length str)

unfoldable pub itoa : ℤ → ℕ → Option Bytes
itoa num base =
    if is_zero num
    then some (b'0' ∷ 0 ∷ [])
    else if is_negative num && base == 10
    then Option.map (λ str. finish (str ++ b'-' ∷ [])) (itoa_loop 32 (negate num) base [])
    else Option.map finish (itoa_loop 32 num base [])

unfoldable pub utoa64_loop : ℕ → ℕ → ℕ → Bytes → Option Bytes
utoa64_loop zero num base str = if num == 0 then some str else none
utoa64_loop (suc fuel) num base str =
    let next = utoa64_loop fuel (num / base) base (str ++ digit_char (pos (num % base)) ∷ []) in
    if num == 0 then some str else next

unfoldable pub utoa64 : ℕ → ℕ → Option Bytes
utoa64 num base =
    if num == 0 then some (b'0' ∷ 0 ∷ []) else Option.map finish (utoa64_loop 64 num base [])

unfoldable pub is_digit : ℕ → Bool
is_digit c = leb b'0' c && leb c b'9'

-- The loop of `atoi` and of `atou64`, over a result of `2 ^ w` values.
unfoldable pub ato_loop : ℕ → Bytes → ℕ → ℕ
unfolding is_digit
ato_loop w [] result = result
ato_loop w (c ∷ str) result =
    if c == 0
    then result
    else if is_digit c
    then ato_loop w str ((result * 10 + (c - b'0')) % 2 ^ w)
    else result

abbrev pub tail : Bytes → Bytes
tail [] = []
tail (c ∷ s) = s

unfoldable pub atoi : Bytes → ℤ
atoi str =
    if first str == b'-'
    then of_word ((2 ^ 32 - ato_loop 32 (tail str) 0) % 2 ^ 32)
    else of_word (ato_loop 32 str 0)

unfoldable pub atou64 : Bytes → ℕ
atou64 str = if first str == b'-' then 0 else ato_loop 64 str 0
