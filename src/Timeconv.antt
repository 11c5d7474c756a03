-- ===== src/Timeconv.antt =====
-- lib/timeconv.c: RFC 3339 timestamps in UTC from and to nanoseconds since 1970.
pub mod Accept
pub mod Days
pub mod Bijection
pub mod Fraction
pub mod Bounds
pub mod Calendar
pub mod Stamp
pub mod RoundTrip
pub mod Printed
use zephyr_siot.Base.{
  ℕ, zero, suc, ◌+◌, ◌-◌, ◌*◌, ◌/◌, ◌%◌, ◌^◌, ◌≡◌, refl, Bool, true, false, ◌&&◌, ◌||◌, not, Option,
  none, some, List, [], ◌∷◌, ◌++◌, ltb, leb, ◌==◌, if◌then◌else◌, length, get_or, take, drop,
}
use zephyr_siot.Base.Int.{ℤ, pos, negsuc, neg_ℕ, is_negative, abs, to_word, of_word}
use zephyr_siot.CString.{Bytes, strlen, write_at_start}
use zephyr_siot.SiotString.{quot, rem, is_digit, digit_char}

abbrev pub ns_per_sec : ℕ
ns_per_sec = 1000000000

abbrev pub rfc3339_max_len : ℕ
rfc3339_max_len = 31

-- `z + k` and `z * k` in an `int64_t`; day counts stay far from its ends.
abbrev pub add_ℕ : ℤ → ℕ → ℤ
add_ℕ (pos n) k = pos (n + k)
add_ℕ (negsuc n) k = if ltb n k then pos (k - suc n) else negsuc (n - k)

abbrev pub mul_ℕ : ℤ → ℕ → ℤ
mul_ℕ (pos n) k = pos (n * k)
mul_ℕ (negsuc n) k = neg_ℕ (suc n * k)

-- `era` and `doe` of a day count that has been moved to 0000-03-01.
abbrev pub era_doe : ℤ → ℤ × ℕ
era_doe (pos n) = (pos (n / 146097), n - n / 146097 * 146097)
era_doe (negsuc n) = let back = (suc n + 146096) / 146097 in (neg_ℕ back, back * 146097 - suc n)

pub record Civil : Type 0 where
  pub year : ℤ
  pub month : ℕ
  pub day : ℕ

unfoldable pub yoe_of : ℕ → ℕ
yoe_of doe = (doe - doe / 1460 + doe / 36524 - doe / 146096) / 365

unfoldable pub doy_of : ℕ → ℕ
unfolding yoe_of
doy_of doe = let yoe = yoe_of doe in doe - (365 * yoe + yoe / 4 - yoe / 100)

unfoldable pub mp_of : ℕ → ℕ
mp_of doy = (5 * doy + 2) / 153

unfoldable pub civil_from_days : ℤ → Civil
unfolding yoe_of doy_of mp_of
civil_from_days z =
    let (era, doe) = era_doe (add_ℕ z 719468) in
    let y = add_ℕ (mul_ℕ era 400) (yoe_of doe) in
    let doy = doy_of doe in
    let mp = mp_of doy in
    let d = doy - (153 * mp + 2) / 5 + 1 in
    let m = if ltb mp 10 then mp + 3 else mp - 9 in
    let year = add_ℕ y (if leb m 2 then 1 else 0) in
    record { year = of_word (to_word year); month = m; day = d }

-- `'0' + (n / div) % 10` of an `unsigned`.
abbrev pub digit_at : ℕ → ℕ → ℕ
digit_at n div = b'0' + n / div % 10

-- The same of the `int` that holds the year.
abbrev pub year_digit : ℤ → ℕ → ℕ
year_digit y div = digit_char (rem (quot y div) 10)

-- Two digits.
abbrev pub two_digits : ℕ → Bytes
two_digits n = digit_at n 10 ∷ digit_at n 1 ∷ []

-- The loop over the fraction: `rounds` digits of `nsec`, written from the last one back.
unfoldable pub fraction_digits : ℕ → ℕ → Bytes → Bytes
fraction_digits zero nsec out = out
fraction_digits (suc rounds) nsec out =
    fraction_digits rounds (nsec / 10) ((b'0' + nsec % 10) ∷ out)

-- The date, the time of day in seconds and the fraction as text, with the terminator.
unfoldable pub rfc3339_text : Civil → ℕ → ℕ → Bytes
unfolding fraction_digits
rfc3339_text c rem_secs nsec =
    (year_digit c.year 1000
      ∷ year_digit c.year 100
      ∷ year_digit c.year 10
      ∷ year_digit c.year 1
      ∷ b'-'
      ∷ two_digits c.month)
    ++ (b'-' ∷ two_digits c.day)
    ++ (b'T' ∷ two_digits (rem_secs / 3600))
    ++ (b':' ∷ two_digits (rem_secs % 3600 / 60))
    ++ (b':' ∷ two_digits (rem_secs % 60))
    ++ (b'.' ∷ fraction_digits 9 nsec [])
    ++ b'Z' ∷ 0 ∷ []

unfoldable pub timeconv_rfc3339_from_epoch_ns_utc : ℕ → Option Bytes → ℕ → Option Bytes × ℤ
timeconv_rfc3339_from_epoch_ns_utc epoch_ns none buf_len = (none, negsuc 0)
timeconv_rfc3339_from_epoch_ns_utc epoch_ns (some buf) buf_len =
    if ltb buf_len rfc3339_max_len
    then (some buf, negsuc 0)
    else let secs = epoch_ns / ns_per_sec in
      let text =
        rfc3339_text (civil_from_days (pos (secs / 86400))) (secs % 86400)
          (epoch_ns % ns_per_sec) in
      (some (write_at_start buf text), pos 0)

-- `struct tm`, as far as the parser fills it; `tm_year` counts from 1900.
pub record Tm : Type 0 where
  pub tm_year : ℤ
  pub tm_mon : ℕ
  pub tm_mday : ℕ
  pub tm_hour : ℕ
  pub tm_min : ℕ
  pub tm_sec : ℕ

-- `tmp[i] - '0'` of a character that has been tested.
abbrev pub digit_of : Bytes → ℕ → ℕ
digit_of tmp i = get_or tmp i 0 - b'0'

abbrev pub number_at : Bytes → ℕ → ℕ
number_at tmp i = digit_of tmp i * 10 + digit_of tmp (i + 1)

-- The separators, and the digits everywhere else among the first 19 characters.
abbrev pub has_separators : Bytes → Bool
has_separators tmp =
    get_or tmp 4 0 == b'-'
    && get_or tmp 7 0 == b'-'
    && get_or tmp 10 0 == b'T'
    && get_or tmp 13 0 == b':'
    && get_or tmp 16 0 == b':'

abbrev pub is_separator : ℕ → Bool
is_separator i = i == 4 || i == 7 || i == 10 || i == 13 || i == 16

-- The loop from index `i`, over the rest of the text.
unfoldable pub digits_loop : ℕ → Bytes → ℕ → Bool
digits_loop zero tmp i = true
digits_loop (suc left) tmp i =
    let next = digits_loop left tmp (i + 1) in
    if is_separator i then next else if is_digit (get_or tmp i 0) then next else false

abbrev pub in_range : ℕ → ℕ → ℕ → ℕ → ℕ → Bool
in_range mon mday hour min sec = not (
    ltb mon 1 || ltb 12 mon || ltb mday 1 || ltb 31 mday || ltb 23 hour || ltb 59 min || ltb 60 sec)

-- The loop over the fraction: `nsec` and the text that is left.
unfoldable pub nsec_loop : Bytes → ℕ → ℕ → ℕ × Bytes
nsec_loop [] nsec scale = (nsec, [])
nsec_loop (c ∷ s) nsec scale =
    let counted = nsec_loop s (nsec + (c - b'0') * scale) (scale / 10) in
    let passed = nsec_loop s nsec scale in
    if is_digit c then (if ltb 0 scale then counted else passed) else (nsec, c ∷ s)

-- From index 19 on: the fraction if there is one, and what is left.
unfoldable pub fraction_of : Bytes → ℕ × Bytes
unfolding nsec_loop
fraction_of s = if get_or s 0 0 == b'.' then nsec_loop (drop 1 s) 0 100000000 else (0, s)

-- "Z" and the terminator.
abbrev pub is_end : Bytes → Bool
is_end s = get_or s 0 0 == b'Z' && get_or s 1 0 == 0

-- The result of `timeutil_timegm64`, and the fraction.
abbrev pub epoch_ns : ℤ → ℕ → ℕ
epoch_ns (pos epoch) nsec = (epoch * ns_per_sec + nsec) % 2 ^ 64
epoch_ns (negsuc n) nsec = 0

-- `char tmp[39]` with the text copied in, cut to 38 bytes, and terminated.
abbrev pub tmp_of : Bytes → ℕ → Bytes
tmp_of buf buf_len = take (if ltb buf_len 38 then buf_len else 38) buf ++ 0 ∷ []

abbrev pub tm_of : Bytes → Tm
tm_of tmp =
    let year =
      digit_of tmp 0 * 1000 + digit_of tmp 1 * 100 + digit_of tmp 2 * 10 + digit_of tmp 3 in
    record {
      tm_year = if ltb year 1900 then neg_ℕ (1900 - year) else pos (year - 1900);
      tm_mon = number_at tmp 5 - 1;
      tm_mday = number_at tmp 8;
      tm_hour = number_at tmp 11;
      tm_min = number_at tmp 14;
      tm_sec = number_at tmp 17;
    }

-- What is tested before the fraction is read.
abbrev pub is_date_time : Bytes → Bool
is_date_time tmp =
    if ltb (strlen tmp) 20
    then false
    else if not (has_separators tmp)
    then false
    else if not (digits_loop 19 tmp 0)
    then false
    else in_range (number_at tmp 5) (number_at tmp 8) (number_at tmp 11) (number_at tmp 14)
        (number_at tmp 17)

-- `timegm` is Zephyr's `timeutil_timegm64`. The buffer is `none` for a null pointer.
unfoldable pub timeconv_epoch_ns_from_rfc3339 : (Tm → ℤ) → Option Bytes → ℕ → ℕ
unfolding digits_loop fraction_of strlen
timeconv_epoch_ns_from_rfc3339 timegm none buf_len = 0
timeconv_epoch_ns_from_rfc3339 timegm (some buf) buf_len =
    if buf_len == 0
    then 0
    else let tmp = tmp_of buf buf_len in
      let (nsec, left) = fraction_of (drop 19 tmp) in
      if is_date_time tmp
      then (if is_end left then epoch_ns (timegm (tm_of tmp)) nsec else 0)
      else 0
