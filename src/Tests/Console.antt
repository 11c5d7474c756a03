-- ===== src/Tests/Console.antt =====
-- The cache, its console and timestamps.
use zephyr_siot.Base.{
  ℕ, ltb, true, ◌+◌, ◌-◌, ◌*◌, ◌≡◌, refl, some, [], ◌∷◌, arith, ◌==◌, if◌then◌else◌, replicate,
  take, ◌++◌, ◌≢◌, Option,
}
use zephyr_siot.Base.Int.{ℤ, pos}
use zephyr_siot.CString.{Bytes, cstr, strlen, first}
use zephyr_siot.SiotString.{is_digit}
use zephyr_siot.Timeconv.{
  Tm, tmp_of, tm_of, epoch_ns, nsec_loop, digits_loop, fraction_of, civil_from_days,
  timeconv_rfc3339_from_epoch_ns_utc, timeconv_epoch_ns_from_rfc3339,
}
use zephyr_siot.Timeconv.Calendar.{is_leap, month_len, next_day, date_after, days_end}
use zephyr_siot.Timeconv.Days.{civil_from_days_lem}
use mathlib.Core.Equiv.{IsContr}
use zephyr_siot.Timeconv.Bijection.{civil_from_days-IsContr}
use zephyr_siot.Timeconv.Accept.{IsDateTime, timeconv-accepted}
use zephyr_siot.Timeconv.Fraction.{AreDigits, nanoseconds, digits_in, ending}
use zephyr_siot.Timeconv.RoundTrip.{timeconv-round_trip}
use zephyr_siot.Cache.Quote.{
  quote_field, needs_quote, any_special, is_special, copy_quoted, escape_of,
}

-- `a b`, which needs quotes.
abbrev spaced_s : Bytes
spaced_s = b'a' ∷ b' ' ∷ b'b' ∷ []

abbrev spaced_word : Bytes
spaced_word = b'"' ∷ b'a' ∷ b' ' ∷ b'b' ∷ b'"' ∷ []

spaced_lem : quote_field spaced_s 10 ≡ some spaced_word
unfolding quote_field needs_quote any_special is_special copy_quoted escape_of first
spaced_lem = refl

civil_from_days_lem_example :
    civil_from_days (pos 59) ≡ record { year = pos 1970; month = 3; day = 1 }
unfolding date_after next_day month_len is_leap
civil_from_days_lem_example = civil_from_days_lem 59 (omega arith)

-- 29 February 2024.
civil_from_days-IsContr_example : IsContr (
    (n : ℕ) × ((ltb n days_end ≡ true)
      × (civil_from_days (pos n) ≡ record { year = pos 2024; month = 2; day = 29 })))
unfolding month_len is_leap
civil_from_days-IsContr_example = civil_from_days-IsContr 2024 2 29 (omega arith) (omega arith)

-- A `timegm` for the year 1970: the day of the year by the lengths of January and February.
abbrev day_before : ℕ → ℕ
day_before mon = if mon == 0 then 0 else if mon == 1 then 31 else 59 + (mon - 2) * 30

abbrev timegm_1970 : Tm → ℤ
timegm_1970 t =
    pos
      ((day_before t.tm_mon + t.tm_mday - 1) * 86400 + t.tm_hour * 3600 + t.tm_min * 60 + t.tm_sec)

-- 1970-03-01T01:01:01.000000007Z
timeconv-round_trip_example :
    let (out, ret) =
      timeconv_rfc3339_from_epoch_ns_utc 5101261000000007 (some (replicate 31 0)) 31 in
    (ret ≡ pos 0) × (timeconv_epoch_ns_from_rfc3339 timegm_1970 out 30 ≡ 5101261000000007)
unfolding date_after next_day month_len is_leap
timeconv-round_trip_example =
    timeconv-round_trip timegm_1970 5101261000000007 (replicate 31 0) 31 (omega arith) (omega arith)
      refl

-- 1970-03-01T01:01:01.5Z
abbrev half_past : Bytes
half_past =
    b'1' ∷ b'9' ∷ b'7' ∷ b'0' ∷ b'-' ∷ b'0' ∷ b'3' ∷ b'-' ∷ b'0' ∷ b'1' ∷ b'T' ∷ b'0' ∷ b'1' ∷ b':'
    ∷ b'0' ∷ b'1' ∷ b':' ∷ b'0' ∷ b'1' ∷ b'.' ∷ b'5' ∷ b'Z' ∷ []

half_past-accepted : timeconv_epoch_ns_from_rfc3339 timegm_1970 (some half_past) 22 ≢ 0
unfolding timeconv_epoch_ns_from_rfc3339 digits_loop fraction_of is_digit strlen cstr nsec_loop
half_past-accepted e = absurd (omega (arith, e))

timeconv-accepted_example :
    let tmp = tmp_of half_past 22 in
    IsDateTime tmp
    × ((o : Option Bytes) × (AreDigits (digits_in o))
        × (cstr tmp ≡ take 19 tmp ++ ending o)
        × (timeconv_epoch_ns_from_rfc3339 timegm_1970 (some half_past) 22
            ≡ epoch_ns (timegm_1970 (tm_of tmp)) (nanoseconds 9 (digits_in o))))
timeconv-accepted_example = timeconv-accepted timegm_1970 half_past 22 half_past-accepted

-- The fraction has 17 digits, so that what stands behind the "Z" is cut.
abbrev long_text : Bytes
long_text = take 20 half_past ++ replicate 17 b'5' ++ b'Z' ∷ b'?' ∷ b'?' ∷ []

long_text_lem : timeconv_epoch_ns_from_rfc3339 timegm_1970 (some long_text) 40 ≡ 5101261555555555
unfolding timeconv_epoch_ns_from_rfc3339 digits_loop fraction_of is_digit strlen cstr nsec_loop
long_text_lem = refl

-- With one digit more the "Z" is cut.
longer_text :
    timeconv_epoch_ns_from_rfc3339 timegm_1970
      (some (take 20 half_past ++ replicate 18 b'5' ++ b'Z' ∷ []))
      39
    ≡ 0
unfolding timeconv_epoch_ns_from_rfc3339 digits_loop fraction_of is_digit strlen cstr nsec_loop
longer_text = refl
