-- ===== src/Timeconv/RoundTrip.antt =====
-- A timestamp that is printed is read back as the same number of nanoseconds.
use zephyr_siot.Base.{ℕ, ◌/◌, ◌%◌, ◌^◌, ◌≤◌, ◌<◌, ◌≡◌, refl, ◌∙◌, false, some, ltb, arith}
use zephyr_siot.Base.Int.{ℤ, pos}
use zephyr_siot.CString.{Bytes}
use zephyr_siot.Timeconv.{
  Tm, fraction_digits, ns_per_sec, timeconv_epoch_ns_from_rfc3339,
  timeconv_rfc3339_from_epoch_ns_utc, rfc3339_max_len,
}
use zephyr_siot.Timeconv.Calendar.{date_after, date_after-bounds, days_end}
use zephyr_siot.Timeconv.Days.{civil_from_days_lem}
use zephyr_siot.Timeconv.Stamp.{tm, rfc3339_text-stamp, parse-stamp}

-- The last day that a count of nanoseconds in 64 bits reaches.
pub day-bound : (t : ℕ) → t < 2 ^ 64 → t / ns_per_sec / 86400 ≤ 213503
day-bound t h = omega arith

-- An instant is printed, and the text is read back as the same instant, if `timeutil_timegm64` gives
-- the seconds of the date and time that the calendar has for it. The buffer is large enough, and the
-- parser is given the 30 characters before the terminator.
pub timeconv-round_trip :
    (timegm : Tm → ℤ) (t : ℕ) (buf : Bytes) (buf_len : ℕ)
    → t < 2 ^ 64
    → 31 ≤ buf_len
    → (let secs = t / ns_per_sec in
        let (y, m, d) = date_after (secs / 86400) in
        let left = secs % 86400 in
        timegm (tm y m d (left / 3600) (left % 3600 / 60) (left % 60)) ≡ pos secs)
    → let (out, ret) = timeconv_rfc3339_from_epoch_ns_utc t (some buf) buf_len in
      (ret ≡ pos 0) × timeconv_epoch_ns_from_rfc3339 timegm out 30 ≡ t
unfolding timeconv_rfc3339_from_epoch_ns_utc fraction_digits
timeconv-round_trip timegm t buf buf_len ht hb e =
    let secs = t / ns_per_sec in
    let (y, m, d) = date_after (secs / 86400) in
    let left = secs % 86400 in
    let early : secs / 86400 < days_end = omega (arith, day-bound t ht) in
    let b : ltb buf_len rfc3339_max_len ≡ false = ground arith in
    let bounds = date_after-bounds (secs / 86400) (day-bound t ht) in
    rw
      (
        b,
        civil_from_days_lem (secs / 86400) early,
        rfc3339_text-stamp y m d (secs % 86400) (t % ns_per_sec),
      )
      (
        refl,
        parse-stamp timegm y m d (left / 3600) (left % 3600 / 60) (left % 60) (t % ns_per_sec) secs
              _ bounds.0 bounds.1 bounds.2 bounds.3 bounds.4 (omega arith) (omega arith)
              (omega arith) (omega arith) e
            ∙ omega arith,
      )
