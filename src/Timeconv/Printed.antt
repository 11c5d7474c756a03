-- ===== src/Timeconv/Printed.antt =====
-- The text of a timestamp as a word of a command: what is read back from it.
use zephyr_siot.Base.{
  ℕ, ◌/◌, ◌%◌, ◌^◌, ◌<◌, ◌≡◌, refl, ap, ◌∙◌, some, [], ◌∷◌, ◌++◌, length, replicate, arith,
}
use zephyr_siot.Base.Int.{ℤ, pos}
use zephyr_siot.CString.{Bytes, cstr, strlen}
use zephyr_siot.CString.Laws.{IsText, cstr-IsText, cstr-IsText_end}
use zephyr_siot.Timeconv.{
  Tm, fraction_digits, ns_per_sec, timeconv_epoch_ns_from_rfc3339,
  timeconv_rfc3339_from_epoch_ns_utc, rfc3339_max_len,
}
use zephyr_siot.Timeconv.Calendar.{date_after, date_after-bounds, days_end}
use zephyr_siot.Timeconv.Days.{civil_from_days_lem}
use zephyr_siot.Timeconv.RoundTrip.{day-bound}
use zephyr_siot.Timeconv.Stamp.{tm, stamp, rfc3339_text-stamp, parse-stamp}

-- `timeutil_timegm64` gives the seconds of the date and time that the calendar has for an instant.
abbrev pub Knows : (Tm → ℤ) → ℕ → Type 0
Knows timegm t =
    let secs = t / ns_per_sec in
    let (y, m, d) = date_after (secs / 86400) in
    let left = secs % 86400 in
    timegm (tm y m d (left / 3600) (left % 3600 / 60) (left % 60)) ≡ pos secs

-- The text of an instant, without its terminator.
abbrev pub printed : ℕ → Bytes
printed t =
    let secs = t / ns_per_sec in
    let (y, m, d) = date_after (secs / 86400) in
    let left = secs % 86400 in
    stamp y m d (left / 3600) (left % 3600 / 60) (left % 60)
    ++ b'.' ∷ fraction_digits 9 (t % ns_per_sec) (b'Z' ∷ [])

IsText-printed : (t : ℕ) → IsText (printed t)
unfolding fraction_digits
IsText-printed t = ground arith

pub length-printed : (t : ℕ) → length (printed t) ≡ 30
unfolding fraction_digits
length-printed t = refl

pub printed_lem :
    (t : ℕ)
    → t < 2 ^ 64
    → timeconv_rfc3339_from_epoch_ns_utc t (some (replicate rfc3339_max_len 0)) rfc3339_max_len
      ≡ (some (printed t ++ 0 ∷ []), pos 0)
unfolding timeconv_rfc3339_from_epoch_ns_utc fraction_digits
printed_lem t ht =
    let early : t / ns_per_sec / 86400 < days_end = omega (arith, day-bound t ht) in
    let secs = t / ns_per_sec in
    let (y, m, d) = date_after (secs / 86400) in
    rw
      (
        civil_from_days_lem (secs / 86400) early,
        rfc3339_text-stamp y m d (secs % 86400) (t % ns_per_sec),
      )
      refl

pub cstr-printed : (t : ℕ) → cstr (printed t ++ 0 ∷ []) ≡ printed t
cstr-printed t = cstr-IsText (printed t) [] (IsText-printed t)

-- The parser reads the word back as the same instant.
pub printed-read :
    (timegm : Tm → ℤ) (t : ℕ)
    → t < 2 ^ 64
    → Knows timegm t
    → timeconv_epoch_ns_from_rfc3339 timegm (some (printed t)) (strlen (printed t)) ≡ t
unfolding strlen
printed-read timegm t ht e =
    let secs = t / ns_per_sec in
    let (y, m, d) = date_after (secs / 86400) in
    let left = secs % 86400 in
    let bounds = date_after-bounds (secs / 86400) (day-bound t ht) in
    let len : strlen (printed t) ≡ 30 =
      ap length (cstr-IsText_end (printed t) (IsText-printed t)) ∙ length-printed t in
    ap (timeconv_epoch_ns_from_rfc3339 timegm (some (printed t))) len
    ∙ parse-stamp timegm y m d (left / 3600) (left % 3600 / 60) (left % 60) (t % ns_per_sec) secs []
        bounds.0 bounds.1 bounds.2 bounds.3 bounds.4 (omega arith) (omega arith) (omega arith)
        (omega arith) e
    ∙ omega arith
