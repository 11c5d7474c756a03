-- ===== src/Timeconv/Accept.antt =====
-- What the parser of lib/timeconv.c accepts.
use zephyr_siot.Base.{
  ℕ, zero, suc, ◌+◌, ◌≤◌, ◌<◌, ◌≡◌, ◌≢◌, refl, ap, ◌∙◌, Bool, true, false, not, Option, some, ◌++◌,
  ◌==◌, ltb, if◌then◌else◌, arith, take, drop, get_or, Bool-cases, inl, inr,
}
use mathlib.Core.Path.{subst}
use zephyr_siot.Base.Int.{ℤ}
use zephyr_siot.CString.{Bytes, cstr, strlen}
use zephyr_siot.SiotString.{is_digit}
use zephyr_siot.Timeconv.{
  Tm, fraction_of, digits_loop, is_separator, has_separators, in_range, number_at, is_end, epoch_ns,
  tmp_of, tm_of, is_date_time, timeconv_epoch_ns_from_rfc3339,
}
use zephyr_siot.Timeconv.Fraction.{
  AreDigits, nanoseconds, digits_in, ending, fraction_of_lem, cstr-split,
}

-- A round of the loop over the digits that goes on to the end.
round_lem :
    (sep dig next : Bool)
    → (if sep then next else if dig then next else false) ≡ true
    → (next ≡ true) × (sep ≡ false → dig ≡ true)
round_lem true dig next h = (h, λ e. absurd cc)
round_lem false true next h = (h, λ e. refl)
round_lem false false next h = absurd cc

-- The digits of a date and a time of day stand where the parser reads them.
digits_loop_lem :
    (left : ℕ) (tmp : Bytes) (i j : ℕ)
    → digits_loop left tmp i ≡ true
    → i ≤ j
    → j < i + left
    → is_separator j ≡ false
    → is_digit (get_or tmp j 0) ≡ true
unfolding digits_loop
digits_loop_lem zero tmp i j h a b sep = absurd (omega (arith, a, b))
digits_loop_lem (suc left) tmp i j h a b sep =
    let (later, here) =
      round_lem (is_separator i) (is_digit (get_or tmp i 0)) (digits_loop left tmp (i + 1)) h in
    elim (Bool-cases (i == j)) [
      | inl e ↦
          let same : i ≡ j = ground arith in
          subst (λ n. is_digit (get_or tmp n 0) ≡ true) same (here (rw same sep))
      | inr e ↦
          let other : i ≢ j = ground arith in
          digits_loop_lem left tmp (i + 1) j later (omega (arith, a, other)) (omega (arith, b)) sep
    ]

-- A date and a time of day in the first 19 characters, each number in its range.
abbrev pub IsDateTime : Bytes → Type 0
IsDateTime tmp =
    (get_or tmp 4 0 ≡ b'-')
    × (get_or tmp 7 0 ≡ b'-')
    × (get_or tmp 10 0 ≡ b'T')
    × (get_or tmp 13 0 ≡ b':')
    × (get_or tmp 16 0 ≡ b':')
    × ((i : ℕ) → i < 19 → is_separator i ≡ false → is_digit (get_or tmp i 0) ≡ true)
    × (1 ≤ number_at tmp 5)
    × (number_at tmp 5 ≤ 12)
    × (1 ≤ number_at tmp 8)
    × (number_at tmp 8 ≤ 31)
    × (number_at tmp 11 ≤ 23)
    × (number_at tmp 14 ≤ 59)
    × (number_at tmp 17 ≤ 60)

has_separators_lem :
    (tmp : Bytes)
    → has_separators tmp ≡ true
    → (get_or tmp 4 0 ≡ b'-')
      × (get_or tmp 7 0 ≡ b'-')
      × (get_or tmp 10 0 ≡ b'T')
      × (get_or tmp 13 0 ≡ b':')
      × (get_or tmp 16 0 ≡ b':')
has_separators_lem tmp h = ground arith

in_range_lem :
    (mon mday hour min sec : ℕ)
    → in_range mon mday hour min sec ≡ true
    → (1 ≤ mon) × (mon ≤ 12) × (1 ≤ mday) × (mday ≤ 31) × (hour ≤ 23) × (min ≤ 59) × (sec ≤ 60)
in_range_lem mon mday hour min sec h = ground arith

date_tests :
    (short sep dig range : Bool)
    → (if short then false else if not sep then false else if not dig then false else range) ≡ true
    → (short ≡ false) × (sep ≡ true) × (dig ≡ true) × (range ≡ true)
date_tests true sep dig range h = absurd cc
date_tests false false dig range h = absurd cc
date_tests false true false range h = absurd cc
date_tests false true true range h = (refl, refl, refl, h)

result_tests :
    (empty date end : Bool) (n : ℕ)
    → (if empty then 0 else if date then (if end then n else 0) else 0) ≢ 0
    → (date ≡ true)
      × (end ≡ true)
      × ((if empty then 0 else if date then (if end then n else 0) else 0) ≡ n)
result_tests true date end n h = absurd (h refl)
result_tests false true true n h = (refl, refl, refl)
result_tests false true false n h = absurd (h refl)
result_tests false false end n h = absurd (h refl)

is_date_time_lem : (tmp : Bytes) → is_date_time tmp ≡ true → (IsDateTime tmp) × (20 ≤ strlen tmp)
is_date_time_lem tmp h =
    let (long, sep, dig, range) =
      date_tests (ltb (strlen tmp) 20) (has_separators tmp) (digits_loop 19 tmp 0)
        (in_range (number_at tmp 5) (number_at tmp 8) (number_at tmp 11) (number_at tmp 14)
          (number_at tmp 17))
        h in
    let (a, b, c, d, e) = has_separators_lem tmp sep in
    let (f, g, h, i, j, k, l) =
      in_range_lem (number_at tmp 5) (number_at tmp 8) (number_at tmp 11) (number_at tmp 14)
        (number_at tmp 17) range in
    (
      (
        a,
        b,
        c,
        d,
        e,
        (λ j less sep. digits_loop_lem 19 tmp 0 j dig (omega arith) less sep),
        f,
        g,
        h,
        i,
        j,
        k,
        l,
      ),
      ground (arith, long),
    )

-- A text that is read as an instant other than 0 has a date and a time of day in its first 19 characters
-- and behind them a "Z", with a fraction of digits before it or without, and nothing else. The instant is
-- what `timeutil_timegm64` gives for the date and time, with the first nine digits of the fraction as
-- nanoseconds. The text is taken up to 38 characters.
pub timeconv-accepted :
    (timegm : Tm → ℤ) (buf : Bytes) (buf_len : ℕ)
    → timeconv_epoch_ns_from_rfc3339 timegm (some buf) buf_len ≢ 0
    → let tmp = tmp_of buf buf_len in
      IsDateTime tmp
      × ((o : Option Bytes) × (AreDigits (digits_in o))
          × (cstr tmp ≡ take 19 tmp ++ ending o)
          × (timeconv_epoch_ns_from_rfc3339 timegm (some buf) buf_len
              ≡ epoch_ns (timegm (tm_of tmp)) (nanoseconds 9 (digits_in o))))
unfolding timeconv_epoch_ns_from_rfc3339
timeconv-accepted timegm buf buf_len h =
    let tmp = tmp_of buf buf_len in
    let (nsec, left) = fraction_of (drop 19 tmp) in
    let (date, end, value) =
      result_tests (buf_len == 0) (is_date_time tmp) (is_end left)
        (epoch_ns (timegm (tm_of tmp)) nsec) h in
    let (is_date, long) = is_date_time_lem tmp date in
    let (o, digits, text, fraction) = fraction_of_lem (drop 19 tmp) end in
    (
      is_date,
      (
        o,
        digits,
        cstr-split 19 tmp (omega (arith, long)) ∙ ap (λ s. take 19 tmp ++ s) text,
        value ∙ ap (epoch_ns (timegm (tm_of tmp))) fraction,
      ),
    )
