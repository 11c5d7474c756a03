-- ===== src/Timeconv/Stamp.antt =====
-- The form of a printed timestamp, and how the parser takes it apart.
use zephyr_siot.Base.{
  ℕ, suc, ◌+◌, ◌-◌, ◌*◌, ◌/◌, ◌%◌, ◌^◌, ◌≤◌, ◌<◌, ◌≡◌, refl, ap, ◌∙◌, true, false, some, [], ◌∷◌,
  ◌++◌, ltb, if◌then◌else◌, arith,
}
use zephyr_siot.Base.Int.{ℤ, pos, neg_ℕ}
use zephyr_siot.CString.{Bytes, strlen}
use zephyr_siot.CString.Laws.{strlen-cons, strlen-append, IsText}
use zephyr_siot.SiotString.{is_digit, digit_char}
use zephyr_siot.Timeconv.{
  Tm, fraction_digits, rfc3339_text, nsec_loop, fraction_of, digits_loop, tm_of, is_date_time,
  digit_at, ns_per_sec, timeconv_epoch_ns_from_rfc3339,
}

nsec_loop-digit :
    (x : ℕ) (s : Bytes) (nsec scale : ℕ)
    → x < 10
    → nsec_loop ((b'0' + x) ∷ s) nsec (suc scale)
      ≡ nsec_loop s (nsec + x * suc scale) (suc scale / 10)
unfolding nsec_loop is_digit
nsec_loop-digit x s nsec scale h = let e : b'0' + x - b'0' ≡ x = omega arith in ground (arith, e)

nsec_loop-end : (nsec : ℕ) → nsec_loop (b'Z' ∷ 0 ∷ []) nsec 0 ≡ (nsec, b'Z' ∷ 0 ∷ [])
unfolding nsec_loop is_digit
nsec_loop-end nsec = refl

-- The fraction is read back.
nsec_loop-fraction :
    (n : ℕ)
    → n < ns_per_sec
    → nsec_loop (fraction_digits 9 n (b'Z' ∷ 0 ∷ [])) 0 100000000 ≡ (n, b'Z' ∷ 0 ∷ [])
unfolding fraction_digits
nsec_loop-fraction n h =
    step _ _ _ 99999999
    ∙ step _ _ _ 9999999
    ∙ step _ _ _ 999999
    ∙ step _ _ _ 99999
    ∙ step _ _ _ 9999
    ∙ step _ _ _ 999
    ∙ step _ _ _ 99
    ∙ step _ _ _ 9
    ∙ step n _ _ 0
    ∙ nsec_loop-end _
    ∙ ap (λ n. (n, b'Z' ∷ 0 ∷ [])) (omega arith)
  where
    step :
        (x : ℕ) (s : Bytes) (nsec scale : ℕ)
        → nsec_loop ((b'0' + x % 10) ∷ s) nsec (suc scale)
          ≡ nsec_loop s (nsec + x % 10 * suc scale) (suc scale / 10)
    step x s nsec scale = nsec_loop-digit (x % 10) s nsec scale (omega arith)

-- The date and the time of day as text.
abbrev pub stamp : ℕ → ℕ → ℕ → ℕ → ℕ → ℕ → Bytes
stamp y mo d h mi s =
    digit_at y 1000
    ∷ digit_at y 100
    ∷ digit_at y 10
    ∷ digit_at y 1
    ∷ b'-'
    ∷ digit_at mo 10
    ∷ digit_at mo 1
    ∷ b'-'
    ∷ digit_at d 10
    ∷ digit_at d 1
    ∷ b'T'
    ∷ digit_at h 10
    ∷ digit_at h 1
    ∷ b':'
    ∷ digit_at mi 10
    ∷ digit_at mi 1
    ∷ b':'
    ∷ digit_at s 10
    ∷ digit_at s 1
    ∷ []

is_digit-at : (n k : ℕ) → is_digit (digit_at n k) ≡ true
unfolding is_digit
is_digit-at n k = let e : n / k % 10 < 10 = omega arith in ground arith

digits_loop-stamp :
    (y mo d h mi s : ℕ) (t : Bytes) → digits_loop 19 (stamp y mo d h mi s ++ t) 0 ≡ true
unfolding digits_loop
digits_loop-stamp y mo d h mi s t = rw (
  is_digit-at y 1000,
  is_digit-at y 100,
  is_digit-at y 10,
  is_digit-at y 1,
  is_digit-at mo 10,
  is_digit-at mo 1,
  is_digit-at d 10,
  is_digit-at d 1,
  is_digit-at h 10,
  is_digit-at h 1,
  is_digit-at mi 10,
  is_digit-at mi 1,
  is_digit-at s 10,
  is_digit-at s 1,
)

IsText-stamp : (y mo d h mi s : ℕ) → IsText (stamp y mo d h mi s)
IsText-stamp y mo d h mi s = ground arith

two_digits-value : (n : ℕ) → n < 100 → (digit_at n 10 - b'0') * 10 + (digit_at n 1 - b'0') ≡ n
two_digits-value n h = omega arith

four_digits-value :
    (n : ℕ)
    → n < 10000
    → (digit_at n 1000 - b'0') * 1000
        + (digit_at n 100 - b'0') * 100
        + (digit_at n 10 - b'0') * 10
        + (digit_at n 1 - b'0')
      ≡ n
four_digits-value n h = omega arith

-- The fields of `struct tm`.
abbrev pub tm : ℕ → ℕ → ℕ → ℕ → ℕ → ℕ → Tm
tm y mo d h mi s = record {
  tm_year = if ltb y 1900 then neg_ℕ (1900 - y) else pos (y - 1900);
  tm_mon = mo - 1;
  tm_mday = d;
  tm_hour = h;
  tm_min = mi;
  tm_sec = s;
}

tm_of-stamp :
    (y mo d h mi s : ℕ) (t : Bytes)
    → y < 10000
    → mo < 100
    → d < 100
    → h < 100
    → mi < 100
    → s < 100
    → tm_of (stamp y mo d h mi s ++ t) ≡ tm y mo d h mi s
tm_of-stamp y mo d h mi s t hy hmo hd hh hmi hs = rw (
  four_digits-value y hy,
  two_digits-value mo hmo,
  two_digits-value d hd,
  two_digits-value h hh,
  two_digits-value mi hmi,
  two_digits-value s hs,
)

is_date_time-stamp :
    (y mo d h mi s : ℕ) (t : Bytes)
    → 1 ≤ mo
    → mo ≤ 12
    → 1 ≤ d
    → d ≤ 31
    → h < 24
    → mi < 60
    → s < 60
    → is_date_time (stamp y mo d h mi s ++ b'.' ∷ t) ≡ true
is_date_time-stamp y mo d h mi s t hmo hmo' hd hd' hh hmi hs =
    let long : ltb (strlen (stamp y mo d h mi s ++ b'.' ∷ t)) 20 ≡ false =
      let e = strlen-append (stamp y mo d h mi s) (b'.' ∷ t) (IsText-stamp y mo d h mi s) in
      let dot = strlen-cons b'.' t (λ z. absurd (omega (arith, z))) in
      let b : 20 ≤ strlen (stamp y mo d h mi s ++ b'.' ∷ t) = omega (arith, e, dot) in
      ground arith in
    rw
      (
        long,
        digits_loop-stamp y mo d h mi s (b'.' ∷ t),
        two_digits-value mo (omega arith),
        two_digits-value d (omega arith),
        two_digits-value h (omega arith),
        two_digits-value mi (omega arith),
        two_digits-value s (omega arith),
      )
      (ground arith)

-- The text that is printed.
pub rfc3339_text-stamp :
    (y mo d secs n : ℕ)
    → rfc3339_text (record { year = pos y; month = mo; day = d }) secs n
      ≡ stamp y mo d (secs / 3600) (secs % 3600 / 60) (secs % 60)
        ++ b'.' ∷ fraction_digits 9 n (b'Z' ∷ 0 ∷ [])
unfolding rfc3339_text fraction_digits digit_char
rfc3339_text-stamp y mo d secs n =
    let a : ltb 9 (y / 1000 % 10) ≡ false = ground arith in
    let b : ltb 9 (y / 100 % 10) ≡ false = ground arith in
    let c : ltb 9 (y / 10 % 10) ≡ false = ground arith in
    let e : ltb 9 (y / 1 % 10) ≡ false = ground arith in
    rw
      (a, b, c, e, flip (y / 1000 % 10), flip (y / 100 % 10), flip (y / 10 % 10), flip (y / 1 % 10))
  where
    flip : (n : ℕ) → n + b'0' ≡ b'0' + n
    flip n = omega arith

-- The parser on a text of this form, with more bytes behind it.
pub parse-stamp :
    (timegm : Tm → ℤ) (y mo d h mi s n epoch : ℕ) (more : Bytes)
    → y < 10000
    → 1 ≤ mo
    → mo ≤ 12
    → 1 ≤ d
    → d ≤ 31
    → h < 24
    → mi < 60
    → s < 60
    → n < ns_per_sec
    → timegm (tm y mo d h mi s) ≡ pos epoch
    → timeconv_epoch_ns_from_rfc3339 timegm
        (some (stamp y mo d h mi s ++ b'.' ∷ fraction_digits 9 n (b'Z' ∷ more)))
        30
      ≡ (epoch * ns_per_sec + n) % 2 ^ 64
unfolding timeconv_epoch_ns_from_rfc3339 fraction_of fraction_digits
parse-stamp timegm y mo d h mi s n epoch more hy hmo hmo' hd hd' hh hmi hs hn e =
    let f = fraction_digits 9 n (b'Z' ∷ 0 ∷ []) in
    rw (
      is_date_time-stamp y mo d h mi s f hmo hmo' hd hd' hh hmi hs,
      nsec_loop-fraction n hn,
      tm_of-stamp y mo d h mi s (b'.' ∷ f) hy (omega arith) (omega arith) (omega arith)
          (omega arith) (omega arith),
      e,
    )
