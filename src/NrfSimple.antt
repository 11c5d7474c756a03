-- ===== src/NrfSimple.antt =====
-- apps/siot-nrf-simple/src/main.c: the modem is started, and then an LED blinks. What the modem's calls return
-- are parameters.
use zephyr_siot.Base.{
  ℕ, zero, suc, ◌+◌, ◌*◌, ◌≡◌, refl, ap, Bool, true, false, Option, none, some, List, [], ◌∷◌,
  if◌then◌else◌, arith, ◌⊎◌, inl, inr, Bool-cases,
}
use zephyr_siot.Base.Int.{ℤ, is_negative}

-- The calls that are made. `slept` is `k_sleep`, with milliseconds.
pub data Act : Type 0 where
  modem_started psm_requested connected : Act
  led_on led_off slept : ℕ → Act

-- The number of the LED.
abbrev pub led : ℕ
led = 2

-- The loop, after a number of rounds.
unfoldable pub blink : ℕ → List Act
blink zero = []
blink (suc n) = led_on led ∷ slept 500 ∷ led_off led ∷ slept 500 ∷ blink n

-- What was called after `n` rounds of the loop, and what was returned if it does not get there.
unfoldable pub main : ℤ → ℤ → ℕ → List Act × Option ℤ
unfolding blink
main modem_init lte_connect n =
    if is_negative modem_init
    then (modem_started ∷ [], some modem_init)
    else if is_negative lte_connect
    then (modem_started ∷ psm_requested ∷ connected ∷ [], some lte_connect)
    else (modem_started ∷ psm_requested ∷ connected ∷ blink n, none)

-- Whether the LED is on, and how long it was, after some calls; before them it was `on` or not.
abbrev lit : Bool → List Act → Bool × ℕ
lit on [] = (on, 0)
lit on (modem_started ∷ acts) = lit on acts
lit on (psm_requested ∷ acts) = lit on acts
lit on (connected ∷ acts) = lit on acts
lit on (led_on l ∷ acts) = lit true acts
lit on (led_off l ∷ acts) = lit false acts
lit on (slept ms ∷ acts) = let r = lit on acts in (r.0, (if on then ms else 0) + r.1)

-- Each round leaves the LED off, and it was on for half a second in each.
pub blink-lit : (n : ℕ) → lit false (blink n) ≡ (false, 500 * n)
unfolding blink
blink-lit zero = refl
blink-lit (suc n) = rw (blink-lit n) (ap (λ t. (false, t)) (omega arith))

-- The LED is touched only after both calls of the modem succeeded; then each round leaves it off, and it was on
-- for half a second in each. Otherwise the first negative result is returned.
pub main_lem :
    (modem_init lte_connect : ℤ) (n : ℕ)
    → let (acts, ret) = main modem_init lte_connect n in
      ((ret ≡ none) × (lit false acts ≡ (false, 500 * n)))
      ⊎ ((is_negative modem_init ≡ true) × (ret ≡ some modem_init) × (lit true acts ≡ (true, 0)))
      ⊎ ((is_negative lte_connect ≡ true) × (ret ≡ some lte_connect) × (lit true acts ≡ (true, 0)))
unfolding main
main_lem modem_init lte_connect n = elim (Bool-cases (is_negative modem_init)) [
  | inl m ↦ rw m (inr (inl (refl, refl, refl)))
  | inr m ↦ elim (Bool-cases (is_negative lte_connect)) [
    | inl c ↦ rw (m, c) (inr (inr (refl, refl, refl)))
    | inr c ↦ rw (m, c) (inl (refl, blink-lit n))
  ]
]
