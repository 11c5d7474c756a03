-- ===== src/Siggen.antt =====
-- apps/siggen/src/main.c: the triangle wave of `gen_triangle`.
use zephyr_siot.Base.{
  ℕ, zero, suc, ◌+◌, ◌-◌, ◌*◌, ◌%◌, ◌≤◌, ◌<◌, ◌≡◌, refl, ap, ◌∙◌, Bool, true, false, not, ltb, leb,
  if◌then◌else◌, arith, Bool-cases, inl, inr,
}
use zephyr_siot.Base.Int.{ℤ, pos, negsuc}

-- The variables of the loop.
pub record Wave : Type 0 where
  pub up : Bool
  pub value : ℤ

abbrev pub wave_max : ℕ
wave_max = 1241

abbrev pub first_wave : Wave
first_wave = record { up = true; value = pos 0 }

-- `value + 1` and `value - 1`
abbrev succ : ℤ → ℤ
succ (pos n) = pos (n + 1)
succ (negsuc n) = if ltb 0 n then negsuc (n - 1) else pos 0

abbrev pred : ℤ → ℤ
pred (pos n) = if ltb 0 n then pos (n - 1) else negsuc 0
pred (negsuc n) = negsuc (n + 1)

-- `value >= max`, and `value <= min` for a `min` of 0.
abbrev at_max : ℤ → Bool
at_max (pos n) = leb wave_max n
at_max (negsuc n) = false

abbrev at_min : ℤ → Bool
at_min (pos n) = leb n 0
at_min (negsuc n) = true

-- One round up to the write to the converter, whose errors are only logged.
unfoldable pub gen_round : Wave → Wave
gen_round w =
    if w.up
    then record { up = not (at_max (succ w.value)); value = succ w.value }
    else record { up = at_min (pred w.value); value = pred w.value }

-- The variables after a number of rounds; each of them writes its `value`.
unfoldable pub gen_triangle : ℕ → Wave
unfolding gen_round
gen_triangle zero = first_wave
gen_triangle (suc n) = gen_round (gen_triangle n)

-- The wave as a function of the round: up by one to the maximum, down by one to 0, and again.
unfoldable pub triangle : ℕ → ℕ
triangle n =
    if leb (n % (2 * wave_max)) wave_max
    then n % (2 * wave_max)
    else 2 * wave_max - n % (2 * wave_max)

-- The wave at a place of its period.
abbrev at_place : ℕ → Wave
at_place r = record {
  up = ltb r wave_max;
  value = pos (if leb r wave_max then r else 2 * wave_max - r);
}

rises : (r : ℕ) → r < wave_max → gen_round (at_place r) ≡ at_place (r + 1)
unfolding gen_round
rises r h = ground arith

falls : (r : ℕ) → wave_max ≤ r → r + 1 < 2 * wave_max → gen_round (at_place r) ≡ at_place (r + 1)
unfolding gen_round
falls r h k = ground arith

turns : gen_round (at_place (2 * wave_max - 1)) ≡ at_place 0
unfolding gen_round
turns = refl

-- The wave is the triangle at each round: it goes up by one to 1241, down by one to 0, and again, with a
-- period of 2482 rounds.
pub gen_triangle-triangle :
    (n : ℕ)
    → gen_triangle n ≡ record { up = ltb (n % (2 * wave_max)) wave_max; value = pos (triangle n) }
unfolding gen_triangle triangle
gen_triangle-triangle zero = refl
gen_triangle-triangle (suc n) =
    let r = n % (2 * wave_max) in
    ap gen_round (gen_triangle-triangle n) ∙ elim (Bool-cases (ltb r wave_max)) [
      | inl a ↦ rises r (ground arith) ∙ ap at_place (ground arith)
      | inr a ↦ elim (Bool-cases (ltb (r + 1) (2 * wave_max))) [
        | inl b ↦ falls r (ground arith) (ground arith) ∙ ap at_place (ground arith)
        | inr b ↦
            let e : r ≡ 2 * wave_max - 1 = ground arith in
            ap (λ x. gen_round (at_place x)) e ∙ turns ∙ ap at_place {x = 0} (ground arith)
      ]
    ]

-- Each value that is written is in the range of the output, 0 to 1241.
pub gen_triangle-le : (n : ℕ) → (v : ℕ) × ((gen_triangle n).value ≡ pos v) × (v ≤ wave_max)
unfolding triangle
gen_triangle-le n = (triangle n, ap (λ w. w.value) (gen_triangle-triangle n), ground arith)
