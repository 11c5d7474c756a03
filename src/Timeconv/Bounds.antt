-- ===== src/Timeconv/Bounds.antt =====
-- The ranges of the fields that `civil_from_days` computes.
use zephyr_siot.Base.{ℕ, ◌+◌, ◌-◌, ◌*◌, ◌/◌, ◌≤◌, ◌<◌, arith}
use zephyr_siot.Timeconv.{yoe_of, doy_of, mp_of}

pub yoe-lt : (doe : ℕ) → doe < 146097 → yoe_of doe < 400
unfolding yoe_of
yoe-lt doe h = omega arith

pub doy-le : (doe : ℕ) → doe < 146097 → doy_of doe ≤ 365
unfolding doy_of yoe_of
doy-le doe h = omega arith

pub mp-le : (doy : ℕ) → doy ≤ 365 → mp_of doy ≤ 11
unfolding mp_of
mp-le doy h = omega arith

pub day-le : (doy : ℕ) → doy ≤ 365 → doy - (153 * mp_of doy + 2) / 5 + 1 ≤ 31
unfolding mp_of
day-le doy h = omega arith
