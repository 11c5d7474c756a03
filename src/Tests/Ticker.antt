-- ===== src/Tests/Ticker.antt =====
-- The ticker with a kernel timer that counts.
use zephyr_siot.Base.{
  ℕ, zero, suc, ◌+◌, ◌<◌, ◌≡◌, refl, false, Option, none, some, [], ◌∷◌, arith, ◌⊎◌,
}
use zephyr_siot.Zbus.Ticker.{
  KernelTimer, IsTimer, expiry, unread, Ticker, ticker_thread, publish_tick, Run, started, expires,
  Ticks, Run-Ticks, tick,
}

abbrev sync : ℕ → Option ℕ
sync zero = none
sync (suc n) = some 0

abbrev kernel : KernelTimer
kernel = record {
  Timer = ℕ;
  ticker = 0;
  k_timer_start = λ t. 0;
  expire = λ t. t + 1;
  k_timer_status_sync = sync;
}

kernel-IsTimer : IsTimer kernel (λ t. t)
kernel-IsTimer = record {
  at_start = refl;
  expired = λ t. refl;
  synced = synced;
  available = available;
}
  where
    synced : (t t' : ℕ) → sync t ≡ some t' → (0 < t) × (t' ≡ 0)
    synced zero t' e = absurd (let n = e in cc)
    synced (suc n) t' e = (omega arith, ground (arith, e))

    available : (t : ℕ) → 0 < t → (t' : ℕ) × (sync t ≡ some t')
    available zero h = absurd (omega (arith, h))
    available (suc n) h = (0, refl)

-- The timer has expired once, and the thread waits.
abbrev expired_once : Ticker kernel
expired_once = record { timer = 1; publishing = false; sent = [] }

expired_once-Run : Run kernel (expiry ∷ []) expired_once
unfolding ticker_thread
expired_once-Run = expires started

Run-Ticks_example :
    Ticks kernel (λ t. t) kernel-IsTimer (expiry ∷ []) expired_once
    ⊎ Ticks kernel (λ t. t) kernel-IsTimer (tick ∷ expiry ∷ []) (publish_tick kernel expired_once)
unfolding unread
Run-Ticks_example = Run-Ticks kernel (λ t. t) kernel-IsTimer expired_once-Run (omega arith)
