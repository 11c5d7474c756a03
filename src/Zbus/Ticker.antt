-- ===== src/Zbus/Ticker.antt =====
-- The ticker of lib/zbus.c: a thread that publishes to `ticker_chan` when a kernel timer has expired. The
-- kernel's timer is a parameter.
use zephyr_siot.Base.{
  ℕ, ◌+◌, ◌≤◌, ◌<◌, ◌≡◌, refl, ap, Bool, true, false, Option, some, List, [], ◌∷◌, length, arith,
  ◌⊎◌, inl, inr, Bool-cases, if◌then◌else◌,
}
use mathlib.Core.Option

-- `ticker`, as K_TIMER_DEFINE makes it. A `k_timer_status_sync` of `none` blocks.
pub record KernelTimer : Type 1 where
  pub Timer : Type 0
  pub ticker : Timer
  pub k_timer_start : Timer → Timer
  pub expire : Timer → Timer
  pub k_timer_status_sync : Timer → Option Timer

-- What the kernel documents of it: the status counts the expiries since it was read last; reading it waits
-- for the first of them, and resets it.
pub record IsTimer (k : KernelTimer) (status : k.Timer → ℕ) : Type 0 where
  pub at_start : status (k.k_timer_start k.ticker) ≡ 0
  pub expired : (t : k.Timer) → status (k.expire t) ≡ status t + 1
  pub synced :
      (t t' : k.Timer) → k.k_timer_status_sync t ≡ some t' → (0 < status t) × (status t' ≡ 0)
  pub available :
      (t : k.Timer) → 0 < status t → (t' : k.Timer) × (k.k_timer_status_sync t ≡ some t')

-- The timer expires, the thread comes back from the wait, a publish ends. The last event is the first.
pub data Event : Type 0 where
  expiry wake tick : Event

-- How often the timer expired, and how often it did since the thread came back last.
unfoldable pub expiries : List Event → ℕ
expiries [] = 0
expiries (expiry ∷ es) = expiries es + 1
expiries (wake ∷ es) = expiries es
expiries (tick ∷ es) = expiries es

unfoldable pub unread : List Event → ℕ
unread [] = 0
unread (expiry ∷ es) = unread es + 1
unread (wake ∷ es) = 0
unread (tick ∷ es) = unread es

module _ (k : KernelTimer) where
  -- The thread is in the publish, or waits for the timer; `sent` is what it published, the last first.
  pub record Ticker : Type 0 where
    pub timer : k.Timer
    pub publishing : Bool
    pub sent : List ℕ

  -- `ticker_thread` up to its loop.
  unfoldable pub ticker_thread : Ticker
  ticker_thread = record { timer = k.k_timer_start k.ticker; publishing = false; sent = [] }

  -- The thread comes back from `k_timer_status_sync`.
  unfoldable pub wake_up : Ticker → Option Ticker
  wake_up t =
      Option.map (λ timer. record t { timer = timer; publishing = true })
        (k.k_timer_status_sync t.timer)

  -- It publishes `dummy`; an error is not looked at.
  unfoldable pub publish_tick : Ticker → Ticker
  publish_tick t = record t { publishing = false; sent = 0 ∷ t.sent }

  -- The events lead from the start to a state.
  pub data Run : List Event → Ticker → Type 0 where
    started : Run [] ticker_thread
    expires :
        {es : List Event} {t : Ticker}
        → Run es t
        → Run (expiry ∷ es) (record t { timer = k.expire t.timer })
    wakes :
        {es : List Event} {t t' : Ticker}
        → Run es t
        → t.publishing ≡ false
        → wake_up t ≡ some t'
        → Run (wake ∷ es) t'
    ticks :
        {es : List Event} {t : Ticker}
        → Run es t
        → t.publishing ≡ true
        → Run (tick ∷ es) (publish_tick t)

  wake_up_lem :
      (t : Ticker) {t' : Ticker}
      → wake_up t ≡ some t'
      → (k.k_timer_status_sync t.timer ≡ some t'.timer)
        × (t'.publishing ≡ true)
        × (t'.sent ≡ t.sent)
  unfolding wake_up
  wake_up_lem t e = ground arith

  module _ (status : k.Timer → ℕ) (i : IsTimer k status) where
    -- The status is what the events say.
    Run-unread : {es : List Event} {t : Ticker} → Run es t → status t.timer ≡ unread es
    unfolding ticker_thread publish_tick unread
    Run-unread started = i.at_start
    Run-unread (expires {t = t} r) = omega (arith, i.expired t.timer, Run-unread r)
    Run-unread (wakes {t = t} {t' = t'} r p e) = (i.synced t.timer t'.timer (wake_up_lem t e).0).1
    Run-unread (ticks r p) = Run-unread r

    -- What is sent, with the publish that the thread is in.
    abbrev begun : Ticker → ℕ
    begun t = length t.sent + (if t.publishing then 1 else 0)

    Run-begun : {es : List Event} {t : Ticker} → Run es t → begun t + unread es ≤ expiries es
    unfolding ticker_thread publish_tick unread expiries
    Run-begun started = omega arith
    Run-begun (expires r) = omega (arith, Run-begun r)
    Run-begun (wakes {t = t} {t' = t'} r p e) =
        let (_, on, same) = wake_up_lem t e in
        let (some_unread, _) = i.synced t.timer t'.timer (wake_up_lem t e).0 in
        ground (arith, Run-begun r, Run-unread r, some_unread, on, ap length same, p)
    Run-begun (ticks r p) = ground (arith, Run-begun r, p)

    -- In each run the timer expired at least once for each byte that was published.
    pub Run-sent :
        {es : List Event} {t : Ticker} → Run es t → length t.sent + unread es ≤ expiries es
    Run-sent r = omega (arith, Run-begun r)

    -- The thread goes on to publish a byte.
    abbrev pub Ticks : List Event → Ticker → Type 0
    Ticks es t = (t' : Ticker) × Run (tick ∷ wake ∷ es) t' × (t'.sent ≡ 0 ∷ t.sent)

    Run-Ticks_now :
        {es : List Event} {t : Ticker}
        → Run es t
        → t.publishing ≡ false
        → 0 < unread es
        → Ticks es t
    unfolding wake_up publish_tick
    Run-Ticks_now {t = t} r p h =
        let (timer, e) = i.available t.timer (omega (arith, h, Run-unread r)) in
        let t' = record t { timer = timer; publishing = true } in
        (publish_tick t', ticks (wakes r p (rw e refl)) refl, refl)

    -- An expiry is followed by a tick: at once if the thread waits, and else when the publish that it is in
    -- has ended.
    pub Run-Ticks :
        {es : List Event} {t : Ticker}
        → Run es t
        → 0 < unread es
        → Ticks es t ⊎ Ticks (tick ∷ es) (publish_tick t)
    unfolding publish_tick unread
    Run-Ticks {t = t} r h = elim (Bool-cases t.publishing) [
      | inl on ↦ inr (Run-Ticks_now (ticks r on) refl h)
      | inr off ↦ inl (Run-Ticks_now r off h)
    ]
