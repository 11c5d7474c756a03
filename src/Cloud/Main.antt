-- ===== src/Cloud/Main.antt =====
-- apps/siot-nrf/src/main.c: the start, and the main thread that publishes when the timer or the command
-- `publish` asks for it. The kernel's semaphore is a parameter.
pub mod Runs
use zephyr_siot.Base.{
  ℕ, suc, ◌+◌, ◌≤◌, ◌<◌, min, ◌≡◌, refl, ap, sym, ◌∙◌, Bool, true, false, Option, none, some, List,
  [], ◌∷◌, ◌⊎◌, inl, inr, if◌then◌else◌, arith, Bool-cases,
}
use mathlib.Core.Option
use zephyr_siot.Base.Int.{ℤ, pos, is_negative}
use zephyr_siot.CString.{Bytes}
use zephyr_siot.Cloud.{Calls, World, cloud_publish}
use zephyr_siot.Cloud.Cert.{Modem, cloud_init}
use zephyr_siot.Cloud.Sockets.{IsPosix, held, none_held, cloud_publish-held}
use zephyr_siot.Cloud.Secure.{HasErrno, is_secure}
use zephyr_siot.Cloud.Secure.Publish.{cloud_publish-is_secure}

-- `thread_sem`, as `K_SEM_DEFINE(thread_sem, 0, 1)` makes it. A take of `none` blocks.
pub record Semaphore : Type 1 where
  pub Sem : Type 0
  pub thread_sem : Sem
  pub k_sem_give : Sem → Sem
  pub k_sem_take : Sem → Option Sem

-- What the kernel documents of a semaphore that starts with 0 and has the limit 1.
pub record IsSemaphore (k : Semaphore) (count : k.Sem → ℕ) : Type 0 where
  pub at_first : count k.thread_sem ≡ 0
  pub given : (s : k.Sem) → count (k.k_sem_give s) ≡ min (count s + 1) 1
  pub taken : (s s' : k.Sem) → k.k_sem_take s ≡ some s' → count s ≡ count s' + 1
  pub available : (s : k.Sem) → 0 < count s → (s' : k.Sem) × (k.k_sem_take s ≡ some s')

module _ (k : Semaphore) (w : World) where
  -- The running program. The main thread is in `cloud_publish` or waits for the semaphore.
  pub record App : Type 0 where
    pub sem : k.Sem
    pub publishing : Bool
    pub calls : Calls

  unfoldable pub timeout_handler : App → App
  timeout_handler a = record a { sem = k.k_sem_give a.sem }

  unfoldable pub cmd_publish : App → ℤ × App
  cmd_publish a = (pos 0, record a { sem = k.k_sem_give a.sem })

  -- The main thread gets the semaphore.
  unfoldable pub take : App → Option App
  take a = Option.map (λ s. record a { sem = s; publishing = true }) (k.k_sem_take a.sem)

  -- A publish ends; an error is only logged.
  unfoldable pub publish : App → App
  publish a = record a { publishing = false; calls = (cloud_publish w a.calls).1 }

  -- `main` up to its loop: an error that it returns, or the program that runs.
  unfoldable pub start : (m : Modem) → Bytes → m.Store → ℤ → ℤ → ℤ ⊎ App
  unfolding cloud_init
  start m cert s modem_init lte_connect =
      let err = (cloud_init m (some tt) cert s).0 in
      if is_negative modem_init
      then inl modem_init
      else if is_negative err
      then inl err
      else if is_negative lte_connect
      then inl lte_connect
      else inr (record { sem = k.k_sem_give k.thread_sem; publishing = false; calls = [] })
