-- ===== src/Tests/Cloud.antt =====
-- The nRF application with a network, a modem and a semaphore that are given.
use zephyr_siot.Base.{
  ℕ, suc, ◌+◌, ◌<◌, min, ◌≡◌, refl, ap, sym, Bool, true, false, Option, none, some, [], ◌∷◌, ◌⊎◌,
  if◌then◌else◌, arith, bytes_eq, bytes_eq→eq, bytes_eq_refl, Bool-cases, inl, inr, zero,
}
use zephyr_siot.Base.Int.{ℤ, pos, negsuc}
use zephyr_siot.CString.{Bytes, cstr}
use zephyr_siot.SiotString.{is_zero}
use zephyr_siot.Cloud.{
  Call, Calls, World, create_object, print_object, delete_object, free_text, resolve, free_address,
  socket_open, set_option, connect, close, request, cloud_publish,
}
use zephyr_siot.Cloud.Sockets.{held, IsPosix, cloud_publish-held}
use zephyr_siot.Cloud.Secure.{is_secure, HasErrno}
use zephyr_siot.Cloud.Secure.Publish.{cloud_publish-is_secure}
use zephyr_siot.Cloud.Cert.{Modem, IsModem, IsReadable, cert_provision, cert_provision-stored}
use zephyr_siot.Cloud.Main.{Semaphore, IsSemaphore, App, timeout_handler, start, take}
use zephyr_siot.Cloud.Main.Runs.{
  Run, started, expire, begin, is_pending, Begins, took, expired, published, Run-Begins,
}

-- Each call succeeds, but a connection is refused if `refused` says so.
abbrev answers : Bool → Call → ℤ
answers refused create_object = pos 1
answers refused print_object = pos 1
answers refused delete_object = pos 0
answers refused free_text = pos 0
answers refused resolve = pos 0
answers refused free_address = pos 0
answers refused socket_open = pos 3
answers refused (set_option fd o) = pos 0
answers refused (connect fd) = if refused then negsuc 0 else pos 0
answers refused (close fd) = pos 0
answers refused (request fd) = pos 120

abbrev first_answer : Bool → Calls → ℤ
first_answer refused [] = pos 0
first_answer refused (c ∷ h) = answers refused c

abbrev network : Bool → World
network refused = record { answer = first_answer refused; errno = λ h. 111 }

network-IsPosix : (refused : Bool) → IsPosix (network refused)
network-IsPosix refused h = refl

network-HasErrno : (refused : Bool) → HasErrno (network refused)
network-HasErrno refused h = omega arith

cloud_publish-held_example :
    held (network true) (cloud_publish (network true) []).1 ≡ held (network true) []
cloud_publish-held_example = cloud_publish-held (network true) (network-IsPosix true) []

cloud_publish-is_secure_example :
    is_secure (network false) (cloud_publish (network false) []).1 ≡ is_secure (network false) []
cloud_publish-is_secure_example =
    cloud_publish-is_secure (network false) (network-HasErrno false) []

-- A request is sent, and it is refused if the connection is.
sends_request : (cloud_publish (network false) []).0 ≡ pos 0
unfolding cloud_publish
sends_request = refl

is_refused : (cloud_publish (network true) []).0 ≡ negsuc 110
unfolding cloud_publish
is_refused = refl

-- A key store with one place.
abbrev same : Bytes → Option Bytes → ℤ
same b none = negsuc 1
same b (some c) = if bytes_eq b c then pos 0 else pos 1

abbrev is_there : Option Bytes → Bool
is_there none = false
is_there (some c) = true

abbrev place : Modem
place = record {
  Store = Option Bytes;
  exists = λ s. (pos 0, is_there s);
  cmp = same;
  delete = λ s. (pos 0, none);
  write = λ b s. (pos 0, some b);
}

place-IsModem : IsModem place (λ s. s)
place-IsModem = record { compared = compared; written = λ b s z. refl }
  where
    compared : (b : Bytes) (s : Option Bytes) → is_zero (same b s) ≡ true → s ≡ some b
    compared b none h = absurd (ground (arith, h))
    compared b (some c) h = elim (Bool-cases (bytes_eq b c)) [
      | inl e ↦ ap some (sym (bytes_eq→eq b c e))
      | inr e ↦ absurd (ground (arith, e, h))
    ]

place-IsReadable : IsReadable place (λ s. s)
place-IsReadable = record { found = λ b s e. rw e refl; matched = matched }
  where
    matched : (b : Bytes) (s : Option Bytes) → s ≡ some b → same b s ≡ pos 0
    matched b s e = rw e (rw (bytes_eq_refl b) refl)

abbrev cert : Bytes
cert = b'c' ∷ b'e' ∷ b'r' ∷ b't' ∷ []

-- Another certificate is there before.
abbrev old_store : Option Bytes
old_store = some (b'o' ∷ b'l' ∷ b'd' ∷ [])

cert_provision-stored_example : (cert_provision place cert old_store).1 ≡ some cert
unfolding cstr cert_provision bytes_eq
cert_provision-stored_example =
    cert_provision-stored place (λ s. s) cert old_store place-IsModem refl refl

-- A semaphore that counts to 1.
abbrev taken : ℕ → Option ℕ
taken zero = none
taken (suc n) = some n

abbrev counter : Semaphore
counter = record { Sem = ℕ; thread_sem = 0; k_sem_give = λ n. min (n + 1) 1; k_sem_take = taken }

counter-IsSemaphore : IsSemaphore counter (λ n. n)
counter-IsSemaphore = record {
  at_first = refl;
  given = λ n. refl;
  taken = one_less;
  available = available;
}
  where
    one_less : (n m : ℕ) → taken n ≡ some m → n ≡ m + 1
    one_less zero m e = absurd cc
    one_less (suc n) m e = ground (arith, e)

    available : (n : ℕ) → 0 < n → (m : ℕ) × (taken n ≡ some m)
    available zero h = absurd (omega arith)
    available (suc n) h = (n, refl)

abbrev app : App counter (network false)
app = record { sem = 1; publishing = false; calls = [] }

abbrev taken_app : App counter (network false)
taken_app = record { sem = 0; publishing = true; calls = [] }

-- The first publish begins, and the timer expires during it.
begun-Run : Run counter (network false) place cert (took ∷ []) taken_app
unfolding start take
begun-Run = begin {a = app} (started old_store (pos 0) (pos 0) refl) refl refl

late-Run :
    Run counter
      (network false)
      place
      cert
      (expired ∷ took ∷ [])
      (timeout_handler counter (network false) taken_app)
late-Run = expire begun-Run

Run-Begins_example :
    Begins counter (network false) place cert (expired ∷ took ∷ [])
    ⊎ Begins counter (network false) place cert (published ∷ expired ∷ took ∷ [])
unfolding is_pending
Run-Begins_example =
    Run-Begins counter (network false) place cert (λ n. n) counter-IsSemaphore late-Run refl
