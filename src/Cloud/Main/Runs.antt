-- ===== src/Cloud/Main/Runs.antt =====
-- What the timer, the shell and the main thread of the nRF application do, one step after the other.
use zephyr_siot.Base.{
  ℕ, ◌+◌, ◌≤◌, ◌≡◌, refl, ◌∙◌, Bool, true, false, some, List, [], ◌∷◌, ◌⊎◌, inl, inr, if◌then◌else◌,
  arith, Bool-cases,
}
use zephyr_siot.Base.Int.{ℤ}
use zephyr_siot.CString.{Bytes}
use zephyr_siot.Cloud.{World}
use zephyr_siot.Cloud.Cert.{Modem}
use zephyr_siot.Cloud.Main.{
  Semaphore, IsSemaphore, App, timeout_handler, cmd_publish, take, publish, start,
}
use zephyr_siot.Cloud.Sockets.{IsPosix, held, none_held, cloud_publish-held}
use zephyr_siot.Cloud.Secure.{HasErrno, is_secure}
use zephyr_siot.Cloud.Secure.Publish.{cloud_publish-is_secure}

-- The timer expires, the command is given, the main thread takes the semaphore, a publish ends.
pub data Event : Type 0 where
  expired commanded took published : Event

-- A publish was asked for and has not begun since; one is asked for at the start. The last event is
-- the first.
unfoldable pub is_pending : List Event → Bool
is_pending [] = true
is_pending (expired ∷ es) = true
is_pending (commanded ∷ es) = true
is_pending (took ∷ es) = false
is_pending (published ∷ es) = is_pending es

-- The main thread is in a publish.
unfoldable pub is_publishing : List Event → Bool
is_publishing [] = false
is_publishing (expired ∷ es) = is_publishing es
is_publishing (commanded ∷ es) = is_publishing es
is_publishing (took ∷ es) = true
is_publishing (published ∷ es) = false

-- How many publishes began, and how many were asked for.
unfoldable pub begun : List Event → ℕ
begun [] = 0
begun (expired ∷ es) = begun es
begun (commanded ∷ es) = begun es
begun (took ∷ es) = begun es + 1
begun (published ∷ es) = begun es

unfoldable pub requests : List Event → ℕ
requests [] = 1
requests (expired ∷ es) = requests es + 1
requests (commanded ∷ es) = requests es + 1
requests (took ∷ es) = requests es
requests (published ∷ es) = requests es

module _ (k : Semaphore) (w : World) (m : Modem) (cert : Bytes) where
  -- The events lead from the start to a state.
  pub data Run : List Event → App k w → Type 0 where
    started :
        {a : App k w} (s : m.Store) (modem_init lte_connect : ℤ)
        → start k w m cert s modem_init lte_connect ≡ inr a
        → Run [] a
    expire : {es : List Event} {a : App k w} → Run es a → Run (expired ∷ es) (timeout_handler k w a)
    command :
        {es : List Event} {a : App k w} → Run es a → Run (commanded ∷ es) (cmd_publish k w a).1
    begin :
        {es : List Event} {a a' : App k w}
        → Run es a
        → a.publishing ≡ false
        → take k w a ≡ some a'
        → Run (took ∷ es) a'
    end :
        {es : List Event} {a : App k w}
        → Run es a
        → a.publishing ≡ true
        → Run (published ∷ es) (publish k w a)

  -- What `start` gives.
  start_lem :
      {a : App k w} (s : m.Store) (modem_init lte_connect : ℤ)
      → start k w m cert s modem_init lte_connect ≡ inr a
      → a ≡ record { sem = k.k_sem_give k.thread_sem; publishing = false; calls = [] }
  unfolding start
  start_lem s modem_init lte_connect e = ground arith

  take_lem :
      (a : App k w) {a' : App k w}
      → take k w a ≡ some a'
      → (k.k_sem_take a.sem ≡ some a'.sem) × (a'.publishing ≡ true) × (a'.calls ≡ a.calls)
  unfolding take
  take_lem a e = ground arith

  -- The main thread is in a publish when the events say so.
  Run-publishing : {es : List Event} {a : App k w} → Run es a → a.publishing ≡ is_publishing es
  unfolding timeout_handler cmd_publish publish is_publishing
  Run-publishing (started s i c e) = rw (start_lem s i c e) refl
  Run-publishing (expire r) = Run-publishing r
  Run-publishing (command r) = Run-publishing r
  Run-publishing (begin {a = a} r p t) = (take_lem a t).1
  Run-publishing (end r p) = refl

  -- In each run the semaphore is 1 if a publish was asked for and has not begun, and else 0.
  pub Run-count :
      (count : k.Sem → ℕ)
      → IsSemaphore k count
      → {es : List Event} {a : App k w} → Run es a
      → count a.sem ≡ (if is_pending es then 1 else 0)
  unfolding timeout_handler cmd_publish publish is_pending
  Run-count count i (started s f c e) =
      rw (start_lem s f c e) (rw (i.given k.thread_sem) (rw i.at_first refl))
  Run-count count i (expire {es = es} {a = a} r) =
      ground (arith, i.given a.sem, Run-count count i r)
  Run-count count i (command {es = es} {a = a} r) =
      ground (arith, i.given a.sem, Run-count count i r)
  Run-count count i (begin {es = es} {a = a} {a' = a'} r p t) =
      ground (arith, i.taken a.sem a'.sem (take_lem a t).0, Run-count count i r)
  Run-count count i (end r p) = Run-count count i r

  -- In each run no more publishes began than were asked for.
  pub Run-begun :
      (count : k.Sem → ℕ)
      → IsSemaphore k count
      → {es : List Event} {a : App k w} → Run es a
      → begun es + count a.sem ≤ requests es
  unfolding timeout_handler cmd_publish publish begun requests start take
  Run-begun count i (started s f c e) =
      rw (start_lem s f c e) (ground (arith, i.given k.thread_sem, i.at_first))
  Run-begun count i (expire {a = a} r) = ground (arith, i.given a.sem, Run-begun count i r)
  Run-begun count i (command {a = a} r) = ground (arith, i.given a.sem, Run-begun count i r)
  Run-begun count i (begin {a = a} {a' = a'} r p t) =
      ground (arith, i.taken a.sem a'.sem (take_lem a t).0, Run-begun count i r)
  Run-begun count i (end r p) = Run-begun count i r

  -- The program goes on to begin a publish.
  abbrev pub Begins : List Event → Type 0
  Begins es = (a : App k w) × Run (took ∷ es) a

  Run-Begins_now :
      (count : k.Sem → ℕ)
      → IsSemaphore k count
      → {es : List Event} {a : App k w} → Run es a
      → a.publishing ≡ false
      → is_pending es ≡ true
      → Begins es
  unfolding take
  Run-Begins_now count i {a = a} r f p =
      let (s, t) = i.available a.sem (ground (arith, Run-count count i r)) in
      (record a { sem = s; publishing = true }, begin r f (rw t refl))

  -- A publish that was asked for begins: at once if the main thread waits, and else when the publish
  -- that it is in has ended.
  pub Run-Begins :
      (count : k.Sem → ℕ)
      → IsSemaphore k count
      → {es : List Event} {a : App k w} → Run es a
      → is_pending es ≡ true
      → Begins es ⊎ Begins (published ∷ es)
  unfolding publish is_pending
  Run-Begins count i {a = a} r p = elim (Bool-cases a.publishing) [
    | inl b ↦ inr (Run-Begins_now count i (end r b) refl p)
    | inr f ↦ inl (Run-Begins_now count i r f p)
  ]

  -- In each run, nothing that a publish takes is held, and the history is secure.
  pub Run-held : IsPosix w → {es : List Event} {a : App k w} → Run es a → held w a.calls ≡ none_held
  unfolding timeout_handler cmd_publish publish
  Run-held x (started s f c e) = rw (start_lem s f c e) (unfold held in refl)
  Run-held x (expire r) = Run-held x r
  Run-held x (command r) = Run-held x r
  Run-held x (begin {a = a} r p t) = rw (take_lem a t).2 (Run-held x r)
  Run-held x (end {a = a} r p) = cloud_publish-held w x a.calls ∙ Run-held x r

  pub Run-is_secure :
      HasErrno w → {es : List Event} {a : App k w} → Run es a → is_secure w a.calls ≡ true
  unfolding timeout_handler cmd_publish publish
  Run-is_secure x (started s f c e) = rw (start_lem s f c e) (unfold is_secure in refl)
  Run-is_secure x (expire r) = Run-is_secure x r
  Run-is_secure x (command r) = Run-is_secure x r
  Run-is_secure x (begin {a = a} r p t) = rw (take_lem a t).2 (Run-is_secure x r)
  Run-is_secure x (end {a = a} r p) = cloud_publish-is_secure w x a.calls ∙ Run-is_secure x r
