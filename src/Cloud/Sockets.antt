-- ===== src/Cloud/Sockets.antt =====
-- Nothing that the cloud code takes is kept: sockets, addresses, messages and objects.
use zephyr_siot.Base.{
  ℕ, ◌+◌, ◌-◌, ◌≡◌, refl, ap, sym, ◌∙◌, Bool, true, false, List, [], ◌∷◌, ◌==◌, if◌then◌else◌,
  arith, inl, inr, Bool-cases,
}
use zephyr_siot.Base.Int.{ℤ, pos, negsuc, is_negative}
use zephyr_siot.SiotString.{is_zero}
use zephyr_siot.Cloud.{
  SocketOption, Call, Calls, World, create_object, print_object, delete_object, free_text, resolve,
  free_address, socket_open, set_option, connect, close, request, neg_econnaborted, is_minus_one,
  try_option, tls_setup, clean_up, connected, secured, configured, set_up, opened, socket_setup,
  post, send, cloud_publish,
}

-- What is held: how many of each kind, and the open sockets. `faults` counts what was given back
-- without being held.
pub record Held : Type 0 where
  pub objects : ℕ
  pub texts : ℕ
  pub addresses : ℕ
  pub sockets : List ℤ
  pub faults : ℕ

abbrev pub none_held : Held
none_held = record { objects = 0; texts = 0; addresses = 0; sockets = []; faults = 0 }

abbrev pub same_fd : ℤ → ℤ → Bool
same_fd (pos a) (pos b) = a == b
same_fd (negsuc a) (negsuc b) = a == b
same_fd _ _ = false

-- The sockets without one that is closed.
unfoldable pub without : ℤ → List ℤ → List ℤ
without fd [] = []
without fd (s ∷ ss) = if same_fd fd s then ss else s ∷ without fd ss

unfoldable pub is_open : ℤ → List ℤ → Bool
is_open fd [] = false
is_open fd (s ∷ ss) = if same_fd fd s then true else is_open fd ss

-- One more fault if none is held.
abbrev pub missing : ℕ → ℕ → ℕ
missing n faults = if n == 0 then faults + 1 else faults

-- The effect of one call that returned `r` on what is held.
unfoldable pub take_call : Call → ℤ → Held → Held
unfolding without is_open
take_call create_object r k = record k { objects = k.objects + 1 }
take_call delete_object r k = record k {
  objects = k.objects - 1;
  faults = missing k.objects k.faults;
}
take_call print_object r k = record k { texts = if is_zero r then k.texts else k.texts + 1 }
take_call free_text r k = record k { texts = k.texts - 1; faults = missing k.texts k.faults }
take_call resolve r k = record k { addresses = if is_zero r then k.addresses + 1 else k.addresses }
take_call free_address r k = record k {
  addresses = k.addresses - 1;
  faults = missing k.addresses k.faults;
}
take_call socket_open r k = record k {
  sockets = if is_minus_one r then k.sockets else r ∷ k.sockets;
}
take_call (set_option fd o) r k = k
take_call (connect fd) r k = k
take_call (request fd) r k = k
take_call (close fd) r k = record k {
  sockets = without fd k.sockets;
  faults = if is_open fd k.sockets then k.faults else k.faults + 1;
}

module _ (w : World) where
  -- What is held after the calls.
  unfoldable pub held : Calls → Held
  unfolding take_call
  held [] = none_held
  held (c ∷ h) = take_call c (w.answer (c ∷ h)) (held h)

  -- `socket` returns -1 or a descriptor, which is not negative.
  abbrev pub IsPosix : Type 0
  IsPosix =
      (h : Calls)
      → is_minus_one (w.answer (socket_open ∷ h)) ≡ is_negative (w.answer (socket_open ∷ h))

  -- What is held is the same after some code as before it.
  abbrev Keeps : (Calls → ℤ × Calls) → Type 0
  Keeps m = (h : Calls) → held (m h).1 ≡ held h

  try_option-Keeps :
      (fd : ℤ) (o : SocketOption) (next : Calls → ℤ × Calls)
      → Keeps next
      → Keeps (try_option w fd o next)
  unfolding try_option held
  try_option-Keeps fd o next n h = ground (arith, n (set_option fd o ∷ h))

  pure-Keeps : (r : ℤ) → Keeps (λ h. (r, h))
  pure-Keeps r h = refl

  tls_setup-Keeps : (fd : ℤ) → Keeps (tls_setup w fd)
  unfolding tls_setup
  tls_setup-Keeps fd = search (try_option-Keeps, pure-Keeps)

  secured-Keeps : (fd : ℤ) → Keeps (secured w fd)
  unfolding secured connected held
  secured-Keeps fd h = ground (arith, tls_setup-Keeps fd h)

  configured-Keeps : (fd : ℤ) → Keeps (configured w fd)
  unfolding configured
  configured-Keeps fd = search (try_option-Keeps, secured-Keeps fd)

  -- With a socket `r` if it is not negative.
  abbrev with_socket : ℤ → Held → Held
  with_socket r k = record k { sockets = if is_negative r then k.sockets else r ∷ k.sockets }

  pub same_fd_refl : (fd : ℤ) → same_fd fd fd ≡ true
  same_fd_refl (pos n) = ground arith
  same_fd_refl (negsuc n) = ground arith

  -- `clean_up` gives the address back, and the socket if something failed.
  clean_up-held :
      (fd err : ℤ) (h : Calls) (k : Held)
      → is_negative fd ≡ false
      → held h ≡ record k { addresses = k.addresses + 1; sockets = fd ∷ k.sockets }
      → held (clean_up w fd err h).1 ≡ with_socket (clean_up w fd err h).0 k
  unfolding clean_up held
  clean_up-held fd err h k n e = elim (Bool-cases (is_negative err)) [
    | inl f ↦ rw (f, n) (rw e (rw (same_fd_refl fd) (rw f (ground arith))))
    | inr f ↦ rw f (rw e (rw n (ground arith)))
  ]

  clean_up-Keeps_none :
      (err : ℤ) (h : Calls) (k : Held)
      → is_negative err ≡ true
      → held h ≡ record k { addresses = k.addresses + 1 }
      → held (clean_up w (negsuc 0) err h).1 ≡ k
  unfolding clean_up held
  clean_up-Keeps_none err h k n e = rw n (rw e (ground arith))

  minus_one_lem : (fd : ℤ) → is_minus_one fd ≡ true → fd ≡ negsuc 0
  minus_one_lem (pos n) h = cc
  minus_one_lem (negsuc n) h = ap negsuc (ground arith)

  opened-held :
      (h : Calls) (k : Held)
      → IsPosix
      → held h ≡ record k { addresses = k.addresses + 1 }
      → held (opened w h).1 ≡ with_socket (opened w h).0 k
  unfolding opened set_up
  opened-held h k posix e =
      let fd = w.answer (socket_open ∷ h) in
      elim (Bool-cases (is_minus_one fd)) [
        | inl m ↦
            let at : held (socket_open ∷ h) ≡ record k { addresses = k.addresses + 1 } =
              unfold held in rw m e in
            rw (m, minus_one_lem fd m)
              (clean_up-Keeps_none neg_econnaborted (socket_open ∷ h) k refl at ∙ failed k)
        | inr m ↦
            let n : is_negative fd ≡ false = sym (posix h) ∙ m in
            let at : held (socket_open ∷ h)
                ≡ record k { addresses = k.addresses + 1; sockets = fd ∷ k.sockets } =
              unfold held in rw (m, e) refl in
            rw m (
              clean_up-held fd (configured w fd (socket_open ∷ h)).0
                (configured w fd (socket_open ∷ h)).1 k n
                (configured-Keeps fd (socket_open ∷ h) ∙ at))
      ]
    where
      failed :
          (k : Held)
          → k ≡ with_socket (clean_up w (negsuc 0) neg_econnaborted (socket_open ∷ h)).0 k
      failed k = unfold clean_up in refl

  -- A socket is returned open, and nothing else is taken; an error leaves nothing open.
  socket_setup-held :
      (h : Calls) → IsPosix → held (socket_setup w h).1 ≡ with_socket (socket_setup w h).0 (held h)
  unfolding socket_setup
  socket_setup-held h posix = elim (Bool-cases (is_zero (w.answer (resolve ∷ h)))) [
    | inl z ↦
        let at : held (resolve ∷ h) ≡ record (held h) { addresses = (held h).addresses + 1 } =
          unfold held in rw z refl in
        rw z (opened-held (resolve ∷ h) (held h) posix at)
    | inr z ↦ rw z (unfold held in rw z refl)
  ]

  post-held :
      (fd : ℤ) (h : Calls) (k : Held)
      → held h ≡ record k { texts = k.texts + 1; sockets = fd ∷ k.sockets }
      → held (post w fd h).1 ≡ k
  unfolding post held
  post-held fd h k e = rw e (rw (same_fd_refl fd) (ground arith))

  free_text-held :
      (h : Calls) (k : Held) → held h ≡ record k { texts = k.texts + 1 } → held (free_text ∷ h) ≡ k
  unfolding held
  free_text-held h k e = rw e (ground arith)

  send-held :
      (h : Calls) (k : Held)
      → IsPosix
      → held h ≡ record k { texts = k.texts + 1 }
      → held (send w h).1 ≡ k
  unfolding send
  send-held h k posix e =
      let (fd, h') = socket_setup w h in
      let at = socket_setup-held h posix ∙ ap (with_socket fd) e in
      elim (Bool-cases (is_negative fd)) [
        | inl n ↦ rw n (free_text-held h' k (rw n at at))
        | inr n ↦ rw n (post-held fd h' k (rw n at at))
      ]

  -- A publish leaves held what was held before it, on each path: no socket, address, message or
  -- object is leaked, and none is given back twice.
  pub cloud_publish-held : IsPosix → (h : Calls) → held (cloud_publish w h).1 ≡ held h
  unfolding cloud_publish
  cloud_publish-held posix h =
      let msg = w.answer (print_object ∷ create_object ∷ h) in
      let h' = delete_object ∷ print_object ∷ create_object ∷ h in
      elim (Bool-cases (is_zero msg)) [
        | inl z ↦ rw z (unfold held in rw z (ground arith))
        | inr z ↦
            let at : held h' ≡ record (held h) { texts = (held h).texts + 1 } =
              unfold held in rw z (ground arith) in
            rw z (send-held h' (held h) posix at)
      ]
