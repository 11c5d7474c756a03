-- ===== src/Cloud/Secure/Publish.antt =====
-- `cloud_publish` connects and sends over TLS alone.
use zephyr_siot.Base.{◌≡◌, refl, ◌∙◌, true, ◌∷◌, arith, ◌⊎◌, inl, inr, Bool-cases}
use zephyr_siot.Base.Int.{ℤ, neg_ℕ, is_negative}
use zephyr_siot.SiotString.{is_zero}
use zephyr_siot.Cloud.{
  SocketOption, recv_timeout, send_timeout, peer_verify, sec_tag_list, hostname, session_cache,
  Calls, World, create_object, print_object, delete_object, resolve, socket_open, set_option,
  connect, neg_econnaborted, is_minus_one, try_option, tls_setup, clean_up, connected, secured,
  configured, set_up, opened, socket_setup, post, send, cloud_publish,
}
use zephyr_siot.Cloud.Sockets.{same_fd_refl}
use zephyr_siot.Cloud.Secure.{was_set, is_checked, was_connected, is_secure, HasErrno}

module _ (w : World) where
  errno_neg : HasErrno w → (h : Calls) → is_negative (neg_ℕ (w.errno h)) ≡ true
  errno_neg e h = ground (arith, e h)

  -- Some code fails with a negative number, or ends with `Q`; it adds nothing that is not secure.
  abbrev Outcome : (Calls → ℤ × Calls) → Calls → (ℤ × Calls → Type 0) → Type 0
  Outcome m h Q = (is_secure w (m h).1 ≡ is_secure w h) × ((is_negative (m h).0 ≡ true) ⊎ Q (m h))

  -- A `setsockopt` that succeeds is recorded, and one that fails gives an error.
  try_option-Outcome :
      (fd : ℤ) (o : SocketOption) (next : Calls → ℤ × Calls) (h : Calls) (Q : ℤ × Calls → Type 0)
      → HasErrno w
      → (was_set w fd o (set_option fd o ∷ h) ≡ true → Outcome next (set_option fd o ∷ h) Q)
      → Outcome (try_option w fd o next) h Q
  unfolding try_option is_secure
  try_option-Outcome fd o next h Q e k =
      elim (Bool-cases (is_zero (w.answer (set_option fd o ∷ h)))) [
        | inl z ↦ rw z (k (rw (z, same_fd_refl w fd) (ground arith)))
        | inr z ↦ rw z (refl, inl (errno_neg e (set_option fd o ∷ h)))
      ]

  set_later :
      (fd : ℤ) (o o' : SocketOption) (h : Calls)
      → was_set w fd o h ≡ true
      → was_set w fd o (set_option fd o' ∷ h) ≡ true
  unfolding was_set
  set_later fd o o' h k = ground arith

  tls_setup-Outcome :
      (fd : ℤ) (h : Calls)
      → HasErrno w
      → Outcome (tls_setup w fd) h (λ r. is_checked w fd r.1 ≡ true)
  unfolding tls_setup
  tls_setup-Outcome fd h e = try_option-Outcome fd peer_verify _ h Q e λ a.
      try_option-Outcome fd sec_tag_list _ h1 Q e λ b. try_option-Outcome fd hostname _ h2 Q e λ c.
        try_option-Outcome fd session_cache _ h3 Q e λ d. (
          refl,
          inr (
              rw
                (
                  set_later fd peer_verify session_cache h3 (
                      set_later fd peer_verify hostname h2
                        (set_later fd peer_verify sec_tag_list h1 a)),
                  set_later fd sec_tag_list session_cache h3
                      (set_later fd sec_tag_list hostname h2 b),
                  set_later fd hostname session_cache h3 c,
                )
                refl),
        )
    where
      Q : ℤ × Calls → Type 0
      Q r = is_checked w fd r.1 ≡ true

      h1 : Calls
      h1 = set_option fd peer_verify ∷ h

      h2 : Calls
      h2 = set_option fd sec_tag_list ∷ h1

      h3 : Calls
      h3 = set_option fd hostname ∷ h2

  -- `connect` is called when the checks are set up, and what it returns is the outcome.
  connected-Outcome :
      (fd : ℤ) (h : Calls)
      → HasErrno w
      → is_checked w fd h ≡ true
      → Outcome (connected w fd) h (λ r. was_connected w fd r.1 ≡ true)
  unfolding connected is_secure
  connected-Outcome fd h e c = elim (Bool-cases (is_negative (w.answer (connect fd ∷ h)))) [
    | inl n ↦ rw (n, c) (refl, inl (errno_neg e (connect fd ∷ h)))
    | inr n ↦ rw (n, c) (refl, inr (rw (n, same_fd_refl w fd) refl))
  ]

  -- A failure ends some code, and what comes next runs if there is none.
  secured-Outcome :
      (fd : ℤ) (h : Calls)
      → HasErrno w
      → Outcome (secured w fd) h (λ r. was_connected w fd r.1 ≡ true)
  unfolding secured
  secured-Outcome fd h e =
      let (err, h') = tls_setup w fd h in
      let (kept, done) = tls_setup-Outcome fd h e in
      elim (Bool-cases (is_negative err)) [
        | inl n ↦ rw n (kept, inl n)
        | inr n ↦ rw n (elim done [
          | inl f ↦ absurd cc
          | inr c ↦ let (kept', done') = connected-Outcome fd h' e c in (kept' ∙ kept, done')
        ])
      ]

  configured-Outcome :
      (fd : ℤ) (h : Calls)
      → HasErrno w
      → Outcome (configured w fd) h (λ r. was_connected w fd r.1 ≡ true)
  unfolding configured
  configured-Outcome fd h e = try_option-Outcome fd recv_timeout _ h Q e λ a.
      try_option-Outcome fd send_timeout _ (set_option fd recv_timeout ∷ h) Q e
        λ b. secured-Outcome fd (set_option fd send_timeout ∷ set_option fd recv_timeout ∷ h) e
    where
      Q : ℤ × Calls → Type 0
      Q r = was_connected w fd r.1 ≡ true

  -- What is returned is a negative number, or a socket that is connected.
  abbrev IsUsable : ℤ × Calls → Type 0
  IsUsable r = was_connected w r.0 r.1 ≡ true

  clean_up-Outcome :
      (fd err : ℤ) (h : Calls)
      → ((is_negative err ≡ true) ⊎ (was_connected w fd h ≡ true))
      → Outcome (clean_up w fd err) h IsUsable
  unfolding clean_up is_secure was_connected
  clean_up-Outcome fd err h k = elim (Bool-cases (is_negative err)) [
    | inl n ↦ rw n (ground arith)
    | inr n ↦ rw n (elim k [ inl f ↦ absurd cc | inr c ↦ (refl, inr c) ])
  ]

  set_up-Outcome : (fd : ℤ) (h : Calls) → HasErrno w → Outcome (set_up w fd) h IsUsable
  unfolding set_up
  set_up-Outcome fd h e =
      let (err, h') = configured w fd h in
      let (kept, done) = configured-Outcome fd h e in
      let (kept', done') = clean_up-Outcome fd err h' done in (kept' ∙ kept, done')

  opened-Outcome : (h : Calls) → HasErrno w → Outcome (opened w) h IsUsable
  unfolding opened is_secure
  opened-Outcome h e =
      let fd = w.answer (socket_open ∷ h) in
      elim (Bool-cases (is_minus_one fd)) [
        | inl m ↦ rw m (clean_up-Outcome fd neg_econnaborted (socket_open ∷ h) (inl refl))
        | inr m ↦ rw m (set_up-Outcome fd (socket_open ∷ h) e)
      ]

  socket_setup-Outcome : (h : Calls) → HasErrno w → Outcome (socket_setup w) h IsUsable
  unfolding socket_setup is_secure
  socket_setup-Outcome h e = elim (Bool-cases (is_zero (w.answer (resolve ∷ h)))) [
    | inl z ↦ rw z (opened-Outcome (resolve ∷ h) e)
    | inr z ↦ rw z (refl, inl refl)
  ]

  post-is_secure :
      (fd : ℤ) (h : Calls)
      → was_connected w fd h ≡ true
      → is_secure w (post w fd h).1 ≡ is_secure w h
  unfolding post is_secure
  post-is_secure fd h c = rw c refl

  send-is_secure : HasErrno w → (h : Calls) → is_secure w (send w h).1 ≡ is_secure w h
  unfolding send
  send-is_secure e h =
      let (fd, h') = socket_setup w h in
      let (kept, done) = socket_setup-Outcome h e in
      elim (Bool-cases (is_negative fd)) [
        | inl n ↦ rw n (unfold is_secure in kept)
        | inr n ↦ rw n (elim done [ inl f ↦ absurd cc | inr c ↦ post-is_secure fd h' c ∙ kept ])
      ]

  -- A publish keeps the history secure: it connects a socket only after the check of the peer, the
  -- tag of the certificates and the host's name are set on it, and sends a request only over a
  -- connected socket. The hypothesis is that `errno` is positive.
  pub cloud_publish-is_secure :
      HasErrno w → (h : Calls) → is_secure w (cloud_publish w h).1 ≡ is_secure w h
  unfolding cloud_publish is_secure
  cloud_publish-is_secure e h =
      let msg = w.answer (print_object ∷ create_object ∷ h) in
      elim (Bool-cases (is_zero msg)) [
        | inl z ↦ rw z refl
        | inr z ↦ rw z (send-is_secure e (delete_object ∷ print_object ∷ create_object ∷ h))
      ]
