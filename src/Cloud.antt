-- ===== src/Cloud.antt =====
-- apps/siot-nrf/src/cloud/cloud.c: one request to the cloud over a TLS socket. The socket functions,
-- the HTTP client and cJSON are parameters: a world that answers each call, whatever was called before.
pub mod Sockets
pub mod Secure
pub mod Cert
pub mod Main
use zephyr_siot.Base.{
  ℕ, suc, ◌≡◌, Bool, true, false, ◌&&◌, ◌||◌, not, Option, none, some, List, [], ◌∷◌, ◌==◌,
  if◌then◌else◌,
}
use zephyr_siot.Base.Int.{ℤ, pos, negsuc, neg_ℕ, is_negative}
use zephyr_siot.Point.Merge.{neg_enomem}
use zephyr_siot.SiotString.{is_zero}

-- The options that are set with `setsockopt`. Each has one value in the source, a constant or a setting of the
-- build; `hostname` is that of the server.
pub data SocketOption : Type 0 where
  recv_timeout send_timeout peer_verify sec_tag_list hostname session_cache : SocketOption

-- The calls that take or give back something, or that may fail with a result that the code reads. `socket_open`
-- is `socket`. `cJSON_AddBoolToObject`, between `create_object` and `print_object`, is left out: its result is
-- not read, and what it takes belongs to the object.
pub data Call : Type 0 where
  create_object print_object delete_object free_text : Call
  resolve free_address socket_open : Call
  set_option : ℤ → SocketOption → Call
  connect close request : ℤ → Call

-- What was called, the last call first.
abbrev pub Calls : Type 0
Calls = List Call

-- The result of the call at the head of the list, and `errno` after it. A pointer is 0 if it is null.
pub record World : Type 0 where
  pub answer : Calls → ℤ
  pub errno : Calls → ℕ

abbrev pub neg_eio : ℤ
neg_eio = negsuc 4

abbrev pub neg_econnaborted : ℤ
neg_econnaborted = negsuc 112

-- Code that calls the world.
abbrev pub M : Type 0 → Type 0
M A = Calls → A × Calls

infixl 5 ◌>>=◌ ◌>>◌
abbrev pub ◌>>=◌ : {A B : Type 0} → M A → (A → M B) → M B
◌>>=◌ m f h = let (a, h') = m h in f a h'

abbrev pub ◌>>◌ : {A B : Type 0} → M A → M B → M B
m >> k = m >>= λ _. k

abbrev pub pure : {A : Type 0} → A → M A
pure a h = (a, h)

-- The response that the HTTP client hands to the callback.
pub record Response : Type 0 where
  pub status_code : ℕ
  pub body_found : Bool

pub record DeviceData : Type 0 where
  pub do_something : Bool

-- What `cloud_callback` gets, if it is called; `has_callback` tells that it is not null.
unfoldable pub response_cb : Bool → Response → Bool → Option DeviceData
response_cb has_callback rsp is_final =
    if not (rsp.status_code == 200) && not (rsp.status_code == 201)
    then none
    else if is_final
    then (if not rsp.body_found
        then none
        else if has_callback
        then some (record { do_something = false })
        else none)
    else none

-- `fd == -1`
abbrev pub is_minus_one : ℤ → Bool
is_minus_one (pos n) = false
is_minus_one (negsuc n) = n == 0

module _ (w : World) where
  abbrev pub call : Call → M ℤ
  call c h = (w.answer (c ∷ h), c ∷ h)

  -- `-errno`
  abbrev pub neg_errno : M ℤ
  neg_errno h = (neg_ℕ (w.errno h), h)

  -- `if (err) { err = -errno; return err; }` behind a `setsockopt`, and what comes next.
  unfoldable pub try_option : ℤ → SocketOption → M ℤ → M ℤ
  try_option fd o next = do err ← call (set_option fd o); if is_zero err then next else neg_errno

  unfoldable pub tls_setup : ℤ → M ℤ
  unfolding try_option
  tls_setup fd = try_option fd peer_verify (
      try_option fd sec_tag_list
        (try_option fd hostname (try_option fd session_cache (pure (pos 0)))))

  -- `(void)close(fd)` in the branch of a failure.
  unfoldable pub close_failed : ℤ → ℤ → M (Unit {0})
  close_failed fd err =
      if is_negative err && not (is_negative fd) then (do call (close fd); pure tt) else pure tt

  -- From the label `clean_up` on.
  unfoldable pub clean_up : ℤ → ℤ → M ℤ
  unfolding close_failed
  clean_up fd err = do
    call free_address
    close_failed fd err
    pure (if is_negative err then err else fd)

  unfoldable pub connected : ℤ → M ℤ
  connected fd = do err ← call (connect fd); if is_negative err then neg_errno else pure err

  -- From the call of `tls_setup` to the label: the value of `err` there.
  unfoldable pub secured : ℤ → M ℤ
  unfolding tls_setup connected
  secured fd = do err ← tls_setup fd; if is_negative err then pure err else connected fd

  -- From the first option to the label.
  unfoldable pub configured : ℤ → M ℤ
  unfolding try_option secured
  configured fd = try_option fd recv_timeout (try_option fd send_timeout (secured fd))

  unfoldable pub set_up : ℤ → M ℤ
  unfolding configured clean_up
  set_up fd = do err ← configured fd; clean_up fd err

  -- From the call of `socket` on.
  unfoldable pub opened : M ℤ
  unfolding set_up clean_up
  opened = do
    fd ← call socket_open
    if is_minus_one fd then clean_up fd neg_econnaborted else set_up fd

  unfoldable pub socket_setup : M ℤ
  unfolding opened
  socket_setup = do err ← call resolve; if is_zero err then opened else pure neg_eio

  -- From the request on.
  unfoldable pub post : ℤ → M ℤ
  post fd = do
    ret ← call (request fd)
    call (close fd)
    call free_text
    pure (if is_negative ret then ret else pos 0)

  -- With a message: it is freed on each path.
  unfoldable pub send : M ℤ
  unfolding socket_setup post
  send = do fd ← socket_setup; if is_negative fd then (do call free_text; pure fd) else post fd

  unfoldable pub cloud_publish : M ℤ
  unfolding send
  cloud_publish = do
    call create_object
    msg ← call print_object
    call delete_object
    if is_zero msg then pure neg_enomem else send
