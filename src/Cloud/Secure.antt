-- ===== src/Cloud/Secure.antt =====
-- No socket is connected before the checks of TLS are set up on it, and no request is sent over one that
-- is not connected: how a history shows it.
pub mod Publish
use zephyr_siot.Base.{
  ℕ, ◌<◌, ◌≡◌, refl, ◌∙◌, Bool, true, false, ◌&&◌, ◌||◌, not, [], ◌∷◌, ◌==◌, arith, ◌⊎◌, inl, inr,
  Bool-cases,
}
use zephyr_siot.Base.Int.{ℤ, neg_ℕ, is_negative}
use zephyr_siot.SiotString.{is_zero}
use zephyr_siot.Cloud.{
  SocketOption, recv_timeout, send_timeout, peer_verify, sec_tag_list, hostname, session_cache,
  Calls, World, create_object, print_object, delete_object, free_text, resolve, free_address,
  socket_open, set_option, connect, close, request, neg_econnaborted, is_minus_one, try_option,
  tls_setup, clean_up, connected, secured, configured, set_up, opened, socket_setup, post, send,
  cloud_publish,
}
use zephyr_siot.Cloud.Sockets.{same_fd, same_fd_refl}

-- The options by number.
abbrev pub option_id : SocketOption → ℕ
option_id recv_timeout = 0
option_id send_timeout = 1
option_id peer_verify = 2
option_id sec_tag_list = 3
option_id hostname = 4
option_id session_cache = 5

module _ (w : World) where
  -- The option has been set on the descriptor since the last socket was made.
  unfoldable pub was_set : ℤ → SocketOption → Calls → Bool
  was_set fd o [] = false
  was_set fd o (socket_open ∷ h) = false
  was_set fd o (set_option fd' o' ∷ h) =
      (same_fd fd fd' && option_id o == option_id o' && is_zero (w.answer (set_option fd' o' ∷ h)))
      || was_set fd o h
  was_set fd o (create_object ∷ h) = was_set fd o h
  was_set fd o (print_object ∷ h) = was_set fd o h
  was_set fd o (delete_object ∷ h) = was_set fd o h
  was_set fd o (free_text ∷ h) = was_set fd o h
  was_set fd o (resolve ∷ h) = was_set fd o h
  was_set fd o (free_address ∷ h) = was_set fd o h
  was_set fd o (connect fd' ∷ h) = was_set fd o h
  was_set fd o (close fd' ∷ h) = was_set fd o h
  was_set fd o (request fd' ∷ h) = was_set fd o h

  -- The server's certificate is checked, against the certificates of the tag, for the host's name.
  abbrev pub is_checked : ℤ → Calls → Bool
  is_checked fd h = was_set fd peer_verify h && was_set fd sec_tag_list h && was_set fd hostname h

  -- The descriptor is connected, and was not closed since.
  unfoldable pub was_connected : ℤ → Calls → Bool
  was_connected fd [] = false
  was_connected fd (socket_open ∷ h) = false
  was_connected fd (connect fd' ∷ h) =
      (same_fd fd fd' && not (is_negative (w.answer (connect fd' ∷ h)))) || was_connected fd h
  was_connected fd (close fd' ∷ h) = not (same_fd fd fd') && was_connected fd h
  was_connected fd (set_option fd' o ∷ h) = was_connected fd h
  was_connected fd (create_object ∷ h) = was_connected fd h
  was_connected fd (print_object ∷ h) = was_connected fd h
  was_connected fd (delete_object ∷ h) = was_connected fd h
  was_connected fd (free_text ∷ h) = was_connected fd h
  was_connected fd (resolve ∷ h) = was_connected fd h
  was_connected fd (free_address ∷ h) = was_connected fd h
  was_connected fd (request fd' ∷ h) = was_connected fd h

  -- Every connection was made with the checks, and every request sent over a connection.
  unfoldable pub is_secure : Calls → Bool
  unfolding was_set was_connected
  is_secure [] = true
  is_secure (connect fd ∷ h) = is_checked fd h && is_secure h
  is_secure (request fd ∷ h) = was_connected fd h && is_secure h
  is_secure (socket_open ∷ h) = is_secure h
  is_secure (set_option fd o ∷ h) = is_secure h
  is_secure (create_object ∷ h) = is_secure h
  is_secure (print_object ∷ h) = is_secure h
  is_secure (delete_object ∷ h) = is_secure h
  is_secure (free_text ∷ h) = is_secure h
  is_secure (resolve ∷ h) = is_secure h
  is_secure (free_address ∷ h) = is_secure h
  is_secure (close fd ∷ h) = is_secure h

  -- `errno` is positive.
  abbrev pub HasErrno : Type 0
  HasErrno = (h : Calls) → 0 < w.errno h
