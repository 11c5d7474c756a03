-- ===== src/Web/Chunks.antt =====
-- A POST that the server hands over in chunks is the POST of the whole payload.
use zephyr_siot.Base.{
  ℕ, ◌+◌, ◌≤◌, ◌≡◌, refl, ap, sym, ◌∙◌, some, List, [], ◌∷◌, ◌++◌, append_assoc, length,
  splice-splice, length-splice, length-append, arith,
}
use zephyr_siot.CString.{Bytes}
use zephyr_siot.SiotString.Float.{Floats}
use zephyr_siot.Json.PointJs.Array.{JsonLib}
use zephyr_siot.Web.{
  Web, payload_size, Request, http_post, Status, more, final, advanced, copy_payload, transact,
  v1_handler, reply, post_points,
}

-- A part of a POST to `url`.
abbrev pub post : Bytes → Status → Bytes → Request
post url status chunk = record { method = http_post; url = url; chunk = chunk; status = status }

-- The payload of some chunks.
unfoldable pub joined : List Bytes → Bytes
joined [] = []
joined (c ∷ cs) = c ++ joined cs

pub copy_payload-advanced :
    (v : Web) (c : Bytes)
    → length c + v.cursor ≤ payload_size
    → copy_payload v c ≡ some (advanced v c)
unfolding copy_payload
copy_payload-advanced v c h = ground arith

advanced-advanced :
    (v : Web) (c d : Bytes)
    → v.cursor ≤ length v.v1_payload_buf
    → advanced (advanced v c) d ≡ advanced v (c ++ d)
advanced-advanced v c d h =
    let len : v.cursor + length c + length d ≡ v.cursor + length (c ++ d) =
      omega (arith, length-append c d) in
    rw (splice-splice v.cursor c d v.v1_payload_buf h, len) refl

pub length-advanced :
    (v : Web) (c : Bytes)
    → v.cursor + length c ≤ length v.v1_payload_buf
    → length (advanced v c).v1_payload_buf ≡ length v.v1_payload_buf
length-advanced v c h = length-splice v.cursor c v.v1_payload_buf h

module _ (fl : Floats) (lib : JsonLib) (board : Bytes) (bufs : ℕ → Bytes) (url : Bytes) where
  -- The chunks of a POST that is not at its end.
  unfoldable pub feed : List Bytes → Web → Web
  unfolding v1_handler
  feed [] v = v
  feed (c ∷ cs) v = feed cs (v1_handler fl lib board bufs (post url more c) v).web

  post_final :
      (c d : Bytes) (v : Web)
      → length v.v1_payload_buf ≡ payload_size
      → length c + length d + v.cursor ≤ payload_size
      → v1_handler fl lib board bufs (post url final d) (advanced v c)
        ≡ v1_handler fl lib board bufs (post url final (c ++ d)) v
  unfolding v1_handler transact reply post_points
  post_final c d v len h =
      rw
        (
          copy_payload-advanced (advanced v c) d (omega arith),
          copy_payload-advanced v (c ++ d) (omega (arith, length-append c d)),
        )
        (ap (transact fl lib board bufs (post url final d) final)
          (advanced-advanced v c d (omega arith)))

  feed-cons :
      (c : Bytes) (cs : List Bytes) (v : Web)
      → length c + v.cursor ≤ payload_size
      → feed (c ∷ cs) v ≡ feed cs (advanced v c)
  unfolding feed v1_handler transact
  feed-cons c cs v h = rw (copy_payload-advanced v c h) refl

  -- If a POST fits in the buffer of the payload, the last call does the same for a payload that came in
  -- chunks as it does for the whole payload: the state, the code, the reply and what is published.
  pub v1_handler-feed :
      (cs : List Bytes) (d : Bytes) (v : Web)
      → length v.v1_payload_buf ≡ payload_size
      → length (joined cs) + length d + v.cursor ≤ payload_size
      → v1_handler fl lib board bufs (post url final d) (feed cs v)
        ≡ v1_handler fl lib board bufs (post url final (joined cs ++ d)) v
  unfolding joined
  v1_handler-feed [] d v len h = unfold feed in refl
  v1_handler-feed (c ∷ cs) d v len h =
      let total = length-append c (joined cs) in
      let rest = length-append (joined cs) d in
      rw (feed-cons c cs v (omega arith)) (
        v1_handler-feed cs d (advanced v c) (length-advanced v c (omega arith) ∙ len) (omega arith)
        ∙ post_final c (joined cs ++ d) v len (omega arith)
        ∙ ap (λ e. v1_handler fl lib board bufs (post url final e) v)
            (sym (append_assoc c (joined cs) d)))
