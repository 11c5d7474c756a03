-- ===== src/Cloud/Cert.antt =====
-- apps/siot-nrf/src/cloud/cloud.c: the certificate of the server in the modem's key store, and
-- `cloud_init`. The modem is a parameter.
use zephyr_siot.Base.{
  ◌≡◌, refl, ap, ◌∙◌, Bool, true, not, Option, none, some, if◌then◌else◌, Bool-cases, inl, inr,
}
use zephyr_siot.Base.Int.{ℤ, pos, negsuc}
use zephyr_siot.CString.{Bytes, cstr}
use zephyr_siot.SiotString.{is_zero}

-- The key management of the modem: `modem_key_mgmt_exists` (the error and the flag), `_cmp`, `_delete`
-- and `_write`, at the tag and the kind of credential that the code uses.
pub record Modem : Type 1 where
  pub Store : Type 0
  pub exists : Store → ℤ × Bool
  pub cmp : Bytes → Store → ℤ
  pub delete : Store → ℤ × Store
  pub write : Bytes → Store → ℤ × Store

-- What the modem documents, if `stored` is the credential that it keeps under the tag: a comparison
-- gives 0 only if the credential is there and the same, and a successful write stores it.
pub record IsModem (m : Modem) (stored : m.Store → Option Bytes) : Type 0 where
  pub compared : (b : Bytes) (s : m.Store) → is_zero (m.cmp b s) ≡ true → stored s ≡ some b
  pub written :
      (b : Bytes) (s : m.Store) → is_zero (m.write b s).0 ≡ true → stored (m.write b s).1 ≡ some b

-- What the modem documents of reading: it answers for a credential that it keeps.
pub record IsReadable (m : Modem) (stored : m.Store → Option Bytes) : Type 0 where
  pub found : (b : Bytes) (s : m.Store) → stored s ≡ some b → m.exists s ≡ (pos 0, true)
  pub matched : (b : Bytes) (s : m.Store) → stored s ≡ some b → m.cmp b s ≡ pos 0

abbrev pub neg_einval : ℤ
neg_einval = negsuc 21

module _ (m : Modem) where
  -- `modem_key_mgmt_write` and what is behind it.
  unfoldable pub provision : Bytes → m.Store → ℤ × m.Store
  provision cert s =
      let (err, s') = m.write cert s in if is_zero err then (pos 0, s') else (err, s')

  -- `cert_provision`: `cert` is the bytes of the array without the terminator.
  unfoldable pub cert_provision : Bytes → m.Store → ℤ × m.Store
  unfolding provision
  cert_provision cert s =
      let (err, exists) = m.exists s in
      if not (is_zero err)
      then (err, s)
      else if exists
      then (if is_zero (m.cmp (cstr cert) s) then (pos 0, s) else provision cert (m.delete s).1)
      else provision cert s

  -- `cloud_init(callback)` returns 0 or an error, and the value of `cloud_callback` after it, if it
  -- was set; `is_null` tells that the argument is a null pointer.
  unfoldable pub cloud_init : {A : Type 0} → Option A → Bytes → m.Store → ℤ × Option A × m.Store
  unfolding cert_provision
  cloud_init none cert s = (neg_einval, none, s)
  cloud_init (some callback) cert s = (pos 0, some callback, (cert_provision cert s).1)

  module _ (stored : m.Store → Option Bytes) where
    provision-stored :
        (cert : Bytes) (s : m.Store)
        → IsModem m stored
        → (provision cert s).0 ≡ pos 0
        → stored (provision cert s).1 ≡ some cert
    unfolding provision
    provision-stored cert s k r = elim (Bool-cases (is_zero (m.write cert s).0)) [
      | inl z ↦ rw z (k.written cert s z)
      | inr z ↦
          let e : (m.write cert s).0 ≡ pos 0 = rw z at r in
          let y : is_zero (m.write cert s).0 ≡ true = rw e refl in absurd cc
    ]

    -- If `cert_provision` returns 0, the modem keeps the certificate. The hypotheses are that the modem
    -- does what it documents, and that the certificate has no NUL.
    pub cert_provision-stored :
        (cert : Bytes) (s : m.Store)
        → IsModem m stored
        → cstr cert ≡ cert
        → (cert_provision cert s).0 ≡ pos 0
        → stored (cert_provision cert s).1 ≡ some cert
    unfolding cert_provision
    cert_provision-stored cert s k t r =
        let err = (m.exists s).0 in
        elim (Bool-cases (is_zero err)) [
          | inl z ↦ elim (Bool-cases (m.exists s).1) [
            | inl there ↦ elim (Bool-cases (is_zero (m.cmp (cstr cert) s))) [
              | inl same ↦ rw (z, there, same) (k.compared (cstr cert) s same ∙ ap some t)
              | inr other ↦
                  rw (z, there, other)
                    (provision-stored cert (m.delete s).1 k (rw (z, there, other) at r))
            ]
            | inr absent ↦ rw (z, absent) (provision-stored cert s k (rw (z, absent) at r))
          ]
          | inr z ↦
              let e : err ≡ pos 0 = rw z at r in let y : is_zero err ≡ true = rw e refl in absurd cc
        ]

    -- A modem that keeps the certificate is left as it is.
    pub cert_provision_idle :
        (cert : Bytes) (s : m.Store)
        → IsReadable m stored
        → cstr cert ≡ cert
        → stored s ≡ some cert
        → cert_provision cert s ≡ (pos 0, s)
    unfolding cert_provision
    cert_provision_idle cert s k t e = rw (k.found cert s e) (rw t (rw (k.matched cert s e) refl))

    -- The second call after one that returned 0 returns 0 and leaves the modem as it is. The hypotheses
    -- are that the modem does what it documents, and that the certificate has no NUL.
    pub cert_provision_twice :
        (cert : Bytes) (s : m.Store)
        → IsModem m stored
        → IsReadable m stored
        → cstr cert ≡ cert
        → (cert_provision cert s).0 ≡ pos 0
        → cert_provision cert (cert_provision cert s).1 ≡ (pos 0, (cert_provision cert s).1)
    cert_provision_twice cert s k l t r =
        cert_provision_idle cert (cert_provision cert s).1 l t (cert_provision-stored cert s k t r)
