-- ===== src/Nvs/Text.antt =====
-- A stored text is published again after a restart.
use zephyr_siot.Base.{
  ℕ, zero, suc, ◌+◌, ◌≤◌, ◌<◌, ◌≡◌, refl, ap, ◌∙◌, false, [], ◌∷◌, ◌++◌, arith, length, take, set,
  length-append, replicate, ◌==◌, Bool-cases, inl, inr, append_assoc,
}
use zephyr_siot.Base.Int.{pos, is_negative}
use zephyr_siot.CString.{Bytes, cstr, strnlen}
use zephyr_siot.CString.Laws.{IsText, IsText-cstr, copy_str_field_lem}
use zephyr_siot.Point.{
  data_size, Point, IsPoint, type_string, point_put_string, point_set_type_key, point_data_len,
}
use zephyr_siot.Point.Fields.{point_set_type_key_lem, strnlen_lem, point_get_string-put_string}
use zephyr_siot.Json.Unescape.RoundTrip.{take-le}
use zephyr_siot.Json.PointJs.RoundTrip.{IsTerminated}
use zephyr_siot.Nvs.{
  Zms, NvsPoint, point_type_key_to_nvs_id, read_string, restore, Nvs, nvs_store_handle_point,
}
use zephyr_siot.Nvs.Laws.{ZmsLaws}

take-cstr :
    (s : Bytes) → length (cstr s) < length s → take (suc (length (cstr s))) s ≡ cstr s ++ 0 ∷ []
unfolding cstr
take-cstr [] h = absurd (omega arith)
take-cstr (c ∷ s) h = elim (Bool-cases (c == 0)) [
  | inl e ↦ let z : c ≡ 0 = ground (arith, e) in rw e (ap (λ d. d ∷ []) z)
  | inr e ↦
      let h' : suc (length (cstr s)) < suc (length s) = rw e at h in
      rw e (ap (λ t. c ∷ t) (take-cstr s (omega arith)))
]

cstr-set : (s t : Bytes) (n : ℕ) → IsText s → length s ≤ n → cstr (set (s ++ 0 ∷ t) n 0) ≡ s
unfolding cstr
cstr-set [] t zero h k = refl
cstr-set [] t (suc n) h k = refl
cstr-set (c ∷ s) t zero h k = absurd (omega arith)
cstr-set (c ∷ s) t (suc n) (hc, h) k = ground (arith, cstr-set s t n h)

module _ (zms : Zms) (laws : ZmsLaws zms) where
  -- The text with its terminator.
  abbrev record_of : Point → Bytes
  record_of p = cstr p.payload ++ 0 ∷ []

  stored_text :
      (v : Nvs zms) (p : Point) (id : ℕ)
      → IsPoint p
      → length (cstr p.payload) ≤ 19
      → p.data_type ≡ type_string
      → point_type_key_to_nvs_id v.pts p.type p.key ≡ pos id
      → (nvs_store_handle_point zms v p).fs ≡ (zms.write v.fs id (record_of p)).0
  unfolding nvs_store_handle_point point_data_len
  stored_text v p id vp t e k =
      let n : strnlen p.payload 19 + 1 ≡ suc (length (cstr p.payload)) =
        omega (arith, strnlen_lem p.payload 19, t) in
      rw (k, e, n, take-cstr p.payload (omega (arith, vp.data_len, t))) refl

  text_read :
      (fs : zms.Fs) (p : Point) (id : ℕ) (buf : Bytes)
      → length (cstr p.payload) ≤ 19
      → is_negative (zms.write fs id (record_of p)).1 ≡ false
      → cstr (read_string zms (zms.write fs id (record_of p)).0 id buf).1 ≡ cstr p.payload
  unfolding read_string
  text_read fs p id buf t ok =
      let len = length-append (cstr p.payload) (0 ∷ []) in
      let got =
        laws.read-write fs id data_size (record_of p) (omega (arith, len)) (omega (arith, len, t))
          ok in
      rw (got, append_assoc) (cstr-set (cstr p.payload) _ 19 (IsText-cstr p.payload) t)

  -- A STRING point that is stored is published after a restart with the same name and text, if the
  -- write succeeds and its entry is the one that the point's name leads to.
  pub restore-string :
      (v : Nvs zms) (p q : Point) (n : NvsPoint) (buf : Bytes)
      → IsPoint p
      → IsPoint q
      → IsTerminated p
      → p.data_type ≡ type_string
      → point_type_key_to_nvs_id v.pts p.type p.key ≡ pos n.nvs_id
      → cstr n.def_type ≡ cstr p.type
      → cstr n.key ≡ cstr p.key
      → n.def_data_type ≡ type_string
      → is_negative (zms.write v.fs n.nvs_id (record_of p)).1 ≡ false
      → let (fs, r, published) = restore zms (nvs_store_handle_point zms v p).fs q buf n in
        (published ≡ r ∷ [])
        × (cstr r.type ≡ cstr p.type)
        × (cstr r.key ≡ cstr p.key)
        × (r.data_type ≡ type_string)
        × (cstr r.payload ≡ cstr p.payload)
  unfolding restore point_set_type_key point_put_string
  restore-string v p q n buf vp vq z e id ty ky dt ok =
      let fs = (zms.write v.fs n.nvs_id (record_of p)).0 in
      let text = (read_string zms fs n.nvs_id buf).1 in
      let q' = point_put_string q text in
      let put = point_get_string-put_string q text (buf_of 20) 20 vq (omega arith) (omega arith) in
      let names = point_set_type_key_lem q' n.def_type n.key put.0 in
      let (copied, _, _) =
        copy_str_field_lem q.payload text data_size (omega arith) (omega (arith, vq.data_len)) in
      rw (stored_text v p n.nvs_id vp z.data_ends e id, dt)
        (
          refl,
          names.1 ∙ ap (take 23) ty ∙ take-le 23 (cstr p.type) z.type_ends,
          names.2 ∙ ap (take 22) ky ∙ take-le 22 (cstr p.key) z.key_ends,
          refl,
          copied
              ∙ ap (take 19) (text_read v.fs p n.nvs_id buf z.data_ends ok)
              ∙ take-le 19 (cstr p.payload) z.data_ends,
        )
    where
      buf_of : ℕ → Bytes
      buf_of k = replicate k 0
