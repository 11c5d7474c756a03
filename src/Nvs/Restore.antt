-- ===== src/Nvs/Restore.antt =====
-- What `nvs_init` does for one entry, and what it depends on.
use zephyr_siot.Base.{
  ℕ, ◌≡◌, refl, ap, sym, ◌∙◌, List, [], ◌∷◌, ◌==◌, set, if◌then◌else◌, Bool-cases, inl, inr,
}
use zephyr_siot.Base.Int.{ℤ, is_negative, of_word}
use zephyr_siot.CString.{Bytes, write_at_start}
use zephyr_siot.Point.{
  Point, data_size, type_float, type_int, type_string, load32, point_put_int, point_put_float,
  point_put_string, point_set_type_key,
}
use zephyr_siot.Nvs.{Zms, NvsPoint, zero_word, read_value, read_string, restore}

-- A file system that reads the same at the entry.
abbrev pub SameAt : (zms : Zms) → ℕ → zms.Fs → zms.Fs → Type 0
SameAt zms id fs fs' = (len : ℕ) → zms.read fs' id len ≡ zms.read fs id len

module _ (zms : Zms) where
  pub read_value_lem :
      (fs : zms.Fs) (id : ℕ)
      → (read_value zms fs id).1 ≡ load32 (write_at_start zero_word (zms.read fs id 4).1)
  unfolding read_value
  read_value_lem fs id = elim (Bool-cases (is_negative (zms.read fs id 4).0)) [
    | inl e ↦ rw e refl
    | inr e ↦ rw e refl
  ]

  -- The string that a read gives.
  abbrev string_of : Bytes → ℤ × Bytes → Bytes
  string_of buf (rc, got) =
      let filled = write_at_start (set buf 0 0) got in
      if is_negative rc then filled else set filled 19 0

  read_string_lem :
      (fs : zms.Fs) (id : ℕ) (buf : Bytes)
      → (read_string zms fs id buf).1 ≡ string_of buf (zms.read fs id data_size)
  unfolding read_string
  read_string_lem fs id buf = elim (Bool-cases (is_negative (zms.read fs id data_size).0)) [
    | inl e ↦ rw e refl
    | inr e ↦ rw e refl
  ]

  -- The point after an entry, and what is published, from the word and the string that were read.
  abbrev restored : Point → NvsPoint → ℕ → Bytes → Point × List Point
  restored q n word text =
      let of_float = point_set_type_key (point_put_float q word) n.def_type n.key in
      let of_int = point_set_type_key (point_put_int q (of_word word)) n.def_type n.key in
      let of_string = point_set_type_key (point_put_string q text) n.def_type n.key in
      if n.def_data_type == type_float
      then (of_float, of_float ∷ [])
      else if n.def_data_type == type_int
      then (of_int, of_int ∷ [])
      else if n.def_data_type == type_string
      then (of_string, of_string ∷ [])
      else (q, [])

  restore_lem :
      (fs : zms.Fs) (q : Point) (buf : Bytes) (n : NvsPoint)
      → let r = restored q n (read_value zms fs n.nvs_id).1 (read_string zms fs n.nvs_id buf).1 in
        ((restore zms fs q buf n).1 ≡ r.0) × ((restore zms fs q buf n).2 ≡ r.1)
  unfolding restore
  restore_lem fs q buf n = elim (Bool-cases (n.def_data_type == type_float)) [
    | inl f ↦ rw f (refl, refl)
    | inr f ↦ elim (Bool-cases (n.def_data_type == type_int)) [
      | inl i ↦ rw (f, i) (refl, refl)
      | inr i ↦ elim (Bool-cases (n.def_data_type == type_string)) [
        | inl s ↦ rw (f, i, s) (refl, refl)
        | inr s ↦ rw (f, i, s) (refl, refl)
      ]
    ]
  ]

  -- What is restored from an entry depends on what is read there alone.
  pub restore-SameAt :
      (fs fs' : zms.Fs) (q : Point) (buf : Bytes) (n : NvsPoint)
      → SameAt zms n.nvs_id fs fs'
      → ((restore zms fs' q buf n).1 ≡ (restore zms fs q buf n).1)
        × ((restore zms fs' q buf n).2 ≡ (restore zms fs q buf n).2)
  restore-SameAt fs fs' q buf n e =
      let (a, b) = restore_lem fs q buf n in
      let (a', b') = restore_lem fs' q buf n in
      let word : (read_value zms fs' n.nvs_id).1 ≡ (read_value zms fs n.nvs_id).1 =
        read_value_lem fs' n.nvs_id
        ∙ ap (λ x. load32 (write_at_start zero_word x.1)) (e 4)
        ∙ sym (read_value_lem fs n.nvs_id) in
      let text : (read_string zms fs' n.nvs_id buf).1 ≡ (read_string zms fs n.nvs_id buf).1 =
        read_string_lem fs' n.nvs_id buf
        ∙ ap (string_of buf) (e data_size)
        ∙ sym (read_string_lem fs n.nvs_id buf) in
      let both : restored q n (read_value zms fs' n.nvs_id).1 (read_string zms fs' n.nvs_id buf).1
          ≡ restored q n (read_value zms fs n.nvs_id).1 (read_string zms fs n.nvs_id buf).1 =
        ap (λ w. restored q n w (read_string zms fs' n.nvs_id buf).1) word
        ∙ ap (restored q n (read_value zms fs n.nvs_id).1) text in
      (a' ∙ ap (λ r. r.0) both ∙ sym a, b' ∙ ap (λ r. r.1) both ∙ sym b)
