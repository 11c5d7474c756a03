-- ===== src/Nvs/Laws.antt =====
-- A stored point is published again after a restart.
use zephyr_siot.Base.{
  ℕ, ◌^◌, ◌≤◌, ◌<◌, ◌≡◌, refl, ap, ◌∙◌, false, [], ◌∷◌, arith, length, take, length-take,
}
use zephyr_siot.Base.Int.{pos, IsInt, is_negative, of_word}
use zephyr_siot.CString.{Bytes, cstr, write_at_start}
use zephyr_siot.Point.{
  Point, IsPoint, type_int, type_float, point_get_float, point_put_float, load32, point_get_int,
  point_put_int, point_set_type_key, point_data_len,
}
use zephyr_siot.Point.Fields.{
  point_set_type_key_lem, point_get_int-put_int, point_get_float-put_float,
}
use zephyr_siot.Json.Unescape.RoundTrip.{take-le}
use zephyr_siot.Json.PointJs.RoundTrip.{IsTerminated}
use zephyr_siot.Nvs.{
  Zms, NvsPoint, zero_word, point_type_key_to_nvs_id, read_value, restore, Nvs,
  nvs_store_handle_point,
}

-- What ZMS documents: a successful write is read back.
pub record ZmsLaws (zms : Zms) : Type 1 where
  pub read-write :
      (fs : zms.Fs) (id len : ℕ) (bytes : Bytes)
      → 0 < length bytes
      → length bytes ≤ len
      → is_negative (zms.write fs id bytes).1 ≡ false
      → zms.read (zms.write fs id bytes).0 id len ≡ (pos (length bytes), bytes)

load32-take : (b : Bytes) → 4 ≤ length b → load32 (write_at_start zero_word (take 4 b)) ≡ load32 b
unfolding load32
load32-take [] h = absurd (omega arith)
load32-take (a ∷ []) h = absurd (omega arith)
load32-take (a ∷ b ∷ []) h = absurd (omega arith)
load32-take (a ∷ b ∷ c ∷ []) h = absurd (omega arith)
load32-take (a ∷ b ∷ c ∷ d ∷ s) h = refl

module _ (zms : Zms) (laws : ZmsLaws zms) where
  -- The bytes of an INT or FLOAT point are what is stored.
  stored :
      (v : Nvs zms) (p : Point) (id : ℕ)
      → point_data_len p ≡ 4
      → point_type_key_to_nvs_id v.pts p.type p.key ≡ pos id
      → (nvs_store_handle_point zms v p).fs ≡ (zms.write v.fs id (take 4 p.payload)).0
  unfolding nvs_store_handle_point
  stored v p id e k = rw (k, e) refl

  int_len : (p : Point) → p.data_type ≡ type_int → point_data_len p ≡ 4
  unfolding point_data_len
  int_len p e = rw e refl

  float_len : (p : Point) → p.data_type ≡ type_float → point_data_len p ≡ 4
  unfolding point_data_len
  float_len p e = rw e refl

  value_read :
      (fs : zms.Fs) (p : Point) (id : ℕ)
      → IsPoint p
      → is_negative (zms.write fs id (take 4 p.payload)).1 ≡ false
      → (read_value zms (zms.write fs id (take 4 p.payload)).0 id).1 ≡ load32 p.payload
  unfolding read_value
  value_read fs p id vp ok =
      let four : length (take 4 p.payload) ≡ 4 =
        omega (arith, length-take 4 p.payload, vp.data_len) in
      let got = laws.read-write fs id 4 (take 4 p.payload) (omega arith) (omega arith) ok in
      rw got (load32-take p.payload (omega (arith, vp.data_len)))

  -- An INT point that is stored is published after a restart with the same name and value, if the
  -- write succeeds and its entry is the one that the point's name leads to.
  pub restore-int :
      (v : Nvs zms) (p q : Point) (n : NvsPoint) (buf : Bytes)
      → IsPoint p
      → IsPoint q
      → IsTerminated p
      → p.data_type ≡ type_int
      → IsInt (point_get_int p)
      → point_type_key_to_nvs_id v.pts p.type p.key ≡ pos n.nvs_id
      → cstr n.def_type ≡ cstr p.type
      → cstr n.key ≡ cstr p.key
      → n.def_data_type ≡ type_int
      → is_negative (zms.write v.fs n.nvs_id (take 4 p.payload)).1 ≡ false
      → let (fs, r, published) = restore zms (nvs_store_handle_point zms v p).fs q buf n in
        (published ≡ r ∷ [])
        × (cstr r.type ≡ cstr p.type)
        × (cstr r.key ≡ cstr p.key)
        × (r.data_type ≡ type_int)
        × (point_get_int r ≡ point_get_int p)
  unfolding restore point_set_type_key point_get_int
  restore-int v p q n buf vp vq z e i id ty ky dt ok =
      let w = value_read v.fs p n.nvs_id vp ok in
      let q' = point_put_int q (of_word (load32 p.payload)) in
      let put = point_get_int-put_int q (of_word (load32 p.payload)) vq i in
      let names = point_set_type_key_lem q' n.def_type n.key put.0 in
      rw (stored v p n.nvs_id (int_len p e) id, dt, w)
        (
          refl,
          names.1 ∙ ap (take 23) ty ∙ take-le 23 (cstr p.type) z.type_ends,
          names.2 ∙ ap (take 22) ky ∙ take-le 22 (cstr p.key) z.key_ends,
          put.2,
          put.1,
        )

  -- So is a FLOAT point, with the pattern of its value.
  pub restore-float :
      (v : Nvs zms) (p q : Point) (n : NvsPoint) (buf : Bytes)
      → IsPoint p
      → IsPoint q
      → IsTerminated p
      → p.data_type ≡ type_float
      → point_get_float p < 2 ^ 32
      → point_type_key_to_nvs_id v.pts p.type p.key ≡ pos n.nvs_id
      → cstr n.def_type ≡ cstr p.type
      → cstr n.key ≡ cstr p.key
      → n.def_data_type ≡ type_float
      → is_negative (zms.write v.fs n.nvs_id (take 4 p.payload)).1 ≡ false
      → let (fs, r, published) = restore zms (nvs_store_handle_point zms v p).fs q buf n in
        (published ≡ r ∷ [])
        × (cstr r.type ≡ cstr p.type)
        × (cstr r.key ≡ cstr p.key)
        × (r.data_type ≡ type_float)
        × (point_get_float r ≡ point_get_float p)
  unfolding restore point_set_type_key point_get_float
  restore-float v p q n buf vp vq z e i id ty ky dt ok =
      let w = value_read v.fs p n.nvs_id vp ok in
      let q' = point_put_float q (load32 p.payload) in
      let put = point_get_float-put_float q (load32 p.payload) vq i in
      let names = point_set_type_key_lem q' n.def_type n.key put.0 in
      rw (stored v p n.nvs_id (float_len p e) id, dt, w)
        (
          refl,
          names.1 ∙ ap (take 23) ty ∙ take-le 23 (cstr p.type) z.type_ends,
          names.2 ∙ ap (take 22) ky ∙ take-le 22 (cstr p.key) z.key_ends,
          put.2,
          put.1,
        )
