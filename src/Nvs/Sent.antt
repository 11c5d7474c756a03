-- ===== src/Nvs/Sent.antt =====
-- The points that `nvs_init` publishes, by the entries that they come from.
use zephyr_siot.Base.{
  ℕ, suc, ◌≡◌, ◌≢◌, refl, ap, sym, ◌∙◌, true, false, none, List, [], ◌∷◌, ◌++◌, ◌==◌, ◌&&◌, take,
  arith, bytes_eq, Bool-cases, inl, inr,
}
use zephyr_siot.Base.Int.{ℤ, of_word}
use zephyr_siot.CString.{Bytes, cstr, first}
use zephyr_siot.CString.Laws.{copy_str_field_lem, cstr-first, cstr-rest}
use zephyr_siot.Point.{
  Point, IsPoint, data_size, type_float, type_int, type_string, point_put_int, point_put_float,
  point_put_string, point_set_type_key, is_empty, is_unknown,
}
use zephyr_siot.Point.Fields.{length-store32, point_set_type_key_lem}
use zephyr_siot.Point.Merge.{default_key}
use zephyr_siot.Point.Merge.View.{is_usable, has_name}
use zephyr_siot.Point.Merge.View.Keeps.{is_usable-default_key}
use zephyr_siot.Point.Merge.View.Latest.{latest}
use zephyr_siot.Point.Merge.View.Order.{AreUsable}
use zephyr_siot.Nvs.{Zms, NvsPoint, read_value, read_string, restore, restore_loop}

pub put_int-IsPoint : (p : Point) (v : ℤ) → IsPoint p → IsPoint (point_put_int p v)
unfolding point_put_int
put_int-IsPoint p v w = record {
  type_len = w.type_len;
  key_len = w.key_len;
  data_len = length-store32 p.payload _ ∙ w.data_len;
}

pub put_float-IsPoint : (p : Point) (v : ℕ) → IsPoint p → IsPoint (point_put_float p v)
unfolding point_put_float
put_float-IsPoint p v w = record {
  type_len = w.type_len;
  key_len = w.key_len;
  data_len = length-store32 p.payload v ∙ w.data_len;
}

pub put_string-IsPoint : (p : Point) (v : Bytes) → IsPoint p → IsPoint (point_put_string p v)
unfolding point_put_string
put_string-IsPoint p v w =
    let (_, same, _) =
      copy_str_field_lem p.payload v data_size (omega arith) (omega (arith, w.data_len)) in
    record { type_len = w.type_len; key_len = w.key_len; data_len = same ∙ w.data_len }

-- A point of an entry: well formed, with the names of the entry cut to their fields, of its data type.
pub record IsOf (n : NvsPoint) (r : Point) : Type 0 where
  pub sizes : IsPoint r
  pub type_cut : cstr r.type ≡ take 23 (cstr n.def_type)
  pub key_cut : cstr r.key ≡ take 22 (cstr n.key)
  pub kind : r.data_type ≡ n.def_data_type
  pub known : is_unknown r ≡ false

-- Points of some entries, in their order; an entry of another data type than FLOAT, INT and STRING has none.
pub data Sent : List NvsPoint → List Point → Type 0 where
  nothing : Sent [] []
  skipped : (n : NvsPoint) {pts : List NvsPoint} {ps : List Point} → Sent pts ps → Sent (n ∷ pts) ps
  sent :
      (n : NvsPoint) (r : Point) {pts : List NvsPoint} {ps : List Point}
      → IsOf n r
      → Sent pts ps
      → Sent (n ∷ pts) (r ∷ ps)

pub Sent-append :
    {pts pts' : List NvsPoint} {ps ps' : List Point}
    → Sent pts ps
    → Sent pts' ps'
    → Sent (pts ++ pts') (ps ++ ps')
Sent-append nothing b = b
Sent-append (skipped n a) b = skipped n (Sent-append a b)
Sent-append (sent n r i a) b = sent n r i (Sent-append a b)

pub Sent-IsOf : {n : NvsPoint} {r : Point} → Sent (n ∷ []) (r ∷ []) → IsOf n r
Sent-IsOf (skipped n s) = elim s [ ]
Sent-IsOf (sent n r i s) = i

named-IsOf :
    (n : NvsPoint) (q : Point)
    → IsPoint q
    → q.data_type ≡ n.def_data_type
    → is_unknown q ≡ false
    → IsOf n (point_set_type_key q n.def_type n.key)
unfolding point_set_type_key is_unknown
named-IsOf n q v k u =
    let (sizes, type, key, time, kind, payload) = point_set_type_key_lem q n.def_type n.key v in
    record { sizes = sizes; type_cut = type; key_cut = key; kind = k; known = u }

module _ (zms : Zms) where
  -- An entry leaves the point well formed, and what it publishes is of the entry.
  pub restore-Sent :
      (fs : zms.Fs) (q : Point) (buf : Bytes) (n : NvsPoint)
      → IsPoint q
      → IsPoint (restore zms fs q buf n).1 × Sent (n ∷ []) (restore zms fs q buf n).2
  unfolding restore point_put_int point_put_float point_put_string is_unknown
  restore-Sent fs q buf n v =
      let (f, word) = read_value zms fs n.nvs_id in
      let (s, text) = read_string zms fs n.nvs_id buf in
      elim (Bool-cases (n.def_data_type == type_float)) [
        | inl f ↦
            let i =
              named-IsOf n (point_put_float q word) (put_float-IsPoint q word v) (ground (arith, f))
                refl in
            rw f (i.sizes, sent n _ i nothing)
        | inr f ↦ elim (Bool-cases (n.def_data_type == type_int)) [
          | inl e ↦
              let i =
                named-IsOf n (point_put_int q (of_word word)) (put_int-IsPoint q (of_word word) v)
                  (ground (arith, e)) refl in
              rw (f, e) (i.sizes, sent n _ i nothing)
          | inr e ↦ elim (Bool-cases (n.def_data_type == type_string)) [
            | inl s ↦
                let i =
                  named-IsOf n (point_put_string q text) (put_string-IsPoint q text v)
                    (ground (arith, s)) refl in
                rw (f, e, s) (i.sizes, sent n _ i nothing)
            | inr s ↦ rw (f, e, s) (v, skipped n nothing)
          ]
        ]
      ]

  pub restore_loop-Sent :
      (fs : zms.Fs) (q : Point) (pts : List NvsPoint) (bufs : List NvsPoint → Bytes)
      → IsPoint q
      → Sent pts (restore_loop zms fs q pts bufs).1
  unfolding restore_loop
  restore_loop-Sent fs q [] bufs v = nothing
  restore_loop-Sent fs q (n ∷ pts) bufs v =
      let r = restore zms fs q (bufs (n ∷ pts)) n in
      let (v', s) = restore-Sent fs q (bufs (n ∷ pts)) n v in
      Sent-append s (restore_loop-Sent r.0 r.1 pts bufs v')

-- The entries have names: neither the type nor the key is blank.
abbrev pub AreNamed : List NvsPoint → Type 0
AreNamed [] = Unit
AreNamed (n ∷ pts) = (first n.def_type ≢ 0) × (first n.key ≢ 0) × AreNamed pts

-- None of the entries has the name, cut to the fields.
abbrev pub AreOther : Bytes → Bytes → List NvsPoint → Type 0
AreOther t k [] = Unit
AreOther t k (n ∷ pts) =
    ((bytes_eq (take 23 (cstr n.def_type)) t && bytes_eq (take 22 (cstr n.key)) k) ≡ false)
    × AreOther t k pts

first-cut : (b t : Bytes) (n : ℕ) → cstr b ≡ take (suc n) (cstr t) → first t ≢ 0 → first b ≢ 0
first-cut b t n e h z =
    let empty : [] ≡ take (suc n) (first t ∷ _) =
      sym (cstr-first b z) ∙ e ∙ ap (take (suc n)) (cstr-rest t h) in
    cc

IsOf-usable :
    (n : NvsPoint) (r : Point) → IsOf n r → first n.def_type ≢ 0 → is_usable (default_key r) ≡ true
IsOf-usable n r i h =
    let typed = first-cut r.type n.def_type 22 i.type_cut h in
    is_usable-default_key r ∙ (unfold is_usable is_empty in ground (arith, i.known, typed))

pub IsOf-default_key : (n : NvsPoint) (r : Point) → IsOf n r → first n.key ≢ 0 → default_key r ≡ r
unfolding default_key
IsOf-default_key n r i h =
    let keyed = first-cut r.key n.key 21 i.key_cut h in
    let e : (first r.key == 0) ≡ false = ground (arith, keyed) in rw e refl

pub Sent-AreUsable :
    {pts : List NvsPoint} {ps : List Point} → Sent pts ps → AreNamed pts → AreUsable ps
Sent-AreUsable nothing h = tt
Sent-AreUsable (skipped n s) (t, k, h) = Sent-AreUsable s h
Sent-AreUsable (sent n r i s) (t, k, h) = (i.sizes, IsOf-usable n r i t, Sent-AreUsable s h)

pub Sent-latest :
    (t k : Bytes) {pts : List NvsPoint} {ps : List Point}
    → Sent pts ps
    → AreNamed pts
    → AreOther t k pts
    → latest t k ps ≡ none
unfolding latest
Sent-latest t k nothing a h = refl
Sent-latest t k (skipped n s) (at, ak, a) (o, h) = Sent-latest t k s a h
Sent-latest t k (sent n r i s) (at, ak, a) (o, h) =
    let other : has_name t k (default_key r) ≡ false =
      rw (IsOf-default_key n r i ak) (unfold has_name in rw (i.type_cut, i.key_cut) o) in
    rw (Sent-latest t k s a h, other) refl
