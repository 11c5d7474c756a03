-- ===== src/Point/Fields.antt =====
-- What the setters and getters of a point guarantee.
use zephyr_siot.Base.{
  ℕ, zero, suc, ◌+◌, ◌-◌, ◌^◌, ◌≤◌, ◌<◌, min, ◌≡◌, refl, ap, ◌∙◌, [], ◌∷◌, arith, length, take,
  length-set, length-take,
}
use zephyr_siot.Base.Int.{ℤ, pos, negsuc, IsInt, to_word, of_word, of_word-to_word}
use zephyr_siot.CString.{Bytes, cstr, strlen, strnlen, copy_str_field}
use zephyr_siot.CString.Laws.{copy_str_field_lem}
use zephyr_siot.Point.{
  type_size, key_size, data_size, Point, IsPoint, zero_point, type_int, type_float, type_string,
  point_set_type_key, store32, load32, point_get_int, point_get_float, point_get_string,
  point_put_int, point_put_float, point_put_string, point_data_len,
}

pub zero_point-IsPoint : IsPoint zero_point
zero_point-IsPoint = record { type_len = refl; key_len = refl; data_len = refl }

-- Setting type and key leaves the two strings cut to their fields, and the point well formed;
-- time, data type and data stay.
pub point_set_type_key_lem :
    (p : Point) (t k : Bytes)
    → IsPoint p
    → let q = point_set_type_key p t k in
      IsPoint q
      × (cstr q.type ≡ take 23 (cstr t))
      × (cstr q.key ≡ take 22 (cstr k))
      × (q.time ≡ p.time)
      × (q.data_type ≡ p.data_type)
      × (q.payload ≡ p.payload)
unfolding point_set_type_key
point_set_type_key_lem p t k v =
    let (a, b, _) = copy_str_field_lem p.type t type_size (omega arith) (omega arith) in
    let (c, d, _) = copy_str_field_lem p.key k key_size (omega arith) (omega arith) in
    (
      record { type_len = b ∙ v.type_len; key_len = d ∙ v.key_len; data_len = v.data_len },
      a,
      c,
      refl,
      refl,
      refl,
    )

-- A buffer of four bytes and more, by its first four.
four : (b : Bytes) → 4 ≤ length b → (x y z w : ℕ) × (r : Bytes) × (b ≡ x ∷ y ∷ z ∷ w ∷ r)
four (x ∷ y ∷ z ∷ w ∷ r) h = (x, y, z, w, r, refl)
four [] h = absurd (omega arith)
four (x ∷ []) h = absurd (omega arith)
four (x ∷ y ∷ []) h = absurd (omega arith)
four (x ∷ y ∷ z ∷ []) h = absurd (omega arith)

pub load32-store32 : (b : Bytes) (w : ℕ) → 4 ≤ length b → w < 2 ^ 32 → load32 (store32 b w) ≡ w
unfolding load32 store32
load32-store32 (x ∷ y ∷ z ∷ u ∷ r) w h k = omega arith
load32-store32 [] w h k = absurd (omega arith)
load32-store32 (x ∷ []) w h k = absurd (omega arith)
load32-store32 (x ∷ y ∷ []) w h k = absurd (omega arith)
load32-store32 (x ∷ y ∷ z ∷ []) w h k = absurd (omega arith)

pub length-store32 : (b : Bytes) (w : ℕ) → length (store32 b w) ≡ length b
unfolding store32
length-store32 b w = length-set _ 3 _ ∙ (length-set _ 2 _ ∙ (length-set _ 1 _ ∙ length-set b 0 _))

pub to_word-lt : (z : ℤ) → to_word z < 2 ^ 32
to_word-lt (pos n) = omega arith
to_word-lt (negsuc n) = omega arith

-- An `int` that is put is read back, negative ones too, and the point is then an INT of 4 bytes.
pub point_get_int-put_int :
    (p : Point) (v : ℤ)
    → IsPoint p
    → IsInt v
    → let q = point_put_int p v in
      IsPoint q
      × (point_get_int q ≡ v)
      × (q.data_type ≡ type_int)
      × (point_data_len q ≡ 4)
      × (q.type ≡ p.type)
      × (q.key ≡ p.key)
unfolding point_put_int point_get_int point_data_len
point_get_int-put_int p v w h = (
  record {
    type_len = w.type_len;
    key_len = w.key_len;
    data_len = length-store32 p.payload _ ∙ w.data_len;
  },
  ap of_word (load32-store32 p.payload _ (omega arith) (to_word-lt v)) ∙ of_word-to_word v h,
  refl,
  refl,
  refl,
  refl,
)

-- The pattern of a `float` that is put is read back, and the point is then a FLOAT of 4 bytes.
pub point_get_float-put_float :
    (p : Point) (v : ℕ)
    → IsPoint p
    → v < 2 ^ 32
    → let q = point_put_float p v in
      IsPoint q
      × (point_get_float q ≡ v)
      × (q.data_type ≡ type_float)
      × (point_data_len q ≡ 4)
      × (q.type ≡ p.type)
      × (q.key ≡ p.key)
unfolding point_put_float point_get_float point_data_len
point_get_float-put_float p v w h = (
  record {
    type_len = w.type_len;
    key_len = w.key_len;
    data_len = length-store32 p.payload _ ∙ w.data_len;
  },
  load32-store32 p.payload v (omega arith) h,
  refl,
  refl,
  refl,
  refl,
)

pub strnlen_lem : (s : Bytes) (n : ℕ) → strnlen s n ≡ min n (length (cstr s))
unfolding strnlen cstr
strnlen_lem s zero = omega arith
strnlen_lem [] (suc n) = omega arith
strnlen_lem (c ∷ s) (suc n) = ground (arith, strnlen_lem s n)

take-take : (m n : ℕ) (s : Bytes) → take m (take n s) ≡ take (min m n) s
take-take zero n s = let e : min 0 n ≡ 0 = omega arith in rw e
take-take (suc m) zero s = let e : min (suc m) 0 ≡ 0 = omega arith in rw e
take-take (suc m) (suc n) [] = let e : min (suc m) (suc n) ≡ suc (min m n) = omega arith in rw e
take-take (suc m) (suc n) (c ∷ s) =
    let e : min (suc m) (suc n) ≡ suc (min m n) = omega arith in rw (e, take-take m n s)

-- A string that is put, then read into a buffer of `len` bytes, comes back cut to the shorter of the
-- field and the buffer. The length to store is that of the cut string with its terminator.
pub point_get_string-put_string :
    (p : Point) (v dest : Bytes) (len : ℕ)
    → IsPoint p
    → 0 < len
    → len ≤ length dest
    → let q = point_put_string p v in
      IsPoint q
      × (cstr (point_get_string q dest (pos len)) ≡ take (min (len - 1) 19) (cstr v))
      × (q.data_type ≡ type_string)
      × (point_data_len q ≡ min 19 (strlen v) + 1)
      × (q.type ≡ p.type)
      × (q.key ≡ p.key)
unfolding point_put_string point_get_string point_data_len strlen
point_get_string-put_string p v dest zero w h k = absurd (omega arith)
point_get_string-put_string p v dest (suc n) w h k =
    let (a, b, _) = copy_str_field_lem p.payload v data_size (omega arith) (omega arith) in
    let (c, _, _) = copy_str_field_lem dest (copy_str_field p.payload v data_size) (suc n) h k in
    (
      record { type_len = w.type_len; key_len = w.key_len; data_len = b ∙ w.data_len },
      c ∙ (ap (take (suc n - 1)) a ∙ take-take (suc n - 1) 19 (cstr v)),
      refl,
      ap (λ m. m + 1)
          (strnlen_lem _ 19
            ∙ (ap (λ s. min 19 (length s)) a ∙ omega (arith, length-take 19 (cstr v)))),
      refl,
      refl,
    )
