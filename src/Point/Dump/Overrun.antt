-- ===== src/Point/Dump/Overrun.antt =====
-- When `point_dump` writes outside of the buffer that it is given.
use zephyr_siot.Base.{
  ℕ, zero, suc, ◌+◌, ◌-◌, ◌≤◌, ◌<◌, ◌≡◌, refl, ap, ◌∙◌, Bool, true, false, [], ◌∷◌, ◌++◌, ltb, leb,
  if◌then◌else◌, length, length-append, take, drop, splice, length-splice, length-take, length-drop,
  arith, Bool-cases, inl, inr,
}
use zephyr_siot.Base.Int.{ℤ, pos, negsuc}
use zephyr_siot.CString.{Bytes, cstr}
use zephyr_siot.Point.{Point}
use zephyr_siot.Point.Dump.{
  Printf, Out, put, minus, snprintf, Dump, print, key_text, data_text, point_dump,
}

length-put : (o : Out) (i : ℕ) (s : Bytes) → length (put o i s).buf ≡ length o.buf
length-put o i s = elim (Bool-cases (leb (i + length s) (length o.buf))) [
  | inl e ↦ rw e (length-splice i s o.buf (ground arith))
  | inr e ↦ rw e (
      omega (
        arith,
        length-take (length o.buf) (splice i s o.buf),
        length-append (take i o.buf ++ s) (drop (i + length s) o.buf),
        length-append (take i o.buf) s,
        length-take i o.buf,
        length-drop (i + length s) o.buf,
      ))
]

put-overran :
    (o : Out) (i : ℕ) (s : Bytes)
    → (put o i s).overran ≡ (if leb (i + length s) (length o.buf) then o.overran else true)
put-overran o i s = ground arith

length-snprintf :
    (o : Out) (i : ℕ) (r : ℤ) (t : Bytes) → length (snprintf o i r t).buf ≡ length o.buf
length-snprintf o i (pos zero) t = refl
length-snprintf o i (pos (suc n)) t = length-put o i _
length-snprintf o i (negsuc n) t = length-put o i _

-- A size that is not negative is kept to, and a negative one is behind the end.
snprintf_within :
    (o : Out) (i r : ℕ) (t : Bytes)
    → i + r ≤ length o.buf
    → (snprintf o i (pos r) t).overran ≡ o.overran
snprintf_within o i zero t h = refl
snprintf_within o i (suc n) t h =
    let fits : leb (i + length (take n t ++ 0 ∷ [])) (length o.buf) ≡ true =
      ground (arith, length-append (take n t) (0 ∷ []), length-take n t) in
    put-overran o i (take n t ++ 0 ∷ []) ∙ rw fits refl

snprintf_beyond :
    (o : Out) (i n : ℕ) (t : Bytes)
    → length o.buf < i + length t + 1
    → (snprintf o i (negsuc n) t).overran ≡ true
snprintf_beyond o i n t h =
    let out : leb (i + length (t ++ 0 ∷ [])) (length o.buf) ≡ false =
      ground (arith, length-append t (0 ∷ [])) in
    put-overran o i (t ++ 0 ∷ []) ∙ rw out refl

minus-minus : (a : ℤ) (m n : ℕ) → minus (minus a m) n ≡ minus a (m + n)
minus-minus (pos a) m n = ground arith
minus-minus (negsuc a) m n = ground arith

module _ (start len size : ℕ) where
  -- `offset` and `remaining` add up to `len - 1`, in a buffer that ends with the `len` bytes or one byte
  -- behind them.
  record IsAt (d : Dump) : Type 0 where
    left : d.remaining ≡ minus (pos (len - 1)) d.offset
    size_of : length d.out.buf ≡ size

  print-IsAt : (d : Dump) (t : Bytes) → IsAt d → IsAt (print start d t)
  unfolding print
  print-IsAt d t h = record {
    left = ap (λ r. minus r (length t)) h.left ∙ minus-minus (pos (len - 1)) d.offset (length t);
    size_of = length-snprintf d.out _ d.remaining t ∙ h.size_of;
  }

  print_inside :
      (d : Dump) (t : Bytes)
      → d.offset ≤ len - 1
      → 1 ≤ len
      → start + len ≤ size
      → IsAt d
      → (print start d t).out.overran ≡ d.out.overran
  unfolding print
  print_inside d t inside one fits h =
      let e : leb d.offset (len - 1) ≡ true = ground arith in
      let r : d.remaining ≡ pos (len - 1 - d.offset) = h.left ∙ rw e refl in
      ap (λ n. (snprintf d.out (start + d.offset) n t).overran) r
      ∙ snprintf_within d.out (start + d.offset) (len - 1 - d.offset) t (omega (arith, h.size_of))

  print-overran :
      (d : Dump) (t : Bytes)
      → 2 ≤ length t
      → 1 ≤ len
      → start + len ≤ size
      → size ≤ start + len + 1
      → IsAt d
      → (print start d t).out.overran ≡ (if ltb (len - 1) d.offset then true else d.out.overran)
  unfolding print
  print-overran d t two one fits ends h = elim (Bool-cases (leb d.offset (len - 1))) [
    | inl e ↦
        let l : ltb (len - 1) d.offset ≡ false = ground arith in
        rw l (print_inside d t (ground arith) one fits h)
    | inr e ↦
        let over = d.offset - (len - 1) - 1 in
        let r : d.remaining ≡ negsuc over = h.left ∙ rw e refl in
        let l : ltb (len - 1) d.offset ≡ true = ground arith in
        rw l (
          ap (λ n. (snprintf d.out (start + d.offset) n t).overran) r
          ∙ snprintf_beyond d.out (start + d.offset) over t (ground (arith, h.size_of)))
  ]

zero_lem : (n : ℕ) → pos n ≡ minus (pos n) 0
zero_lem n = ground arith

-- An overrun at the second or the third text.
combined :
    (n a b : ℕ) {x y z : Bool}
    → x ≡ false
    → y ≡ (if ltb n (0 + a) then true else x)
    → z ≡ (if ltb n (0 + a + b) then true else y)
    → z ≡ ltb n (a + b)
combined n a b h k l = ground arith

module _ (pf : Printf) where
  pub length-data_text : (p : Point) → 5 ≤ length (data_text pf p)
  unfolding data_text
  length-data_text p = ground arith

  pub length-key_text : (k : Bytes) → 2 ≤ length (key_text k)
  length-key_text [] = omega arith
  length-key_text (c ∷ k) = omega (arith, length-append k (b':' ∷ b' ' ∷ []))

  -- In a buffer that ends with the `len` bytes that `point_dump` is told of, or one byte behind them, it
  -- writes outside of the buffer exactly if the type and the key with its separators are longer than
  -- `len - 1`.
  pub point_dump-overran :
      (p : Point) (o : Out) (start len : ℕ)
      → 2 ≤ len
      → start + len ≤ length o.buf
      → length o.buf ≤ start + len + 1
      → o.overran ≡ false
      → (point_dump pf p o start len).0.overran
        ≡ ltb (len - 1) (length (cstr p.type) + length (key_text (cstr p.key)))
  unfolding point_dump print
  point_dump-overran p o start len two fits ends clean =
      let d0 : Dump = record { out = o; offset = 0; remaining = pos (len - 1) } in
      let a = cstr p.type in
      let b = key_text (cstr p.key) in
      let c = data_text pf p in
      let d1 = print start d0 a in
      let d2 = print start d1 b in
      let at0 : IsAt start len (length o.buf) d0 = record {
        left = zero_lem (len - 1);
        size_of = refl;
      } in
      let at1 = print-IsAt start len (length o.buf) d0 a at0 in
      let at2 = print-IsAt start len (length o.buf) d1 b at1 in
      let l : leb len 1 ≡ false = ground arith in
      let one : 1 ≤ len = omega arith in
      let first = print_inside start len (length o.buf) d0 a (omega arith) one fits at0 in
      let second =
        print-overran start len (length o.buf) d1 b (length-key_text (cstr p.key)) one fits ends
          at1 in
      let third =
        print-overran start len (length o.buf) d2 c (omega (arith, length-data_text p)) one fits
          ends at2 in
      rw l (combined (len - 1) (length a) (length b) (first ∙ clean) second third)
