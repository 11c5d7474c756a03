-- ===== src/Point/Dump/Laws.antt =====
-- What `point_dump` writes, and when it writes outside of its buffer.
use zephyr_siot.Base.{
  ℕ, zero, suc, ◌+◌, ◌-◌, ◌≤◌, ◌<◌, ◌≡◌, refl, ap, sym, ◌∙◌, true, false, [], ◌∷◌, ◌++◌,
  append_assoc, leb, length, length-append, take, splice, length-splice, splice-covered, arith,
}
use zephyr_siot.Base.Int.{ℤ, pos}
use zephyr_siot.CString.{Bytes, cstr}
use zephyr_siot.Point.{Point}
use zephyr_siot.Point.Dump.{
  Printf, Out, put, snprintf, Dump, print, key_text, data_text, point_dump,
}

-- A list that is no longer than a number is what is taken of it.
take_all : (n : ℕ) (t : Bytes) → length t ≤ n → take n t ≡ t
take_all n [] h = take-nil n
  where
    take-nil : (n : ℕ) → take {A = ℕ} n [] ≡ []
    take-nil zero = refl
    take-nil (suc n) = refl
take_all zero (c ∷ t) h = absurd (omega arith)
take_all (suc n) (c ∷ t) h = ap (λ s. c ∷ s) (take_all n t (omega arith))

pub put_fits :
    (o : Out) (i : ℕ) (s : Bytes)
    → i + length s ≤ length o.buf
    → put o i s ≡ record o { buf = splice i s o.buf }
put_fits o i s h = ground arith

-- A text that fits is printed whole.
snprintf_fits :
    (o : Out) (i r : ℕ) (t : Bytes)
    → length t < r
    → i + length t < length o.buf
    → snprintf o i (pos r) t ≡ record o { buf = splice i (t ++ 0 ∷ []) o.buf }
snprintf_fits o i zero t h k = absurd (omega arith)
snprintf_fits o i (suc r) t h k =
    rw (take_all r t (omega arith))
      (put_fits o i (t ++ 0 ∷ []) (omega (arith, length-append t (0 ∷ []))))

same_dump :
    {o o' : Out} {a a' : ℕ} {r r' : ℤ}
    → o ≡ o'
    → a ≡ a'
    → r ≡ r'
    → ◌≡◌ {A = Dump}
        (record { out = o; offset = a; remaining = r })
        (record { out = o'; offset = a'; remaining = r' })
same_dump h k l = rw (h, k, l) refl

module _ (o : Out) (start len : ℕ) where
  -- The text `t` was printed, with its terminator.
  abbrev printed : Bytes → Dump
  printed t = record {
    out = record o { buf = splice start (t ++ 0 ∷ []) o.buf };
    offset = length t;
    remaining = pos (len - 1 - length t);
  }

  print_first :
      (t : Bytes)
      → length t + 2 ≤ len
      → start + len ≤ length o.buf
      → print start (record { out = o; offset = 0; remaining = pos (len - 1) }) t ≡ printed t
  unfolding print
  print_first t h k =
      let l : leb (length t) (len - 1) ≡ true = ground arith in
      same_dump
        (ap (λ i. snprintf o i (pos (len - 1)) t) (omega arith)
          ∙ snprintf_fits o start (len - 1) t (omega arith) (omega arith))
        (omega arith) (rw l refl)

  print_next :
      (t u : Bytes)
      → length t + length u + 2 ≤ len
      → start + len ≤ length o.buf
      → print start (printed t) u ≡ printed (t ++ u)
  unfolding print
  print_next t u h k =
      let l : leb (length u) (len - 1 - length t) ≡ true = ground arith in
      let b = splice start (t ++ 0 ∷ []) o.buf in
      let whole = length-append t (0 ∷ []) in
      let same = length-splice start (t ++ 0 ∷ []) o.buf (omega (arith, whole)) in
      let covered : splice (start + length t) (u ++ 0 ∷ []) b
          ≡ splice start (t ++ (u ++ 0 ∷ [])) o.buf =
        splice-covered start t (0 ∷ []) (u ++ 0 ∷ []) o.buf (omega arith)
          (omega (arith, length-append u (0 ∷ []))) in
      same_dump
        (snprintf_fits (printed t).out (start + length t) (len - 1 - length t) u (omega arith)
            (omega (arith, same))
          ∙ ap with_buf
              (covered ∙ ap (λ s. splice start s o.buf) (sym (append_assoc t u (0 ∷ [])))))
        (sym (length-append t u)) (rw l (ap pos (omega (arith, length-append t u))))
    where
      with_buf : Bytes → Out
      with_buf b = record o { buf = b }

module _ (pf : Printf) where
  -- The text of a point.
  abbrev pub dumped : Point → Bytes
  dumped p = cstr p.type ++ key_text (cstr p.key) ++ data_text pf p

  -- A point whose text fits in `len` bytes with its terminator and one byte more is written whole, and
  -- the length of the text is returned. Nothing else of the memory is touched.
  pub point_dump_fits :
      (p : Point) (o : Out) (start len : ℕ)
      → length (dumped p) + 2 ≤ len
      → start + len ≤ length o.buf
      → point_dump pf p o start len
        ≡ (record o { buf = splice start (dumped p ++ 0 ∷ []) o.buf }, pos (length (dumped p)))
  unfolding point_dump
  point_dump_fits p o start len h k =
      let a = cstr p.type in
      let b = key_text (cstr p.key) in
      let c = data_text pf p in
      let ab = length-append a b in
      let abc = length-append (a ++ b) c in
      let l : leb len 1 ≡ false = ground arith in
      let all =
        ap (λ d. print start (print start d b) c)
          (print_first o start len a (omega (arith, ab, abc)) k)
        ∙ ap (λ d. print start d c) (print_next o start len a b (omega (arith, ab, abc)) k)
        ∙ print_next o start len (a ++ b) c (omega (arith, abc)) k in
      rw l (ap (λ d. (d.out, pos d.offset)) all)
