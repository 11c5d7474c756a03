-- ===== src/Point/Dump/Several.antt =====
-- What `points_dump` writes for an array of points.
use zephyr_siot.Base.{
  ℕ, ◌+◌, ◌-◌, ◌≤◌, ◌≡◌, refl, ap, sym, ◌∙◌, true, false, List, [], ◌∷◌, ◌++◌, append-nil,
  append_assoc, ltb, leb, ◌==◌, if◌then◌else◌, length, length-append, length-replicate, length-drop,
  replicate, drop, splice, length-splice, take-append, drop-append, arith, Bool-cases, inl, inr,
}
use zephyr_siot.Base.Int.{ℤ, pos}
use zephyr_siot.CString.{Bytes, cstr}
use zephyr_siot.Point.{Point, is_empty}
use zephyr_siot.Point.Dump.{
  Printf, Out, put, minus, point_dump, bullet, plus, less, dump_loop, points_dump, key_text,
  data_text,
}
use zephyr_siot.Point.Dump.Laws.{put_fits, dumped, point_dump_fits}
use zephyr_siot.Point.Dump.Overrun.{length-data_text, length-key_text}

-- A write behind a text.
splice_behind :
    (t s x : Bytes) (n : ℕ) → n ≡ length t → splice n s (t ++ x) ≡ t ++ s ++ drop (length s) x
splice_behind t s x n h = rw h (rw (take-append t x, drop-append t x (length s)) refl)

module _ (pf : Printf) where
  -- The texts of the points that are not empty, each on a line.
  unfoldable pub dumps : List Point → Bytes
  dumps [] = []
  dumps (p ∷ pts) = if is_empty p then dumps pts else bullet ++ dumped pf p ++ dumps pts

  -- The text `t` stands in the buffer, with its terminator.
  abbrev Holds : Out → Bytes → Out → Type 0
  Holds o t o' = (rest : Bytes) × (o' ≡ record o { buf = t ++ 0 ∷ rest })

  -- One line more.
  line_fits :
      (p : Point) (o : Out) (t rest : Bytes)
      → o.buf ≡ t ++ 0 ∷ rest
      → length (dumped pf p) + length t + 8 ≤ length o.buf
      → let r = length o.buf - 1 - length t in
        let o1 = put o (length t) (bullet ++ replicate (r - 5) 0) in
        (o' : Out) × Holds o (t ++ bullet ++ dumped pf p) o'
        × (length o'.buf ≡ length o.buf)
        × (point_dump pf p o1 (length t + 5) (r - 5) ≡ (o', pos (length (dumped pf p))))
  line_fits p o t rest e h =
      let r : ℕ = length o.buf - 1 - length t in
      let z : Bytes = replicate (r - 5) 0 in
      let s : Bytes = bullet ++ z in
      let y : Bytes = drop (length s) (0 ∷ rest) in
      let d : Bytes = dumped pf p in
      let tb : Bytes = t ++ bullet in
      let zeros : length z ≡ r - 5 = length-replicate (r - 5) 0 in
      let spliced : splice (length t) s o.buf ≡ tb ++ (z ++ y) =
        ap (splice (length t) s) e
        ∙ splice_behind t s (0 ∷ rest) (length t) refl
        ∙ ap (λ b. b ++ y) (sym (append_assoc t bullet z))
        ∙ append_assoc tb z y in
      let o1 = record o { buf = tb ++ (z ++ y) } in
      let at1 : put o (length t) s ≡ o1 =
        put_fits o (length t) s (omega (arith, zeros)) ∙ ap (λ b. record o { buf = b }) spliced in
      let size : length (tb ++ (z ++ y)) ≡ length o.buf =
        ap length (sym spliced) ∙ length-splice (length t) s o.buf (omega (arith, zeros)) in
      let tail = drop (length (d ++ 0 ∷ [])) (z ++ y) in
      let ended : splice (length t + 5) (d ++ 0 ∷ []) (tb ++ (z ++ y)) ≡ tb ++ d ++ 0 ∷ tail =
        splice_behind tb (d ++ 0 ∷ []) (z ++ y) (length t + 5) (sym (length-append t bullet))
        ∙ ap (λ b. b ++ tail) (sym (append_assoc tb d (0 ∷ [])))
        ∙ append_assoc (tb ++ d) (0 ∷ []) tail in
      let whole =
        point_dump_fits pf p o1 (length t + 5) (r - 5) (omega arith) (omega (arith, size)) in
      (
        record o { buf = tb ++ d ++ 0 ∷ tail },
        (tail, refl),
        ap length (sym ended)
            ∙ length-splice (length t + 5) (d ++ 0 ∷ []) (tb ++ (z ++ y))
                (omega (arith, size, length-append d (0 ∷ [])))
            ∙ size,
        ap (λ x. point_dump pf p x (length t + 5) (r - 5)) at1
            ∙ whole
            ∙ ap (λ b. pair (record o { buf = b }) (pos (length d))) ended,
      )
    where
      pair : Out → ℤ → Out × ℤ
      pair x y = (x, y)

  dump_loop-shown :
      (p : Point) (pts : List Point) (o o' : Out) (i r n : ℕ)
      → is_empty p ≡ false
      → 6 ≤ r
      → point_dump pf p (put o i (bullet ++ replicate (r - 5) 0)) (i + 5) (r - 5) ≡ (o', pos n)
      → dump_loop pf (p ∷ pts) o i (pos r) ≡ dump_loop pf pts o' (i + 5 + n) (minus (pos (r - 5)) n)
  unfolding dump_loop
  dump_loop-shown p pts o o' i r n e h k =
      let l : ltb r 6 ≡ false = ground arith in
      rw (e, l) (ap (λ x. dump_loop pf pts x.0 (plus (i + 5) x.1) (less (pos (r - 5)) x.1)) k)

  dump_loop-empty :
      (p : Point) (pts : List Point) (o : Out) (i r : ℕ)
      → is_empty p ≡ true
      → dump_loop pf (p ∷ pts) o i (pos r) ≡ dump_loop pf pts o i (pos r)
  unfolding dump_loop
  dump_loop-empty p pts o i r e = rw e refl

  dumps-empty : (p : Point) (pts : List Point) → is_empty p ≡ true → dumps (p ∷ pts) ≡ dumps pts
  unfolding dumps
  dumps-empty p pts e = rw e refl

  dumps-shown :
      (p : Point) (pts : List Point)
      → is_empty p ≡ false
      → dumps (p ∷ pts) ≡ bullet ++ dumped pf p ++ dumps pts
  unfolding dumps
  dumps-shown p pts e = rw e refl

  length-dumped : (p : Point) → 7 ≤ length (dumped pf p)
  length-dumped p = omega (
    arith,
    length-append (cstr p.type ++ key_text (cstr p.key)) (data_text pf p),
    length-append (cstr p.type) (key_text (cstr p.key)),
    length-data_text pf p,
    length-key_text pf (cstr p.key),
  )

  -- What the loop adds to the text in the buffer.
  abbrev Added : List Point → Out → Bytes → Type 0
  Added pts o t =
      (o' : Out) × Holds o (t ++ dumps pts) o'
      × (dump_loop pf pts o (length t) (pos (length o.buf - 1 - length t))
          ≡ (o', length (t ++ dumps pts)))

  Added-shown :
      (p : Point) (pts : List Point) (o o' : Out) (t : Bytes)
      → is_empty p ≡ false
      → length (dumped pf p) + length t + 8 ≤ length o.buf
      → Holds o (t ++ bullet ++ dumped pf p) o'
      → length o'.buf ≡ length o.buf
      → let r = length o.buf - 1 - length t in
        point_dump pf p (put o (length t) (bullet ++ replicate (r - 5) 0)) (length t + 5) (r - 5)
          ≡ (o', pos (length (dumped pf p)))
        → Added pts o' (t ++ bullet ++ dumped pf p)
        → Added (p ∷ pts) o t
  Added-shown p pts o o' t b h (rest, q) size k (o'', (rest', q'), l) =
      let r = length o.buf - 1 - length t in
      let d = dumped pf p in
      let tb = t ++ bullet in
      let seven = length-dumped p in
      let whole : tb ++ d ++ dumps pts ≡ t ++ dumps (p ∷ pts) =
        append_assoc tb d (dumps pts)
        ∙ append_assoc t bullet (d ++ dumps pts)
        ∙ ap (λ s. t ++ s) (sym (append_assoc bullet d (dumps pts)) ∙ sym (dumps-shown p pts b)) in
      let len : length (tb ++ d) ≡ length t + 5 + length d =
        omega (arith, length-append tb d, length-append t bullet) in
      let m : leb (length d) (r - 5) ≡ true = ground (arith, h) in
      let left : minus (pos (r - 5)) (length d) ≡ pos (length o'.buf - 1 - length (tb ++ d)) =
        rw m (ap pos (omega (arith, len, size))) in
      let with_buf : Out → Out = λ x. record x { buf = tb ++ d ++ dumps pts ++ 0 ∷ rest' } in
      (
        o'',
        (rest', q' ∙ ap with_buf q ∙ ap (λ s. record o { buf = s ++ 0 ∷ rest' }) whole),
        dump_loop-shown p pts o o' (length t) r (length d) b (omega (arith, h)) k
            ∙ ap (λ i. dump_loop pf pts o' i (minus (pos (r - 5)) (length d))) (sym len)
            ∙ ap (dump_loop pf pts o' (length (tb ++ d))) left
            ∙ l
            ∙ ap (λ s. pair o'' (length s)) whole,
      )
    where
      pair : Out → ℕ → Out × ℕ
      pair x y = (x, y)

  dump_loop_fits :
      (pts : List Point) (o : Out) (t rest : Bytes)
      → o.buf ≡ t ++ 0 ∷ rest
      → length (dumps pts) + length t + 3 ≤ length o.buf
      → Added pts o t
  dump_loop_fits [] o t rest e h =
      unfold dumps in
      unfold dump_loop in
      (o, (rest, rw (append-nil t) (ap (λ b. record o { buf = b }) e)), rw (append-nil t) refl)
  dump_loop_fits (p ∷ pts) o t rest e h = elim (Bool-cases (is_empty p)) [
    | inl b ↦
        let r = length o.buf - 1 - length t in
        rw (dumps-empty p pts b, dump_loop-empty p pts o (length t) r b)
          (dump_loop_fits pts o t rest e (rw (dumps-empty p pts b) at h))
    | inr b ↦
        let d = dumped pf p in
        let total : length (dumps (p ∷ pts)) ≡ 5 + length d + length (dumps pts) =
          ap length (dumps-shown p pts b)
          ∙ omega (arith, length-append (bullet ++ d) (dumps pts)) in
        let fits : length d + length t + 8 ≤ length o.buf = omega (arith, total, h) in
        let (o', (rest', q), size, k) = line_fits p o t rest e fits in
        let t' : length (t ++ bullet ++ d) ≡ length t + 5 + length d =
          omega (arith, length-append (t ++ bullet) d, length-append t bullet) in
        Added-shown p pts o o' t b fits (rest', q) size k
          (dump_loop_fits pts o' (t ++ bullet ++ d) rest' (ap (λ x. x.buf) q)
            (omega (arith, total, h, t', size)))
  ]

  -- Points whose texts fit in the buffer, with two bytes more, are written whole, and the length of the
  -- text is returned. Nothing is written outside of the buffer.
  pub points_dump_fits :
      (pts : List Point) (o : Out)
      → length (dumps pts) + 3 ≤ length o.buf
      → (rest : Bytes) × (points_dump pf pts o (length o.buf)
          ≡ (record o { buf = dumps pts ++ 0 ∷ rest }, pos (length (dumps pts))))
  unfolding points_dump
  points_dump_fits pts o h =
      let o0 = record o { buf = 0 ∷ drop 1 o.buf } in
      let size : length o0.buf ≡ length o.buf = omega (arith, length-drop 1 o.buf) in
      let n : (length o.buf == 0) ≡ false = ground (arith, h) in
      let (o', (rest, q), l) =
        dump_loop_fits pts o0 [] (drop 1 o.buf) refl (omega (arith, size, h)) in
      let run =
        ap (λ x. dump_loop pf pts x 0 (pos (length o.buf - 1)))
          (put_fits o 0 (0 ∷ []) (omega arith))
        ∙ ap (λ i. dump_loop pf pts o0 0 (pos i)) (omega (arith, size))
        ∙ l in
      (
        rest,
        rw n (ap (λ x. pair x.0 (pos x.1)) run ∙ ap (λ x. pair x (pos (length (dumps pts)))) q),
      )
    where
      pair : Out → ℤ → Out × ℤ
      pair x y = (x, y)
