-- ===== src/Base/Splice.antt =====
-- Writes into a buffer, and how one overlaps another.
use Prim.Native.Nat.{ℕ, zero, suc, ◌+◌, ◌-◌, ◌≤◌}
use mathlib.Core.Path.{◌≡◌, refl, sym, ap, ◌∙◌}
use mathlib.Core.List.{List, [], ◌∷◌, ◌++◌, append_assoc}
use native.Mathlib.Omega.{arith}
use zephyr_siot.Base.Lists.{length, take, drop, length-append, length-take, length-drop}

suc_add : (m k : ℕ) → suc m + k ≡ suc (m + k)
suc_add m k = omega arith

module _ {ℓ} {A : Type ℓ} where
  pub take-append : (xs ys : List A) → take (length xs) (xs ++ ys) ≡ xs
  take-append [] ys = refl
  take-append (x ∷ xs) ys = rw (take-append xs ys)

  pub drop-append : (xs ys : List A) (k : ℕ) → drop (length xs + k) (xs ++ ys) ≡ drop k ys
  drop-append [] ys k = ground arith
  drop-append (x ∷ xs) ys k = rw (suc_add (length xs) k) (drop-append xs ys k)

  drop_nil : (n : ℕ) → drop {A = A} n [] ≡ []
  drop_nil zero = refl
  drop_nil (suc n) = refl

  pub drop-drop : (m k : ℕ) (xs : List A) → drop k (drop m xs) ≡ drop (m + k) xs
  drop-drop zero k xs = ground arith
  drop-drop (suc m) k [] = rw (drop_nil k, drop_nil (suc m + k)) refl
  drop-drop (suc m) k (x ∷ xs) = rw (suc_add m k) (drop-drop m k xs)

  -- A buffer after `c` was written at `n`.
  abbrev pub splice : ℕ → List A → List A → List A
  splice n c buf = take n buf ++ c ++ drop (n + length c) buf

  -- Two writes, one behind the other, are one write.
  pub splice-splice :
      (n : ℕ) (c d buf : List A)
      → n ≤ length buf
      → splice (n + length c) d (splice n c buf) ≡ splice n (c ++ d) buf
  splice-splice n c d buf h =
      let front = take n buf ++ c in
      let len : length front ≡ n + length c =
        omega (arith, length-append (take n buf) c, length-take n buf) in
      let back = drop (n + length c) buf in
      let tail : drop (length front + length d) (front ++ back) ≡ drop (n + length (c ++ d)) buf =
        drop-append front back (length d)
        ∙ drop-drop (n + length c) (length d) buf
        ∙ ap (λ k. drop k buf) (omega (arith, length-append c d)) in
      ap (λ m. splice m d (front ++ back)) (sym len)
      ∙ rw (take-append front back, tail, append_assoc (take n buf) c d) refl

  pub length-splice :
      (n : ℕ) (c buf : List A) → n + length c ≤ length buf → length (splice n c buf) ≡ length buf
  length-splice n c buf h =
      let back = drop (n + length c) buf in
      omega (
        arith,
        length-append (take n buf ++ c) back,
        length-append (take n buf) c,
        length-take n buf,
        length-drop (n + length c) buf,
      )

  -- A write that covers another at the same place.
  splice_same :
      (m : ℕ) (u s buf : List A)
      → m ≤ length buf
      → length u ≤ length s
      → splice m s (splice m u buf) ≡ splice m s buf
  splice_same m u s buf h k =
      let back = drop (m + length u) buf in
      let len : length (take m buf) ≡ m = omega (arith, length-take m buf) in
      let front : take m (take m buf ++ u ++ back) ≡ take m buf =
        ap (λ i. take i (take m buf ++ u ++ back)) (sym len)
        ∙ ap (take (length (take m buf))) (append_assoc (take m buf) u back)
        ∙ take-append (take m buf) (u ++ back) in
      let more = length s - length u in
      let index : m + length s ≡ length (take m buf ++ u) + more =
        omega (arith, length-append (take m buf) u, len) in
      let tail : drop (m + length s) (take m buf ++ u ++ back) ≡ drop (m + length s) buf =
        ap (λ i. drop i (take m buf ++ u ++ back)) index
        ∙ drop-append (take m buf ++ u) back more
        ∙ drop-drop (m + length u) more buf
        ∙ ap (λ i. drop i buf) (omega arith) in
      rw (front, tail) refl

  -- A write that covers the end of the one before.
  pub splice-covered :
      (n : ℕ) (t u s buf : List A)
      → n + length t ≤ length buf
      → length u ≤ length s
      → splice (n + length t) s (splice n (t ++ u) buf) ≡ splice n (t ++ s) buf
  splice-covered n t u s buf h k =
      let m = n + length t in
      ap (splice m s) (sym (splice-splice n t u buf (omega arith)))
      ∙ splice_same m u s (splice n t buf) (omega (arith, length-splice n t buf h)) k
      ∙ splice-splice n t s buf (omega arith)
