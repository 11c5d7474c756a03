-- ===== src/SiotString/Reverse.antt =====
-- The in-place `reverse` of lib/siot-string.c reverses the part of the buffer that it is given.
use mathlib.Core.List
use zephyr_siot.Base.{
  ℕ, zero, suc, ◌+◌, ◌-◌, ◌≤◌, ◌<◌, ◌≡◌, refl, ap, ◌∙◌, sym, [], ◌∷◌, ◌++◌, arith, length, set,
  get_or, length-set, length-append, ltb, if◌then◌else◌, leb, ◌&&◌, true, ◌==◌, Bool-cases, inl,
  inr,
}
use zephyr_siot.CString.{Bytes}
use zephyr_siot.SiotString.{reverse_loop, reverse}

get_or-set :
    (xs : Bytes) (i j v : ℕ)
    → i < length xs
    → get_or (set xs i v) j 0 ≡ (if i == j then v else get_or xs j 0)
get_or-set [] i j v h = absurd (omega arith)
get_or-set (x ∷ xs) zero zero v h = refl
get_or-set (x ∷ xs) zero (suc j) v h = ground arith
get_or-set (x ∷ xs) (suc i) zero v h = ground arith
get_or-set (x ∷ xs) (suc i) (suc j) v h = ground (arith, get_or-set xs i j v)

-- The index that position `i` of the reversed stretch from `s` to `e` is read from.
abbrev mirror : ℕ → ℕ → ℕ → ℕ
mirror s e i = if leb s i && leb i e then s + e - i else i

length-reverse_loop :
    (fuel : ℕ) (str : Bytes) (s e : ℕ) → length (reverse_loop fuel str s e) ≡ length str
unfolding reverse_loop
length-reverse_loop zero str s e = refl
length-reverse_loop (suc fuel) str s e =
    let swapped = set (set str s (get_or str e 0)) e (get_or str s 0) in
    ground (
      arith,
      length-reverse_loop fuel swapped (s + 1) (e - 1),
      length-set (set str s (get_or str e 0)) e (get_or str s 0),
      length-set str s (get_or str e 0),
    )

-- The index that position `i` is read from after the bytes at `s` and `e` change places.
abbrev swap_index : ℕ → ℕ → ℕ → ℕ
swap_index s e i = if i == e then s else if i == s then e else i

get_or-swapped :
    (str : Bytes) (s e i : ℕ)
    → s < e
    → e < length str
    → get_or (set (set str s (get_or str e 0)) e (get_or str s 0)) i 0
      ≡ get_or str (swap_index s e i) 0
get_or-swapped str s e i h k = ground (
  arith,
  length-set str s (get_or str e 0),
  get_or-set (set str s (get_or str e 0)) e i (get_or str s 0),
  get_or-set str s i (get_or str e 0),
)

swap_index-mirror : (s e i : ℕ) → s < e → swap_index s e (mirror (s + 1) (e - 1) i) ≡ mirror s e i
swap_index-mirror s e i h = ground arith

get_or-reverse_loop :
    (fuel : ℕ) (str : Bytes) (s e i : ℕ)
    → e ≤ s + fuel
    → e < length str
    → get_or (reverse_loop fuel str s e) i 0 ≡ get_or str (mirror s e i) 0
unfolding reverse_loop
get_or-reverse_loop zero str s e i h k =
    let e' : i ≡ mirror s e i = ground arith in ap (λ j. get_or str j 0) e'
get_or-reverse_loop (suc fuel) str s e i h k =
    let swapped = set (set str s (get_or str e 0)) e (get_or str s 0) in
    elim (Bool-cases (ltb s e)) [
      | inl more ↦ rw (more) (
          get_or-reverse_loop fuel swapped (s + 1) (e - 1) i (ground arith)
            (ground (arith, length-swapped))
          ∙ (get_or-swapped str s e (mirror (s + 1) (e - 1) i) (ground arith) k
              ∙ ap (λ j. get_or str j 0) (swap_index-mirror s e i (ground arith))))
      | inr done ↦ let e' : i ≡ mirror s e i = ground arith in rw done (ap (λ j. get_or str j 0) e')
    ]
  where
    length-swapped : length (set (set str s (get_or str e 0)) e (get_or str s 0)) ≡ length str
    length-swapped = length-set _ e _ ∙ length-set str s _

get_or-reverse :
    (str : Bytes) (n i : ℕ)
    → n ≤ length str
    → get_or (reverse str n) i 0 ≡ (if ltb i n then get_or str (n - 1 - i) 0 else get_or str i 0)
unfolding reverse
get_or-reverse str zero i h = unfold reverse_loop in ground arith
get_or-reverse str (suc n) i h =
    get_or-reverse_loop (suc n) str 0 (suc n - 1) i (omega arith) (omega arith) ∙ pick
  where
    pick :
        get_or str (mirror 0 (suc n - 1) i) 0
        ≡ (if ltb i (suc n) then get_or str (suc n - 1 - i) 0 else get_or str i 0)
    pick = elim (Bool-cases (ltb i (suc n))) [
      | inl e ↦ let e' : mirror 0 (suc n - 1) i ≡ suc n - 1 - i = ground arith in rw (e, e')
      | inr e ↦ let e' : mirror 0 (suc n - 1) i ≡ i = ground arith in rw (e, e')
    ]

length-reverse : (str : Bytes) (n : ℕ) → length (reverse str n) ≡ length str
unfolding reverse
length-reverse str n = length-reverse_loop n str 0 (n - 1)

-- Two buffers of one length with the same bytes are equal.
ext :
    (xs ys : Bytes)
    → length xs ≡ length ys
    → ((i : ℕ) → i < length xs → get_or xs i 0 ≡ get_or ys i 0)
    → xs ≡ ys
ext [] [] e h = refl
ext [] (y ∷ ys) e h = absurd (omega arith)
ext (x ∷ xs) [] e h = absurd (omega arith)
ext (x ∷ xs) (y ∷ ys) e h =
    let tail : xs ≡ ys = ext xs ys (omega arith) (λ i lt. h (suc i) (omega arith)) in
    let head : x ≡ y = h 0 (omega arith) in rw (head, tail)

get_or-append :
    (xs ys : Bytes) (i : ℕ)
    → get_or (xs ++ ys) i 0
      ≡ (if ltb i (length xs) then get_or xs i 0 else get_or ys (i - length xs) 0)
get_or-append [] ys i = let e : i - 0 ≡ i = omega arith in rw e (ground arith)
get_or-append (x ∷ xs) ys zero = ground arith
get_or-append (x ∷ xs) ys (suc i) =
    let e : suc i - suc (length xs) ≡ i - length xs = omega arith in
    rw (e, get_or-append xs ys i) (ground arith)

pub length-list_reverse : (xs : Bytes) → length (List.reverse xs) ≡ length xs
length-list_reverse [] = refl
length-list_reverse (x ∷ xs) =
    rw List.reverse-cons
      (omega (arith, length-append (List.reverse xs) (x ∷ []), length-list_reverse xs))

get_or-list_reverse :
    (xs : Bytes) (i : ℕ)
    → i < length xs
    → get_or (List.reverse xs) i 0 ≡ get_or xs (length xs - 1 - i) 0
get_or-list_reverse [] i h = absurd (omega arith)
get_or-list_reverse (x ∷ xs) i h =
    rw (List.reverse-cons, get_or-append (List.reverse xs) (x ∷ []) i, length-list_reverse xs)
      (elim (Bool-cases (ltb i (length xs))) [
        | inl e ↦
            let e' : suc (length xs) - 1 - i ≡ suc (length xs - 1 - i) = ground arith in
            rw (e, e') (get_or-list_reverse xs i (ground arith))
        | inr e ↦
            let a : i - length xs ≡ 0 = ground arith in
            let b : suc (length xs) - 1 - i ≡ 0 = ground arith in rw (e, a, b)
      ])

-- `reverse` on the first `length xs` bytes of a buffer reverses them in place and leaves the rest
-- of the buffer alone.
pub reverse_lem : (xs ys : Bytes) → reverse (xs ++ ys) (length xs) ≡ List.reverse xs ++ ys
reverse_lem xs ys = ext _ _ len point
  where
    len : length (reverse (xs ++ ys) (length xs)) ≡ length (List.reverse xs ++ ys)
    len = omega (
      arith,
      length-reverse (xs ++ ys) (length xs),
      length-append xs ys,
      length-append (List.reverse xs) ys,
      length-list_reverse xs,
    )

    point :
        (i : ℕ)
        → i < length (reverse (xs ++ ys) (length xs))
        → get_or (reverse (xs ++ ys) (length xs)) i 0 ≡ get_or (List.reverse xs ++ ys) i 0
    point i h =
        rw
          (
            get_or-reverse (xs ++ ys) (length xs) i (omega (arith, length-append xs ys)),
            get_or-append xs ys (length xs - 1 - i),
            get_or-append xs ys i,
            get_or-append (List.reverse xs) ys i,
            length-list_reverse xs,
          )
          (elim (Bool-cases (ltb i (length xs))) [
            | inl e ↦
                let e' : ltb (length xs - 1 - i) (length xs) ≡ true = ground arith in
                rw (e, e') (sym (get_or-list_reverse xs i (ground arith)))
            | inr e ↦ rw (e)
          ])

reverse_test : reverse (1 ∷ 2 ∷ 3 ∷ 4 ∷ 9 ∷ []) 4 ≡ 4 ∷ 3 ∷ 2 ∷ 1 ∷ 9 ∷ []
unfolding reverse
reverse_test = refl
