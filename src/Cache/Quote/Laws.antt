-- ===== src/Cache/Quote/Laws.antt =====
-- What `quote_field` writes, that it fits, and that nothing is lost.
use zephyr_siot.Base.{
  ℕ, ◌+◌, ◌*◌, ◌≤◌, ◌<◌, ◌≡◌, refl, ap, ◌∙◌, sym, true, false, Option, none, some, [], ◌∷◌, ◌++◌,
  ltb, leb, if◌then◌else◌, length, arith, append-nil, append_assoc, length-append, Bool-cases, inl,
  inr,
}
use zephyr_siot.CString.{Bytes, first, cstr}
use zephyr_siot.Cache.Quote.{
  quote, backslash, any_special, needs_quote, copy_bare, escape_of, copy_quoted, close_quote,
  quote_field,
}

-- A character between the quotes, and a value as a word.
unfoldable pub quoted_char : ℕ → Bytes
quoted_char c = if ltb 0 (escape_of c) then backslash ∷ escape_of c ∷ [] else c ∷ []

unfoldable pub quoted : Bytes → Bytes
quoted [] = []
quoted (c ∷ v) = quoted_char c ++ quoted v

unfoldable pub word : Bytes → Bytes
word v = if needs_quote v then quote ∷ quoted v ++ quote ∷ [] else v

any_special-cstr : (src : Bytes) → any_special src ≡ any_special (cstr src)
unfolding any_special cstr
any_special-cstr [] = refl
any_special-cstr (c ∷ src) = ground (arith, any_special-cstr src)

needs_quote-cstr : (src : Bytes) → needs_quote src ≡ needs_quote (cstr src)
unfolding needs_quote cstr any_special first
needs_quote-cstr [] = refl
needs_quote-cstr (c ∷ src) = ground (arith, any_special-cstr src)

module _ (dst_len : ℕ) where
  -- A copy that succeeds has written the whole value.
  copy_bare_ok :
      (src out q : Bytes)
      → copy_bare src dst_len out ≡ some q
      → length out < dst_len
      → (q ≡ out ++ cstr src) × (length q < dst_len)
  unfolding copy_bare cstr
  copy_bare_ok [] out q h k = ground (arith, append-nil out)
  copy_bare_ok (c ∷ src) out q h k = ground (
    arith,
    append-nil out,
    append_assoc out (c ∷ []) (cstr src),
    length-append out (c ∷ []),
    copy_bare_ok src (out ++ c ∷ []) q,
  )

  copy_bare_fits :
      (src out : Bytes)
      → length out + length (cstr src) < dst_len
      → copy_bare src dst_len out ≡ some (out ++ cstr src)
  unfolding copy_bare cstr
  copy_bare_fits [] out h = ap some (sym (append-nil out))
  copy_bare_fits (c ∷ src) out h = ground (
    arith,
    append-nil out,
    append_assoc out (c ∷ []) (cstr src),
    length-append out (c ∷ []),
    copy_bare_fits src (out ++ c ∷ []),
  )

  copy_quoted_ok :
      (src out q : Bytes) → copy_quoted src dst_len out ≡ some q → q ≡ out ++ quoted (cstr src)
  unfolding copy_quoted cstr quoted quoted_char
  copy_quoted_ok [] out q h = ground (arith, append-nil out)
  copy_quoted_ok (c ∷ src) out q h = ground (
    arith,
    append-nil out,
    append_assoc out (c ∷ []) (quoted (cstr src)),
    append_assoc out (backslash ∷ escape_of c ∷ []) (quoted (cstr src)),
    copy_quoted_ok src (out ++ c ∷ []) q,
    copy_quoted_ok src (out ++ backslash ∷ escape_of c ∷ []) q,
  )

  copy_quoted_fits :
      (src out : Bytes)
      → length out + 2 * length (cstr src) < dst_len
      → copy_quoted src dst_len out ≡ some (out ++ quoted (cstr src))
  unfolding copy_quoted cstr quoted quoted_char
  copy_quoted_fits [] out h = ap some (sym (append-nil out))
  copy_quoted_fits (c ∷ src) out h = ground (
    arith,
    append-nil out,
    append_assoc out (c ∷ []) (quoted (cstr src)),
    append_assoc out (backslash ∷ escape_of c ∷ []) (quoted (cstr src)),
    length-append out (c ∷ []),
    length-append out (backslash ∷ escape_of c ∷ []),
    copy_quoted_fits src (out ++ c ∷ []),
    copy_quoted_fits src (out ++ backslash ∷ escape_of c ∷ []),
  )

none-ne-some : (A : Type 0) (a : A) → ◌≡◌ {A = Option A} none (some a) → ⊥
none-ne-some A a e = cc

first-cstr : (src : Bytes) → needs_quote src ≡ false → needs_quote (cstr src) ≡ false
first-cstr src h = sym (needs_quote-cstr src) ∙ h

length-quoted : (v : Bytes) → length (quoted v) ≤ 2 * length v
unfolding quoted quoted_char
length-quoted [] = omega arith
length-quoted (c ∷ v) = ground (
  arith,
  length-append (c ∷ []) (quoted v),
  length-append (backslash ∷ escape_of c ∷ []) (quoted v),
  length-quoted v,
)

closed_ok :
    (dst_len : ℕ) (o : Option Bytes) (q body : Bytes)
    → ((r : Bytes) → o ≡ some r → r ≡ body)
    → 0 < dst_len
    → close_quote dst_len o ≡ some q
    → (q ≡ body ++ quote ∷ []) × (length q < dst_len)
closed_ok dst_len none q body same h e = cc
closed_ok dst_len (some r) q body same h e =
    ground (arith, same r refl, length-append r (quote ∷ []))

closed_fits :
    (dst_len : ℕ) (o : Option Bytes) (body : Bytes)
    → o ≡ some body
    → length body + 2 < dst_len
    → close_quote dst_len o ≡ some (body ++ quote ∷ [])
closed_fits dst_len o body e h = rw e (ground arith)

-- A result of `quote_field` is the whole value as a word, and leaves room for the terminator.
pub quote_field_lem :
    (src : Bytes) (dst_len : ℕ) (q : Bytes)
    → 0 < dst_len
    → quote_field src dst_len ≡ some q
    → (q ≡ word (cstr src)) × (length q < dst_len)
unfolding quote_field word
quote_field_lem src dst_len q h e = elim (Bool-cases (needs_quote src)) [
  | inl n ↦
      let n' : needs_quote (cstr src) ≡ true = sym (needs_quote-cstr src) ∙ n in
      rw n' (quoted_ok (rw n at e))
  | inr n ↦ rw (first-cstr src n) (copy_bare_ok dst_len src [] q (rw n at e) h)
]
  where
    quoted_ok :
        (if leb dst_len 1 then none else close_quote dst_len (copy_quoted src dst_len (quote ∷ [])))
          ≡ some q
        → (q ≡ quote ∷ quoted (cstr src) ++ quote ∷ []) × (length q < dst_len)
    quoted_ok e' = elim (Bool-cases (leb dst_len 1)) [
      | inl small ↦ absurd (none-ne-some _ q (rw small at e'))
      | inr large ↦
          closed_ok dst_len _ q (quote ∷ quoted (cstr src))
            (λ r. copy_quoted_ok dst_len src (quote ∷ []) r) h (rw large at e')
    ]

-- The call does not fail if the buffer has room for twice the value and four bytes more.
pub quote_field-fits :
    (src : Bytes) (dst_len : ℕ)
    → 2 * length (cstr src) + 4 ≤ dst_len
    → quote_field src dst_len ≡ some (word (cstr src))
unfolding quote_field word
quote_field-fits src dst_len room = elim (Bool-cases (needs_quote src)) [
  | inl n ↦
      let n' : needs_quote (cstr src) ≡ true = sym (needs_quote-cstr src) ∙ n in
      let large : leb dst_len 1 ≡ false = ground arith in
      rw (n, n', large)
        (closed_fits dst_len _ (quote ∷ quoted (cstr src))
          (copy_quoted_fits dst_len src (quote ∷ []) (omega arith))
          (omega (arith, length-quoted (cstr src))))
  | inr n ↦ rw (n, first-cstr src n) (copy_bare_fits dst_len src [] (omega arith))
]

pub length-word : (v : Bytes) → length (word v) ≤ 2 * length v + 2
unfolding word
length-word v = elim (Bool-cases (needs_quote v)) [
  | inl n ↦ rw n (omega (arith, length-quoted v, length-append (quoted v) (quote ∷ [])))
  | inr n ↦ rw n (omega arith)
]
