-- ===== src/Json/Unescape.antt =====
-- What `json_unescape_string` reads, and which values survive the way through JSON.
pub mod RoundTrip
use zephyr_siot.Base.{
  ℕ, zero, suc, ◌+◌, ◌*◌, ◌-◌, ◌≤◌, ◌<◌, ◌≡◌, ◌≢◌, refl, ap, ◌∙◌, sym, Bool, true, false, ◌||◌,
  List, [], ◌∷◌, ◌++◌, leb, ◌==◌, if◌then◌else◌, length, take, arith, append-nil, append_assoc,
  length-append, length-take, min, Bool-cases, inl, inr, ◌⊎◌,
}
use zephyr_siot.CString.{Bytes, cstr}
use zephyr_siot.Json.{quote, backslash, decode_escape, unescape_loop, json_unescape_string}
use zephyr_siot.Json.Escape.{value}

-- The character that a backslash stands for with the one behind it; another stands for itself.
unfoldable pub decoded : ℕ → ℕ → ℕ
decoded c next = if c == backslash then decode_escape c next else c

-- What the decoder makes of a value of any length.
unfoldable pub unescaped : Bytes → Bytes
unescaped [] = []
unescaped (c ∷ []) = c ∷ []
unescaped (c ∷ next ∷ s) =
    let step = c ∷ unescaped (next ∷ s) in
    let skip = decoded c next ∷ unescaped s in if decoded c next == c then step else skip

-- A terminator is never taken for an escape.
decoded-zero : (c : ℕ) → decoded c 0 ≡ c
unfolding decoded decode_escape
decoded-zero c = ground arith

pub take-cons : (m : ℕ) (x : ℕ) (s : Bytes) → m ≢ 0 → take m (x ∷ s) ≡ x ∷ take (m - 1) s
take-cons zero x s h = absurd (h refl)
take-cons (suc m) x s h = let e : suc m - 1 ≡ m = omega arith in rw e

-- One character more in the buffer.
write_one :
    (out s : Bytes) (dst_len x : ℕ)
    → length out + 1 < dst_len
    → (out ++ x ∷ []) ++ take (dst_len - 1 - length (out ++ x ∷ [])) s
      ≡ out ++ take (dst_len - 1 - length out) (x ∷ s)
write_one out s dst_len x h =
    let e : dst_len - 1 - length (out ++ x ∷ []) ≡ dst_len - 1 - length out - 1 =
      omega (arith, length-append out (x ∷ [])) in
    rw (append_assoc, e, take-cons (dst_len - 1 - length out) x s (omega arith))

full_buffer :
    (out s : Bytes) (dst_len : ℕ)
    → dst_len ≤ length out + 1
    → out ≡ out ++ take (dst_len - 1 - length out) s
full_buffer out s dst_len h =
    let e : dst_len - 1 - length out ≡ 0 = omega arith in rw e (sym (append-nil out))

take-nil : (n : ℕ) → take {A = ℕ} n [] ≡ []
take-nil zero = refl
take-nil (suc n) = refl

append-take_nil : (out : Bytes) (n : ℕ) → out ≡ out ++ take n []
append-take_nil out n = rw take-nil (sym (append-nil out))

-- The last character of the value.
last_char :
    (c dst_len : ℕ) (out : Bytes)
    → (if c == 0 then out else if leb dst_len (length out + 1) then out else out ++ c ∷ [])
      ≡ out ++ take (dst_len - 1 - length out) (unescaped (if c == 0 then [] else c ∷ []))
unfolding unescaped
last_char c dst_len out = elim (Bool-cases (c == 0)) [
  | inl e ↦ rw e (append-take_nil out _)
  | inr e ↦ elim (Bool-cases (leb dst_len (length out + 1))) [
    | inl e' ↦ rw (e, e') (full_buffer out _ dst_len (ground arith))
    | inr e' ↦
        rw (e, e')
          (append-take_nil (out ++ c ∷ []) (dst_len - 1 - length (out ++ c ∷ []))
            ∙ write_one out [] dst_len c (ground arith))
  ]
]

-- The round where a character is written.
written :
    (c next : ℕ) (v : Bytes) (dst_len : ℕ) (out : Bytes) {step skip : Bytes}
    → length out + 1 < dst_len
    → let out' = out ++ decoded c next ∷ [] in
      (step
        ≡ out' ++ take (dst_len - 1 - length out') (unescaped (if next == 0 then [] else next ∷ v)))
      → (skip ≡ out' ++ take (dst_len - 1 - length out') (unescaped v))
      → (if decoded c next == c then step else skip)
        ≡ out
          ++ take (dst_len - 1 - length out) (unescaped (c ∷ (if next == 0 then [] else next ∷ v)))
unfolding unescaped
written c next v dst_len out h a b = elim (Bool-cases (next == 0)) [
  | inl n ↦
      let n' : next ≡ 0 = ground arith in
      let d : decoded c next ≡ c = rw n' (decoded-zero c) in
      let t : (decoded c next == c) ≡ true = ground arith in
      rw (t, n) ((rw (n, d) at a) ∙ write_one out [] dst_len c h)
  | inr n ↦ elim (Bool-cases (decoded c next == c)) [
    | inl t ↦
        let d : decoded c next ≡ c = ground arith in
        rw (t, n, t) ((rw (n, d) at a) ∙ write_one out (unescaped (next ∷ v)) dst_len c h)
    | inr t ↦ rw (t, n, t) (b ∙ write_one out (unescaped v) dst_len (decoded c next) h)
  ]
]

-- One round of the loop, given what its two ways on do.
two_chars :
    (c next : ℕ) (v : Bytes) (dst_len : ℕ) (out : Bytes) {step skip : Bytes}
    → let out' = out ++ decoded c next ∷ [] in
      (step
        ≡ out' ++ take (dst_len - 1 - length out') (unescaped (if next == 0 then [] else next ∷ v)))
      → (skip ≡ out' ++ take (dst_len - 1 - length out') (unescaped v))
      → (if c == 0
          then out
          else if leb dst_len (length out + 1)
          then out
          else if decoded c next == c
          then step
          else skip)
        ≡ out
          ++ take
              (dst_len - 1 - length out)
              (unescaped (if c == 0 then [] else c ∷ (if next == 0 then [] else next ∷ v)))
unfolding unescaped
two_chars c next v dst_len out a b = elim (Bool-cases (c == 0)) [
  | inl e ↦ rw e (append-take_nil out _)
  | inr e ↦ elim (Bool-cases (leb dst_len (length out + 1))) [
    | inl f ↦ rw (e, f) (full_buffer out _ dst_len (ground arith))
    | inr f ↦ rw (e, f) (written c next v dst_len out (ground arith) a b)
  ]
]

pub unescape_loop-unescaped :
    (src : Bytes) (left dst_len : ℕ) (out : Bytes)
    → unescape_loop src left dst_len out
      ≡ out ++ take (dst_len - 1 - length out) (unescaped (value src left))
unfolding unescape_loop cstr decoded
unescape_loop-unescaped [] zero dst_len out = unfold unescaped in append-take_nil out _
unescape_loop-unescaped [] (suc left) dst_len out = unfold unescaped in append-take_nil out _
unescape_loop-unescaped (c ∷ src) zero dst_len out = unfold unescaped in append-take_nil out _
unescape_loop-unescaped (c ∷ []) (suc zero) dst_len out = last_char c dst_len out
unescape_loop-unescaped (c ∷ []) (suc (suc left)) dst_len out = last_char c dst_len out
unescape_loop-unescaped (c ∷ next ∷ src) (suc zero) dst_len out = last_char c dst_len out
unescape_loop-unescaped (c ∷ next ∷ src) (suc (suc left)) dst_len out =
    let d = decoded c next in
    two_chars c next (value src left) dst_len out
      (unescape_loop-unescaped (next ∷ src) (suc left) dst_len (out ++ d ∷ []))
      (unescape_loop-unescaped src left dst_len (out ++ d ∷ []))

-- `json_unescape_string` writes what the value decodes to, cut to the buffer with its terminator.
pub json_unescape_string_lem :
    (src : Bytes) (src_len dst_len : ℕ)
    → 0 < dst_len
    → let out = json_unescape_string src src_len dst_len in
      (out ≡ take (dst_len - 1) (unescaped (value src src_len))) × (length out < dst_len)
json_unescape_string_lem src src_len dst_len h =
    (written, rw written (omega (arith, length-take (dst_len - 1) (unescaped (value src src_len)))))
  where
    written :
        json_unescape_string src src_len dst_len
        ≡ take (dst_len - 1) (unescaped (value src src_len))
    written =
        unfold json_unescape_string in
        let e : (dst_len == 0) ≡ false = ground arith in
        let z : dst_len - 1 - 0 ≡ dst_len - 1 = omega arith in
        rw (e, unescape_loop-unescaped src src_len dst_len [], z)
