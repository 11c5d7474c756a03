-- ===== src/Cache/Shell/Argv.antt =====
-- How Zephyr's shell splits a line into arguments, which is not in the repository: what it documents of words,
-- and the words that `quote_field` writes.
pub mod Spaced
use mathlib.Core.Path.{subst}
use zephyr_siot.Base.{
  ℕ, ◌+◌, ◌≤◌, ◌≡◌, ◌≢◌, refl, ap, ◌∙◌, true, List, [], ◌∷◌, ◌++◌, ◌==◌, map, length, length-append,
  if◌then◌else◌, arith, ◌⊎◌, inl, inr, Bool-cases,
}
use zephyr_siot.CString.{Bytes, first}
use zephyr_siot.SiotString.Numeric.{IsNumeric}
use zephyr_siot.Timeconv.{digit_at, fraction_digits}
use zephyr_siot.Timeconv.Printed.{printed}
use zephyr_siot.Cache.Quote.{quote, backslash, needs_quote, escape_of}
use zephyr_siot.Cache.Quote.Laws.{quoted_char, quoted, word, length-word}

-- Printable ASCII, but for the backslash and the wildcards.
abbrev pub AreClear : Bytes → Type 0
AreClear [] = Unit
AreClear (c ∷ s) = ((32 ≤ c) × (c ≤ 126) × (c ≢ b'\\') × (c ≢ b'*') × (c ≢ b'?')) × AreClear s

-- Besides, no space and no quote.
abbrev pub AreBare : Bytes → Type 0
AreBare [] = Unit
AreBare (c ∷ s) =
    ((33 ≤ c) × (c ≤ 126) × (c ≢ b'\\') × (c ≢ b'*') × (c ≢ b'?') × (c ≢ b'"') × (c ≢ b'\''))
    × AreBare s

-- A word of a line: bare, or between double quotes.
pub data Word : Type 0 where
  bare in_quotes : Bytes → Word

-- Between double quotes a double quote has a backslash in front.
unfoldable pub with_slashes : Bytes → Bytes
with_slashes [] = []
with_slashes (c ∷ s) =
    let later = with_slashes s in if c == quote then backslash ∷ quote ∷ later else c ∷ later

abbrev pub spelled : Word → Bytes
spelled (bare s) = s
spelled (in_quotes s) = quote ∷ with_slashes s ++ quote ∷ []

abbrev pub meant : Word → Bytes
meant (bare s) = s
meant (in_quotes s) = s

abbrev pub IsWord : Word → Type 0
IsWord (bare s) = (s ≢ []) × AreBare s
IsWord (in_quotes s) = AreClear s

abbrev pub AreWords : List Word → Type 0
AreWords [] = Unit
AreWords (w ∷ ws) = IsWord w × AreWords ws

-- Words with a space in front of each.
abbrev pub spaced : List Bytes → Bytes
spaced [] = []
spaced (w ∷ ws) = (b' ' ∷ w) ++ spaced ws

-- The verb `p`.
abbrev pub p_s : Bytes
p_s = b'p' ∷ []

-- What Zephyr documents of its shell: a line is split at the spaces between its words, a word in double quotes
-- may hold spaces and, behind backslashes, double quotes, and a bare word is an argument as it stands. The
-- line fits in the shell's buffer of 256 bytes, and has no more arguments than the command takes.
abbrev pub IsShell : (Bytes → List Bytes) → Type 0
IsShell argv =
    (ws : List Word)
    → AreWords ws
    → length ws ≤ 5
    → length (p_s ++ spaced (map spelled ws)) ≤ 255
    → argv (p_s ++ spaced (map spelled ws)) ≡ p_s ∷ map meant ws

-- A value whose word the shell reads back: `quote_field` leaves a value with a single quote bare if it has
-- nothing else to quote, but the shell takes a single quote for the start of a quoted part.
abbrev pub IsReadable : Bytes → Type 0
IsReadable v = AreClear v × ((needs_quote v ≡ true) ⊎ AreBare v)

abbrev pub word_of : Bytes → Word
word_of v = if needs_quote v then in_quotes v else bare v

quoted-with_slashes : (v : Bytes) → AreClear v → quoted v ≡ with_slashes v
unfolding quoted with_slashes quoted_char escape_of
quoted-with_slashes [] h = refl
quoted-with_slashes (c ∷ v) (hc, h) = ground (arith, hc, quoted-with_slashes v h)

-- The word that `quote_field` writes is a word of the shell, with the value as its meaning.
pub word-spelled : (v : Bytes) → IsReadable v → word v ≡ spelled (word_of v)
unfolding word
word-spelled v (h, _) = elim (Bool-cases (needs_quote v)) [
  | inl n ↦ rw n (ap (λ q. quote ∷ q ++ quote ∷ []) (quoted-with_slashes v h))
  | inr n ↦ rw n refl
]

pub meant-word_of : (v : Bytes) → meant (word_of v) ≡ v
meant-word_of v = elim (Bool-cases (needs_quote v)) [ inl n ↦ rw n refl | inr n ↦ rw n refl ]

needs_quote-nil : needs_quote [] ≡ true
unfolding needs_quote first
needs_quote-nil = refl

pub word_of-IsWord : (v : Bytes) → IsReadable v → IsWord (word_of v)
word_of-IsWord v (h, b) = elim (Bool-cases (needs_quote v)) [
  | inl n ↦ rw n h
  | inr n ↦ elim b [
    | inl q ↦ absurd (cc)
    | inr k ↦ rw n ((λ e. let q = ap needs_quote e ∙ needs_quote-nil in cc), k)
  ]
]

pub AreBare-AreClear : (v : Bytes) → AreBare v → AreClear v
AreBare-AreClear [] h = tt
AreBare-AreClear (c ∷ v) ((a, b, d, e, g, i, j), h) =
    ((omega (arith, a), b, d, e, g), AreBare-AreClear v h)

pub IsNumeric-AreBare : (v : Bytes) → IsNumeric v → AreBare v
IsNumeric-AreBare [] h = tt
IsNumeric-AreBare (c ∷ v) ((a, b), h) = (omega arith, IsNumeric-AreBare v h)

pub AreBare-IsReadable : (v : Bytes) → AreBare v → IsReadable v
AreBare-IsReadable v h = (AreBare-AreClear v h, inr h)

length-spaced :
    (w : Bytes) (ws : List Bytes) → length (spaced (w ∷ ws)) ≡ length w + length (spaced ws) + 1
length-spaced w ws = omega (arith, length-append w (spaced ws))

-- The arguments of a `p` command whose type, key and data are words that `quote_field` writes.
pub argv_lem :
    (argv : Bytes → List Bytes) (t k dt d : Bytes) (more : List Word)
    → IsShell argv
    → IsReadable t
    → IsReadable k
    → IsReadable d
    → IsWord (bare dt)
    → AreWords more
    → length t ≤ 23
    → length k ≤ 22
    → length d ≤ 20
    → length dt ≤ 3
    → length more ≤ 1
    → length (spaced (map spelled more)) ≤ 31
    → argv (p_s ++ spaced (word t ∷ word k ∷ dt ∷ word d ∷ map spelled more))
      ≡ p_s ∷ t ∷ k ∷ dt ∷ d ∷ map meant more
argv_lem argv t k dt d more shell rt rk rd bdt ms lt lk ld ldt lm ls =
    let ws = word_of t ∷ word_of k ∷ bare dt ∷ word_of d ∷ more in
    let later = map spelled more in
    let short : length (p_s ++ spaced (word t ∷ word k ∷ dt ∷ word d ∷ later)) ≤ 255 = omega (
      arith,
      length-spaced (word t) (word k ∷ dt ∷ word d ∷ later),
      length-spaced (word k) (dt ∷ word d ∷ later),
      length-spaced dt (word d ∷ later),
      length-spaced (word d) later,
      length-word t,
      length-word k,
      length-word d,
    ) in
    let same : spaced (word t ∷ word k ∷ dt ∷ word d ∷ later) ≡ spaced (map spelled ws) =
      rw (word-spelled t rt, word-spelled k rk, word-spelled d rd) refl in
    ap (λ x. argv (p_s ++ x)) same
    ∙ shell ws (word_of-IsWord t rt, (word_of-IsWord k rk, (bdt, (word_of-IsWord d rd, ms))))
        (omega (arith, lm)) (subst (λ x. length (p_s ++ x) ≤ 255) same short)
    ∙ rw (meant-word_of t, meant-word_of k, meant-word_of d) refl

digit_at-bare : (n k : ℕ) (s : Bytes) → AreBare s → AreBare (digit_at n k ∷ s)
digit_at-bare n k s h = (omega arith, h)

-- The text of an instant is a bare word.
pub printed-AreBare : (t : ℕ) → AreBare (printed t)
unfolding fraction_digits
printed-AreBare t = omega arith
