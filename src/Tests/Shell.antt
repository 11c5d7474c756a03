-- ===== src/Tests/Shell.antt =====
-- A shell that splits a line at its spaces, with double quotes and backslashes in front of them.
use zephyr_siot.Base.{
  ◌≡◌, refl, ap, ◌∙◌, List, [], ◌∷◌, ◌++◌, ◌==◌, map, append_assoc, append-nil, if◌then◌else◌,
  arith,
}
use zephyr_siot.CString.{Bytes}
use zephyr_siot.Cache.Quote.{quote, backslash}
use zephyr_siot.Cache.Shell.Argv.{
  AreClear, AreBare, Word, bare, in_quotes, with_slashes, spelled, meant, IsWord, AreWords, spaced,
  p_s, IsShell,
}

-- Between two words, in a word, between quotes, or behind a backslash there.
data State : Type 0 where
  gap : State
  in_word quoted slashed : Bytes → State

unfoldable split : State → Bytes → List Bytes
split gap [] = []
split (in_word w) [] = w ∷ []
split (quoted w) [] = w ∷ []
split (slashed w) [] = w ∷ []
split gap (c ∷ s) =
    let skip = split gap s in
    let open_quote = split (quoted []) s in
    let start = split (in_word (c ∷ [])) s in
    if c == b' ' then skip else if c == quote then open_quote else start
split (in_word w) (c ∷ s) =
    let end = w ∷ split gap s in
    let open_quote = split (quoted w) s in
    let go = split (in_word (w ++ c ∷ [])) s in
    if c == b' ' then end else if c == quote then open_quote else go
split (quoted w) (c ∷ s) =
    let close_quote = split (in_word w) s in
    let slash = split (slashed w) s in
    let go = split (quoted (w ++ c ∷ [])) s in
    if c == quote then close_quote else if c == backslash then slash else go
split (slashed w) (c ∷ s) =
    let escape = split (quoted (w ++ c ∷ [])) s in
    let go = split (quoted (w ++ backslash ∷ c ∷ [])) s in if c == quote then escape else go

pub argv : Bytes → List Bytes
unfolding split
argv line = split gap line

split-bare : (w s t : Bytes) → AreBare s → split (in_word w) (s ++ t) ≡ split (in_word (w ++ s)) t
unfolding split
split-bare w [] t h = rw (append-nil w) refl
split-bare w (c ∷ s) t (hc, h) =
    ground (arith, hc, split-bare (w ++ c ∷ []) s t h, append_assoc w (c ∷ []) s)

split-slashes :
    (w s t : Bytes)
    → AreClear s
    → split (quoted w) (with_slashes s ++ t) ≡ split (quoted (w ++ s)) t
unfolding split with_slashes
split-slashes w [] t h = rw (append-nil w) refl
split-slashes w (c ∷ s) t (hc, h) =
    ground (arith, hc, split-slashes (w ++ c ∷ []) s t h, append_assoc w (c ∷ []) s)

split-spelled :
    (w : Word) (t : Bytes) → IsWord w → split gap (spelled w ++ t) ≡ split (in_word (meant w)) t
unfolding split
split-spelled (bare []) t (ne, h) = absurd (ne refl)
split-spelled (bare (c ∷ s)) t (ne, (hc, h)) = ground (arith, hc, split-bare (c ∷ []) s t h)
split-spelled (in_quotes s) t h =
    ap (split (quoted [])) (append_assoc (with_slashes s) (quote ∷ []) t)
    ∙ split-slashes [] s (quote ∷ t) h

split-spaced :
    (v : Bytes) (ws : List Word)
    → AreWords ws
    → split (in_word v) (spaced (map spelled ws)) ≡ v ∷ map meant ws
unfolding split
split-spaced v [] h = refl
split-spaced v (w ∷ ws) (hw, h) =
    ap (λ l. v ∷ l) (split-spelled w (spaced (map spelled ws)) hw ∙ split-spaced (meant w) ws h)

pub argv-IsShell : IsShell argv
unfolding argv
argv-IsShell ws h few short =
    split-spelled (bare p_s) (spaced (map spelled ws)) ((λ e. cc), omega arith)
    ∙ split-spaced p_s ws h
