-- ===== src/Cache/Shell/Argv/Spaced.antt =====
-- The `pt` line of lib/point-cache.c as words with a space in front of each.
use zephyr_siot.Base.{
  ℕ, sym, ◌++◌, append-nil, append_assoc, ◌≤◌, ◌≡◌, ap, ◌∙◌, [], ◌∷◌, arith, length, length-append,
}
use zephyr_siot.CString.{Bytes}
use zephyr_siot.Json.PointJs.{int_s, str_s}
use zephyr_siot.Cache.Shell.{pt_line}
use zephyr_siot.Cache.Shell.Argv.{bare, IsWord, spaced, printed-AreBare}
use zephyr_siot.Timeconv.Printed.{printed, length-printed}

spaced-append : (a k d x : Bytes) → a ++ k ++ d ++ x ≡ a ++ (k ++ (d ++ x))
spaced-append a k d x = append_assoc (a ++ k) d x ∙ append_assoc a k (d ++ x)

pub pt_line-spaced :
    (t k dt d : Bytes) → pt_line t k dt d ≡ b'p' ∷ b't' ∷ spaced (t ∷ k ∷ dt ∷ d ∷ [])
pt_line-spaced t k dt d =
    let a = b'p' ∷ b't' ∷ b' ' ∷ t in
    spaced-append a (b' ' ∷ k) (b' ' ∷ dt) (b' ' ∷ d)
    ∙ ap (λ x. a ++ ((b' ' ∷ k) ++ ((b' ' ∷ dt) ++ b' ' ∷ x))) (sym (append-nil d))

pub pt_line-spaced_time :
    (t k dt d time : Bytes)
    → pt_line t k dt d ++ b' ' ∷ time ≡ b'p' ∷ b't' ∷ spaced (t ∷ k ∷ dt ∷ d ∷ time ∷ [])
pt_line-spaced_time t k dt d time =
    let a = b'p' ∷ b't' ∷ b' ' ∷ t in
    append_assoc (a ++ (b' ' ∷ k) ++ (b' ' ∷ dt)) (b' ' ∷ d) (b' ' ∷ time)
    ∙ spaced-append a (b' ' ∷ k) (b' ' ∷ dt) ((b' ' ∷ d) ++ b' ' ∷ time)
    ∙ ap (λ x. a ++ ((b' ' ∷ k) ++ ((b' ' ∷ dt) ++ ((b' ' ∷ d) ++ b' ' ∷ x))))
        (sym (append-nil time))

pub int_s-IsWord : IsWord (bare int_s)
int_s-IsWord = ((λ e. cc), omega arith)

pub str_s-IsWord : IsWord (bare str_s)
str_s-IsWord = ((λ e. cc), omega arith)

pub printed-IsWord : (n : ℕ) → IsWord (bare (printed n))
printed-IsWord n = ((λ e. cc), printed-AreBare n)

pub spaced-printed : (n : ℕ) → length (spaced (printed n ∷ [])) ≤ 31
spaced-printed n = omega (arith, length-append (printed n) [], length-printed n)
