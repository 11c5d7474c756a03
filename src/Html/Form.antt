-- ===== src/Html/Form.antt =====
-- A whole form is parsed into its fields.
use zephyr_siot.Base.{ℕ, ◌<◌, ◌≡◌, ◌≢◌, refl, ap, ◌∙◌, List, [], ◌∷◌, ◌++◌, arith, map}
use zephyr_siot.CString.{Bytes}
use zephyr_siot.CString.Laws.{IsText, IsText-append, cstr-IsText_end}
use zephyr_siot.Html.{
  url_decode, push, stretches, nonempty, tokens, field_of, fields_loop, html_parse_form_data,
}
use zephyr_siot.Html.Laws.{encoded_char, url_encode, IsBytes, url_decode-url_encode}

-- No byte of the text is zero, and none is a delimiter of forms.
abbrev pub IsClear : Bytes → Type 0
IsClear [] = Unit
IsClear (c ∷ s) = ((c ≢ 0) × (c ≢ b'&') × (c ≢ b'=')) × IsClear s

IsClear-append : (s t : Bytes) → IsClear s → IsClear t → IsClear (s ++ t)
IsClear-append [] t h k = k
IsClear-append (c ∷ s) t (hc, h) k = (hc, IsClear-append s t h k)

encoded_char-IsClear : (c : ℕ) → c ≢ 0 → c < 256 → IsClear (encoded_char c)
unfolding encoded_char
encoded_char-IsClear c h k = ground arith

url_encode-IsClear : (v : Bytes) → IsText v → IsBytes v → IsClear (url_encode v)
unfolding url_encode
url_encode-IsClear [] t b = tt
url_encode-IsClear (c ∷ v) (nz, t) (lt, b) =
    IsClear-append (encoded_char c) (url_encode v) (encoded_char-IsClear c nz lt)
      (url_encode-IsClear v t b)

-- A text without the delimiter, on its own and with the delimiter behind it.
abbrev IsWithout : ℕ → Bytes → Type 0
IsWithout delim [] = Unit
IsWithout delim (c ∷ s) = ((c ≢ 0) × (c ≢ delim)) × IsWithout delim s

stretches-end : (delim : ℕ) (s : Bytes) → IsWithout delim s → stretches delim s ≡ s ∷ []
unfolding stretches push
stretches-end delim [] h = refl
stretches-end delim (c ∷ s) (hc, h) = ground (arith, stretches-end delim s h)

stretches-append :
    (delim : ℕ) (s t : Bytes)
    → delim ≢ 0
    → IsWithout delim s
    → stretches delim (s ++ delim ∷ t) ≡ s ∷ stretches delim t
unfolding stretches push
stretches-append delim [] t nz h = ground arith
stretches-append delim (c ∷ s) t nz (hc, h) = ground (arith, stretches-append delim s t nz h)

IsWithout-append :
    (delim : ℕ) (s t : Bytes) → IsWithout delim s → IsWithout delim t → IsWithout delim (s ++ t)
IsWithout-append delim [] t h k = k
IsWithout-append delim (c ∷ s) t (hc, h) k = (hc, IsWithout-append delim s t h k)

IsWithout-equals : (s : Bytes) → IsClear s → IsWithout b'=' s
IsWithout-equals [] h = tt
IsWithout-equals (c ∷ s) ((a, b, e), h) = ((a, e), IsWithout-equals s h)

IsWithout-and : (s : Bytes) → IsClear s → IsWithout b'&' s
IsWithout-and [] h = tt
IsWithout-and (c ∷ s) ((a, b, e), h) = ((a, b), IsWithout-and s h)

IsText-without : (delim : ℕ) (s : Bytes) → IsWithout delim s → IsText s
IsText-without delim [] h = tt
IsText-without delim (c ∷ s) ((a, b), h) = (a, IsText-without delim s h)

-- A field with the first byte of its key apart, since a key is not empty.
pub record Field : Type 0 where
  pub initial : ℕ
  pub more : Bytes
  pub value : Bytes

abbrev pub key : Field → Bytes
key f = f.initial ∷ f.more

-- The key is sent as it is, so it has no delimiter; the value may hold any bytes but zero.
abbrev pub IsField : Field → Type 0
IsField f = IsClear (key f) × IsText f.value × IsBytes f.value

abbrev pub AreFields : List Field → Type 0
AreFields [] = Unit
AreFields (f ∷ fs) = IsField f × AreFields fs

unfoldable pub field_text : Field → Bytes
field_text f = key f ++ b'=' ∷ url_encode f.value

-- The fields with "&" between them.
unfoldable pub form_text : List Field → Bytes
unfolding field_text
form_text [] = []
form_text (f ∷ []) = field_text f
form_text (f ∷ g ∷ fs) = field_text f ++ b'&' ∷ form_text (g ∷ fs)

field_text-IsWithout : (f : Field) → IsField f → IsWithout b'&' (field_text f)
unfolding field_text
field_text-IsWithout f (k, t, b) =
    IsWithout-append b'&' (key f) (b'=' ∷ url_encode f.value) (IsWithout-and (key f) k) (
      (omega arith, omega arith),
      IsWithout-and (url_encode f.value) (url_encode-IsClear f.value t b),
    )

field_of-pair :
    (c : ℕ) (k e : Bytes) → field_of (nonempty ((c ∷ k) ∷ e ∷ [])) ≡ (c ∷ k, url_decode e) ∷ []
unfolding field_of nonempty
field_of-pair c k [] = refl
field_of-pair c k (x ∷ e) = refl

field_of-text :
    (f : Field) → IsField f → field_of (tokens b'=' (field_text f)) ≡ (key f, f.value) ∷ []
unfolding field_text tokens
field_of-text f (k, t, b) =
    let e = url_encode f.value in
    let s = stretches-append b'=' (key f) e (omega arith) (IsWithout-equals (key f) k) in
    let one = stretches-end b'=' e (IsWithout-equals e (url_encode-IsClear f.value t b)) in
    ap (λ l. field_of (nonempty l)) (s ∙ ap (λ l. key f ∷ l) one)
    ∙ field_of-pair f.initial f.more e
    ∙ ap (λ v. (key f, v) ∷ []) (url_decode-url_encode f.value t b)

nonempty-text :
    (f : Field) (l : List Bytes) → nonempty (field_text f ∷ l) ≡ field_text f ∷ nonempty l
unfolding nonempty field_text
nonempty-text f l = refl

tokens-form : (fs : List Field) → AreFields fs → tokens b'&' (form_text fs) ≡ map field_text fs
unfolding tokens form_text
tokens-form [] h = unfold stretches nonempty in refl
tokens-form (f ∷ []) (hf, h) =
    ap nonempty (stretches-end b'&' (field_text f) (field_text-IsWithout f hf)) ∙ nonempty-text f []
tokens-form (f ∷ g ∷ fs) (hf, h) =
    ap nonempty (
      stretches-append b'&' (field_text f) (form_text (g ∷ fs)) (omega arith)
        (field_text-IsWithout f hf))
    ∙ nonempty-text f (stretches b'&' (form_text (g ∷ fs)))
    ∙ ap (λ l. field_text f ∷ l) (tokens-form (g ∷ fs) h)

fields_loop-texts :
    (fs : List Field)
    → AreFields fs
    → fields_loop (map field_text fs) ≡ map (λ f. (key f, f.value)) fs
unfolding fields_loop
fields_loop-texts [] h = refl
fields_loop-texts (f ∷ fs) (hf, h) =
    rw (field_of-text f hf) (ap (λ l. (key f, f.value) ∷ l) (fields_loop-texts fs h))

form_text-IsText : (fs : List Field) → AreFields fs → IsText (form_text fs)
unfolding form_text
form_text-IsText [] h = tt
form_text-IsText (f ∷ []) (hf, h) = IsText-without b'&' (field_text f) (field_text-IsWithout f hf)
form_text-IsText (f ∷ g ∷ fs) (hf, h) =
    IsText-append (field_text f) (b'&' ∷ form_text (g ∷ fs))
      (IsText-without b'&' (field_text f) (field_text-IsWithout f hf))
      (omega arith, form_text-IsText (g ∷ fs) h)

-- The callback is called once for each field of a form, in order, with the key and the value that
-- was sent, if no key is empty or holds a delimiter. The value may hold any bytes but zero.
pub html_parse_form_data-form :
    (fs : List Field)
    → AreFields fs
    → html_parse_form_data (form_text fs) ≡ map (λ f. (key f, f.value)) fs
unfolding html_parse_form_data
html_parse_form_data-form fs h =
    rw (cstr-IsText_end (form_text fs) (form_text-IsText fs h), tokens-form fs h)
      (fields_loop-texts fs h)
