-- ===== src/Tests/Forms.antt =====
-- Form data of the web pages.
use zephyr_siot.Base.{◌≡◌, List, [], ◌∷◌, map, arith}
use zephyr_siot.CString.{Bytes}
use zephyr_siot.Html.{html_parse_form_data}
use zephyr_siot.Html.Form.{Field, key, form_text, html_parse_form_data-form}

-- `a=b&`, which has to be escaped, and an empty value.
abbrev hard : Bytes
hard = b'a' ∷ b'=' ∷ b'b' ∷ b'&' ∷ []

abbrev fields : List Field
fields =
    record { initial = b'i'; more = b'd' ∷ []; value = hard }
    ∷ record { initial = b'k'; more = []; value = [] }
    ∷ []

html_parse_form_data-form_example :
    html_parse_form_data (form_text fields) ≡ map (λ f. (key f, f.value)) fields
html_parse_form_data-form_example = html_parse_form_data-form fields (omega arith)
