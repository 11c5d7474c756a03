-- ===== src/Tests/Refused.antt =====
-- A partition of one page.
use zephyr_siot.Base.{◌≡◌, refl, true, [], ◌∷◌, inr, arith}
use zephyr_siot.Base.Int.{pos, negsuc}
use zephyr_siot.Nvs.{Flash, Nvs, nvs_init, nvs_store_thread}
use zephyr_siot.Nvs.Refused.{nvs_init-refused}
use zephyr_siot.Tests.{temp}
use zephyr_siot.Tests.Flash.{memory, entry}

abbrev one_page : Flash
one_page = record {
  is_ready = true;
  page_info = pos 0;
  page_size = 131072;
  partition_size = 131072;
}

abbrev just_started : Nvs memory
just_started = record { fs = λ i. []; pts = [] }

nvs_init-refused_example :
    let on = nvs_init memory one_page just_started (entry ∷ []) (λ pts. []) in
    (on.ret ≡ negsuc 0)
    × (on.published ≡ [])
    × (nvs_store_thread memory on.nvs ((true, temp) ∷ []) ≡ just_started)
nvs_init-refused_example =
    nvs_init-refused memory one_page just_started (entry ∷ []) (λ pts. []) ((true, temp) ∷ []) refl
      (inr (inr (omega arith)))
