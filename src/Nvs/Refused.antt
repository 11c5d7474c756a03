-- ===== src/Nvs/Refused.antt =====
-- A start that refuses the flash.
use zephyr_siot.Base.{
  ◌/◌, ◌<◌, ◌≡◌, refl, ap, ◌∙◌, Bool, true, false, List, [], ◌∷◌, ◌⊎◌, inl, inr, ltb, arith,
  Bool-cases,
}
use zephyr_siot.Base.Int.{negsuc, abs}
use zephyr_siot.CString.{Bytes}
use zephyr_siot.Point.{Point}
use zephyr_siot.Nvs.{
  Zms, Flash, NvsPoint, Nvs, point_type_key_to_nvs_id, not_started, store_at, nvs_init,
  nvs_store_handle_point, nvs_store_thread,
}

-- The device is not ready, its pages are not known, or the partition has fewer than two of them.
abbrev pub IsUnfit : Flash → Type 0
IsUnfit flash =
    (flash.is_ready ≡ false)
    ⊎ (0 < abs flash.page_info)
    ⊎ (flash.partition_size / flash.page_size < 2)

module _ (zms : Zms) where
  -- Without entries nothing is stored.
  thread-no_entries :
      (v : Nvs zms) (ms : List (Bool × Point)) → v.pts ≡ [] → nvs_store_thread zms v ms ≡ v
  unfolding nvs_store_thread nvs_store_handle_point point_type_key_to_nvs_id
  thread-no_entries v [] e = refl
  thread-no_entries v ((true, p) ∷ ms) e =
      let none_found : point_type_key_to_nvs_id v.pts p.type p.key ≡ negsuc 0 =
        ap (λ pts. point_type_key_to_nvs_id pts p.type p.key) e in
      ap (λ to. nvs_store_thread zms (store_at zms v to p) ms) none_found ∙ thread-no_entries v ms e
  thread-no_entries v ((false, p) ∷ ms) e = thread-no_entries v ms e

  nvs_init-not_started :
      (flash : Flash) (v : Nvs zms) (pts : List NvsPoint) (bufs : List NvsPoint → Bytes)
      → IsUnfit flash
      → nvs_init zms flash v pts bufs ≡ not_started zms v
  unfolding nvs_init
  nvs_init-not_started flash v pts bufs (inl ready) = rw ready refl
  nvs_init-not_started flash v pts bufs (inr (inl info)) =
      let unknown : ltb 0 (abs flash.page_info) ≡ true = ground (arith, info) in
      elim (Bool-cases flash.is_ready) [ inl r ↦ rw (r, unknown) refl | inr r ↦ rw r refl ]
  nvs_init-not_started flash v pts bufs (inr (inr few)) =
      let small : ltb (flash.partition_size / flash.page_size) 2 ≡ true = ground (arith, few) in
      elim (Bool-cases flash.is_ready) [
        | inl r ↦ elim (Bool-cases (ltb 0 (abs flash.page_info))) [
          | inl u ↦ rw (r, u) refl
          | inr u ↦ rw (r, u, small) refl
        ]
        | inr r ↦ rw r refl
      ]

  -- A flash that cannot be used is never written: `nvs_init` returns -1 and publishes nothing, the file
  -- system is not even mounted, and no point that comes over the bus later is stored. The system has just
  -- started, so that there are no entries yet.
  pub nvs_init-refused :
      (flash : Flash) (v : Nvs zms) (pts : List NvsPoint) (bufs : List NvsPoint → Bytes)
      (ms : List (Bool × Point))
      → v.pts ≡ []
      → IsUnfit flash
      → let on = nvs_init zms flash v pts bufs in
        (on.ret ≡ negsuc 0) × (on.published ≡ []) × (nvs_store_thread zms on.nvs ms ≡ v)
  nvs_init-refused flash v pts bufs ms e unfit =
      rw (nvs_init-not_started flash v pts bufs unfit) (refl, refl, thread-no_entries v ms e)
