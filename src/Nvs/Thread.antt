-- ===== src/Nvs/Thread.antt =====
-- What a restart publishes after the thread of lib/nvs.c stored the points of the bus.
use mathlib.Core.Path.{subst}
use zephyr_siot.Base.{ℕ, ◌≡◌, ◌≢◌, refl, ap, sym, ◌∙◌, Bool, true, false, List, [], ◌∷◌, ◌++◌, take}
use zephyr_siot.Base.Int.{ℤ, pos, negsuc, IsInt, is_negative}
use zephyr_siot.CString.{Bytes, cstr}
use zephyr_siot.Point.{Point, IsPoint, type_int, point_get_int}
use zephyr_siot.Json.PointJs.RoundTrip.{IsTerminated}
use zephyr_siot.Nvs.{
  Zms, NvsPoint, Nvs, point_type_key_to_nvs_id, restore, store_at, nvs_store_handle_point,
  nvs_store_thread,
}
use zephyr_siot.Nvs.Restore.{SameAt, restore-SameAt}
use zephyr_siot.Nvs.Laws.{ZmsLaws, restore-int}

-- What ZMS documents besides: a write leaves the other entries as they are.
pub record ZmsKeeps (zms : Zms) : Type 1 where
  pub read-other :
      (fs : zms.Fs) (id id' len : ℕ) (bytes : Bytes)
      → id ≢ id'
      → zms.read (zms.write fs id' bytes).0 id len ≡ zms.read fs id len

module _ (zms : Zms) (keeps : ZmsKeeps zms) where
  -- None of the messages is for the entry.
  abbrev pub IsUntouched : List NvsPoint → ℕ → List (Bool × Point) → Type 0
  IsUntouched pts id [] = Unit
  IsUntouched pts id ((is_point_chan, p) ∷ ms) =
      (is_point_chan ≡ true → point_type_key_to_nvs_id pts p.type p.key ≢ pos id)
      × IsUntouched pts id ms

  store_at-SameAt :
      (v : Nvs zms) (to : ℤ) (id : ℕ) (p : Point)
      → to ≢ pos id
      → SameAt zms id v.fs (store_at zms v to p).fs
  store_at-SameAt v (pos i) id p h len = keeps.read-other v.fs id i len _ (λ e. h (ap pos (sym e)))
  store_at-SameAt v (negsuc i) id p h len = refl

  store_at-pts : (v : Nvs zms) (to : ℤ) (p : Point) → (store_at zms v to p).pts ≡ v.pts
  store_at-pts v (pos i) p = refl
  store_at-pts v (negsuc i) p = refl

  handled-pts : (v : Nvs zms) (p : Point) → (nvs_store_handle_point zms v p).pts ≡ v.pts
  unfolding nvs_store_handle_point
  handled-pts v p = store_at-pts v (point_type_key_to_nvs_id v.pts p.type p.key) p

  thread-pts : (v : Nvs zms) (ms : List (Bool × Point)) → (nvs_store_thread zms v ms).pts ≡ v.pts
  unfolding nvs_store_thread nvs_store_handle_point
  thread-pts v [] = refl
  thread-pts v ((true, p) ∷ ms) =
      thread-pts (nvs_store_handle_point zms v p) ms
      ∙ store_at-pts v (point_type_key_to_nvs_id v.pts p.type p.key) p
  thread-pts v ((false, p) ∷ ms) = thread-pts v ms

  thread-append :
      (v : Nvs zms) (ms more : List (Bool × Point))
      → nvs_store_thread zms v (ms ++ more) ≡ nvs_store_thread zms (nvs_store_thread zms v ms) more
  unfolding nvs_store_thread
  thread-append v [] more = refl
  thread-append v ((true, p) ∷ ms) more = thread-append (nvs_store_handle_point zms v p) ms more
  thread-append v ((false, p) ∷ ms) more = thread-append v ms more

  pub thread-SameAt :
      (v : Nvs zms) (id : ℕ) (ms : List (Bool × Point))
      → IsUntouched v.pts id ms
      → SameAt zms id v.fs (nvs_store_thread zms v ms).fs
  unfolding nvs_store_thread nvs_store_handle_point
  thread-SameAt v id [] h len = refl
  thread-SameAt v id ((true, p) ∷ ms) (h, hs) len =
      let to = point_type_key_to_nvs_id v.pts p.type p.key in
      let v' = store_at zms v to p in
      thread-SameAt v' id ms (subst (λ pts. IsUntouched pts id ms) (sym (store_at-pts v to p)) hs)
        len
      ∙ store_at-SameAt v to id p (h refl) len
  thread-SameAt v id ((false, p) ∷ ms) (h, hs) len = thread-SameAt v id ms hs len

  -- Behind the point that came last for the entry, the entry stays.
  pub thread-last :
      (v : Nvs zms) (before behind : List (Bool × Point)) (p : Point) (id : ℕ)
      → IsUntouched v.pts id behind
      → SameAt zms id
          (nvs_store_handle_point zms (nvs_store_thread zms v before) p).fs
          (nvs_store_thread zms v (before ++ (true, p) ∷ behind)).fs
  thread-last v before behind p id h len =
      let v1 = nvs_store_thread zms v before in
      let v2 = nvs_store_handle_point zms v1 p in
      let pts : v2.pts ≡ v.pts = handled-pts v1 p ∙ thread-pts v before in
      let whole : nvs_store_thread zms v (before ++ (true, p) ∷ behind)
          ≡ nvs_store_thread zms v2 behind =
        thread-append v before ((true, p) ∷ behind) ∙ (unfold nvs_store_thread in refl) in
      ap (λ x. zms.read x.fs id len) whole
      ∙ thread-SameAt v2 id behind (subst (λ x. IsUntouched x id behind) (sym pts) h) len

  -- The entry that a point leads to does not change.
  pub thread-id :
      (v : Nvs zms) (before : List (Bool × Point)) (p : Point)
      → point_type_key_to_nvs_id (nvs_store_thread zms v before).pts p.type p.key
        ≡ point_type_key_to_nvs_id v.pts p.type p.key
  thread-id v before p = ap (λ pts. point_type_key_to_nvs_id pts p.type p.key) (thread-pts v before)

  -- After a restart an INT entry is published with the value of the last point that came for it, however
  -- many points came before it and for other entries behind it. The write of that point succeeds, its
  -- fields have the right sizes, its strings end inside them, and the file system reads back what was
  -- written and keeps the other entries.
  pub restore-thread :
      (v : Nvs zms) (before behind : List (Bool × Point)) (p q : Point) (n : NvsPoint) (buf : Bytes)
      → ZmsLaws zms
      → IsPoint p
      → IsPoint q
      → IsTerminated p
      → p.data_type ≡ type_int
      → IsInt (point_get_int p)
      → point_type_key_to_nvs_id v.pts p.type p.key ≡ pos n.nvs_id
      → cstr n.def_type ≡ cstr p.type
      → cstr n.key ≡ cstr p.key
      → n.def_data_type ≡ type_int
      → is_negative (zms.write (nvs_store_thread zms v before).fs n.nvs_id (take 4 p.payload)).1
        ≡ false
      → IsUntouched v.pts n.nvs_id behind
      → let (fs, r, published) =
          restore zms (nvs_store_thread zms v (before ++ (true, p) ∷ behind)).fs q buf n in
        (published ≡ r ∷ [])
        × (cstr r.type ≡ cstr p.type)
        × (cstr r.key ≡ cstr p.key)
        × (r.data_type ≡ type_int)
        × (point_get_int r ≡ point_get_int p)
  restore-thread v before behind p q n buf laws vp vq z e i id ty ky dt ok h =
      let v1 = nvs_store_thread zms v before in
      let ids = thread-id v before p ∙ id in
      let (a, b) =
        restore-SameAt zms (nvs_store_handle_point zms v1 p).fs _ q buf n
          (thread-last v before behind p n.nvs_id h) in
      let (sent, type, key, kind, value) =
        restore-int zms laws v1 p q n buf vp vq z e i ids ty ky dt ok in
      (
        b ∙ sent ∙ ap (λ r. r ∷ []) (sym a),
        ap (λ r. cstr r.type) a ∙ type,
        ap (λ r. cstr r.key) a ∙ key,
        ap (λ r. r.data_type) a ∙ kind,
        ap point_get_int a ∙ value,
      )
