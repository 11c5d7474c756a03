-- ===== src/Nvs/Reboot.antt =====
-- A restart of the device: `nvs_init` after the thread of lib/nvs.c stored the points of the bus.
pub mod Values
use zephyr_siot.Base.{
  ℕ, ◌+◌, ◌/◌, ◌≤◌, ◌<◌, ◌≡◌, ◌≢◌, refl, ap, sym, ◌∙◌, Bool, true, false, List, [], ◌∷◌, ◌++◌,
  append_assoc, ◌==◌, if◌then◌else◌, length, take, ltb, arith, Bool-cases, inl, inr,
}
use zephyr_siot.Base.Int.{ℤ, pos, IsInt, is_negative, of_word, abs}
use zephyr_siot.CString.{Bytes, cstr}
use zephyr_siot.CString.Laws.{copy_str_field_lem}
use zephyr_siot.Point.{
  Point, IsPoint, zero_point, data_size, type_float, type_int, type_string, point_get_int,
  point_put_int, point_put_float, point_put_string, point_set_type_key, store32,
}
use zephyr_siot.Point.Fields.{zero_point-IsPoint, length-store32, point_set_type_key_lem}
use zephyr_siot.Json.PointJs.RoundTrip.{IsTerminated}
use zephyr_siot.Nvs.{
  Zms, Flash, NvsPoint, Nvs, strcmp_eq, boot_count_s, point_type_key_to_nvs_id, read_value,
  read_string, count_boot, restore, restore_loop, nvs_init, nvs_store_handle_point,
  nvs_store_thread,
}
use zephyr_siot.Nvs.Restore.{SameAt, restore-SameAt}
use zephyr_siot.Nvs.Sent.{Sent, nothing, Sent-append, restore-Sent, restore_loop-Sent}
use zephyr_siot.Nvs.Thread.{ZmsKeeps, IsUntouched, thread-last, thread-id}
use zephyr_siot.Nvs.Laws.{ZmsLaws, restore-int}

-- What ZMS documents besides: a mount that succeeds finds the entries as they were written.
pub record ZmsMounts (zms : Zms) : Type 1 where
  pub read-mount :
      (fs : zms.Fs) (id len : ℕ)
      → (zms.mount fs).1 ≡ pos 0
      → zms.read (zms.mount fs).0 id len ≡ zms.read fs id len

-- The flash can be used: the device is ready, its pages are known, and the partition has two of them.
abbrev pub IsWorking : Flash → Type 0
IsWorking flash =
    (flash.is_ready ≡ true)
    × (flash.page_info ≡ pos 0)
    × (2 ≤ flash.partition_size / flash.page_size)

-- None of the entries has the identifier.
abbrev pub IsElsewhere : ℕ → List NvsPoint → Type 0
IsElsewhere id [] = Unit
IsElsewhere id (n ∷ pts) = (id ≢ n.nvs_id) × IsElsewhere id pts

module _ (zms : Zms) (keeps : ZmsKeeps zms) where
  written :
      (fs : zms.Fs) (id id' : ℕ) (bytes : Bytes)
      → id ≢ id'
      → SameAt zms id fs (zms.write fs id' bytes).0
  written fs id id' bytes h len = keeps.read-other fs id id' len bytes h

  read_value-SameAt :
      (fs : zms.Fs) (id id' : ℕ) → id ≢ id' → SameAt zms id fs (read_value zms fs id').0
  unfolding read_value
  read_value-SameAt fs id id' h len = elim (Bool-cases (is_negative (zms.read fs id' 4).0)) [
    | inl e ↦ rw e (written fs id id' _ h len)
    | inr e ↦ rw e refl
  ]

  read_string-SameAt :
      (fs : zms.Fs) (id id' : ℕ) (buf : Bytes)
      → id ≢ id'
      → SameAt zms id fs (read_string zms fs id' buf).0
  unfolding read_string
  read_string-SameAt fs id id' buf h len =
      elim (Bool-cases (is_negative (zms.read fs id' data_size).0)) [
        | inl e ↦ rw e (written fs id id' _ h len)
        | inr e ↦ rw e refl
      ]

  count_boot-SameAt :
      (fs : zms.Fs) (id : ℕ) (n : NvsPoint) (value : ℕ)
      → id ≢ n.nvs_id
      → SameAt zms id fs (count_boot zms fs n value)
  unfolding count_boot
  count_boot-SameAt fs id n value h len = elim (Bool-cases (strcmp_eq boot_count_s n.def_type)) [
    | inl e ↦ rw e (written fs id n.nvs_id _ h len)
    | inr e ↦ rw e refl
  ]

  -- Restoring an entry leaves the other entries as they are.
  pub restore-SameAt_other :
      (fs : zms.Fs) (q : Point) (buf : Bytes) (n : NvsPoint) (id : ℕ)
      → id ≢ n.nvs_id
      → SameAt zms id fs (restore zms fs q buf n).0
  unfolding restore
  restore-SameAt_other fs q buf n id h len =
      let (f, word) = read_value zms fs n.nvs_id in
      let fh = read_value-SameAt fs id n.nvs_id h len in
      let ch = count_boot-SameAt f id n word h len in
      let sh = read_string-SameAt fs id n.nvs_id buf h len in
      elim (Bool-cases (n.def_data_type == type_float)) [
        | inl f ↦ rw f fh
        | inr f ↦ elim (Bool-cases (n.def_data_type == type_int)) [
          | inl i ↦ rw (f, i) (ch ∙ fh)
          | inr i ↦ elim (Bool-cases (n.def_data_type == type_string)) [
            | inl s ↦ rw (f, i, s) sh
            | inr s ↦ rw (f, i, s) refl
          ]
        ]
      ]

  -- The loop comes to an entry whose identifier no entry before it has with what stood there at first.
  restore_loop-entry :
      (fs : zms.Fs) (q : Point) (pts1 pts2 : List NvsPoint) (n : NvsPoint)
      (bufs : List NvsPoint → Bytes)
      → IsElsewhere n.nvs_id pts1
      → IsPoint q
      → (fs' : zms.Fs) × (q' : Point) × (sent1 : List Point) × (sent2 : List Point) × (SameAt zms
          n.nvs_id fs fs')
        × (IsPoint q')
        × (Sent pts1 sent1)
        × (Sent pts2 sent2)
        × ((restore_loop zms fs q (pts1 ++ n ∷ pts2) bufs).1
            ≡ sent1 ++ ((restore zms fs' q' (bufs (n ∷ pts2)) n).2 ++ sent2))
  unfolding restore_loop
  restore_loop-entry fs q [] pts2 n bufs h v =
      let (fs1, q1, sent) = restore zms fs q (bufs (n ∷ pts2)) n in
      let v1 = (restore-Sent zms fs q (bufs (n ∷ pts2)) n v).0 in
      (
        fs,
        q,
        [],
        (restore_loop zms fs1 q1 pts2 bufs).1,
        (λ len. refl),
        v,
        nothing,
        restore_loop-Sent zms fs1 q1 pts2 bufs v1,
        refl,
      )
  restore_loop-entry fs q (m ∷ pts1) pts2 n bufs (h, hs) v =
      let buf = bufs (m ∷ (pts1 ++ n ∷ pts2)) in
      let (fs1, q1, sent) = restore zms fs q buf m in
      let same1 = restore-SameAt_other fs q buf m n.nvs_id h in
      let (v1, s1) = restore-Sent zms fs q buf m v in
      let (fs', q', sent1, sent2, same', v', s', s'', e) =
        restore_loop-entry fs1 q1 pts1 pts2 n bufs hs v1 in
      (
        fs',
        q',
        sent ++ sent1,
        sent2,
        (λ len. same' len ∙ same1 len),
        v',
        Sent-append s1 s',
        s'',
        ap (λ s. sent ++ s) e ∙ sym (append_assoc sent sent1 _),
      )

  -- `nvs_init` on a flash that works returns 0 and publishes what the loop publishes.
  pub nvs_init-loop :
      (flash : Flash) (v : Nvs zms) (pts : List NvsPoint) (bufs : List NvsPoint → Bytes)
      → IsWorking flash
      → (zms.mount v.fs).1 ≡ pos 0
      → ((nvs_init zms flash v pts bufs).ret ≡ pos 0)
        × ((nvs_init zms flash v pts bufs).published
            ≡ (restore_loop zms (zms.mount v.fs).0 zero_point pts bufs).1)
  unfolding nvs_init
  nvs_init-loop flash v pts bufs (ready, info, two) m =
      let enough : ltb (flash.partition_size / flash.page_size) 2 ≡ false = ground (arith, two) in
      rw (ready, info, enough, m) (refl, refl)

  -- The state that it leaves.
  pub nvs_init-nvs :
      (flash : Flash) (v : Nvs zms) (pts : List NvsPoint) (bufs : List NvsPoint → Bytes)
      → IsWorking flash
      → (zms.mount v.fs).1 ≡ pos 0
      → (nvs_init zms flash v pts bufs).nvs
        ≡ record { fs = (restore_loop zms (zms.mount v.fs).0 zero_point pts bufs).0; pts = pts }
  unfolding nvs_init
  nvs_init-nvs flash v pts bufs (ready, info, two) m =
      let enough : ltb (flash.partition_size / flash.page_size) 2 ≡ false = ground (arith, two) in
      rw (ready, info, enough, m) refl

  -- Restoring other entries leaves an entry as it is.
  pub restore_loop-SameAt :
      (fs : zms.Fs) (q : Point) (pts : List NvsPoint) (bufs : List NvsPoint → Bytes) (id : ℕ)
      → IsElsewhere id pts
      → SameAt zms id fs (restore_loop zms fs q pts bufs).0
  unfolding restore_loop
  restore_loop-SameAt fs q [] bufs id h len = refl
  restore_loop-SameAt fs q (m ∷ pts) bufs id (h, hs) len =
      let (fs1, q1, sent) = restore zms fs q (bufs (m ∷ pts)) m in
      restore_loop-SameAt fs1 q1 pts bufs id hs len
      ∙ restore-SameAt_other fs q (bufs (m ∷ pts)) m id h len

  -- After a restart an entry is published as it is restored right behind the last point that came for it.
  pub reboot_lem :
      (flash : Flash) (v : Nvs zms) (before behind : List (Bool × Point)) (p : Point)
      (pts1 pts2 : List NvsPoint) (n : NvsPoint) (bufs : List NvsPoint → Bytes)
      → ZmsMounts zms
      → IsWorking flash
      → v.pts ≡ pts1 ++ n ∷ pts2
      → IsElsewhere n.nvs_id pts1
      → IsUntouched zms keeps v.pts n.nvs_id behind
      → let off = nvs_store_thread zms v (before ++ (true, p) ∷ behind) in
        (zms.mount off.fs).1 ≡ pos 0
        → let on = nvs_init zms flash (record off { pts = [] }) v.pts bufs in
          (on.ret ≡ pos 0)
          × ((q : Point) × (buf : Bytes) × (sent1 : List Point) × (sent2 : List Point) × (IsPoint q)
              × (Sent pts1 sent1)
              × (Sent pts2 sent2)
              × (let r =
                    restore zms
                      (nvs_store_handle_point zms (nvs_store_thread zms v before) p).fs
                      q
                      buf
                      n in
                  on.published ≡ sent1 ++ (r.2 ++ sent2)))
  reboot_lem flash v before behind p pts1 pts2 n bufs mounts working e h u m =
      let off = nvs_store_thread zms v (before ++ (true, p) ∷ behind) in
      let (ret, published) = nvs_init-loop flash (record off { pts = [] }) v.pts bufs working m in
      let (fs', q', sent1, sent2, same, v', s1, s2, sent) =
        restore_loop-entry (zms.mount off.fs).0 zero_point pts1 pts2 n bufs h zero_point-IsPoint in
      let stored = thread-last zms keeps v before behind p n.nvs_id u in
      let all : SameAt zms n.nvs_id
          (nvs_store_handle_point zms (nvs_store_thread zms v before) p).fs fs' =
        λ len. same len ∙ mounts.read-mount off.fs n.nvs_id len m ∙ stored len in
      let (_, r) = restore-SameAt zms _ fs' q' (bufs (n ∷ pts2)) n all in
      (
        ret,
        (
          q',
          bufs (n ∷ pts2),
          sent1,
          sent2,
          v',
          s1,
          s2,
          published
              ∙ ap (λ pts. (restore_loop zms (zms.mount off.fs).0 zero_point pts bufs).1) e
              ∙ sent
              ∙ ap (λ x. sent1 ++ (x ++ sent2)) r,
        ),
      )
