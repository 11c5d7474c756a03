-- ===== src/Nvs/Boot/Rises.antt =====
-- The count of the boots over a restart: `nvs_init`, the store thread, and `nvs_init` again.
use mathlib.Core.Path.{subst}
use zephyr_siot.Base.{
  List, Bool, sym, ◌++◌, append_assoc, ℕ, ◌+◌, ◌%◌, ◌^◌, ◌<◌, ◌≡◌, ap, ◌∙◌, false, some, [], ◌∷◌,
  arith,
}
use zephyr_siot.Base.Int.{ℤ, pos, is_negative, of_word}
use zephyr_siot.CString.{Bytes, cstr, write_at_start}
use zephyr_siot.Point.{Point, zero_point, IsPoint, type_int, load32, store32}
use zephyr_siot.Point.Fields.{zero_point-IsPoint}
use zephyr_siot.Nvs.{
  Zms, Flash, Nvs, restore_loop, nvs_init, nvs_store_thread, NvsPoint, boot_count_s, zero_word,
  read_value, restore,
}
use zephyr_siot.Nvs.Restore
use zephyr_siot.Nvs.Restore.{SameAt}
use zephyr_siot.Nvs.Sent.{Sent, nothing, Sent-append, restore-Sent, restore_loop-Sent}
use zephyr_siot.Nvs.Thread.{ZmsKeeps, IsUntouched, thread-SameAt}
use zephyr_siot.Nvs.Reboot.{
  ZmsMounts, IsWorking, IsElsewhere, restore-SameAt_other, restore_loop-SameAt, nvs_init-loop,
  nvs_init-nvs,
}
use zephyr_siot.Nvs.Laws.{ZmsLaws}
use zephyr_siot.Nvs.Boot.{
  boot_count_listener, in_flash, IsCounted, restore-boot_count, in_flash-boot_count,
}

module _ (zms : Zms) (laws : ZmsLaws zms) where
  in_flash-SameAt :
      (fs fs' : zms.Fs) (id c : ℕ)
      → SameAt zms id fs fs'
      → in_flash zms laws fs id ≡ c
      → in_flash zms laws fs' id ≡ c
  in_flash-SameAt fs fs' id c same e =
      Restore.read_value_lem zms fs' id
      ∙ ap (λ x. load32 (write_at_start zero_word x.1)) (same 4)
      ∙ sym (Restore.read_value_lem zms fs id)
      ∙ e

  -- A boot that logs a count: among the published points, behind those of the entries before and in front of
  -- those of the entries behind, is one for which the listener logs it.
  abbrev pub Logs : List NvsPoint → List NvsPoint → ℤ → List Point → Type 0
  Logs pts1 pts2 count published =
      (sent1 : List Point) × (sent2 : List Point) × (r : Point) × (Sent pts1 sent1)
      × (Sent pts2 sent2)
      × (published ≡ sent1 ++ (r ∷ sent2))
      × (boot_count_listener r ≡ some count)

  -- The entry counts the boots, and words can be written to it.
  pub record CountsBoots (n : NvsPoint) : Type 0 where
    pub of_int : n.def_data_type ≡ type_int
    pub of_boots : cstr n.def_type ≡ boot_count_s
    pub written :
        (fs : zms.Fs) (w : ℕ) → is_negative (zms.write fs n.nvs_id (store32 zero_word w)).1 ≡ false

  module _ (keeps : ZmsKeeps zms) (n : NvsPoint) (c : ℕ) where
    restore_loop-count :
        (fs : zms.Fs) (q : Point) (pts1 pts2 : List NvsPoint) (bufs : List NvsPoint → Bytes)
        → CountsBoots n
        → c < 2 ^ 32
        → IsElsewhere n.nvs_id pts1
        → IsElsewhere n.nvs_id pts2
        → IsPoint q
        → in_flash zms laws fs n.nvs_id ≡ c
        → let (after, published) = restore_loop zms fs q (pts1 ++ n ∷ pts2) bufs in
          Logs pts1 pts2 (of_word c) published
          × (in_flash zms laws after n.nvs_id ≡ (c + 1) % 2 ^ 32)
    unfolding restore_loop
    restore_loop-count fs q [] pts2 bufs counts lt h1 h2 v e =
        let buf = bufs (n ∷ pts2) in
        let (fs1, q1, sent) = restore zms fs q buf n in
        let small : in_flash zms laws fs n.nvs_id < 2 ^ 32 = omega (arith, e, lt) in
        let (one, logged) =
          restore-boot_count zms laws fs q n buf v counts.of_int counts.of_boots small in
        let ok : IsCounted zms laws fs n.nvs_id = counts.written (read_value zms fs n.nvs_id).0 _ in
        let next = in_flash-boot_count zms laws fs q n buf counts.of_int counts.of_boots ok in
        let v1 = (restore-Sent zms fs q buf n v).0 in
        (
          (
            [],
            (restore_loop zms fs1 q1 pts2 bufs).1,
            q1,
            nothing,
            restore_loop-Sent zms fs1 q1 pts2 bufs v1,
            ap (λ s. s ++ (restore_loop zms fs1 q1 pts2 bufs).1) one,
            logged ∙ ap (λ x. some (of_word x)) e,
          ),
          in_flash-SameAt fs1 _ n.nvs_id _
              (restore_loop-SameAt zms keeps fs1 q1 pts2 bufs n.nvs_id h2)
              (next ∙ ap (λ x. (x + 1) % 2 ^ 32) e),
        )
    restore_loop-count fs q (m ∷ pts1) pts2 bufs counts lt (h, h1) h2 v e =
        let buf = bufs (m ∷ (pts1 ++ n ∷ pts2)) in
        let (fs1, q1, sent) = restore zms fs q buf m in
        let (v1, s1) = restore-Sent zms fs q buf m v in
        let same = restore-SameAt_other zms keeps fs q buf m n.nvs_id h in
        let ((sent1, sent2, r, of1, of2, published, logged), next) =
          restore_loop-count fs1 q1 pts1 pts2 bufs counts lt h1 h2 v1
            (in_flash-SameAt fs fs1 n.nvs_id c same e) in
        (
          (
            sent ++ sent1,
            sent2,
            r,
            Sent-append s1 of1,
            of2,
            ap (λ s. sent ++ s) published ∙ sym (append_assoc sent sent1 (r ∷ sent2)),
            logged,
          ),
          next,
        )

    -- A boot logs the count that is in flash, and leaves the next one there.
    boot_lem :
        (flash : Flash) (v : Nvs zms) (pts1 pts2 : List NvsPoint) (bufs : List NvsPoint → Bytes)
        → ZmsMounts zms
        → IsWorking flash
        → (zms.mount v.fs).1 ≡ pos 0
        → CountsBoots n
        → c < 2 ^ 32
        → IsElsewhere n.nvs_id pts1
        → IsElsewhere n.nvs_id pts2
        → in_flash zms laws v.fs n.nvs_id ≡ c
        → let on = nvs_init zms flash v (pts1 ++ n ∷ pts2) bufs in
          (on.ret ≡ pos 0)
          × (on.nvs.pts ≡ pts1 ++ n ∷ pts2)
          × Logs pts1 pts2 (of_word c) on.published
          × (in_flash zms laws on.nvs.fs n.nvs_id ≡ (c + 1) % 2 ^ 32)
    boot_lem flash v pts1 pts2 bufs mounts working m counts lt h1 h2 e =
        let pts = pts1 ++ n ∷ pts2 in
        let mounted = (zms.mount v.fs).0 in
        let (ret, published) = nvs_init-loop zms keeps flash v pts bufs working m in
        let nvs = nvs_init-nvs zms keeps flash v pts bufs working m in
        let there =
          in_flash-SameAt v.fs mounted n.nvs_id c (λ len. mounts.read-mount v.fs n.nvs_id len m)
            e in
        let (logs, next) =
          restore_loop-count mounted zero_point pts1 pts2 bufs counts lt h1 h2 zero_point-IsPoint
            there in
        (
          ret,
          ap (λ x. x.pts) nvs,
          subst (Logs pts1 pts2 (of_word c)) (sym published) logs,
          ap (λ x. in_flash zms laws x.fs n.nvs_id) nvs ∙ next,
        )

  -- A boot logs one more than the one before, modulo 2^32 as an `int`: `nvs_init` publishes the count that
  -- is in flash, whatever points come over the bus then for other entries the store thread leaves the next
  -- count, and `nvs_init` publishes that one after a restart. The entry is the INT point "bootCount", the
  -- count is a 32-bit number, no other entry has its identifier, no point for it comes over the bus, the
  -- flash works, words can be written to the entry, and the file system can be mounted, reads back what
  -- was written and keeps the other entries.
  pub boot_count_rises :
      (keeps : ZmsKeeps zms) (flash : Flash) (v : Nvs zms) (pts1 pts2 : List NvsPoint)
      (n : NvsPoint) (c : ℕ) (bufs bufs' : List NvsPoint → Bytes) (ms : List (Bool × Point))
      → ZmsMounts zms
      → IsWorking flash
      → (zms.mount v.fs).1 ≡ pos 0
      → CountsBoots n
      → c < 2 ^ 32
      → IsElsewhere n.nvs_id pts1
      → IsElsewhere n.nvs_id pts2
      → in_flash zms laws v.fs n.nvs_id ≡ c
      → let pts = pts1 ++ n ∷ pts2 in
        let first_boot = nvs_init zms flash v pts bufs in
        IsUntouched zms keeps pts n.nvs_id ms
        → let off = nvs_store_thread zms first_boot.nvs ms in
          (zms.mount off.fs).1 ≡ pos 0
          → let second_boot = nvs_init zms flash (record off { pts = [] }) pts bufs' in
            (first_boot.ret ≡ pos 0)
            × (second_boot.ret ≡ pos 0)
            × Logs pts1 pts2 (of_word c) first_boot.published
            × Logs pts1 pts2 (of_word ((c + 1) % 2 ^ 32)) second_boot.published
  boot_count_rises keeps flash v pts1 pts2 n c bufs bufs' ms mounts working m counts lt h1 h2 e u
        m' =
      let pts = pts1 ++ n ∷ pts2 in
      let on = (nvs_init zms flash v pts bufs).nvs in
      let off = nvs_store_thread zms on ms in
      let (ret, same, logs, next) =
        boot_lem keeps n c flash v pts1 pts2 bufs mounts working m counts lt h1 h2 e in
      let untouched = subst (λ x. IsUntouched zms keeps x n.nvs_id ms) (sym same) u in
      let kept =
        in_flash-SameAt on.fs off.fs n.nvs_id _ (thread-SameAt zms keeps on n.nvs_id ms untouched)
          next in
      let (ret', _, logs', _) =
        boot_lem keeps n ((c + 1) % 2 ^ 32) flash (record off { pts = [] }) pts1 pts2 bufs' mounts
          working m' counts (omega arith) h1 h2 kept in
      (ret, ret', logs, logs')
