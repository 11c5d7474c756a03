-- ===== src/Nvs/Boot.antt =====
-- The count of the boots in one of them: lib/nvs.c, and the listener of apps/siot-simple/src/main.c.
pub mod Rises
use mathlib.Core.Path.{subst}
use zephyr_siot.Base.{
  List, Bool, sym, ◌++◌, append_assoc, ℕ, ◌+◌, ◌%◌, ◌^◌, ◌<◌, ◌≡◌, refl, ap, ◌∙◌, true, false,
  Option, none, some, [], ◌∷◌, if◌then◌else◌, length, take, arith, bytes_eq,
}
use zephyr_siot.Base.Int.{ℤ, pos, is_negative, of_word, of_word-IsInt}
use zephyr_siot.CString.{Bytes, cstr, write_at_start}
use zephyr_siot.Point.{
  Point, zero_point, IsPoint, type_int, load32, store32, point_get_int, point_put_int,
  point_set_type_key,
}
use zephyr_siot.Point.Fields.{
  zero_point-IsPoint, load32-store32, length-store32, point_set_type_key_lem, point_get_int-put_int,
}
use zephyr_siot.Nvs.{
  Zms, Flash, Nvs, restore_loop, nvs_init, nvs_store_thread, NvsPoint, strcmp_eq, boot_count_s,
  zero_word, read_value, count_boot, restore,
}
use zephyr_siot.Nvs.Restore
use zephyr_siot.Nvs.Restore.{SameAt}
use zephyr_siot.Nvs.Sent.{Sent, nothing, Sent-append, restore-Sent, restore_loop-Sent}
use zephyr_siot.Nvs.Thread.{ZmsKeeps, IsUntouched, thread-SameAt}
use zephyr_siot.Nvs.Reboot.{
  ZmsMounts, IsWorking, IsElsewhere, restore-SameAt_other, restore_loop-SameAt, nvs_init-loop,
  nvs_init-nvs,
}
use zephyr_siot.Nvs.Laws.{ZmsLaws}

-- What `boot_count_listener` logs for a point that was published.
unfoldable pub boot_count_listener : Point → Option ℤ
boot_count_listener p = if strcmp_eq p.type boot_count_s then some (point_get_int p) else none

module _ (zms : Zms) (laws : ZmsLaws zms) where
  -- The number that stands in flash.
  abbrev pub in_flash : zms.Fs → ℕ → ℕ
  in_flash fs id = (read_value zms fs id).1

  -- The next count, as it is written.
  abbrev pub next_count : zms.Fs → ℕ → ℕ
  next_count fs id = (in_flash fs id + 1) % 2 ^ 32

  -- The write of the next count succeeds.
  abbrev pub IsCounted : zms.Fs → ℕ → Type 0
  IsCounted fs id =
      is_negative (zms.write (read_value zms fs id).0 id (store32 zero_word (next_count fs id))).1
      ≡ false

  is_boot_count :
      (n : NvsPoint) → cstr n.def_type ≡ boot_count_s → strcmp_eq boot_count_s n.def_type ≡ true
  unfolding bytes_eq
  is_boot_count n e = rw e (unfold cstr in refl)

  -- What a boot publishes and logs.
  pub restore-boot_count :
      (fs : zms.Fs) (p : Point) (n : NvsPoint) (buf : Bytes)
      → IsPoint p
      → n.def_data_type ≡ type_int
      → cstr n.def_type ≡ boot_count_s
      → in_flash fs n.nvs_id < 2 ^ 32
      → let (fs', r, sent) = restore zms fs p buf n in
        (sent ≡ r ∷ []) × (boot_count_listener r ≡ some (of_word (in_flash fs n.nvs_id)))
  unfolding restore boot_count_listener bytes_eq
  restore-boot_count fs p n buf v d e h =
      let w = of_word (in_flash fs n.nvs_id) in
      let q = point_put_int p w in
      let put = point_get_int-put_int p w v (of_word-IsInt (in_flash fs n.nvs_id) h) in
      let names = point_set_type_key_lem q n.def_type n.key put.0 in
      let r = point_set_type_key q n.def_type n.key in
      let type : cstr r.type ≡ boot_count_s = names.1 ∙ ap (take 23) e in
      let kept : point_get_int r ≡ point_get_int q =
        unfold point_get_int in ap (λ b. of_word (load32 b)) names.5 in
      let value : point_get_int r ≡ w = kept ∙ put.1 in
      rw d (refl, rw type (rw value (unfold cstr in refl)))

  read_value_lem :
      (fs : zms.Fs) (id : ℕ) (b : Bytes)
      → zms.read fs id 4 ≡ (pos (length b), b)
      → (read_value zms fs id).1 ≡ load32 (write_at_start zero_word b)
  unfolding read_value
  read_value_lem fs id b e = rw e refl

  -- A word that is written is in flash.
  in_flash-write :
      (fs : zms.Fs) (id w : ℕ)
      → w < 2 ^ 32
      → is_negative (zms.write fs id (store32 zero_word w)).1 ≡ false
      → in_flash (zms.write fs id (store32 zero_word w)).0 id ≡ w
  in_flash-write fs id w h ok =
      let four : length (store32 zero_word w) ≡ 4 = length-store32 zero_word w in
      let got =
        laws.read-write fs id 4 (store32 zero_word w) (omega (arith, four)) (omega (arith, four))
          ok in
      let same : write_at_start zero_word (store32 zero_word w) ≡ store32 zero_word w =
        unfold store32 in refl in
      read_value_lem _ id (store32 zero_word w) got
      ∙ ap load32 same
      ∙ load32-store32 zero_word w (omega arith) h

  -- What stands in flash behind a boot.
  pub in_flash-boot_count :
      (fs : zms.Fs) (p : Point) (n : NvsPoint) (buf : Bytes)
      → n.def_data_type ≡ type_int
      → cstr n.def_type ≡ boot_count_s
      → IsCounted fs n.nvs_id
      → in_flash (restore zms fs p buf n).0 n.nvs_id ≡ next_count fs n.nvs_id
  in_flash-boot_count fs p n buf d e ok =
      let f = (read_value zms fs n.nvs_id).0 in
      let counted : (restore zms fs p buf n).0 ≡ count_boot zms f n (in_flash fs n.nvs_id) =
        unfold restore in rw d refl in
      let written : count_boot zms f n (in_flash fs n.nvs_id)
          ≡ (zms.write f n.nvs_id (store32 zero_word (next_count fs n.nvs_id))).0 =
        unfold count_boot in rw (is_boot_count n e) refl in
      ap (λ x. in_flash x n.nvs_id) (counted ∙ written)
      ∙ in_flash-write f n.nvs_id (next_count fs n.nvs_id) (omega arith) ok
