-- ===== src/Tests/Reboot.antt =====
-- Restarts with entries of the three kinds in flash.
use zephyr_siot.Base.{◌≡◌, ◌≢◌, refl, true, false, List, [], ◌∷◌, arith, replicate, bytes_eq}
use zephyr_siot.Base.Int.{pos, of_word}
use zephyr_siot.CString.{Bytes, cstr, first}
use zephyr_siot.Point.{
  Point, IsPoint, type_int, type_string, type_float, point_get_int, point_get_float, load32,
}
use zephyr_siot.Json.PointJs.RoundTrip.{IsTerminated}
use zephyr_siot.Nvs.{
  Flash, NvsPoint, Nvs, point_type_key_to_nvs_id, boot_count_s, read_value, nvs_init,
  nvs_store_thread,
}
use zephyr_siot.Nvs.Boot.Rises.{CountsBoots, Logs, boot_count_rises}
use zephyr_siot.Nvs.Thread.{IsUntouched}
use zephyr_siot.Nvs.Reboot.{ZmsMounts, IsWorking, IsElsewhere}
use zephyr_siot.Nvs.Reboot.Values.{
  IsEntry, Republished, nvs_init-thread_int, nvs_init-thread_float, nvs_init-thread_string,
}
use zephyr_siot.Tests.{field, one_s, humid_s, slash_s, temp, named, temp-IsPoint, named-IsPoint}
use zephyr_siot.Nvs.Sent.{AreNamed, AreOther}
use zephyr_siot.Startup.{Cached, startup_int}
use zephyr_siot.Tests.Strings.{hundredths}
use zephyr_siot.Tests.Wire.{temp-IsTerminated, named-IsTerminated}
use zephyr_siot.Tests.Flash.{
  memory, memory-ZmsLaws, memory-ZmsKeeps, entry, older, text_entry, text_flash,
}

memory-ZmsMounts : ZmsMounts memory
memory-ZmsMounts = record { read-mount = λ fs id len h. refl }

-- A partition of four pages.
abbrev board : Flash
board = record { is_ready = true; page_info = pos 0; page_size = 4096; partition_size = 16384 }

board-IsWorking : IsWorking board
board-IsWorking = (refl, refl, omega arith)

abbrev bufs : List NvsPoint → Bytes
bufs pts = replicate 20 7

-- 21.0 as a float.
abbrev level : Point
level = record {
  time = 0;
  type = field 24 slash_s;
  key = field 23 one_s;
  data_type = 1;
  payload = field 20 (0 ∷ 0 ∷ 168 ∷ 65 ∷ []);
}

level-IsPoint : IsPoint level
level-IsPoint = record { type_len = refl; key_len = refl; data_len = refl }

level-IsTerminated : IsTerminated level
unfolding cstr
level-IsTerminated = record {
  type_ends = omega arith;
  key_ends = omega arith;
  data_ends = omega arith;
}

abbrev level_entry : NvsPoint
level_entry = record { nvs_id = 7; def_type = slash_s; def_data_type = 1; key = one_s }

abbrev level_flash : Nvs memory
level_flash = record { fs = λ i. []; pts = entry ∷ level_entry ∷ text_entry ∷ [] }

temp-IsEntry : IsEntry text_flash.pts entry temp
unfolding point_type_key_to_nvs_id cstr bytes_eq
temp-IsEntry = record { leads_to = refl; same_type = refl; same_key = refl }

named-IsEntry : IsEntry text_flash.pts text_entry named
unfolding point_type_key_to_nvs_id cstr bytes_eq
named-IsEntry = record { leads_to = refl; same_type = refl; same_key = refl }

level-IsEntry : IsEntry level_flash.pts level_entry level
unfolding point_type_key_to_nvs_id cstr bytes_eq
level-IsEntry = record { leads_to = refl; same_type = refl; same_key = refl }

level-IsElsewhere : IsElsewhere 7 (entry ∷ [])
level-IsElsewhere = omega arith

named-IsElsewhere : IsElsewhere 6 (entry ∷ [])
named-IsElsewhere = omega arith

after_temp :
    IsUntouched memory memory-ZmsKeeps text_flash.pts 5 ((false, older) ∷ (true, named) ∷ [])
unfolding point_type_key_to_nvs_id cstr bytes_eq
after_temp = ((λ e. absurd cc), ((λ _ e. ground arith), tt))

after_level : IsUntouched memory memory-ZmsKeeps level_flash.pts 7 ((true, named) ∷ [])
unfolding point_type_key_to_nvs_id cstr bytes_eq
after_level = ((λ _ e. ground arith), tt)

after_named : IsUntouched memory memory-ZmsKeeps text_flash.pts 6 ((true, temp) ∷ [])
unfolding point_type_key_to_nvs_id cstr bytes_eq
after_named = ((λ _ e. ground arith), tt)

nvs_init-thread_int_example :
    Republished memory memory-ZmsLaws memory-ZmsKeeps memory-ZmsMounts board text_flash
      ((true, older) ∷ [])
      ((false, older) ∷ (true, named) ∷ [])
      temp
      ([])
      (text_entry ∷ [])
      entry
      bufs
      board-IsWorking
      refl
      tt
      after_temp
      refl
      temp-IsPoint
      temp-IsTerminated
      temp-IsEntry
      (λ r. (r.data_type ≡ type_int) × (point_get_int r ≡ point_get_int temp))
unfolding point_type_key_to_nvs_id cstr bytes_eq point_get_int point_get_float load32
nvs_init-thread_int_example =
    nvs_init-thread_int memory memory-ZmsLaws memory-ZmsKeeps memory-ZmsMounts board text_flash
      ((true, older) ∷ []) ((false, older) ∷ (true, named) ∷ []) temp ([]) (text_entry ∷ []) entry
      bufs board-IsWorking refl tt after_temp refl temp-IsPoint temp-IsTerminated temp-IsEntry refl
      (omega arith) refl refl

nvs_init-thread_float_example :
    Republished memory memory-ZmsLaws memory-ZmsKeeps memory-ZmsMounts board level_flash
      ((true, older) ∷ [])
      ((true, named) ∷ [])
      level
      (entry ∷ [])
      (text_entry ∷ [])
      level_entry
      bufs
      board-IsWorking
      refl
      level-IsElsewhere
      after_level
      refl
      level-IsPoint
      level-IsTerminated
      level-IsEntry
      (λ r. (r.data_type ≡ type_float) × (point_get_float r ≡ point_get_float level))
unfolding point_type_key_to_nvs_id cstr bytes_eq point_get_int point_get_float load32
nvs_init-thread_float_example =
    nvs_init-thread_float memory memory-ZmsLaws memory-ZmsKeeps memory-ZmsMounts board level_flash
      ((true, older) ∷ []) ((true, named) ∷ []) level (entry ∷ []) (text_entry ∷ []) level_entry
      bufs board-IsWorking refl level-IsElsewhere after_level refl level-IsPoint level-IsTerminated
      level-IsEntry refl (omega arith) refl refl

nvs_init-thread_string_example :
    Republished memory memory-ZmsLaws memory-ZmsKeeps memory-ZmsMounts board text_flash
      ([])
      ((true, temp) ∷ [])
      named
      (entry ∷ [])
      ([])
      text_entry
      bufs
      board-IsWorking
      refl
      named-IsElsewhere
      after_named
      refl
      named-IsPoint
      named-IsTerminated
      named-IsEntry
      (λ r. (r.data_type ≡ type_string) × (cstr r.payload ≡ cstr named.payload))
unfolding point_type_key_to_nvs_id cstr bytes_eq point_get_int point_get_float load32
nvs_init-thread_string_example =
    nvs_init-thread_string memory memory-ZmsLaws memory-ZmsKeeps memory-ZmsMounts board text_flash
      ([]) ((true, temp) ∷ []) named (entry ∷ []) ([]) text_entry bufs board-IsWorking refl
      named-IsElsewhere after_named refl named-IsPoint named-IsTerminated named-IsEntry refl refl
      refl

abbrev version : Bytes
version = b'v' ∷ b'1' ∷ []

text_flash-AreNamed : AreNamed text_flash.pts
unfolding first
text_flash-AreNamed = omega arith

behind-AreOther : AreOther (cstr temp.type) (cstr temp.key) (text_entry ∷ [])
unfolding cstr bytes_eq
behind-AreOther = (refl, tt)

startup_int_example :
    Cached memory memory-ZmsLaws memory-ZmsKeeps memory-ZmsMounts board text_flash
      ((true, older) ∷ [])
      ((false, older) ∷ (true, named) ∷ [])
      temp
      ([])
      (text_entry ∷ [])
      entry
      bufs
      board-IsWorking
      refl
      tt
      after_temp
      refl
      temp-IsPoint
      temp-IsTerminated
      temp-IsEntry
      hundredths
      true
      []
      humid_s
      version
      version
      8
      (λ r. (r.data_type ≡ type_int) × (point_get_int r ≡ point_get_int temp))
unfolding point_get_int load32
startup_int_example =
    startup_int memory memory-ZmsLaws memory-ZmsKeeps memory-ZmsMounts board text_flash
      ((true, older) ∷ []) ((false, older) ∷ (true, named) ∷ []) temp ([]) (text_entry ∷ []) entry
      bufs board-IsWorking refl tt after_temp refl temp-IsPoint temp-IsTerminated temp-IsEntry
      hundredths true [] humid_s version version 8 refl (omega arith) refl refl text_flash-AreNamed
      behind-AreOther (omega arith)

-- The count of the boots is 7 in flash, and another entry stands in front.
abbrev boot_entry : NvsPoint
boot_entry = record { nvs_id = 1; def_type = boot_count_s; def_data_type = 2; key = b'0' ∷ [] }

abbrev seven_boots : Nvs memory
seven_boots = record { fs = λ i. 7 ∷ 0 ∷ 0 ∷ 0 ∷ []; pts = [] }

boot_entry-CountsBoots : CountsBoots memory memory-ZmsLaws boot_entry
unfolding cstr
boot_entry-CountsBoots = record { of_int = refl; of_boots = refl; written = λ fs w. refl }

temp_elsewhere :
    true ≡ true → point_type_key_to_nvs_id (entry ∷ boot_entry ∷ []) temp.type temp.key ≢ pos 1
unfolding point_type_key_to_nvs_id cstr bytes_eq
temp_elsewhere h e = ground (arith, e)

boot_count_rises_example :
    let pts = entry ∷ boot_entry ∷ [] in
    let first_boot = nvs_init memory board seven_boots pts bufs in
    let off = nvs_store_thread memory first_boot.nvs ((true, temp) ∷ []) in
    let second_boot = nvs_init memory board (record off { pts = [] }) pts bufs in
    (first_boot.ret ≡ pos 0)
    × (second_boot.ret ≡ pos 0)
    × Logs memory memory-ZmsLaws (entry ∷ []) [] (of_word 7) first_boot.published
    × Logs memory memory-ZmsLaws (entry ∷ []) [] (of_word 8) second_boot.published
unfolding read_value load32 nvs_init nvs_store_thread
boot_count_rises_example =
    boot_count_rises memory memory-ZmsLaws memory-ZmsKeeps board seven_boots (entry ∷ []) []
      boot_entry 7 bufs bufs ((true, temp) ∷ []) memory-ZmsMounts board-IsWorking refl
      boot_entry-CountsBoots (omega arith) ((λ e. cc), tt) tt refl (temp_elsewhere, tt) refl
