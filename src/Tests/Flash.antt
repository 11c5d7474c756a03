-- ===== src/Tests/Flash.antt =====
-- Points in flash.
use zephyr_siot.Base.{
  ℕ, ◌≤◌, ◌≡◌, refl, true, false, ◌≢◌, [], ◌∷◌, length, take, arith, ◌==◌, if◌then◌else◌,
}
use zephyr_siot.Base.Int.{pos}
use zephyr_siot.CString.{Bytes}
use zephyr_siot.Point.{Point, point_put_int}
use zephyr_siot.Json.Unescape.RoundTrip.{take-le}
use zephyr_siot.Nvs.{Zms, NvsPoint, Nvs}
use zephyr_siot.Nvs.Laws.{ZmsLaws}
use zephyr_siot.Nvs.Thread.{ZmsKeeps}
use zephyr_siot.Tests.{temp_s, one_s, humid_s, temp}

-- A file system in memory: what stands at each identifier.
abbrev pub write_at : (ℕ → Bytes) → ℕ → Bytes → ℕ → Bytes
write_at fs id bytes i = if i == id then bytes else fs i

abbrev pub memory : Zms
memory = record {
  Fs = ℕ → Bytes;
  mount = λ fs. (fs, pos 0);
  read = λ fs id len. (pos (length (take len (fs id))), take len (fs id));
  write = λ fs id bytes. (write_at fs id bytes, pos (length bytes));
}

pub memory-ZmsLaws : ZmsLaws memory
memory-ZmsLaws = record { read-write = λ fs id len bytes h k ok. read_back fs id len bytes k }
  where
    read_back :
        (fs : ℕ → Bytes) (id len : ℕ) (bytes : Bytes)
        → length bytes ≤ len
        → memory.read (write_at fs id bytes) id len ≡ (pos (length bytes), bytes)
    read_back fs id len bytes k =
        let same : (id == id) ≡ true = ground arith in rw (same, take-le len bytes k) refl

abbrev pub entry : NvsPoint
entry = record { nvs_id = 5; def_type = temp_s; def_data_type = 2; key = one_s }

pub memory-ZmsKeeps : ZmsKeeps memory
memory-ZmsKeeps = record { read-other = λ fs id id' len bytes h. untouched fs id id' len bytes h }
  where
    untouched :
        (fs : ℕ → Bytes) (id id' len : ℕ) (bytes : Bytes)
        → id ≢ id'
        → memory.read (write_at fs id' bytes) id len ≡ memory.read fs id len
    untouched fs id id' len bytes h =
        let other : (id == id') ≡ false = ground arith in rw other refl

-- The value that `temp` had before.
abbrev pub older : Point
older = point_put_int temp (pos 3)

abbrev pub text_entry : NvsPoint
text_entry = record { nvs_id = 6; def_type = humid_s; def_data_type = 3; key = one_s }

abbrev pub text_flash : Nvs memory
text_flash = record { fs = λ i. []; pts = entry ∷ text_entry ∷ [] }
