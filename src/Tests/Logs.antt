-- ===== src/Tests/Logs.antt =====
-- Texts of points, the directory of a card, the wave, and what is published at the start.
use zephyr_siot.Base.{
  ℕ, zero, suc, ◌+◌, ◌*◌, ◌%◌, ◌≡◌, refl, true, false, some, [], ◌∷◌, ◌++◌, ltb, length, replicate,
  arith,
}
use zephyr_siot.Base.Int.{ℤ, pos}
use zephyr_siot.CString.{Bytes, cstr, first}
use zephyr_siot.Point.{Point, is_empty}
use zephyr_siot.Point.Dump.{Printf, Out, key_text, point_dump, points_dump, data_text}
use zephyr_siot.Point.Dump.Overrun.{point_dump-overran}
use zephyr_siot.Point.Dump.Several.{dumps, points_dump_fits}
use zephyr_siot.SdCard.{Card, Entry, probe, mounted, sd_card_init, gives_entry, sd_card_init_ends}
use zephyr_siot.Siggen.{wave_max, gen_triangle, triangle, gen_triangle-triangle}
use zephyr_siot.Tests.{temp_s, named, field}

-- Every number is "7".
abbrev sevens : Printf
sevens = record { percent_i = λ z. b'7' ∷ []; percent_f = λ w. b'7' ∷ [] }

abbrev out : Out
out = record { buf = replicate 40 1; overran = false }

-- A type of 23 characters, a key of 22 and a text of 19.
abbrev long_named : Point
long_named = record {
  time = 0;
  type = field 24 (replicate 23 b't');
  key = field 23 (replicate 22 b'k');
  data_type = 3;
  payload = field 20 (replicate 19 b'd');
}

point_dump-overran_example :
    (point_dump sevens long_named out 0 40).0.overran
    ≡ ltb 39 (length (cstr long_named.type) + length (key_text (cstr long_named.key)))
point_dump-overran_example =
    point_dump-overran sevens long_named out 0 40 (omega arith) (omega arith) (omega arith) refl

-- The buffer of LOG_DBG_POINT, of 40 bytes, is too small for it.
long_named_overran :
    ltb 39 (length (cstr long_named.type) + length (key_text (cstr long_named.key))) ≡ true
unfolding cstr
long_named_overran = refl

-- So is the buffer of LOG_DBG_POINTS, of 128 bytes, for two of them.
two_overran :
    (points_dump sevens
      (long_named ∷ long_named ∷ [])
      (record { buf = replicate 128 1; overran = false })
      128).0.overran
    ≡ true
unfolding points_dump cstr is_empty first point_dump data_text
two_overran = refl

points_dump_fits_example :
    (rest : Bytes) × (points_dump sevens (named ∷ []) out 40 ≡ (
      record out { buf = dumps sevens (named ∷ []) ++ 0 ∷ rest },
      pos (length (dumps sevens (named ∷ []))),
    ))
unfolding dumps cstr is_empty first data_text
points_dump_fits_example = points_dump_fits sevens (named ∷ []) out (omega arith)

abbrev file : Entry
file = record { is_dir = false; name = temp_s; size = 12 }

abbrev no_file : Entry
no_file = record { is_dir = false; name = []; size = 0 }

abbrev reads : ℕ → ℤ × Entry
reads zero = (pos 0, file)
reads (suc n) = (pos 0, no_file)

abbrev card : Card
card = record {
  ctrl_init = pos 0;
  sector_count = (pos 0, 8388608);
  sector_size = (pos 0, 512);
  ctrl_deinit = pos 0;
  fs_mount = pos 0;
  fs_opendir = pos 0;
  fs_readdir = reads;
}

sd_card_init_ends_example : sd_card_init 5 card ≡ some (probe card ++ mounted card 1)
unfolding gives_entry first
sd_card_init_ends_example = sd_card_init_ends 5 card 1 (refl, refl) (omega arith)

gen_triangle-triangle_example :
    gen_triangle 1300
    ≡ record { up = ltb (1300 % (2 * wave_max)) wave_max; value = pos (triangle 1300) }
gen_triangle-triangle_example = gen_triangle-triangle 1300

-- "v1-dev" and "v1".
abbrev dev_version : Bytes
dev_version = b'v' ∷ b'1' ∷ b'-' ∷ b'd' ∷ b'e' ∷ b'v' ∷ []

abbrev version : Bytes
version = b'v' ∷ b'1' ∷ []
