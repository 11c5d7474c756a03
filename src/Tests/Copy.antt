-- ===== src/Tests/Copy.antt =====
-- A cache with two points, of which one has a time, and a free slot, copied to a device whose cache has a
-- point under another name.
use zephyr_siot.Base.{ℕ, ◌+◌, ◌*◌, ◌-◌, ◌≤◌, false, [], ◌∷◌, length, arith}
use zephyr_siot.CString.{first}
use zephyr_siot.Point.{Point, zero_point, is_empty}
use zephyr_siot.Point.Merge.View.Order.{free}
use zephyr_siot.Base.Int.{ℤ, pos, abs}
use zephyr_siot.Timeconv.{Tm, Civil}
use zephyr_siot.Cache.{Cache}
use zephyr_siot.Cache.Laws.{occupied}
use zephyr_siot.Tests.{temp, named, blank}

-- 2020-01-03T00:01:05.5Z
abbrev instant : ℕ
instant = 1578009665500000000

abbrev dated : Point
dated = record named { time = instant }

abbrev cache : Cache
cache = record { slots = temp ∷ zero_point ∷ dated ∷ []; streaming = false }

-- A `timegm` for January 2020.
abbrev timegm_2020 : Tm → ℤ
timegm_2020 t =
    pos (1577836800 + (t.tm_mday - 1) * 86400 + t.tm_hour * 3600 + t.tm_min * 60 + t.tm_sec)

abbrev triple : Civil → ℕ × ℕ × ℕ
triple c = (abs c.year, c.month, c.day)

-- The point in it has a blank key.
abbrev other : Cache
other = record { slots = blank ∷ zero_point ∷ zero_point ∷ []; streaming = false }

room : length (occupied cache.slots) ≤ free other.slots
unfolding occupied free is_empty first
room = omega arith
