-- ===== src/Tests.antt =====
-- Concrete points, texts and parameters, and the theorems of the library applied to them.
mod Points
mod Strings
mod Wire
mod Console
mod Forms
mod Flash
mod Reboot
mod Refused
mod Get
mod Ticker
mod Cloud
mod Web
mod Logs
mod Mirror
mod Shell
mod Copy
use zephyr_siot.Base.{ℕ, ◌≡◌, refl, List, [], ◌∷◌, replicate, ◌++◌, length, drop}
use zephyr_siot.CString.{Bytes}
use zephyr_siot.Point.{
  Point, zero_point, IsPoint, point_set_type_key, point_put_int, point_put_string,
}

-- "temp", "1", "humid" and "a/b".
abbrev pub temp_s : Bytes
temp_s = b't' ∷ b'e' ∷ b'm' ∷ b'p' ∷ []

abbrev pub one_s : Bytes
one_s = b'1' ∷ []

abbrev pub humid_s : Bytes
humid_s = b'h' ∷ b'u' ∷ b'm' ∷ b'i' ∷ b'd' ∷ []

abbrev pub slash_s : Bytes
slash_s = b'a' ∷ b'/' ∷ b'b' ∷ []

-- A field of `n` bytes with a text in it.
abbrev pub field : ℕ → Bytes → Bytes
field n s = s ++ drop (length s) (replicate n 0)

-- A temperature of 21, one of 22 with a blank key, and a text.
abbrev pub temp : Point
temp = record {
  time = 0;
  type = field 24 temp_s;
  key = field 23 one_s;
  data_type = 2;
  payload = field 20 (21 ∷ []);
}

abbrev pub blank : Point
blank = record {
  time = 0;
  type = field 24 temp_s;
  key = field 23 [];
  data_type = 2;
  payload = field 20 (22 ∷ []);
}

abbrev pub named : Point
named = record {
  time = 0;
  type = field 24 humid_s;
  key = field 23 one_s;
  data_type = 3;
  payload = field 20 slash_s;
}

-- A point whose data type is unknown.
abbrev pub unknown : Point
unknown = record {
  time = 0;
  type = field 24 humid_s;
  key = field 23 one_s;
  data_type = 0;
  payload = field 20 [];
}

pub temp-IsPoint : IsPoint temp
temp-IsPoint = record { type_len = refl; key_len = refl; data_len = refl }

pub blank-IsPoint : IsPoint blank
blank-IsPoint = record { type_len = refl; key_len = refl; data_len = refl }

pub named-IsPoint : IsPoint named
named-IsPoint = record { type_len = refl; key_len = refl; data_len = refl }
