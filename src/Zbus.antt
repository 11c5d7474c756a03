-- ===== src/Zbus.antt =====
-- lib/zbus.c: the points that `bus_init` publishes when the system starts. The name of the board and the two
-- texts of the version are set when the firmware is built.
pub mod Ticker
use zephyr_siot.Base.{
  ◌≡◌, refl, ◌∙◌, Bool, false, ◌&&◌, ◌||◌, List, [], ◌∷◌, ◌==◌, if◌then◌else◌, take, arith,
}
use zephyr_siot.CString.{Bytes, cstr}
use zephyr_siot.CString.Laws.{copy_str_field_lem}
use zephyr_siot.Point.{
  data_size, Point, IsPoint, zero_point, type_string, point_set_type_key, point_put_string,
}
use zephyr_siot.Point.Fields.{zero_point-IsPoint, point_set_type_key_lem}

-- POINT_TYPE_BOARD
abbrev pub board_s : Bytes
board_s = b'b' ∷ b'o' ∷ b'a' ∷ b'r' ∷ b'd' ∷ []

-- POINT_TYPE_VERSION_FW
abbrev pub version_fw_s : Bytes
version_fw_s = b'v' ∷ b'e' ∷ b'r' ∷ b's' ∷ b'i' ∷ b'o' ∷ b'n' ∷ b'F' ∷ b'W' ∷ []

-- "0"
abbrev pub zero_s : Bytes
zero_s = b'0' ∷ []

-- `strstr(s, "dev") > 0`
unfoldable pub has_dev : Bytes → Bool
has_dev [] = false
has_dev (c ∷ []) = false
has_dev (c ∷ d ∷ []) = false
has_dev (c ∷ d ∷ e ∷ s) = (c == b'd' && d == b'e' && e == b'v') || has_dev (d ∷ e ∷ s)

-- What is published, in order.
unfoldable pub bus_init : Bytes → Bytes → Bytes → List Point
unfolding has_dev
bus_init board version_extended version =
    let p1 = point_put_string (point_set_type_key zero_point board_s zero_s) board in
    let v = if has_dev (cstr version_extended) then version_extended else version in
    let p2 = point_put_string (point_set_type_key p1 version_fw_s zero_s) v in p1 ∷ p2 ∷ []

-- A text point with the name `t`, the key "0" and the text `v`, cut to the field.
pub record IsTextPoint (t v : Bytes) (p : Point) : Type 0 where
  pub sizes : IsPoint p
  pub named : cstr p.type ≡ take 23 t
  pub keyed : cstr p.key ≡ zero_s
  pub untimed : p.time ≡ 0
  pub typed : p.data_type ≡ type_string
  pub worded : cstr p.payload ≡ take 19 (cstr v)

put-IsTextPoint :
    (p : Point) (t v : Bytes)
    → IsPoint p
    → p.time ≡ 0
    → IsTextPoint (cstr t) v (point_put_string (point_set_type_key p t zero_s) v)
unfolding point_put_string
put-IsTextPoint p t v w z =
    let q = point_set_type_key p t zero_s in
    let (sizes, type, key, time, _, _) = point_set_type_key_lem p t zero_s w in
    let (text, len, _) =
      copy_str_field_lem q.payload v data_size (omega arith) (omega (arith, sizes.data_len)) in
    record {
      sizes = record {
        type_len = sizes.type_len;
        key_len = sizes.key_len;
        data_len = len ∙ sizes.data_len;
      };
      named = type;
      keyed = key ∙ (unfold cstr in refl);
      untimed = time ∙ z;
      typed = refl;
      worded = text;
    }

-- What the second point holds.
abbrev pub firmware : Bytes → Bytes → Bytes
firmware version_extended version =
    if has_dev (cstr version_extended) then version_extended else version

-- Two points are published: the name of the board, and then the version of the firmware, the long one if
-- it has "dev" in it. Each is a text point with the key "0", cut to its field.
pub bus_init-IsTextPoint :
    (board version_extended version : Bytes)
    → (p1 p2 : Point) × (bus_init board version_extended version ≡ p1 ∷ p2 ∷ [])
      × IsTextPoint board_s board p1
      × IsTextPoint version_fw_s (firmware version_extended version) p2
unfolding bus_init
bus_init-IsTextPoint board version_extended version =
    let p1 = point_put_string (point_set_type_key zero_point board_s zero_s) board in
    let one = put-IsTextPoint zero_point board_s board zero_point-IsPoint refl in
    let v = firmware version_extended version in
    let two = put-IsTextPoint p1 version_fw_s v one.sizes one.untimed in
    (
      p1,
      point_put_string (point_set_type_key p1 version_fw_s zero_s) v,
      refl,
      unfold cstr in one,
      unfold cstr in two,
    )
