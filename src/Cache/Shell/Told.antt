-- ===== src/Cache/Shell/Told.antt =====
-- The `pt` line of one point, and what it publishes as a `p` command.
pub mod Published
use zephyr_siot.Base.{
  sym, List, ◌^◌, ◌++◌, append-nil, append_assoc, ◌≤◌, ◌<◌, ◌≡◌, ◌≢◌, refl, ◌==◌, true, false, some,
  [], ◌∷◌, length-append, ◌⊎◌, inl, inr,
}
use zephyr_siot.Base.Int.{ℤ, pos, IsInt}
use zephyr_siot.CString.{Bytes, cstr, first}
use zephyr_siot.Point.{Point, IsPoint, is_empty, is_unknown, type_int, type_string, point_get_int}
use zephyr_siot.Point.Merge.{default_key}
use zephyr_siot.Point.Merge.View.{is_usable, has_name}
use zephyr_siot.SiotString.RoundTrip.{int_min}
use zephyr_siot.SiotString.Float.{Floats}
use zephyr_siot.Timeconv.{Tm}
use zephyr_siot.Json.Unescape.{unescaped}
use zephyr_siot.Json.PointJs.RoundTrip.{IsTerminated}
use zephyr_siot.Cache.Shell.{Line, text, point_emit, point_time_min, handle_sendpoint}
use zephyr_siot.Cache.Shell.Argv.{p_s, IsReadable, AreBare, printed-AreBare}
use zephyr_siot.Timeconv.Printed.{Knows, length-printed}
use zephyr_siot.Cache.Shell.Sizes.{handle_sendpoint-IsPoint}

-- A point that a `pt` line tells completely: its strings end inside their fields, it has a key, no plausible
-- timestamp or one that `timeutil_timegm64` knows, an integer other than INT_MIN or a text, and the shell
-- reads the words of its type, its key and its text.
pub record IsTold (timegm : Tm → ℤ) (p : Point) : Type 0 where
  pub ends : IsTerminated p
  pub keyed : (first p.key == 0) ≡ false
  pub when :
      (p.time < point_time_min)
      ⊎ ((point_time_min ≤ p.time) × (p.time < 2 ^ 64) × Knows timegm p.time)
  pub type_read : IsReadable (cstr p.type)
  pub key_read : IsReadable (cstr p.key)
  pub value :
      ((p.data_type ≡ type_int) × IsInt (point_get_int p) × (point_get_int p ≢ int_min))
      ⊎ ((p.data_type ≡ type_string) × IsReadable (cstr p.payload))

-- A point of the same name, data type, value and time; a time that is not plausible is left out.
pub record IsCopy (p q : Point) : Type 0 where
  pub same_type : cstr q.type ≡ cstr p.type
  pub same_key : cstr q.key ≡ cstr p.key
  pub same_data_type : q.data_type ≡ p.data_type
  pub same_value :
      ((p.data_type ≡ type_int) × (point_get_int q ≡ point_get_int p))
      ⊎ ((p.data_type ≡ type_string) × (cstr q.payload ≡ cstr p.payload))
  pub same_time :
      ((p.time < point_time_min) × (q.time ≡ 0)) ⊎ ((point_time_min ≤ p.time) × (q.time ≡ p.time))

-- A point with a type and one of the two data types is usable.
pub usable_lem :
    (q : Point)
    → is_empty q ≡ false
    → (q.data_type ≡ type_int) ⊎ (q.data_type ≡ type_string)
    → is_usable q ≡ true
unfolding is_usable is_unknown
usable_lem q e (inl d) = rw (e, d) refl
usable_lem q e (inr d) = rw (e, d) refl

pub told_type :
    (timegm : Tm → ℤ) (p : Point)
    → IsTold timegm p
    → (p.data_type ≡ type_int) ⊎ (p.data_type ≡ type_string)
told_type timegm p t = elim t.value [ inl v ↦ inl v.0 | inr v ↦ inr v.0 ]

module _ (fl : Floats) (timegm : Tm → ℤ) (argv : Bytes → List Bytes) (raw : Bytes) where
  -- A `pt` line that publishes a point when its verb is changed to `p` and the shell gives the command to the
  -- handler.
  pub record IsCommand (l : Line) (q : Point) : Type 0 where
    pub arguments : Bytes
    pub line : l ≡ text (b'p' ∷ b't' ∷ arguments)
    pub sent :
        handle_sendpoint fl timegm (argv (p_s ++ arguments))
        ≡ record { ret = pos 0; lines = []; published = some q }

  -- The line of a point, and the point that it publishes.
  pub record PtLine (p : Point) : Type 0 where
    pub told_line : Line
    pub told_point : Point
    pub emits : point_emit fl true raw p ≡ told_line ∷ []
    pub command : IsCommand told_line told_point
    pub copy : IsCopy p told_point

  -- The value that is published.
  abbrev SameValue : Point → Point → Type 0
  SameValue p q =
      ((p.data_type ≡ type_int) × (point_get_int q ≡ point_get_int p))
      ⊎ ((p.data_type ≡ type_string) × (cstr q.payload ≡ cstr p.payload))
