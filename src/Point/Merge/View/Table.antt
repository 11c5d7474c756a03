-- ===== src/Point/Merge/View/Table.antt =====
-- A table of points up to the slots in which they stand.
use mathlib.Core.Quot
use mathlib.Core.Quot.{Quot, Quot-set}
use zephyr_siot.Base.{◌≡◌, refl, ap, Option, List}
use zephyr_siot.CString.{Bytes}
use zephyr_siot.Point.{Point}
use zephyr_siot.Point.Merge.View.{lookup, Agree}

abbrev pub Table : Type 0
Table = Quot Agree

abbrev pub table : List Point → Table
table = Quot.mk

-- The point of a name in the table.
unfoldable pub value : Bytes → Bytes → Table → Option Point
value t k = Quot.lift (hlevel) (lookup t k) λ pts qts h. h t k

pub value-table : (t k : Bytes) (pts : List Point) → value t k (table pts) ≡ lookup t k pts
unfolding value
value-table t k pts = refl

-- Tables are equal exactly if they have the same points by name.
pub exact : {pts qts : List Point} → table pts ≡ table qts → Agree pts qts
unfolding value
exact e t k = ap (value t k) e

pub ext : (x y : Table) → ((t k : Bytes) → value t k x ≡ value t k y) → x ≡ y
unfolding value
ext = Quot.ind (λ _. hlevel Quot-set) λ pts. Quot.ind (λ _. hlevel Quot-set) λ qts. Quot.sound
