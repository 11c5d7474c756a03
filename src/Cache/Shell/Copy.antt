-- ===== src/Cache/Shell/Copy.antt =====
-- A dump of the cache, given line by line as `p` commands to another device: what its cache holds then.
use zephyr_siot.Base.{◌≡◌, true, Option, none, some, List, [], ◌∷◌, length}
use zephyr_siot.Base.Int.{ℤ}
use zephyr_siot.CString.{Bytes}
use zephyr_siot.Point.{Point}
use zephyr_siot.Point.Merge.View.{lookup}
use zephyr_siot.Point.Merge.View.Latest.{latest}
use zephyr_siot.Point.Merge.View.Order.{AreUsable}
use zephyr_siot.SiotString.Float.{Floats}
use zephyr_siot.Timeconv.{Tm}
use zephyr_siot.Cache.{Cache}
use zephyr_siot.Cache.Laws.{occupied}
use zephyr_siot.Cache.Shell.{Line}
use zephyr_siot.Cache.Shell.Laws.{emitted}
use zephyr_siot.Cache.Shell.Told.{IsTold, IsCopy, IsCommand}

abbrev pub AreTold : (Tm → ℤ) → List Point → Type 0
AreTold timegm [] = Unit
AreTold timegm (p ∷ ps) = IsTold timegm p × AreTold timegm ps

-- What a name has after the copy: a copy of what it had in the first cache, and else what it had before.
abbrev pub Arrives : Option Point → Option Point → Option Point → Type 0
Arrives none old new = new ≡ old
Arrives (some p) old none = ⊥
Arrives (some p) old (some q) = IsCopy p q

module _ (fl : Floats) (timegm : Tm → ℤ) (argv : Bytes → List Bytes) (raw : Bytes) where
  -- Lines of which each publishes one point when it is given back as a `p` command.
  abbrev pub Replays : List Line → List Point → Type 0
  Replays [] [] = Unit
  Replays [] (q ∷ qs) = ⊥
  Replays (l ∷ ls) [] = ⊥
  Replays (l ∷ ls) (q ∷ qs) = IsCommand fl timegm argv raw l q × Replays ls qs

  -- The points that the dump of some slots publishes, and what they have of the slots for each name.
  record Copies (slots : List Point) : Type 0 where
    pub copies : List Point
    pub replays : Replays (emitted fl true raw (occupied slots)) copies
    pub usable : AreUsable copies
    pub count : length copies ≡ length (occupied slots)
    pub found : (ty k : Bytes) → Arrives (lookup ty k slots) none (latest ty k copies)
