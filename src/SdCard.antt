-- ===== src/SdCard.antt =====
-- apps/siot-net/src/main.c: `sd_card_init`, which reads the size of the card, mounts it and lists its root
-- directory. The disk driver and the file system are parameters.
use zephyr_siot.Base.{
  ℕ, zero, suc, ◌+◌, ◌*◌, ◌/◌, ◌%◌, ◌^◌, ◌<◌, ◌≡◌, refl, Bool, true, false, not, ◌&&◌, ◌||◌, Option,
  none, some, List, [], ◌∷◌, ◌++◌, map, ◌==◌, if◌then◌else◌, arith, Bool-cases, inl, inr,
}
use mathlib.Core.Option
use zephyr_siot.Base.Int.{ℤ}
use zephyr_siot.CString.{Bytes, first}
use zephyr_siot.SiotString.{is_zero}

-- `struct fs_dirent`
pub record Entry : Type 0 where
  pub is_dir : Bool
  pub name : Bytes
  pub size : ℕ

-- What the driver and the file system answer: the results of the calls, and what the `i`-th
-- `fs_readdir` gives.
pub record Card : Type 0 where
  pub ctrl_init : ℤ
  pub sector_count : ℤ × ℕ
  pub sector_size : ℤ × ℕ
  pub ctrl_deinit : ℤ
  pub fs_mount : ℤ
  pub fs_opendir : ℤ
  pub fs_readdir : ℕ → ℤ × Entry

-- What the code calls, and what it logs.
pub data Act : Type 0 where
  init get_sector_count get_sector_size deinit mount opendir closedir : Act
  size_is : ℕ → Act
  listed : Entry → Act

-- The raw access to the disk, up to the first failure. The size is in megabytes, as a `uint32_t`.
unfoldable pub probe : Card → List Act
probe c =
    if not (is_zero c.ctrl_init)
    then init ∷ []
    else if not (is_zero c.sector_count.0)
    then init ∷ get_sector_count ∷ []
    else if not (is_zero c.sector_size.0)
    then init ∷ get_sector_count ∷ get_sector_size ∷ []
    else init
      ∷ get_sector_count
      ∷ get_sector_size
      ∷ size_is (c.sector_count.1 * c.sector_size.1 / 2 ^ 20 % 2 ^ 32)
      ∷ deinit
      ∷ []

-- The loop over the directory, from the `i`-th entry on: an error or an empty name ends it. The fuel
-- is the number of calls.
unfoldable pub list_loop : ℕ → Card → ℕ → Option (List Entry)
unfolding first
list_loop zero c i = none
list_loop (suc fuel) c i =
    let (ret, entry) = c.fs_readdir i in
    let later = list_loop fuel c (i + 1) in
    if not (is_zero ret) || first entry.name == 0
    then some []
    else Option.map (λ es. entry ∷ es) later

-- Behind a successful `fs_opendir`.
abbrev pub list_root : ℕ → Card → Option (List Act)
list_root fuel c = Option.map (λ es. map listed es ++ closedir ∷ []) (list_loop fuel c 0)

-- From `fs_mount` on.
unfoldable pub mount_card : ℕ → Card → Option (List Act)
unfolding list_loop
mount_card fuel c =
    if not (is_zero c.fs_mount)
    then some (mount ∷ [])
    else if not (is_zero c.fs_opendir)
    then some (mount ∷ opendir ∷ [])
    else Option.map (λ acts. mount ∷ opendir ∷ acts) (list_root fuel c)

unfoldable pub sd_card_init : ℕ → Card → Option (List Act)
unfolding probe mount_card
sd_card_init fuel c = Option.map (λ acts. probe c ++ acts) (mount_card fuel c)

-- `fs_readdir` gives an entry.
unfoldable pub gives_entry : Card → ℕ → Bool
gives_entry c i = is_zero (c.fs_readdir i).0 && not (first (c.fs_readdir i).1.name == 0)

-- The directory has `n` entries from the `i`-th on.
abbrev pub EndsIn : Card → ℕ → ℕ → Type 0
EndsIn c i zero = gives_entry c i ≡ false
EndsIn c i (suc n) = (gives_entry c i ≡ true) × EndsIn c (i + 1) n

unfoldable pub entries : Card → ℕ → ℕ → List Entry
entries c i zero = []
entries c i (suc n) = (c.fs_readdir i).1 ∷ entries c (i + 1) n

list_loop-entries :
    (fuel : ℕ) (c : Card) (i n : ℕ)
    → EndsIn c i n
    → n < fuel
    → list_loop fuel c i ≡ some (entries c i n)
unfolding list_loop entries gives_entry
list_loop-entries zero c i n h k = absurd (omega arith)
list_loop-entries (suc fuel) c i zero h k = ground (arith, h)
list_loop-entries (suc fuel) c i (suc n) (h, hs) k =
    let later = list_loop-entries fuel c (i + 1) n hs (omega arith) in rw later (ground (arith, h))

-- What the code does behind the probe for a directory with `n` entries.
abbrev pub mounted : Card → ℕ → List Act
mounted c n =
    if not (is_zero c.fs_mount)
    then mount ∷ []
    else mount
      ∷ opendir
      ∷ (if not (is_zero c.fs_opendir) then [] else map listed (entries c 0 n) ++ closedir ∷ [])

-- For a directory with `n` entries the code ends with `n + 1` reads, whatever fails: it logs each entry
-- in order, and it closes the directory exactly if it was opened.
pub sd_card_init_ends :
    (fuel : ℕ) (c : Card) (n : ℕ)
    → EndsIn c 0 n
    → n < fuel
    → sd_card_init fuel c ≡ some (probe c ++ mounted c n)
unfolding sd_card_init
sd_card_init_ends fuel c n h k =
    let listed_all = list_loop-entries fuel c 0 n h k in
    elim (Bool-cases (is_zero c.fs_mount)) [
      | inl m ↦ elim (Bool-cases (is_zero c.fs_opendir)) [
        | inl o ↦ rw (m, o) (rw listed_all refl)
        | inr o ↦ rw (m, o) refl
      ]
      | inr m ↦ rw m refl
    ]
