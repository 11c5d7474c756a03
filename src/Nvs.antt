-- ===== src/Nvs.antt =====
-- lib/nvs.c: points that are kept in flash. The flash driver and Zephyr's ZMS file system are
-- parameters.
pub mod Laws
pub mod Text
pub mod Boot
pub mod Sent
pub mod Restore
pub mod Thread
pub mod Reboot
pub mod Refused
use zephyr_siot.Base.{
  ℕ, zero, suc, ◌+◌, ◌/◌, ◌%◌, ◌^◌, ◌≡◌, Bool, true, false, ◌&&◌, not, List, [], ◌∷◌, ◌++◌, ltb,
  ◌==◌, if◌then◌else◌, length, set, take, replicate, bytes_eq,
}
use zephyr_siot.Base.Int.{ℤ, pos, negsuc, is_negative, abs, of_word}
use zephyr_siot.CString.{Bytes, cstr, write_at_start}
use zephyr_siot.Point.{
  data_size, Point, zero_point, type_float, type_int, type_string, load32, store32, point_put_int,
  point_put_float, point_put_string, point_set_type_key, point_data_len,
}

-- The file system: `read` gives the code and the bytes that it writes to the buffer, at most as many as
-- it is asked for; `write` the state after it and the code.
pub record Zms : Type 1 where
  pub Fs : Type 0
  pub mount : Fs → Fs × ℤ
  pub read : Fs → ℕ → ℕ → ℤ × Bytes
  pub write : Fs → ℕ → Bytes → Fs × ℤ

-- What the flash driver says of the storage partition.
pub record Flash : Type 0 where
  pub is_ready : Bool
  pub page_info : ℤ
  pub page_size : ℕ
  pub partition_size : ℕ

-- `struct nvs_point`, with the fields of its `point_def`.
pub record NvsPoint : Type 0 where
  pub nvs_id : ℕ
  pub def_type : Bytes
  pub def_data_type : ℕ
  pub key : Bytes

-- `strcmp(a, b) == 0`
abbrev pub strcmp_eq : Bytes → Bytes → Bool
strcmp_eq a b = bytes_eq (cstr a) (cstr b)

unfoldable pub point_type_key_to_nvs_id : List NvsPoint → Bytes → Bytes → ℤ
point_type_key_to_nvs_id [] type key = negsuc 0
point_type_key_to_nvs_id (n ∷ pts) type key =
    let later = point_type_key_to_nvs_id pts type key in
    if strcmp_eq type n.def_type && strcmp_eq key n.key then pos n.nvs_id else later

-- "bootCount"
abbrev pub boot_count_s : Bytes
boot_count_s = b'b' ∷ b'o' ∷ b'o' ∷ b't' ∷ b'C' ∷ b'o' ∷ b'u' ∷ b'n' ∷ b't' ∷ []

abbrev pub zero_word : Bytes
zero_word = replicate 4 0

module _ (zms : Zms) where
  open zms use {Fs, read, write}

  -- A 32-bit value is read into a buffer of zeros; if that fails, the buffer is written as it is then.
  unfoldable pub read_value : Fs → ℕ → Fs × ℕ
  read_value fs id =
      let (rc, got) = read fs id 4 in
      let buf = write_at_start zero_word got in
      if is_negative rc then ((write fs id buf).0, load32 buf) else (fs, load32 buf)

  -- The boot count in flash is one more than the one that is published.
  unfoldable pub count_boot : Fs → NvsPoint → ℕ → Fs
  count_boot fs n value =
      if strcmp_eq boot_count_s n.def_type
      then (write fs n.nvs_id (store32 zero_word ((value + 1) % 2 ^ 32))).0
      else fs

  -- A string is read into a buffer of 20 bytes; `string_buf` is what stands there before.
  unfoldable pub read_string : Fs → ℕ → Bytes → Fs × Bytes
  read_string fs id string_buf =
      let (rc, got) = read fs id data_size in
      let filled = write_at_start (set string_buf 0 0) got in
      if is_negative rc then ((write fs id (0 ∷ [])).0, filled) else (fs, set filled 19 0)

  -- One round of the loop: the file system, the point, and what is published.
  unfoldable pub restore : Fs → Point → Bytes → NvsPoint → Fs × Point × List Point
  restore fs p string_buf n =
      let (f, word) = read_value fs n.nvs_id in
      let (s, text) = read_string fs n.nvs_id string_buf in
      let of_float = point_set_type_key (point_put_float p word) n.def_type n.key in
      let of_int = point_set_type_key (point_put_int p (of_word word)) n.def_type n.key in
      let of_string = point_set_type_key (point_put_string p text) n.def_type n.key in
      if n.def_data_type == type_float
      then (f, of_float, of_float ∷ [])
      else if n.def_data_type == type_int
      then (count_boot f n word, of_int, of_int ∷ [])
      else if n.def_data_type == type_string
      then (s, of_string, of_string ∷ [])
      else (fs, p, [])

  -- The loop over the points; `bufs` is what `string_buf` holds before each round.
  unfoldable pub restore_loop :
      Fs → Point → List NvsPoint → (List NvsPoint → Bytes) → Fs × List Point
  restore_loop fs p [] bufs = (fs, [])
  restore_loop fs p (n ∷ pts) bufs =
      let (fs', p', sent) = restore fs p (bufs (n ∷ pts)) n in
      let (fs'', later) = restore_loop fs' p' pts bufs in (fs'', sent ++ later)

  -- The state of the file: the file system, and the points that are stored as they arrive.
  pub record Nvs : Type 0 where
    pub fs : Fs
    pub pts : List NvsPoint

  pub record Started : Type 0 where
    pub nvs : Nvs
    pub published : List Point
    pub ret : ℤ

  abbrev pub not_started : Nvs → Started
  not_started v = record { nvs = v; published = []; ret = negsuc 0 }

  unfoldable pub nvs_init : Flash → Nvs → List NvsPoint → (List NvsPoint → Bytes) → Started
  nvs_init flash v pts_in bufs =
      let (mounted, rc) = zms.mount v.fs in
      let (fs, sent) = restore_loop mounted zero_point pts_in bufs in
      if not flash.is_ready
      then not_started v
      else if ltb 0 (abs flash.page_info)
      then not_started v
      else if ltb (flash.partition_size / flash.page_size) 2
      then not_started v
      else if ltb 0 (abs rc)
      then not_started (record v { fs = mounted })
      else record { nvs = record { fs = fs; pts = pts_in }; published = sent; ret = pos 0 }

  -- The length is never negative; a failed write is only logged.
  abbrev pub store_at : Nvs → ℤ → Point → Nvs
  store_at v (pos nvs_id) p = record v {
    fs = (write v.fs nvs_id (take (point_data_len p) p.payload)).0;
  }
  store_at v (negsuc n) p = v

  unfoldable pub nvs_store_handle_point : Nvs → Point → Nvs
  unfolding point_type_key_to_nvs_id
  nvs_store_handle_point v p = store_at v (point_type_key_to_nvs_id v.pts p.type p.key) p

  -- The thread over the messages that it got so far: whether each came over `point_chan`, and its
  -- point.
  unfoldable pub nvs_store_thread : Nvs → List (Bool × Point) → Nvs
  unfolding nvs_store_handle_point
  nvs_store_thread v [] = v
  nvs_store_thread v ((is_point_chan, p) ∷ ms) =
      nvs_store_thread (if is_point_chan then nvs_store_handle_point v p else v) ms
