-- ===== src/Adapter/Wired/Types.antt =====
-- What a wired driver and the adapter share (`struct wired_data` of main/adapter/adapter.h).
use blue_retro_forever.Prelude.{ℕ, zero, suc, ◌+◌, ◌*◌, ◌/◌, ◌^◌, u8, update}

-- `struct wired_data` without its number and timer. The outputs are bytes.
pub record WiredData : Type 0 where
  pub flags : ℕ
  pub frame_cnt : ℕ
  pub output : ℕ → ℕ
  pub output_mask : ℕ → ℕ
  pub cnt_mask : ℕ → ℕ

-- Flags of `struct wired_data`.
abbrev pub wired_waiting_for_release : ℕ
wired_waiting_for_release = 2

abbrev pub wired_waiting_for_release2 : ℕ
wired_waiting_for_release2 = 3

-- DEV_KB and DEV_MOUSE; every other mode is a pad.
abbrev pub dev_kb : ℕ
dev_kb = 2

abbrev pub dev_mouse : ℕ
dev_mouse = 3

abbrev pub acc_mem : ℕ
acc_mem = 1

abbrev pub acc_rumble : ℕ
acc_rumble = 2

-- An `uint16_t` at `o`, low byte first.
abbrev pub load16 : (ℕ → ℕ) → ℕ → ℕ
load16 mem o = mem o + 2 ^ 8 * mem (o + 1)

abbrev pub store16 : (ℕ → ℕ) → ℕ → ℕ → ℕ → ℕ
store16 mem o v = update (update mem o (u8 v)) (o + 1) (u8 (v / 2 ^ 8))

-- An `int32_t` at `o`, given as its pattern of bits.
abbrev pub store32 : (ℕ → ℕ) → ℕ → ℕ → ℕ → ℕ
store32 mem o v = store16 (store16 mem o v) (o + 2) (v / 2 ^ 16)

-- `memset(mem + o, v, n)`
unfoldable pub memset : (ℕ → ℕ) → ℕ → ℕ → ℕ → ℕ → ℕ
memset mem o v zero = mem
memset mem o v (suc n) = memset (update mem o v) (o + 1) v n

-- `struct raw_fb`
pub record RawFb : Type 0 where
  pub wired_id : ℕ
  pub type : ℕ
  pub data_len : ℕ
  pub bytes : ℕ → ℕ

-- `struct generic_fb` of a rumble.
pub record GenericFb : Type 0 where
  pub wired_id : ℕ
  pub type : ℕ
  pub state : ℕ
  pub lf_pwr : ℕ
  pub hf_pwr : ℕ
