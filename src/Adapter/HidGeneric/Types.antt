-- ===== src/Adapter/HidGeneric/Types.antt =====
-- The state that main/adapter/wireless/hid_generic.c keeps of a device, and conversions between words
-- and signed numbers.
use blue_retro_forever.Prelude.{ℕ, ◌+◌, ◌-◌, ◌/◌, ◌%◌, ◌^◌, ℤ, pos, negsuc, neg, ltb, if◌then◌else◌}
use blue_retro_forever.Adapter.HidParser.Types.{BtData}
use blue_retro_forever.Adapter.Mapping.Types.{WirelessCtrl}
use blue_retro_forever.Adapter.Quirks.Types.{RawSrcMapping, CtrlMeta}

abbrev pub adapter_max_axes : ℕ
adapter_max_axes = 6

abbrev pub adapter_ps2_max_axes : ℕ
adapter_ps2_max_axes = 16

abbrev pub report_max_usage : ℕ
report_max_usage = 24

-- `(int8_t)n`
abbrev pub s8 : ℕ → ℤ
s8 n = if ltb (n % 2 ^ 8) 128 then pos (n % 2 ^ 8) else negsuc (255 - n % 2 ^ 8)

-- The number that a 32-bit pattern stands for, and back.
abbrev pub s32 : ℕ → ℤ
s32 n = if ltb (n % 2 ^ 32) (2 ^ 31) then pos (n % 2 ^ 32) else negsuc (2 ^ 32 - 1 - n % 2 ^ 32)

abbrev pub pattern32 : ℤ → ℕ
pattern32 (pos n) = n % 2 ^ 32
pattern32 (negsuc n) = 2 ^ 32 - 1 - n % 2 ^ 32

-- `z / 2`, towards zero
abbrev pub half : ℤ → ℤ
half (pos n) = pos (n / 2)
half (negsuc n) = neg (pos ((n + 1) / 2))

-- `struct hid_report_meta`
pub record HidReportMeta : Type 0 where
  pub hid_btn_idx : ℤ
  pub hid_hat_idx : ℤ
  pub kb_bitfield : ℕ

abbrev pub zero_meta : CtrlMeta
zero_meta = record {
  neutral = pos 0;
  deadzone = pos 0;
  abs_max = pos 0;
  abs_min = pos 0;
  polarity = pos 0;
  size_min = pos 0;
  size_max = pos 0;
  relative = pos 0;
}

-- A cleared `ctrl_data` with the masks of the device. A null pointer to the data of an axis reads as
-- zeros.
abbrev pub no_ctrl : RawSrcMapping → WirelessCtrl
no_ctrl map = record {
  mask = map.mask;
  desc = map.desc;
  btns = λ w. 0;
  axes = λ i. record { value = pos 0; relative = pos 0; meta = zero_meta };
}

-- What hid_generic.c reads and writes of `struct bt_data`, with the entry of `devices_meta` for the
-- device. Flags, mappings and entries are by report type.
pub record HidDevice : Type 0 where
  pub bt : BtData
  pub flags : ℕ → ℕ
  pub report_id : ℕ
  pub report_type : ℕ
  pub input : ℕ → ℕ
  pub axes_cal : ℕ → ℤ
  pub raw_src_mappings : ℕ → RawSrcMapping
  pub reports_meta : ℕ → HidReportMeta
