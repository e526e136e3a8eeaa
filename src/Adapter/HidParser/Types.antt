-- ===== src/Adapter/HidParser/Types.antt =====
-- The data of hid_parser.c: usages, reports, and what the parser reads and changes of a device.
use blue_retro_forever.Prelude.{ℕ, Option, Bool, ◌==◌}

-- The type of a report; `REPORT_NONE` is -1 in the source.
pub data ReportType : Type 0 where
  report_none kb mouse pad rumble : ReportType

-- The enumerators of adapter.h, as the `uint32_t` field of a report holds them.
abbrev pub type_id : ReportType → ℕ
type_id report_none = 0xffff_ffff
type_id kb = 0
type_id mouse = 1
type_id pad = 2
type_id rumble = 3

infix 50 ◌is◌
abbrev pub ◌is◌ : ReportType → ReportType → Bool
a is b = type_id a == type_id b

-- `struct hid_usage`; signed fields hold their 32-bit pattern.
pub record HidUsage : Type 0 where
  pub usage_page : ℕ
  pub usage : ℕ
  pub usage_max : ℕ
  pub flags : ℕ
  pub bit_offset : ℕ
  pub bit_size : ℕ
  pub logical_min : ℕ
  pub logical_max : ℕ

-- `struct hid_report`. The array `usages` has 24 entries; a write past them is kept here and lands in
-- other memory there.
pub record HidReport : Type 0 where
  pub id : ℕ
  pub len : ℕ
  pub tag : ℕ
  pub usage_cnt : ℕ
  pub type : ReportType
  pub usages : ℕ → HidUsage

abbrev pub zero_usage : HidUsage
zero_usage = record {
  usage_page = 0;
  usage = 0;
  usage_max = 0;
  flags = 0;
  bit_offset = 0;
  bit_size = 0;
  logical_min = 0;
  logical_max = 0;
}

-- Memory cleared by `memset`; the type 0 is that of a keyboard.
abbrev pub zero_report : HidReport
zero_report = record {
  id = 0;
  len = 0;
  tag = 0;
  usage_cnt = 0;
  type = kb;
  usages = λ _. zero_usage;
}

-- The device types of adapter.h.
pub data BtType : Type 0 where
  bt_none bt_hid_generic bt_ps3 bt_wii bt_ps bt_sw bt_sw2 : BtType

-- What the parser reads of `struct bt_data`, and `bt_data->reports`. A report is not written after it
-- is processed, so a pointer to it is its value; when its memory is freed is not modelled.
pub record BtData : Type 0 where
  pub dev_id : ℕ
  pub dev_type : BtType
  pub vid : ℕ
  pub pid : ℕ
  pub reports : ReportType → Option HidReport
