-- ===== src/Adapter/HidParser/State.antt =====
-- The variables of `hid_parser`, and the bytes that it reads.
use blue_retro_forever.Prelude.{ℕ, ◌+◌, ◌*◌, ◌-◌, ◌^◌, Option, ltb, if◌then◌else◌}
use blue_retro_forever.Adapter.HidParser.Types.{HidReport, BtData}

-- `struct hid_stack_element`
pub record HidStackElement : Type 0 where
  pub report_size : ℕ
  pub report_cnt : ℕ
  pub logical_min : ℕ
  pub logical_max : ℕ
  pub usage_page : ℕ
  pub usage_max : ℕ

abbrev pub zero_element : HidStackElement
zero_element = record {
  report_size = 0;
  report_cnt = 0;
  logical_min = 0;
  logical_max = 0;
  usage_page = 0;
  usage_max = 0;
}

-- The locals of `hid_parser`, the device, the table `reports` as one row after another (ten entries to
-- a device) and how many blocks were allocated. Arrays are functions of the index; tag 0 is an input
-- report and tag 1 an output report.
pub record Parser : Type 0 where
  pub hid_stack : ℕ → HidStackElement
  pub hid_stack_idx : ℕ
  pub usage_idx : ℕ
  pub usage_list : ℕ → ℕ
  pub desc : ℕ
  pub report_id : ℕ
  pub report_bit_offset : ℕ → ℕ
  pub report_usage_idx : ℕ → ℕ
  pub report_idx : ℕ
  pub wip_report : ℕ → HidReport
  pub bt_data : BtData
  pub reports : ℕ → Option HidReport
  pub allocs : ℕ

-- The element that the global items write.
abbrev pub top : Parser → HidStackElement
top s = s.hid_stack s.hid_stack_idx

pub data Width : Type 0 where
  one two four : Width

abbrev pub size : Width → ℕ
size one = 1
size two = 2
size four = 4

-- `*(uint8_t *)`, `*(uint16_t *)` and `*(uint32_t *)` at an address; the machine is little-endian.
unfoldable pub read_le : (ℕ → ℕ) → ℕ → Width → ℕ
read_le mem a one = mem a
read_le mem a two = mem a + mem (a + 1) * 2 ^ 8
read_le mem a four = mem a + mem (a + 1) * 2 ^ 8 + mem (a + 2) * 2 ^ 16 + mem (a + 3) * 2 ^ 24

-- The 32-bit pattern of a signed value of the width, `*(int8_t *)` and so on.
unfoldable pub sign_extend : Width → ℕ → ℕ
sign_extend one n = if ltb n (2 ^ 7) then n else n + 2 ^ 32 - 2 ^ 8
sign_extend two n = if ltb n (2 ^ 15) then n else n + 2 ^ 32 - 2 ^ 16
sign_extend four n = n
