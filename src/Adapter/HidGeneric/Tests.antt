-- ===== src/Adapter/HidGeneric/Tests.antt =====
-- The generic HID adapter of hid_generic.c at concrete reports.
use blue_retro_forever.Prelude.{
  ◌∷◌, [], ℕ, suc, ◌+◌, ◌-◌, ◌^◌, ◌%◌, ◌<◌, ◌≡◌, ◌≢◌, refl, true, false, ◌&&◌, ◌||◌, arith, none,
  some, test_bit, ◌==◌, if◌then◌else◌, ltb, leb, pos, negsuc, u32, bit, update,
}
use blue_retro_forever.Adapter.HidParser.Types.{
  HidUsage, HidReport, zero_usage, zero_report, pad, bt_hid_generic, ◌is◌,
}
use blue_retro_forever.Adapter.Quirks.Types.{RawSrcMapping}
use blue_retro_forever.Adapter.KbMonitor.Keys.{key_bit}
use blue_retro_forever.Adapter.HidGeneric.Types.{HidDevice, HidReportMeta, zero_meta}
use blue_retro_forever.Adapter.HidGeneric.Fields.{field_bits}
use blue_retro_forever.Adapter.HidGeneric.FieldBits.{AreBytes, report_bit, field_bits_lem}
use blue_retro_forever.Adapter.HidGeneric.Pad.{axis_value, calibrate, pad_read}
use blue_retro_forever.Adapter.HidGeneric.PadUsages.{stick_neutral}
use blue_retro_forever.Adapter.HidGeneric.PadButtons.{place_all, btns_idx}
use blue_retro_forever.Adapter.HidGeneric.Signs.{axis_value-first}
use blue_retro_forever.Adapter.HidGeneric.Presses.{pad_read-btns, by_buttons, by_hat}
use blue_retro_forever.Adapter.HidGeneric.KeySlots.{kb_slots_lem, some_slot}
use blue_retro_forever.Adapter.HidGeneric.Kb.{kb_slots}
use blue_retro_forever.Adapter.HidGeneric.Mouse.{mouse_buttons, mouse_button}
use blue_retro_forever.Adapter.HidGeneric.Placed.{mouse_buttons-shadowed, place_all_lem}
use blue_retro_forever.Adapter.HidGeneric.Generic.{HidEnv, ready, load}
use blue_retro_forever.Adapter.HidGeneric.PadButtons.{hid_pad_init}
use blue_retro_forever.Adapter.Quirks.Apply.{mapping_quirks_apply}
use blue_retro_forever.Adapter.HidGeneric.Calibrated.{first_cal}
use blue_retro_forever.Adapter.HidParser.Parse.{hid_parser_load_report}
use blue_retro_forever.Adapter.HidGeneric.Once.{pad_reports, hid_pad_to_generic_once}

abbrev input : ℕ → ℕ
input i = if i == 1 then 0xa5 else 0x4c

input-AreBytes : AreBytes input
input-AreBytes i = ground arith

-- Ten bits from the bit 13 on, and thirty from there, which end behind the word.
field_runs : field_bits input 10 13 ≡ 0x265
unfolding field_bits
field_runs = refl

field_bits_lem_example :
    test_bit (field_bits input 30 13) 28
    ≡ (if ltb 28 30 && ltb (13 % 8 + 28) 32 then report_bit input (13 + 28) else false)
field_bits_lem_example = field_bits_lem input 30 13 28 input-AreBytes (omega arith)

-- An axis of eight bits from -128 to 127.
abbrev signed_axis : HidUsage
signed_axis = record zero_usage {
  usage_page = 1;
  usage = 0x30;
  bit_size = 8;
  logical_min = 0xffff_ff80;
  logical_max = 0x7f;
}

axis_value-first_example :
    axis_value signed_axis 255
      (stick_neutral signed_axis)
      (calibrate 255 (stick_neutral signed_axis))
    ≡ (if ltb 1 2 && leb (2 ^ 7) 255 then negsuc (2 ^ suc 7 - 1) else pos 0)
axis_value-first_example = axis_value-first signed_axis 7 255 refl (omega arith) (omega arith)

-- A stick, a hat and four buttons.
abbrev pad_usages : ℕ → HidUsage
pad_usages i =
    if i == 0
    then signed_axis
    else (if i == 1
        then record zero_usage {
          usage_page = 1;
          usage = 0x39;
          bit_offset = 8;
          bit_size = 4;
          logical_max = 7;
        }
        else (if i == 2
            then record zero_usage {
              usage_page = 9;
              usage = 1;
              usage_max = 4;
              bit_offset = 12;
              bit_size = 4;
              logical_max = 1;
            }
            else zero_usage))

abbrev pad_report : HidReport
pad_report = record zero_report { id = 1; len = 2; usage_cnt = 3; type = pad; usages = pad_usages }

abbrev no_map : RawSrcMapping
no_map = record {
  mask = λ w. 0;
  desc = λ w. 0;
  btns_mask = λ b. 0;
  axes_idx = λ a. negsuc 0;
  meta = λ a. zero_meta;
}

abbrev some_map : RawSrcMapping
some_map = record no_map { btns_mask = λ b. if b == 18 then 1 else 0 }

abbrev pad_meta : HidReportMeta
pad_meta = record { hid_btn_idx = pos 2; hid_hat_idx = pos 1; kb_bitfield = 0 }

pad_read-btns_example :
    test_bit ((pad_read true pad_report input pad_meta some_map (λ a. pos 0)).ctrl.btns 0) 18
    ≡ (by_buttons pad_report input (pos 2) some_map 18 || by_hat pad_report input (pos 1) 18)
pad_read-btns_example =
    pad_read-btns true pad_report input pad_meta some_map (λ a. pos 0) 18 (omega arith)

-- A keyboard with one slot.
abbrev kb_report : HidReport
kb_report = record zero_report {
  usage_cnt = 1;
  usages = λ i. record zero_usage { usage_page = 7; bit_size = 8; logical_max = 0x65 };
}

kb_slots_lem_example :
    key_bit
      (kb_slots
        (λ k. 0)
        kb_report
        (λ i. 4)
        pad_meta
        (record no_map { axes_idx = update (λ a. negsuc 0) 0 (pos 0) })
        (λ w. 0))
      0
    ≡ (key_bit (λ w. 0) 0 || some_slot kb_report (λ i. 4) (update (λ a. negsuc 0) 0 (pos 0)) 0 16)
kb_slots_lem_example =
    kb_slots_lem (λ k. 0) kb_report (λ i. 4) pad_meta
      (record no_map { axes_idx = update (λ a. negsuc 0) 0 (pos 0) }) (λ w. 0) 0 refl

-- A mouse with eight buttons in its first usage and two axes: the entry 3 is empty.
abbrev mouse_usages : ℕ → HidUsage
mouse_usages i = if ltb i 3 then record zero_usage { bit_size = 8 } else zero_usage

mouse_buttons-shadowed_example :
    (mouse_buttons mouse_usages 24 0 no_map).btns_mask (mouse_button 4)
    ≡ no_map.btns_mask (mouse_button 4)
mouse_buttons-shadowed_example =
    mouse_buttons-shadowed mouse_usages 24 3 (mouse_button 4) no_map (omega arith) first_three
  where
    first_three : (j : ℕ) → j < 3 → mouse_button j ≢ mouse_button 4
    first_three j lt = ground arith

place_all_lem_example :
    (place_all (λ k. 0) true 0 10 4 no_map).btns_mask (btns_idx (λ k. 0) true (0 + 9))
    ≡ u32 (bit (u32 (4 + 9)))
place_all_lem_example = place_all_lem (λ k. 0) true 0 10 4 9 no_map (omega arith) (omega arith)

abbrev env : HidEnv
env = record {
  reports = λ k. if k == 0 then some pad_report else none;
  pull_back = λ z. z;
  past_keys = λ k. 0;
  past_btns = λ k. 0;
}

abbrev device : HidDevice
device = record {
  bt = record {
    dev_id = 0;
    dev_type = bt_hid_generic;
    vid = 0;
    pid = 0;
    reports = λ t. if t is pad then some pad_report else none;
  };
  flags = λ t. 0;
  report_id = 1;
  report_type = 2;
  input = input;
  axes_cal = λ a. pos 0;
  raw_src_mappings = λ t. no_map;
  reports_meta = λ t. pad_meta;
}

device_waits : ready pad device ≡ false
unfolding test_bit
device_waits = refl

device_has : (load env device).bt.reports pad ≡ some pad_report
unfolding hid_parser_load_report
device_has = refl

hid_pad_to_generic_once_example :
    let i = hid_pad_init env.pull_back env.past_btns pad_report pad_meta no_map in
    let map = mapping_quirks_apply 0 0 i.map in
    let report : HidReport = record pad_report { usages = i.usages } in
    (t : HidDevice) × (pad_reports env (input ∷ (λ o. 7) ∷ []) device ≡ some t)
    × (ready pad t ≡ true)
    × (t.bt.reports pad ≡ some report)
    × (t.reports_meta 2 ≡ i.meta)
    × (t.raw_src_mappings 2 ≡ map)
    × ((k : ℕ) → k < 16 → t.axes_cal k ≡ first_cal report input map k (map.axes_idx k) (pos 0))
hid_pad_to_generic_once_example =
    hid_pad_to_generic_once env device pad_report input ((λ o. 7) ∷ []) device_waits device_has
