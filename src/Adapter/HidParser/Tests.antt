-- ===== src/Adapter/HidParser/Tests.antt =====
-- Runs of the parser, the first on the descriptor of tests/pytest_hid_controller_a.py, and the theorems
-- at states that it meets.
use blue_retro_forever.Prelude.{
  ◌*◌, ℕ, ◌+◌, ◌<◌, ◌≡◌, ◌≢◌, refl, true, List, [], ◌∷◌, arith, Option, some, none, get_or, inl,
  ◌==◌, if◌then◌else◌,
}
use blue_retro_forever.Adapter.Ids.{report_max_usage}
use blue_retro_forever.Adapter.HidParser.Types.{
  HidReport, BtData, bt_hid_generic, ReportType, report_none, pad, zero_report,
}
use blue_retro_forever.Adapter.HidParser.Usage.{one_of, hid_usage_is_used, hid_usage_is_collection}
use blue_retro_forever.Adapter.HidParser.Report.{hid_process_report}
use blue_retro_forever.Adapter.HidParser.State.{Parser, zero_element}
use blue_retro_forever.Adapter.HidParser.Main.{main_item}
use blue_retro_forever.Adapter.HidParser.Items.{store_report, close_report, exec, decode}
use blue_retro_forever.Adapter.HidParser.Parse.{hid_parser, start, hid_parser_get_report}
use blue_retro_forever.Adapter.HidParser.Offsets.{main_item-bit_offset}
use blue_retro_forever.Adapter.HidParser.Fragments.{main_item-covers, main_item_loses}
use blue_retro_forever.Adapter.HidParser.Progress.{hid_parser_total}
use blue_retro_forever.Adapter.HidParser.Overruns.{main_item-keyboard_count, store_report-next_row}
use blue_retro_forever.Adapter.HidParser.Classify.{IsPassed, hid_parser_get_report_lem}

abbrev hid_desc : List ℕ
hid_desc =
    0x05 ∷ 0x01 ∷ 0x09 ∷ 0x05 ∷ 0xa1 ∷ 0x01 ∷ 0x09 ∷ 0x01 ∷ 0xa1 ∷ 0x00 ∷ 0x09 ∷ 0x30 ∷ 0x09 ∷ 0x31
    ∷ 0x15 ∷ 0x00 ∷ 0x26 ∷ 0xff ∷ 0x00 ∷ 0x66 ∷ 0x00 ∷ 0x00 ∷ 0x95 ∷ 0x02 ∷ 0x75 ∷ 0x08 ∷ 0x81
    ∷ 0x02 ∷ 0x05 ∷ 0x09 ∷ 0x19 ∷ 0x01 ∷ 0x29 ∷ 0x20 ∷ 0x15 ∷ 0x00 ∷ 0x25 ∷ 0x01 ∷ 0x66 ∷ 0x00
    ∷ 0x00 ∷ 0x95 ∷ 0x20 ∷ 0x75 ∷ 0x01 ∷ 0x81 ∷ 0x02 ∷ 0xc0 ∷ 0xc0 ∷ []

abbrev mem : ℕ → ℕ
mem a = get_or hid_desc a 0

abbrev device : BtData
device = record { dev_id = 0; dev_type = bt_hid_generic; vid = 0; pid = 0; reports = λ _. none }

abbrev summary : Option (BtData × (ℕ → Option HidReport)) → List ℕ
summary (some (d, table)) = elim (table 0) [
  | some r ↦ r.id ∷ r.len ∷ r.usage_cnt ∷ (r.usages 2).bit_offset ∷ (r.usages 2).bit_size ∷ []
  | none ↦ []
]
summary none = []

abbrev type_of : Option (BtData × (ℕ → Option HidReport)) → ReportType
type_of (some (d, table)) = elim (table 0) [ some r ↦ r.type | none ↦ report_none ]
type_of none = report_none

run : Option (BtData × (ℕ → Option HidReport))
run = hid_parser mem (λ _. 0) (λ _. true) 49 device (λ _. none)

-- The report has the identifier 1, six bytes and three usages; the third starts at bit 16 and has 32
-- bits.
hid_desc_runs : summary run ≡ 1 ∷ 6 ∷ 3 ∷ 16 ∷ 32 ∷ []
unfolding run hid_parser decode exec hid_usage_is_collection one_of main_item
hid_desc_runs = refl

hid_desc_type : type_of run ≡ pad
unfolding run hid_parser decode exec hid_usage_is_collection one_of main_item
hid_desc_type = refl

-- Before an Input item of buttons: usage 1, one bit each.
abbrev buttons : ℕ → Parser
buttons n = record (start (λ _. 0) device (λ _. none)) {
  hid_stack = λ _. record zero_element { usage_page = 0x09; report_size = 1; report_cnt = n };
  usage_list = λ _. 1;
  usage_idx = 1;
  report_bit_offset = λ _. 16;
  report_usage_idx = λ _. 2;
}

abbrev data_byte : ℕ → ℕ
data_byte _ = 0x02

main_item-bit_offset_example : (main_item data_byte 0 (buttons 40)).report_bit_offset 0 ≡ 56
main_item-bit_offset_example = main_item-bit_offset data_byte 0 (buttons 40) (omega arith) 0

main_item-covers_example :
    let u = ((main_item data_byte 0 (buttons 40)).wip_report 0).usages 3 in
    (u.usage ≡ 33) × (u.bit_offset ≡ 48) × (7 < u.bit_size) × (3 < report_max_usage)
unfolding hid_usage_is_used
main_item-covers_example =
    main_item-covers data_byte 0 (buttons 40) (refl, refl, refl) (omega arith) (inl (omega arith))
      (omega arith) 39 (omega arith)

main_item_loses_example :
    (1 < 2) × ((((main_item data_byte 0 (buttons 64)).wip_report 0).usages 3).bit_size ≡ 0)
unfolding hid_usage_is_used
main_item_loses_example =
    main_item_loses data_byte 0 (buttons 64) (refl, refl, refl) refl (omega arith)

hid_parser_total_example :
    (r : BtData × (ℕ → Option HidReport)) × (hid_parser mem
        (λ _. 0)
        (λ _. true)
        49
        device
        (λ _. none)
      ≡ some r)
hid_parser_total_example = hid_parser_total mem (λ _. 0) (λ _. true) 49 device (λ _. none)

-- Before an Input item of keys.
abbrev keys : ℕ → Parser
keys n = record (start (λ _. 0) device (λ _. none)) {
  hid_stack = λ _. record zero_element { usage_page = 0x07; report_size = 8; report_cnt = n };
  usage_list = λ _. 4;
  usage_idx = 1;
}

main_item-keyboard_count_example : (main_item data_byte 0 (keys 30)).report_usage_idx 0 ≡ 30
main_item-keyboard_count_example = main_item-keyboard_count data_byte 0 (keys 30) refl refl refl

abbrev full : Parser
full = record (start (λ _. 0) device (λ _. none)) { report_idx = 10; report_bit_offset = λ _. 8 }

store_report-next_row_example :
    (store_report 0 full).reports 10 ≡ some (hid_process_report device (close_report 0 full)).1
store_report-next_row_example = store_report-next_row 0 0 full refl

abbrev vcs : BtData
vcs = record device { vid = 0x3250; pid = 0x1002 }

abbrev vcs_report : HidReport
vcs_report = record zero_report { id = 1; tag = 1 }

abbrev table : ℕ → Option HidReport
table k = if k == 11 then some (record zero_report { id = 3; len = 4 }) else none

hid_parser_get_report_lem_example :
    ((r : HidReport)
      → hid_parser_get_report table 1 3 ≡ some r
      → (j : ℕ) × (j < 10)
        × (table (1 * 10 + j) ≡ some r)
        × (r.id ≡ 3)
        × (r.tag ≡ 0)
        × (r.len ≢ 0)
        × ((i : ℕ) → i < j → IsPassed 3 (table (1 * 10 + i))))
    × (hid_parser_get_report table 1 3 ≡ none → (j : ℕ) → j < 10 → IsPassed 3 (table (1 * 10 + j)))
hid_parser_get_report_lem_example = hid_parser_get_report_lem table 1 3
