-- ===== src/Adapter/HidParser/Parse.antt =====
-- `hid_parser` as a whole, and the readers of its table.
use blue_retro_forever.Prelude.{
  ℕ, zero, suc, ◌+◌, ◌*◌, Bool, true, false, ◌&&◌, Option, none, some, ltb, leb, ◌==◌,
  if◌then◌else◌, update, not,
}
use blue_retro_forever.Adapter.Ids.{report_max_usage, hid_max_report}
use blue_retro_forever.Adapter.HidParser.Types.{
  HidReport, zero_report, BtData, BtType, bt_none, bt_hid_generic, ReportType, report_none, ◌is◌,
}
use blue_retro_forever.Adapter.HidParser.State.{Parser, zero_element}
use blue_retro_forever.Adapter.HidParser.Items.{
  decode, Flow, go, leave, exec, close_report, store_report,
}

-- `while (desc < end)`, with fuel; `none` means that the fuel ran out.
unfoldable pub items : (ℕ → ℕ) → (ℕ → Bool) → ℕ → ℕ → Parser → Option Flow
unfolding decode
items mem alloc end zero s = if ltb s.desc end then none else some (go s)
items mem alloc end (suc fuel) s = elim (ltb s.desc end) [
  | false ↦ some (go s)
  | true ↦ elim (exec mem alloc (decode (mem s.desc)) (record s { desc = s.desc + 1 })) [
    | go t ↦ items mem alloc end fuel t
    | leave t ↦ some (leave t)
  ]
]

-- `hid_parser_free_reports`: the row of the device is emptied.
unfoldable pub hid_parser_free_reports : ℕ → (ℕ → Option HidReport) → ℕ → Option HidReport
hid_parser_free_reports dev_id reports k =
    if leb (dev_id * hid_max_report) k && ltb k (dev_id * hid_max_report + hid_max_report)
    then none
    else reports k

-- A report that holds something, after the last item.
unfoldable pub last_report : ℕ → Parser → Parser
unfolding store_report
last_report i s =
    if (close_report i s).len == 0
    then (record s { wip_report = update s.wip_report i (close_report i s) })
    else store_report i s

-- A descriptor with no identifier has the identifier 1.
abbrev pub default_id : Parser → Parser
default_id s =
    if s.report_idx == 0 && (s.wip_report 0).id == 0
    then (record s { report_id = 1; wip_report = λ i. record (s.wip_report i) { id = 1 } })
    else s

abbrev pub is_generic : BtType → Bool
is_generic bt_none = true
is_generic bt_hid_generic = true
is_generic _ = false

unfoldable pub finish : Parser → Parser
unfolding last_report hid_parser_free_reports
finish s =
    let t = default_id s in
    let u = if t.report_id == 0 then t else last_report 1 (last_report 0 t) in
    if is_generic u.bt_data.dev_type
    then u
    else (record u { reports = hid_parser_free_reports u.bt_data.dev_id u.reports })

-- The locals at the start. Behind `usage_list` lies `beyond`.
abbrev pub start : (ℕ → ℕ) → BtData → (ℕ → Option HidReport) → Parser
start beyond d reports = record {
  hid_stack = λ _. zero_element;
  hid_stack_idx = 0;
  usage_idx = 0;
  usage_list = λ i. if ltb i report_max_usage then 0 else beyond i;
  desc = 0;
  report_id = 0;
  report_bit_offset = λ _. 0;
  report_usage_idx = λ _. 0;
  report_idx = 0;
  wip_report = λ _. zero_report;
  bt_data = d;
  reports = reports;
  allocs = 2;
}

abbrev pub close_flow : Flow → Parser
close_flow (go s) = finish s
close_flow (leave s) = s

-- The bytes at `mem` from address 0, `len` of them part of the descriptor. `alloc` says which requests
-- for memory succeed, counted from 0. The result is the device and the table.
unfoldable pub hid_parser :
    (ℕ → ℕ)
    → (ℕ → ℕ)
    → (ℕ → Bool)
    → ℕ
    → BtData
    → (ℕ → Option HidReport)
    → Option (BtData × (ℕ → Option HidReport))
unfolding items finish
hid_parser mem beyond alloc len d reports =
    let cleared = hid_parser_free_reports d.dev_id reports in
    if alloc 0 && alloc 1
    then elim (items mem alloc len len (start beyond d cleared)) [
      | none ↦ none
      | some f ↦ some ((close_flow f).bt_data, (close_flow f).reports)
    ]
    else some (d, cleared)

-- The test of `hid_parser_get_report` and `hid_parser_load_report` at an entry.
abbrev pub matches : ℕ → Option HidReport → Bool
matches report_id none = false
matches report_id (some r) = not (r.len == 0) && (r.id == report_id && r.tag == 0)

-- The first match among `n` entries from index `k`.
unfoldable pub find_report : (ℕ → Option HidReport) → ℕ → ℕ → ℕ → Option HidReport
find_report reports report_id zero k = none
find_report reports report_id (suc n) k =
    let rest = find_report reports report_id n (k + 1) in
    if matches report_id (reports k) then reports k else rest

unfoldable pub hid_parser_get_report : (ℕ → Option HidReport) → ℕ → ℕ → Option HidReport
unfolding find_report
hid_parser_get_report reports dev_id report_id =
    find_report reports report_id hid_max_report (dev_id * hid_max_report)

-- A matching report of a known type becomes the device's.
abbrev pub load_one :
    ℕ → Option HidReport → (ReportType → Option HidReport) → ReportType → Option HidReport
load_one report_id none table = table
load_one report_id (some r) table =
    if matches report_id (some r)
    then if r.type is report_none then table else (λ t. if t is r.type then some r else table t)
    else table

unfoldable pub load_from :
    (ℕ → Option HidReport)
    → ℕ
    → ℕ
    → ℕ
    → (ReportType → Option HidReport)
    → ReportType
    → Option HidReport
load_from reports report_id zero k table = table
load_from reports report_id (suc n) k table =
    load_from reports report_id n (k + 1) (load_one report_id (reports k) table)

unfoldable pub hid_parser_load_report : (ℕ → Option HidReport) → BtData → ℕ → BtData
unfolding load_from
hid_parser_load_report reports d report_id = record d {
  reports = load_from reports report_id hid_max_report (d.dev_id * hid_max_report) d.reports;
}
