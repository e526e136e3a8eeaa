-- ===== src/Adapter/HidParser/Overruns.antt =====
-- Where the parser leaves its arrays or misreads its list.
use blue_retro_forever.Prelude.{
  ℕ, ◌+◌, ◌*◌, ◌<◌, ◌≤◌, ◌≡◌, ◌⊎◌, refl, true, false, arith, for_range_inv, update_self, update_ne,
  some, meets,
}
use blue_retro_forever.Adapter.Ids.{report_max_usage, hid_max_report}
use blue_retro_forever.Adapter.HidParser.Types.{HidReport, BtData}
use blue_retro_forever.Adapter.HidParser.Report.{hid_process_report}
use blue_retro_forever.Adapter.HidParser.State.{HidStackElement, Parser, top}
use blue_retro_forever.Adapter.HidParser.Main.{
  Fill, bitfield_merge, add_usage, add_usages, is_data, fill, outcome, main_item,
}
use blue_retro_forever.Adapter.HidParser.Items.{store_report, close_report}

-- On the keyboard page a plain usage adds one entry, whatever it is.
add_usage-keyboard :
    (e : HidStackElement) (usage flags : ℕ) (f : Fill)
    → e.usage_page ≡ 0x07
    → (add_usage e false usage flags f).usage_cnt ≡ f.usage_cnt + 1
unfolding add_usage
add_usage-keyboard e usage flags f page = rw page refl

add_usages-keyboard :
    (e : HidStackElement) (usage : ℕ → ℕ) (flags n : ℕ) (f : Fill)
    → e.usage_page ≡ 0x07
    → (add_usages e false usage flags n f).usage_cnt ≡ f.usage_cnt + n
unfolding add_usages
add_usages-keyboard e usage flags n f page =
    for_range_inv (λ i g. g.usage_cnt ≡ f.usage_cnt + i) (λ i. add_usage e false (usage i) flags) n
      0 n f (omega arith)
      (λ k t a b h. omega (arith, h, add_usage-keyboard e (usage k) flags t page)) (omega arith)

fill-keyboard :
    (s : Parser) (tag flags : ℕ)
    → (top s).usage_page ≡ 0x07
    → bitfield_merge s.usage_idx (top s) ≡ false
    → (fill s tag flags).usage_cnt ≡ s.report_usage_idx tag + (top s).report_cnt
unfolding fill
fill-keyboard s tag flags page plain = rw plain (add_usages-keyboard (top s) _ flags _ _ page)

-- The number of entries is tested once, before the loop: on the keyboard page an item that is not one
-- merged field adds `report_cnt` entries whatever the room, so any count above `24 - report_usage_idx`
-- ends past the 24 entries of the report.
pub main_item-keyboard_count :
    (mem : ℕ → ℕ) (tag : ℕ) (s : Parser)
    → is_data s tag (mem s.desc) ≡ true
    → (top s).usage_page ≡ 0x07
    → bitfield_merge s.usage_idx (top s) ≡ false
    → (main_item mem tag s).report_usage_idx tag ≡ s.report_usage_idx tag + (top s).report_cnt
unfolding main_item outcome
main_item-keyboard_count mem tag s d page plain =
    ground (arith, fill-keyboard s tag (mem s.desc) page plain)

no_usages-is_data :
    (t : Parser) (j flags : ℕ)
    → t.usage_list 0 ≡ 0xffff
    → meets flags 0x01 ≡ false
    → (top t).usage_page ≡ 0x07
    → t.report_usage_idx j < report_max_usage
    → is_data t j flags ≡ true
no_usages-is_data t j flags first clear page room = ground arith

-- After an Input or Output item the list is full of 0xFFFF, not of the 0xFF that the next item tests
-- for, so an item on the keyboard page with no usage of its own still adds `report_cnt` entries.
pub main_item-no_usages :
    (mem : ℕ → ℕ) (i j : ℕ) (s : Parser)
    → let t = main_item mem i s in
      meets (mem t.desc) 0x01 ≡ false
      → (top t).usage_page ≡ 0x07
      → t.report_usage_idx j < report_max_usage
      → (main_item mem j t).report_usage_idx j ≡ t.report_usage_idx j + (top t).report_cnt
main_item-no_usages mem i j s clear page room =
    let t = main_item mem i s in
    main_item-keyboard_count mem j t
      (no_usages-is_data t j (mem t.desc) (unfold main_item in refl) clear page room) page
      (unfold main_item in refl)

hid_process_report-dev_id :
    (d : BtData) (r : HidReport) → (hid_process_report d r).0.dev_id ≡ d.dev_id
unfolding hid_process_report
hid_process_report-dev_id d r = ground arith

-- A report is stored past the row of its device once ten are stored: report `10 + m` of a device takes
-- entry `m` of the device after it.
pub store_report-next_row :
    (i m : ℕ) (s : Parser)
    → s.report_idx ≡ hid_max_report + m
    → (store_report i s).reports ((s.bt_data.dev_id + 1) * hid_max_report + m)
      ≡ some (hid_process_report s.bt_data (close_report i s)).1
unfolding store_report
store_report-next_row i m s full =
    let e = hid_process_report-dev_id s.bt_data (close_report i s) in
    let at : (s.bt_data.dev_id + 1) * hid_max_report + m
        ≡ (hid_process_report s.bt_data (close_report i s)).0.dev_id * hid_max_report
          + s.report_idx =
      omega (arith, e, full) in
    rw at (update_self s.reports _ _)

-- As long as fewer than ten are stored, the rows of the other devices stay.
pub store_report-own_row :
    (i k : ℕ) (s : Parser)
    → s.report_idx < hid_max_report
    → (k < s.bt_data.dev_id * hid_max_report)
      ⊎ (s.bt_data.dev_id * hid_max_report + hid_max_report ≤ k)
    → (store_report i s).reports k ≡ s.reports k
unfolding store_report
store_report-own_row i k s room outside =
    update_ne s.reports _ k _
      (omega (arith, hid_process_report-dev_id s.bt_data (close_report i s)))
