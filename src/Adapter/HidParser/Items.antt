-- ===== src/Adapter/HidParser/Items.antt =====
-- The items of a descriptor: the `switch` of `hid_parser` and its cases.
use blue_retro_forever.Prelude.{
  ℕ, ◌+◌, ◌*◌, ◌/◌, ◌%◌, ◌-◌, Bool, some, List, [], ◌∷◌, u8, ltb, ◌==◌, if◌then◌else◌, update,
}
use blue_retro_forever.Adapter.Ids.{report_max_usage, hid_max_report}
use blue_retro_forever.Adapter.HidParser.Types.{HidReport, zero_report}
use blue_retro_forever.Adapter.HidParser.Usage.{hid_usage_is_collection}
use blue_retro_forever.Adapter.HidParser.Report.{hid_process_report}
use blue_retro_forever.Adapter.HidParser.State.{
  HidStackElement, Parser, top, Width, one, two, four, size, read_le, sign_extend,
}
use blue_retro_forever.Adapter.HidParser.Main.{main_item}

-- The cases of the `switch`, those with one body together.
pub data Item : Type 0 where
  skip : ℕ → Item
  usage_page : Width → Item
  usage : Item
  usage16 : Item
  logical_min : Width → Item
  logical_max : Width → Item
  usage_max : Width → Item
  report_size : Item
  output : Item
  input : Item
  report_id : Item
  report_count : Width → Item
  push : Item
  feature : ℕ → Item
  pop : Item
  unknown : Item

-- The first label in the list that is the marker.
unfoldable pub find_label : List (ℕ × Item) → ℕ → Item
find_label [] n = unknown
find_label ((k, item) ∷ rest) n = let other = find_label rest n in if n == k then item else other

-- The labels of the `switch`.
abbrev pub labels : List (ℕ × Item)
labels =
    (0x00, skip 0)
    ∷ (0x01, skip 1)
    ∷ (0x03, skip 4)
    ∷ (0x05, usage_page one)
    ∷ (0x06, usage_page two)
    ∷ (0x07, usage_page four)
    ∷ (0x09, usage)
    ∷ (0x19, usage)
    ∷ (0x0a, usage16)
    ∷ (0x1a, usage16)
    ∷ (0x0d, skip 1)
    ∷ (0x15, logical_min one)
    ∷ (0x16, logical_min two)
    ∷ (0x17, logical_min four)
    ∷ (0x25, logical_max one)
    ∷ (0x26, logical_max two)
    ∷ (0x27, logical_max four)
    ∷ (0x29, usage_max one)
    ∷ (0x2a, usage_max two)
    ∷ (0x2b, usage_max four)
    ∷ (0x35, skip 1)
    ∷ (0x45, skip 1)
    ∷ (0x46, skip 2)
    ∷ (0x55, skip 1)
    ∷ (0x65, skip 1)
    ∷ (0x66, skip 2)
    ∷ (0x75, report_size)
    ∷ (0x7c, skip 0)
    ∷ (0x91, output)
    ∷ (0x81, input)
    ∷ (0x85, report_id)
    ∷ (0x95, report_count one)
    ∷ (0x96, report_count two)
    ∷ (0xa1, skip 1)
    ∷ (0xa4, push)
    ∷ (0xb1, feature 1)
    ∷ (0xb2, feature 2)
    ∷ (0xb4, pop)
    ∷ (0xc0, skip 0)
    ∷ (0xff, skip 4)
    ∷ []

unfoldable pub decode : ℕ → Item
unfolding find_label
decode = find_label labels

-- A global item writes the top element and moves on.
abbrev pub set_top : HidStackElement → ℕ → Parser → Parser
set_top e n s = record s { hid_stack = update s.hid_stack s.hid_stack_idx e; desc = s.desc + n }

-- `usage_list[usage_idx++] = value`, while there is room.
unfoldable pub add_to_list : ℕ → ℕ → Parser → Parser
add_to_list value n s =
    if ltb s.usage_idx report_max_usage
    then record s {
      usage_list = update s.usage_list s.usage_idx value;
      usage_idx = s.usage_idx + 1;
      desc = s.desc + n;
    }
    else (record s { desc = s.desc + n })

unfoldable pub push_item : Parser → Parser
push_item s =
    if ltb s.hid_stack_idx 3
    then record s {
      hid_stack = update s.hid_stack (s.hid_stack_idx + 1) (top s);
      hid_stack_idx = s.hid_stack_idx + 1;
    }
    else s

unfoldable pub pop_item : Parser → Parser
pop_item s = if ltb 0 s.hid_stack_idx then (record s { hid_stack_idx = s.hid_stack_idx - 1 }) else s

-- The report of a tag, measured: tag, usage count and length in bytes.
unfoldable pub close_report : ℕ → Parser → HidReport
close_report i s = record (s.wip_report i) {
  tag = i;
  usage_cnt = s.report_usage_idx i;
  len = s.report_bit_offset i / 8 + (if s.report_bit_offset i % 8 == 0 then 0 else 1);
}

-- `reports[dev][report_idx++] = report`: ten entries to a device, and no test of the index.
unfoldable pub store_report : ℕ → Parser → Parser
unfolding close_report hid_process_report
store_report i s =
    let (d, r) = hid_process_report s.bt_data (close_report i s) in
    record s {
      bt_data = d;
      reports = update s.reports (d.dev_id * hid_max_report + s.report_idx) (some r);
      report_idx = u8 (s.report_idx + 1);
      wip_report = update s.wip_report i r;
    }

-- After an item: the next one, or a `return`.
pub data Flow : Type 0 where
  go : Parser → Flow
  leave : Parser → Flow

infixl 5 ◌>>=◌
abbrev pub ◌>>=◌ : Flow → (Parser → Flow) → Flow
go s >>= f = f s
leave s >>= f = leave s

-- A round of the loop over the two tags at a report identifier: an empty report is kept, another is
-- stored and replaced by a cleared block, if there is memory.
unfoldable pub next_report : (ℕ → Bool) → ℕ → Parser → Flow
unfolding store_report
next_report alloc i s =
    if (close_report i s).len == 0
    then go (record s { wip_report = update s.wip_report i (close_report i s) })
    else (let t = store_report i s in
        if alloc t.allocs
        then go (record t { wip_report = update t.wip_report i zero_report; allocs = t.allocs + 1 })
        else leave t)

-- The identifier starts both reports anew.
unfoldable pub start_report : ℕ → Parser → Parser
start_report id s = record s {
  report_id = id;
  wip_report = λ i. record (s.wip_report i) { id = id };
  report_usage_idx = λ i. 0;
  report_bit_offset = λ i. 0;
  desc = s.desc + 1;
}

unfoldable pub report_id_item : (ℕ → ℕ) → (ℕ → Bool) → Parser → Flow
unfolding next_report start_report
report_id_item mem alloc s =
    (if s.report_id == 0 then go s else (do t ← next_report alloc 0 s; next_report alloc 1 t))
    >>= λ t. go (start_report (mem t.desc) t)

-- The cases, after the marker itself was read.
unfoldable pub exec : (ℕ → ℕ) → (ℕ → Bool) → Item → Parser → Flow
unfolding read_le sign_extend add_to_list push_item pop_item report_id_item
exec mem alloc (skip n) s = go (record s { desc = s.desc + n })
exec mem alloc (usage_page w) s =
    go (set_top (record (top s) { usage_page = read_le mem s.desc w }) (size w) s)
exec mem alloc usage s =
    if hid_usage_is_collection (top s).usage_page (mem s.desc)
    then go (record s { desc = s.desc + 1 })
    else go (add_to_list (mem s.desc) 1 s)
exec mem alloc usage16 s = go (add_to_list (read_le mem s.desc two) 2 s)
exec mem alloc (logical_min w) s =
    go (set_top (record (top s) { logical_min = sign_extend w (read_le mem s.desc w) }) (size w) s)
exec mem alloc (logical_max w) s =
    go (set_top (record (top s) { logical_max = sign_extend w (read_le mem s.desc w) }) (size w) s)
exec mem alloc (usage_max w) s =
    go (set_top (record (top s) { usage_max = sign_extend w (read_le mem s.desc w) }) (size w) s)
exec mem alloc report_size s = go (set_top (record (top s) { report_size = mem s.desc }) 1 s)
exec mem alloc output s = go (main_item mem 1 s)
exec mem alloc input s = go (main_item mem 0 s)
exec mem alloc report_id s = report_id_item mem alloc s
exec mem alloc (report_count w) s =
    go (set_top (record (top s) { report_cnt = read_le mem s.desc w }) (size w) s)
exec mem alloc push s = go (push_item s)
exec mem alloc (feature n) s = go (record s { usage_idx = 0; desc = s.desc + n })
exec mem alloc pop s = go (pop_item s)
exec mem alloc unknown s = leave s
