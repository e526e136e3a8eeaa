-- ===== src/Adapter/HidParser/Main.antt =====
-- The items of a descriptor that make usages: Input and Output.
use blue_retro_forever.Prelude.{
  ℕ, ◌+◌, ◌*◌, ◌/◌, ◌%◌, ◌-◌, Bool, not, ◌&&◌, u32, ltb, ◌==◌, if◌then◌else◌, meets, update,
  for_range,
}
use blue_retro_forever.Adapter.Ids.{report_max_usage}
use blue_retro_forever.Adapter.HidParser.Types.{HidUsage}
use blue_retro_forever.Adapter.HidParser.Usage.{hid_usage_is_used}
use blue_retro_forever.Adapter.HidParser.State.{HidStackElement, Parser, top}

-- What the two loops change: the usages of the report, how many there are, and the bit offset.
pub record Fill : Type 0 where
  pub usages : ℕ → HidUsage
  pub usage_cnt : ℕ
  pub bit_offset : ℕ

-- One usage, one bit each: a whole field is one entry.
abbrev pub bitfield_merge : ℕ → HidStackElement → Bool
bitfield_merge usage_idx e = usage_idx == 1 && (e.report_size == 1 && ltb 1 e.report_cnt)

-- How many entries of 32 bits a merged field takes.
abbrev pub frag_cnt : Bool → HidStackElement → ℕ
frag_cnt merge e =
    if merge then e.report_cnt / 32 + (if e.report_cnt % 32 == 0 then 0 else 1) else 1

-- The `bit_size` of entry `j`.
abbrev pub frag_bit_size : Bool → HidStackElement → ℕ → ℕ
frag_bit_size merge e j =
    let frags = frag_cnt merge e in
    if ltb 1 frags && j == frags - 1
    then e.report_cnt % 32
    else (if merge
        then u32 (e.report_size * (if ltb 1 frags then 32 else e.report_cnt))
        else e.report_size)

-- Entry `j` of a field that starts at `offset`.
abbrev pub entry : HidStackElement → Bool → ℕ → ℕ → ℕ → ℕ → HidUsage
entry e merge usage flags offset j = record {
  usage_page = e.usage_page;
  usage = u32 (usage + j * 32);
  usage_max = e.usage_max;
  flags = flags;
  bit_offset = u32 (offset + j * 32);
  bit_size = frag_bit_size merge e j;
  logical_min = e.logical_min;
  logical_max = e.logical_max;
}

module _ (e : HidStackElement) (merge : Bool) (usage flags : ℕ) where
  -- The body of the loop on `j`.
  unfoldable pub add_fragment : ℕ → Fill → Fill
  add_fragment j f = record f {
    usages = update f.usages f.usage_cnt (entry e merge usage flags f.bit_offset j);
    usage_cnt = f.usage_cnt + 1;
  }

  -- The body of the loop on `i`, for its usage.
  unfoldable pub add_usage : Fill → Fill
  unfolding add_fragment for_range hid_usage_is_used
  add_usage f =
      let g =
        if hid_usage_is_used e.usage_page usage
        then for_range (frag_cnt merge e) 0 add_fragment f
        else f in
      record g {
        bit_offset =
            u32 (
              g.bit_offset + (if merge then u32 (e.report_cnt * e.report_size) else e.report_size));
      }

-- The loop on `i`.
unfoldable pub add_usages : HidStackElement → Bool → (ℕ → ℕ) → ℕ → ℕ → Fill → Fill
unfolding add_usage for_range
add_usages e merge usage flags n f = for_range n 0 (λ i. add_usage e merge (usage i) flags) f

-- The condition under which the item makes usages.
abbrev pub is_data : Parser → ℕ → ℕ → Bool
is_data s tag flags =
    not (meets flags 0x01)
    && (not ((top s).usage_page == 0xff)
        && (not (s.usage_list 0 == 0xff) && ltb (s.report_usage_idx tag) report_max_usage))

-- Both loops. An index past the list reads what lies behind it.
unfoldable pub fill : Parser → ℕ → ℕ → Fill
unfolding add_usages
fill s tag flags =
    let e = top s in
    let merge = bitfield_merge s.usage_idx e in
    add_usages e merge (λ i. if s.usage_idx == 1 then s.usage_list 0 else s.usage_list i) flags
      (if merge then 1 else e.report_cnt)
      (record {
        usages = (s.wip_report tag).usages;
        usage_cnt = s.report_usage_idx tag;
        bit_offset = s.report_bit_offset tag;
      })

-- What the item leaves in its report, the usage count and the bit offset.
unfoldable pub outcome : Parser → ℕ → ℕ → Fill
unfolding fill
outcome s tag flags = if is_data s tag flags then fill s tag flags else (record {
  usages = (s.wip_report tag).usages;
  usage_cnt = s.report_usage_idx tag;
  bit_offset = u32 (s.report_bit_offset tag + u32 ((top s).report_size * (top s).report_cnt));
})

-- `memset(usage_list, 0xFF, sizeof(usage_list))` on 16-bit entries.
abbrev pub clear_usages : (ℕ → ℕ) → ℕ → ℕ
clear_usages list i = if ltb i report_max_usage then 0xffff else list i

-- HID_MI_INPUT at tag 0 and HID_MI_OUTPUT at tag 1.
unfoldable pub main_item : (ℕ → ℕ) → ℕ → Parser → Parser
unfolding outcome
main_item mem tag s =
    let f = outcome s tag (mem s.desc) in
    record s {
      wip_report = update s.wip_report tag (record (s.wip_report tag) { usages = f.usages });
      report_usage_idx = update s.report_usage_idx tag f.usage_cnt;
      report_bit_offset = update s.report_bit_offset tag f.bit_offset;
      usage_idx = 0;
      usage_list = clear_usages s.usage_list;
      desc = s.desc + 1;
    }
