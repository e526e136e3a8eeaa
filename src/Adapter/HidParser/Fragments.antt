-- ===== src/Adapter/HidParser/Fragments.antt =====
-- The usages that an Input or Output item adds.
use blue_retro_forever.Prelude.{
  ℕ, ◌+◌, ◌-◌, ◌*◌, ◌%◌, ◌/◌, ◌^◌, ◌<◌, ◌≤◌, ◌≡◌, ◌≢◌, ◌⊎◌, refl, Bool, true, arith, u32, ◌==◌,
  for_range, for_range_inv,
}
use blue_retro_forever.Adapter.Ids.{report_max_usage}
use blue_retro_forever.Adapter.HidParser.State.{HidStackElement, Parser, top}
use blue_retro_forever.Adapter.HidParser.Usage.{hid_usage_is_used}
use blue_retro_forever.Adapter.HidParser.Main.{
  Fill, bitfield_merge, frag_cnt, frag_bit_size, entry, add_fragment, add_usage, add_usages,
  is_data, fill, outcome, main_item,
}

module _ (e : HidStackElement) (merge : Bool) (usage flags : ℕ) where
  -- After `i` fragments.
  record Added (f : Fill) (i : ℕ) (g : Fill) : Type 0 where
    count : g.usage_cnt ≡ f.usage_cnt + i
    offset : g.bit_offset ≡ f.bit_offset
    entries :
        (j : ℕ) → j < i → g.usages (f.usage_cnt + j) ≡ entry e merge usage flags f.bit_offset j
    others : (k : ℕ) → k < f.usage_cnt → g.usages k ≡ f.usages k

  add_fragment-Added :
      (f g : Fill) (i : ℕ) → Added f i g → Added f (i + 1) (add_fragment e merge usage flags i g)
  unfolding add_fragment
  add_fragment-Added f g i h = record {
    count = omega arith;
    offset = h.offset;
    entries = λ j lt. ground (arith, h.entries j, h.offset, h.count);
    others = λ k lt. ground (arith, h.others k, h.count);
  }

  fragments-Added :
      (f : Fill) (n : ℕ) → Added f n (for_range n 0 (add_fragment e merge usage flags) f)
  fragments-Added f n =
      for_range_inv (λ i g. Added f i g) (add_fragment e merge usage flags) n 0 n f (omega arith)
        (λ k t a b h. add_fragment-Added f t k h)
        (record {
          count = omega arith;
          offset = refl;
          entries = λ j lt. absurd (omega arith);
          others = λ k lt. refl;
        })

-- A usage that the adapter reads adds its fragments, and no more.
add_usage-usages :
    (e : HidStackElement) (merge : Bool) (usage flags : ℕ) (f : Fill)
    → hid_usage_is_used e.usage_page usage ≡ true
    → (add_usage e merge usage flags f).usages
      ≡ (for_range (frag_cnt merge e) 0 (add_fragment e merge usage flags) f).usages
unfolding add_usage
add_usage-usages e merge usage flags f used = rw used

-- A merged field of a used usage: one round of the outer loop.
merged-fill :
    (s : Parser) (tag flags : ℕ)
    → bitfield_merge s.usage_idx (top s) ≡ true
    → hid_usage_is_used (top s).usage_page (s.usage_list 0) ≡ true
    → (j : ℕ) → j < frag_cnt true (top s)
    → (fill s tag flags).usages (s.report_usage_idx tag + j)
      ≡ entry (top s) true (s.usage_list 0) flags (s.report_bit_offset tag) j
unfolding fill add_usages
merged-fill s tag flags m used j lt =
    rw (m, if_one)
      (rw (add_usage-usages (top s) true (s.usage_list 0) flags _ used)
        ((fragments-Added (top s) true (s.usage_list 0) flags _ _).entries j lt))
  where
    if_one : (s.usage_idx == 1) ≡ true
    if_one = ground arith

-- A field of one-bit controls with a single usage: `report_cnt` bits from the bit offset on.
abbrev IsMerged : Parser → ℕ → ℕ → Type 0
IsMerged s tag flags =
    (is_data s tag flags ≡ true)
    × (bitfield_merge s.usage_idx (top s) ≡ true)
    × (hid_usage_is_used (top s).usage_page (s.usage_list 0) ≡ true)

merged-main_item :
    (mem : ℕ → ℕ) (tag : ℕ) (s : Parser)
    → IsMerged s tag (mem s.desc)
    → (j : ℕ) → j < frag_cnt true (top s)
    → ((main_item mem tag s).wip_report tag).usages (s.report_usage_idx tag + j)
      ≡ entry (top s) true (s.usage_list 0) (mem s.desc) (s.report_bit_offset tag) j
unfolding main_item outcome
merged-main_item mem tag s (d, m, used) j lt =
    ground (arith, merged-fill s tag (mem s.desc) m used j lt)

-- The width of a fragment, where the last one is not empty.
frag_bit_size-covers :
    (e : HidStackElement) (k : ℕ)
    → e.report_size ≡ 1
    → e.report_cnt < 2 ^ 16
    → (e.report_cnt % 32 ≢ 0) ⊎ (e.report_cnt ≤ 32)
    → k < e.report_cnt
    → (k / 32 < frag_cnt true e) × (k % 32 < frag_bit_size true e (k / 32))
frag_bit_size-covers e k one small ok lt = ground arith

-- An Input or Output item with one usage and one-bit controls, whose count is not a multiple of 32 or
-- is at most 32 and whose entries have room in the 24 of the report, loses no control: control `k` lies
-- in entry `k / 32` of the entries that it adds, which is one of the 24, at bit `k % 32` of that entry,
-- which has the usage and the bit offset of the field plus `32 * (k / 32)`.
pub main_item-covers :
    (mem : ℕ → ℕ) (tag : ℕ) (s : Parser)
    → IsMerged s tag (mem s.desc)
    → (top s).report_cnt < 2 ^ 16
    → ((top s).report_cnt % 32 ≢ 0) ⊎ ((top s).report_cnt ≤ 32)
    → s.report_usage_idx tag + frag_cnt true (top s) ≤ report_max_usage
    → (k : ℕ) → k < (top s).report_cnt
    → let u = ((main_item mem tag s).wip_report tag).usages (s.report_usage_idx tag + k / 32) in
      (u.usage ≡ u32 (s.usage_list 0 + k / 32 * 32))
      × (u.bit_offset ≡ u32 (s.report_bit_offset tag + k / 32 * 32))
      × (k % 32 < u.bit_size)
      × (s.report_usage_idx tag + k / 32 < report_max_usage)
main_item-covers mem tag s m small ok room k lt =
    let (a, b) = frag_bit_size-covers (top s) k (one_bit m.1) small ok lt in
    rw (merged-main_item mem tag s m (k / 32) a) (refl, refl, b, omega (arith, a, room))
  where
    one_bit : bitfield_merge s.usage_idx (top s) ≡ true → (top s).report_size ≡ 1
    one_bit h = ground arith

-- With a count that is a multiple of 32 above 32 the last of the entries is empty: its 32 controls
-- are in no entry.
pub main_item_loses :
    (mem : ℕ → ℕ) (tag : ℕ) (s : Parser)
    → IsMerged s tag (mem s.desc)
    → (top s).report_cnt % 32 ≡ 0
    → 32 < (top s).report_cnt
    → let last = (top s).report_cnt / 32 - 1 in
      (last < frag_cnt true (top s))
      × ((((main_item mem tag s).wip_report tag).usages (s.report_usage_idx tag + last)).bit_size
          ≡ 0)
main_item_loses mem tag s m whole big =
    let a : (top s).report_cnt / 32 - 1 < frag_cnt true (top s) = ground arith in
    (a, rw (merged-main_item mem tag s m ((top s).report_cnt / 32 - 1) a) (ground arith))
