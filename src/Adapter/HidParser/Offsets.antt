-- ===== src/Adapter/HidParser/Offsets.antt =====
-- Where the fields of a report lie.
use blue_retro_forever.Prelude.{
  ℕ, ◌+◌, ◌*◌, ◌^◌, ◌<◌, ◌≡◌, refl, ap, ◌∙◌, Bool, true, false, arith, u32, ◌==◌, if◌then◌else◌,
  for_range, for_range_inv, Bool-cases, inl, inr,
}
use blue_retro_forever.Adapter.HidParser.State.{HidStackElement, Parser, top}
use blue_retro_forever.Adapter.HidParser.Main.{
  Fill, bitfield_merge, frag_cnt, add_fragment, add_usage, add_usages, is_data, fill, outcome,
  main_item,
}

module _ (e : HidStackElement) (merge : Bool) (usage flags : ℕ) where
  -- The fragments of a field do not move the offset.
  fragments-bit_offset :
      (n : ℕ) (f : Fill)
      → (for_range n 0 (add_fragment e merge usage flags) f).bit_offset ≡ f.bit_offset
  unfolding add_fragment
  fragments-bit_offset n f =
      for_range_inv (λ i g. g.bit_offset ≡ f.bit_offset) (add_fragment e merge usage flags) n 0 n f
        (omega arith) (λ k t a b h. h) refl

  -- A usage moves it by its field, read or not.
  add_usage-bit_offset :
      (f : Fill)
      → (add_usage e merge usage flags f).bit_offset
        ≡ u32 (f.bit_offset + (if merge then u32 (e.report_cnt * e.report_size) else e.report_size))
  unfolding add_usage
  add_usage-bit_offset f = ground (arith, fragments-bit_offset (frag_cnt merge e) f)

-- The loop on the usages moves the offset by one field each.
add_usages-bit_offset :
    (e : HidStackElement) (merge : Bool) (usage : ℕ → ℕ) (flags n : ℕ) (f : Fill)
    → f.bit_offset < 2 ^ 32
    → (add_usages e merge usage flags n f).bit_offset
      ≡ u32
          (f.bit_offset + n * (if merge then u32 (e.report_cnt * e.report_size) else e.report_size))
unfolding add_usages
add_usages-bit_offset e merge usage flags n f small =
    let w = if merge then u32 (e.report_cnt * e.report_size) else e.report_size in
    for_range_inv (λ i g. g.bit_offset ≡ u32 (f.bit_offset + i * w))
      (λ i. add_usage e merge (usage i) flags) n 0 n f (omega arith)
      (λ k t a b h. omega (arith, h, add_usage-bit_offset e merge (usage k) flags t)) (omega arith)

-- Merged or not, the usages take up the whole item.
total :
    (merge : Bool) (b size cnt : ℕ)
    → u32 (b + (if merge then 1 else cnt) * (if merge then u32 (cnt * size) else size))
      ≡ u32 (b + size * cnt)
total true b size cnt = omega arith
total false b size cnt = omega arith

fill-bit_offset :
    (s : Parser) (tag flags : ℕ)
    → s.report_bit_offset tag < 2 ^ 32
    → (fill s tag flags).bit_offset
      ≡ u32 (s.report_bit_offset tag + (top s).report_size * (top s).report_cnt)
unfolding fill
fill-bit_offset s tag flags small =
    add_usages-bit_offset (top s) (bitfield_merge s.usage_idx (top s)) _ flags _ _ small
    ∙ total (bitfield_merge s.usage_idx (top s)) (s.report_bit_offset tag) (top s).report_size
        (top s).report_cnt

outcome-bit_offset :
    (s : Parser) (tag flags : ℕ)
    → s.report_bit_offset tag < 2 ^ 32
    → (outcome s tag flags).bit_offset
      ≡ u32 (s.report_bit_offset tag + (top s).report_size * (top s).report_cnt)
unfolding outcome
outcome-bit_offset s tag flags small = elim (Bool-cases (is_data s tag flags)) [
  | inl e ↦ rw e (fill-bit_offset s tag flags small)
  | inr e ↦ rw e (omega arith)
]

-- An Input or Output item moves the bit offset of its report by `report_size` times `report_cnt`,
-- modulo 2 ^ 32, on every path: constant, vendor page, unused usages, single and merged fields. The
-- offset of the other report stays.
pub main_item-bit_offset :
    (mem : ℕ → ℕ) (tag : ℕ) (s : Parser)
    → s.report_bit_offset tag < 2 ^ 32
    → (j : ℕ)
    → (main_item mem tag s).report_bit_offset j ≡ (
        if j == tag
        then u32 (s.report_bit_offset tag + (top s).report_size * (top s).report_cnt)
        else s.report_bit_offset j)
unfolding main_item
main_item-bit_offset mem tag s small j =
    ap (λ o. if j == tag then o else s.report_bit_offset j)
      (outcome-bit_offset s tag (mem s.desc) small)
