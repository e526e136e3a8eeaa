-- ===== src/Adapter/HidParser/Progress.antt =====
-- The parser stays inside its own stack and list, and comes to the end of every descriptor.
use blue_retro_forever.Prelude.{
  ℕ, zero, suc, ◌+◌, ◌<◌, ◌≤◌, ◌≡◌, refl, ◌∙◌, ◌&&◌, Bool, true, arith, ltb, ◌==◌, if◌then◌else◌,
  Option, some, Bool-cases, inl, inr,
}
use blue_retro_forever.Adapter.Ids.{report_max_usage}
use blue_retro_forever.Adapter.HidParser.State.{Parser, top}
use blue_retro_forever.Adapter.HidParser.Usage.{hid_usage_is_collection}
use blue_retro_forever.Adapter.HidParser.Main.{main_item}
use blue_retro_forever.Adapter.HidParser.Items.{
  Item, skip, usage_page, usage, usage16, logical_min, logical_max, usage_max, report_size, output,
  input, report_id, report_count, push, feature, pop, unknown, decode, Flow, go, leave, ◌>>=◌,
  add_to_list, push_item, pop_item, close_report, store_report, next_report, start_report,
  report_id_item, exec,
}
use blue_retro_forever.Adapter.HidParser.Parse.{
  items, start, hid_parser_free_reports, hid_parser, close_flow,
}
use blue_retro_forever.Adapter.HidParser.Types.{HidReport, BtData}

-- Both indices lie in their arrays: four stack elements, and room for the next of 24 usages or a full list.
pub record InBounds (s : Parser) : Type 0 where
  pub stack : s.hid_stack_idx < 4
  pub list : s.usage_idx ≤ report_max_usage

-- What an item does to a parser in bounds: it stays in bounds and never reads backwards.
pub record Advances (s t : Parser) : Type 0 where
  pub in_bounds : InBounds t
  pub forward : s.desc ≤ t.desc

abbrev pub AdvancesTo : Parser → Flow → Type 0
AdvancesTo s (go t) = Advances s t
AdvancesTo s (leave t) = Advances s t

add_to_list-Advances : (v n : ℕ) (s : Parser) → InBounds s → Advances s (add_to_list v n s)
unfolding add_to_list
add_to_list-Advances v n s h = ground arith

push_item-Advances : (s : Parser) → InBounds s → Advances s (push_item s)
unfolding push_item
push_item-Advances s h = ground arith

pop_item-Advances : (s : Parser) → InBounds s → Advances s (pop_item s)
unfolding pop_item
pop_item-Advances s h = ground arith

main_item-Advances :
    (mem : ℕ → ℕ) (tag : ℕ) (s : Parser) → InBounds s → Advances s (main_item mem tag s)
unfolding main_item
main_item-Advances mem tag s h = omega arith

next_report-Advances :
    (alloc : ℕ → Bool) (i : ℕ) (s : Parser) → InBounds s → AdvancesTo s (next_report alloc i s)
unfolding next_report store_report
next_report-Advances alloc i s h = elim (Bool-cases ((close_report i s).len == 0)) [
  | inl e ↦ rw e (omega arith)
  | inr e ↦ rw e (elim (Bool-cases (alloc s.allocs)) [
    | inl a ↦ rw a (omega arith)
    | inr a ↦ rw a (omega arith)
  ])
]

AdvancesTo-trans : (s t : Parser) (f : Flow) → Advances s t → AdvancesTo t f → AdvancesTo s f
AdvancesTo-trans s t (go u) h k = omega arith
AdvancesTo-trans s t (leave u) h k = omega arith

-- The rule for two items in a row.
bind-AdvancesTo :
    (s : Parser) (f : Flow) (k : Parser → Flow)
    → AdvancesTo s f
    → ((t : Parser) → InBounds t → AdvancesTo t (k t))
    → AdvancesTo s (f >>= k)
bind-AdvancesTo s (go t) k h next = AdvancesTo-trans s t (k t) h (next t h.in_bounds)
bind-AdvancesTo s (leave t) k h next = h

start_report-Advances : (id : ℕ) (s : Parser) → InBounds s → Advances s (start_report id s)
unfolding start_report
start_report-Advances id s h = omega arith

report_id_item-Advances :
    (mem : ℕ → ℕ) (alloc : ℕ → Bool) (s : Parser)
    → InBounds s
    → AdvancesTo s (report_id_item mem alloc s)
unfolding report_id_item
report_id_item-Advances mem alloc s h =
    bind-AdvancesTo s _ _ closed (λ t b. start_report-Advances (mem t.desc) t b)
  where
    closed :
        AdvancesTo s (
          if s.report_id == 0 then go s else (next_report alloc 0 s >>= λ t. next_report alloc 1 t))
    closed = elim (Bool-cases (s.report_id == 0)) [
      | inl e ↦ rw e (omega arith)
      | inr e ↦ rw e (
          bind-AdvancesTo s (next_report alloc 0 s) _ (next_report-Advances alloc 0 s h)
            (next_report-Advances alloc 1))
    ]

exec-Advances :
    (mem : ℕ → ℕ) (alloc : ℕ → Bool) (item : Item) (s : Parser)
    → InBounds s
    → AdvancesTo s (exec mem alloc item s)
unfolding exec
exec-Advances mem alloc (skip n) s h = omega arith
exec-Advances mem alloc (usage_page w) s h = omega arith
exec-Advances mem alloc usage s h =
    elim (Bool-cases (hid_usage_is_collection (top s).usage_page (mem s.desc))) [
      | inl e ↦ rw e (omega arith)
      | inr e ↦ rw e (add_to_list-Advances (mem s.desc) 1 s h)
    ]
exec-Advances mem alloc usage16 s h = add_to_list-Advances _ 2 s h
exec-Advances mem alloc (logical_min w) s h = omega arith
exec-Advances mem alloc (logical_max w) s h = omega arith
exec-Advances mem alloc (usage_max w) s h = omega arith
exec-Advances mem alloc report_size s h = omega arith
exec-Advances mem alloc output s h = main_item-Advances mem 1 s h
exec-Advances mem alloc input s h = main_item-Advances mem 0 s h
exec-Advances mem alloc report_id s h = report_id_item-Advances mem alloc s h
exec-Advances mem alloc (report_count w) s h = omega arith
exec-Advances mem alloc push s h = push_item-Advances s h
exec-Advances mem alloc (feature n) s h = omega arith
exec-Advances mem alloc pop s h = pop_item-Advances s h
exec-Advances mem alloc unknown s h = omega arith

module _ (mem : ℕ → ℕ) (alloc : ℕ → Bool) (end fuel : ℕ) (s : Parser)
    (more : ltb s.desc end ≡ true) where
  items-go :
      (t : Parser)
      → exec mem alloc (decode (mem s.desc)) (record s { desc = s.desc + 1 }) ≡ go t
      → items mem alloc end (suc fuel) s ≡ items mem alloc end fuel t
  unfolding items
  items-go t e = rw (more, items, e)

  items-leave :
      (t : Parser)
      → exec mem alloc (decode (mem s.desc)) (record s { desc = s.desc + 1 }) ≡ leave t
      → items mem alloc end (suc fuel) s ≡ some (leave t)
  unfolding items
  items-leave t e = rw (more, items, e)

-- Whatever the bytes, the loop comes to its end with fuel for each byte of the descriptor, and both
-- indices are then inside their arrays.
pub items_total :
    (mem : ℕ → ℕ) (alloc : ℕ → Bool) (end fuel : ℕ) (s : Parser)
    → InBounds s
    → end ≤ s.desc + fuel
    → (r : Flow) × (items mem alloc end fuel s ≡ some r) × AdvancesTo s r
unfolding items
items_total mem alloc end zero s h e = elim (Bool-cases (ltb s.desc end)) [
  | inl more ↦ absurd (ground arith)
  | inr done ↦ (go s, unfold items in rw (done, items), omega arith)
]
items_total mem alloc end (suc fuel) s h e = elim (Bool-cases (ltb s.desc end)) [
  | inr done ↦ (go s, unfold items in rw (done, items), omega arith)
  | inl more ↦
      one_more (items_total mem alloc end fuel) more _ refl (
        exec-Advances mem alloc (decode (mem s.desc)) (record s { desc = s.desc + 1 })
          (omega arith))
]
  where
    one_more :
        ((t : Parser)
          → InBounds t
          → end ≤ t.desc + fuel
          → (r : Flow) × (items mem alloc end fuel t ≡ some r) × AdvancesTo t r)
        → ltb s.desc end ≡ true
        → (f : Flow) → exec mem alloc (decode (mem s.desc)) (record s { desc = s.desc + 1 }) ≡ f
        → AdvancesTo (record s { desc = s.desc + 1 }) f
        → (r : Flow) × (items mem alloc end (suc fuel) s ≡ some r) × AdvancesTo s r
    one_more ih more (go t) x a =
        let (r, p, q) = ih t a.in_bounds (omega arith) in
        (r, items-go mem alloc end fuel s more t x ∙ p, AdvancesTo-trans s t r (omega arith) q)
    one_more ih more (leave t) x a =
        (leave t, items-leave mem alloc end fuel s more t x, omega arith)

-- `hid_parser` ends on every descriptor: with any bytes, any memory behind its arrays and any
-- failures of the allocator.
pub hid_parser_total :
    (mem beyond : ℕ → ℕ) (alloc : ℕ → Bool) (len : ℕ) (d : BtData) (reports : ℕ → Option HidReport)
    → (r : BtData × (ℕ → Option HidReport)) × (hid_parser mem beyond alloc len d reports ≡ some r)
unfolding hid_parser
hid_parser_total mem beyond alloc len d reports =
    let cleared = hid_parser_free_reports d.dev_id reports in
    let (f, p, q) =
      items_total mem alloc len len (start beyond d cleared) (omega arith) (omega arith) in
    elim (Bool-cases (alloc 0 && alloc 1)) [
      | inl e ↦ (((close_flow f).bt_data, (close_flow f).reports), rw (e, p))
      | inr e ↦ ((d, cleared), rw e)
    ]
