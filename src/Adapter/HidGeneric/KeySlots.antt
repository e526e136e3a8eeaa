-- ===== src/Adapter/HidGeneric/KeySlots.antt =====
-- The keys that the array of a keyboard's report presses (main/adapter/wireless/hid_generic.c).
use blue_retro_forever.Prelude.{
  ℕ, zero, suc, ◌+◌, ◌/◌, ◌≡◌, refl, ap, ◌∙◌, Bool, true, false, ◌&&◌, ◌||◌, arith, ltb, ◌==◌,
  if◌then◌else◌, length, get_or, update, for_range_inv, test_bit, test_bit-or, test_bit-bit, ℤ, pos,
  negsuc, bit, bit_and, bit_or, bit_and-31, Bool-cases, inl, inr, ==_iff, update_self, update_ne,
}
use blue_retro_forever.Adapter.HidParser.Types.{HidReport}
use blue_retro_forever.Adapter.Quirks.Types.{RawSrcMapping}
use blue_retro_forever.Adapter.KbMonitor.Keys.{key_bit}
use blue_retro_forever.Adapter.HidGeneric.Types.{HidReportMeta, adapter_ps2_max_axes}
use blue_retro_forever.Adapter.HidGeneric.Fields.{field}
use blue_retro_forever.Adapter.HidGeneric.Kb.{
  press, key_slot, slot_round, kb_slots, hid_kb_key_to_generic,
}

add_one : (i : ℕ) → suc i ≡ i + 1
add_one i = omega arith

one_word : (g h : ℕ) → g / 32 ≡ h / 32 → (bit_and g 0x1f == bit_and h 0x1f) ≡ (g == h)
one_word g h e = ground (arith, bit_and-31 g, bit_and-31 h)

other_word : (b : Bool) (g h : ℕ) → (g / 32 == h / 32) ≡ false → b ≡ (b || (g == h))
other_word b g h e = ground arith

-- Pressing the key `g` presses it and no other.
pub key_bit-press :
    (g h : ℕ) (btns : ℕ → ℕ) → key_bit (press g btns) h ≡ (key_bit btns h || (g == h))
unfolding press
key_bit-press g h btns = elim (Bool-cases (g / 32 == h / 32)) [
  | inl same ↦
      let e : g / 32 ≡ h / 32 = (==_iff (g / 32) (h / 32)).0 same in
      ap (λ w. key_bit (update btns w (bit_or (btns w) (bit (bit_and g 0x1f)))) h) e
      ∙ ap (λ x. test_bit x (bit_and h 0x1f))
          (update_self btns (h / 32) (bit_or (btns (h / 32)) (bit (bit_and g 0x1f))))
      ∙ test_bit-or (btns (h / 32)) (bit (bit_and g 0x1f)) (bit_and h 0x1f)
      ∙ ap (λ b. key_bit btns h || b)
          (test_bit-bit (bit_and g 0x1f) (bit_and h 0x1f) ∙ one_word g h e)
  | inr other ↦
      ap (λ x. test_bit x (bit_and h 0x1f))
        (update_ne btns (g / 32) (h / 32) (bit_or (btns (g / 32)) (bit (bit_and g 0x1f)))
          (ground arith))
      ∙ other_word (key_bit btns h) g h other
]

-- The key that the slot with the entry `idx` of `axes_idx` holds.
abbrev pub slot_has : HidReport → (ℕ → ℕ) → ℤ → ℕ → Bool
slot_has report input (negsuc n) h = false
slot_has report input (pos n) h =
    (ltb 3 (field input (report.usages n))
      && ltb (field input (report.usages n)) (length hid_kb_key_to_generic))
    && (get_or hid_kb_key_to_generic (field input (report.usages n)) 0 == h)

-- One of the first `n` slots holds the key `h`.
abbrev pub some_slot : HidReport → (ℕ → ℕ) → (ℕ → ℤ) → ℕ → ℕ → Bool
some_slot report input axes_idx h zero = false
some_slot report input axes_idx h (suc n) =
    some_slot report input axes_idx h n || slot_has report input (axes_idx n) h

press_if :
    (b : Bool) (g h : ℕ) (btns : ℕ → ℕ)
    → key_bit (if b then press g btns else btns) h ≡ (key_bit btns h || (b && (g == h)))
press_if true g h btns = key_bit-press g h btns
press_if false g h btns = ground arith

slot_round_lem :
    (past : ℕ → ℕ) (report : HidReport) (input : ℕ → ℕ) (h : ℕ) (idx : ℤ) (btns : ℕ → ℕ)
    → key_bit (slot_round past report input 0 idx btns) h
      ≡ (key_bit btns h || slot_has report input idx h)
unfolding key_slot
slot_round_lem past report input h (negsuc n) btns = ground arith
slot_round_lem past report input h (pos n) btns =
    let key = field input (report.usages n) in
    press_if (ltb 3 key && ltb key (length hid_kb_key_to_generic))
      (get_or hid_kb_key_to_generic key 0) h btns

or_assoc : (a b c : Bool) → ((a || b) || c) ≡ (a || (b || c))
or_assoc a b c = ground arith

-- In a report with an array of keys a key is pressed exactly when it was a modifier that is pressed or
-- one of the sixteen slots holds a code from 4 to the end of the table that stands for it.
pub kb_slots_lem :
    (past : ℕ → ℕ) (report : HidReport) (input : ℕ → ℕ) (meta : HidReportMeta) (map : RawSrcMapping)
    (btns : ℕ → ℕ) (h : ℕ)
    → meta.kb_bitfield ≡ 0
    → key_bit (kb_slots past report input meta map btns) h
      ≡ (key_bit btns h || some_slot report input map.axes_idx h adapter_ps2_max_axes)
unfolding kb_slots
kb_slots_lem past report input meta map btns h array =
    for_range_inv
      (λ i (b : ℕ → ℕ). key_bit b h ≡ (key_bit btns h || some_slot report input map.axes_idx h i))
      (λ i b. slot_round past report input meta.kb_bitfield (map.axes_idx i) b) adapter_ps2_max_axes
      0 16 btns refl
      (λ i b _ _ known.
        ap (λ z. key_bit (slot_round past report input z (map.axes_idx i) b) h) array
        ∙ slot_round_lem past report input h (map.axes_idx i) b
        ∙ ap (λ x. x || slot_has report input (map.axes_idx i) h) known
        ∙ or_assoc (key_bit btns h) (some_slot report input map.axes_idx h i)
            (slot_has report input (map.axes_idx i) h)
        ∙ ap (λ n. key_bit btns h || some_slot report input map.axes_idx h n) (add_one i))
      (ground arith)
