-- ===== src/Adapter/HidGeneric/Placed.antt =====
-- Where the buttons of mice and pads are placed (main/adapter/wireless/hid_generic.c).
use blue_retro_forever.Prelude.{
  ℕ, zero, suc, ◌+◌, ◌≤◌, ◌<◌, ◌≡◌, ◌≢◌, refl, sym, ap, ◌∙◌, Bool, true, false, not, ◌||◌, arith,
  ltb, ltb→lt, lt→ltb, ◌==◌, if◌then◌else◌, List, get_or, update, for_range_inv, u32, bit,
  Bool-cases, inl, inr, ==_iff, update_self, update_ne, all_below, all_below_sound,
}
use native.Mathlib.Decide.{dec_lt}
use blue_retro_forever.Adapter.HidParser.Types.{HidUsage}
use blue_retro_forever.Adapter.Quirks.Types.{RawSrcMapping}
use blue_retro_forever.Adapter.HidGeneric.Mouse.{mouse_buttons, mouse_button, add_button}
use blue_retro_forever.Adapter.HidGeneric.PadButtons.{
  place, place_all, btns_idx, hid_pad_default_btns_idx, hid_pad_xinput_btns_idx,
}

not_there :
    (usages : ℕ → HidUsage) (i k : ℕ)
    → i ≤ k
    → (usages k).bit_size ≤ k
    → ltb i (usages i).bit_size ≡ true
    → i < k
not_there usages i k le ends more = elim (dec_lt i k) [
  | yes lt ↦ lt
  | no ge ↦
      let e : i ≡ k = omega arith in
      let size = ap (λ x. (usages x).bit_size) e in
      absurd (omega (arith, size, ltb→lt i (usages i).bit_size more))
]

goes_on :
    (usages : ℕ → HidUsage) (n i : ℕ) (map : RawSrcMapping)
    → ltb i (usages i).bit_size ≡ true
    → mouse_buttons usages (suc n) i map ≡ mouse_buttons usages n (i + 1) (add_button i map)
unfolding mouse_buttons
goes_on usages n i map h = rw (h, mouse_buttons) refl

stops :
    (usages : ℕ → HidUsage) (n i : ℕ) (map : RawSrcMapping)
    → ltb i (usages i).bit_size ≡ false
    → mouse_buttons usages (suc n) i map ≡ map
unfolding mouse_buttons
stops usages n i map h = rw (h, mouse_buttons) refl

shadow_below :
    (usages : ℕ → HidUsage) (n i k b : ℕ) (map : RawSrcMapping)
    → i ≤ k
    → (usages k).bit_size ≤ k
    → ((j : ℕ) → j < k → mouse_button j ≢ b)
    → (mouse_buttons usages n i map).btns_mask b ≡ map.btns_mask b
unfolding mouse_buttons
shadow_below usages zero i k b map le ends free = refl
shadow_below usages (suc n) i k b map le ends free = elim (Bool-cases (ltb i (usages i).bit_size)) [
  | inl more ↦
      let lt : i < k = not_there usages i k le ends more in
      ap (λ (m : RawSrcMapping). m.btns_mask b) (goes_on usages n i map more)
      ∙ shadow_below usages n (i + 1) k b (add_button i map) (omega arith) ends free
      ∙ update_ne map.btns_mask (mouse_button i) b (u32 (bit i)) (free i lt)
  | inr end ↦ ap (λ (m : RawSrcMapping). m.btns_mask b) (stops usages n i map end)
]

-- The loop over the buttons of a mouse takes its bound from the entries of the same number: if the entry
-- `k` of the report has at most `k` bits, as an entry behind the last one has, then no button of a number
-- from `k` on gets a bit, whatever the size of the usage of the buttons is.
pub mouse_buttons-shadowed :
    (usages : ℕ → HidUsage) (n k b : ℕ) (map : RawSrcMapping)
    → (usages k).bit_size ≤ k
    → ((j : ℕ) → j < k → mouse_button j ≢ b)
    → (mouse_buttons usages n 0 map).btns_mask b ≡ map.btns_mask b
mouse_buttons-shadowed usages n k b map ends free =
    shadow_below usages n 0 k b map (omega arith) ends free

-- No two of the first buttons of a table are the same.
abbrev used : Bool → ℕ
used xinput = if xinput then 10 else 20

abbrev table : Bool → List ℕ
table xinput = if xinput then hid_pad_xinput_btns_idx else hid_pad_default_btns_idx

distinct_row : Bool → ℕ → ℕ → Bool
distinct_row xinput a b = a == b || not (get_or (table xinput) a 0 == get_or (table xinput) b 0)

distinct_table :
    (xinput : Bool)
    → all_below (used xinput) (λ a. all_below (used xinput) (distinct_row xinput a)) ≡ true
unfolding all_below distinct_row
distinct_table true = refl
distinct_table false = refl

-- Within the used part the table is a list of entries.
used_le : (xinput : Bool) → used xinput ≤ 32
used_le true = omega arith
used_le false = omega arith

entry :
    (past : ℕ → ℕ) (xinput : Bool) (a : ℕ)
    → ltb a 32 ≡ true
    → btns_idx past xinput a ≡ get_or (table xinput) a 0
entry past xinput a h = rw h refl

clash : (a b x y : ℕ) → a ≢ b → x ≡ y → (a == b || not (x == y)) ≡ true → ⊥
clash a b x y ne e cell = ne ((==_iff a b).0 (ground arith))

distinct :
    (past : ℕ → ℕ) (xinput : Bool) (a b : ℕ)
    → a < used xinput
    → b < used xinput
    → a ≢ b
    → btns_idx past xinput a ≢ btns_idx past xinput b
unfolding distinct_row
distinct past xinput a b la lb ne same =
    let row =
      all_below_sound (used xinput) (λ x. all_below (used xinput) (distinct_row xinput x)) a
        (distinct_table xinput) la in
    let cell = all_below_sound (used xinput) (distinct_row xinput a) b row lb in
    let le = used_le xinput in
    let there = λ (x : ℕ) (l : x < used xinput). entry past xinput x (lt→ltb x 32 (omega arith)) in
    clash a b (get_or (table xinput) a 0) (get_or (table xinput) b 0) ne
      (sym (there a la) ∙ same ∙ there b lb) cell

placed_next :
    (past : ℕ → ℕ) (xinput : Bool) (usage bits at j i : ℕ) (m : RawSrcMapping)
    → usage + bits ≤ used xinput
    → j < bits
    → i < bits
    → j < i + 1
    → (j < i → m.btns_mask (btns_idx past xinput (usage + j)) ≡ u32 (bit (u32 (at + j))))
    → (place (btns_idx past xinput (usage + i)) (u32 (at + i)) m).btns_mask
        (btns_idx past xinput (usage + j))
      ≡ u32 (bit (u32 (at + j)))
placed_next past xinput usage bits at j i m fits lt below above known = elim (dec_lt j i) [
  | yes before ↦
      update_ne m.btns_mask (btns_idx past xinput (usage + i)) (btns_idx past xinput (usage + j))
        (u32 (bit (u32 (at + i))))
        (distinct past xinput (usage + i) (usage + j) (omega arith) (omega arith)
          (λ e. omega arith))
      ∙ known before
  | no now ↦
      let e : i ≡ j = omega arith in
      ap
        (λ x.
          update m.btns_mask (btns_idx past xinput (usage + x)) (u32 (bit (u32 (at + x))))
            (btns_idx past xinput (usage + j)))
        e
      ∙ update_self m.btns_mask (btns_idx past xinput (usage + j)) (u32 (bit (u32 (at + j))))
]

-- Each bit of a usage of buttons gets the button that the table names for it, as long as the table has
-- one: the first 10 for the layout of an Xbox controller, the first 20 for the others.
pub place_all_lem :
    (past : ℕ → ℕ) (xinput : Bool) (usage bits at j : ℕ) (map : RawSrcMapping)
    → usage + bits ≤ used xinput
    → j < bits
    → (place_all past xinput usage bits at map).btns_mask (btns_idx past xinput (usage + j))
      ≡ u32 (bit (u32 (at + j)))
unfolding place_all
place_all_lem past xinput usage bits at j map fits lt =
    for_range_inv
      (λ i (m : RawSrcMapping).
        j < i → m.btns_mask (btns_idx past xinput (usage + j)) ≡ u32 (bit (u32 (at + j))))
      (λ i (m : RawSrcMapping). place (btns_idx past xinput (usage + i)) (u32 (at + i)) m) bits 0
      bits map (omega arith)
      (λ i m _ below known above.
        placed_next past xinput usage bits at j i m fits lt below above known)
      (λ none_yet. absurd (omega arith)) lt
