-- ===== src/Adapter/Wired/N64/Others.antt =====
-- A mouse and a keyboard of main/adapter/wired/n64.c.
use blue_retro_forever.Prelude.{
  ℕ, ◌+◌, ◌*◌, ◌/◌, ◌==◌, ◌&&◌, not, Bool, false, ltb, if◌then◌else◌, u16, u32, bit, bit_and,
  bit_or, not32, meets, update, for_range, ℤ, pos, negsuc,
}
use blue_retro_forever.Adapter.Ids.{kbm_max}
use blue_retro_forever.Adapter.KbIds.{kb_home}
use blue_retro_forever.Adapter.Mapping.Types.{WiredCtrl}
use blue_retro_forever.Adapter.Buttons.Tables.{axis_to_btn_mask}
use blue_retro_forever.Adapter.HidGeneric.Types.{pattern32}
use blue_retro_forever.Adapter.HidGeneric.Fields.{word_at}
use blue_retro_forever.Adapter.Wired.Types.{load16, store16, store32}
use blue_retro_forever.Adapter.Wired.N64.Tables.{
  n64_axes_idx, n64_mouse_btns_mask, n64_mouse_desc, n64_kb_scancode,
}
use blue_retro_forever.Adapter.Wired.N64.Pad.{mapped, held}

unfoldable pub mouse_press : WiredCtrl → ℕ → ℕ → ℕ
mouse_press ctrl i buttons =
    if mapped ctrl i
    then (if held ctrl i
        then u16 (bit_or buttons (n64_mouse_btns_mask i))
        else bit_and buttons (not32 (n64_mouse_btns_mask i)))
    else buttons

-- The copy of `relative`, and the output, whose last two words are written directly.
pub record Moves : Type 0 where
  pub relative : ℕ → ℕ
  pub output : ℕ → ℕ

unfoldable pub raw_axis : ℕ → ℕ
raw_axis i = 4 + 4 * n64_axes_idx i

unfoldable pub mouse_move : WiredCtrl → ℕ → Moves → Moves
unfolding raw_axis axis_to_btn_mask word_at
mouse_move ctrl i s =
    if meets (ctrl.map_mask 0) (bit_and (axis_to_btn_mask i) (n64_mouse_desc 0))
    then (if is_zero (ctrl.axes i).relative
        then record {
          relative = update s.relative (n64_axes_idx i) 0;
          output = store32 s.output (raw_axis i) (pattern32 (ctrl.axes i).value);
        }
        else record {
          relative = update s.relative (n64_axes_idx i) 1;
          output =
              store32 s.output (raw_axis i)
                (u32 (word_at s.output (raw_axis i) + pattern32 (ctrl.axes i).value));
        })
    else s
  where
    is_zero : ℤ → Bool
    is_zero (pos n) = n == 0
    is_zero (negsuc n) = false

unfoldable pub n64_mouse_from_generic : WiredCtrl → (ℕ → ℕ) → ℕ → ℕ
unfolding mouse_press mouse_move
n64_mouse_from_generic ctrl output =
    let buttons = for_range 32 0 (mouse_press ctrl) (load16 output 0) in
    let m =
      for_range 2 2 (mouse_move ctrl)
        (record { relative = λ i. output (2 + i); output = output }) in
    update (update (store16 m.output 0 buttons) 2 (m.relative 0)) 3 (m.relative 1)

-- The key `i` of the keyboard is on an output, and held.
abbrev pub key_down : WiredCtrl → ℕ → Bool
key_down ctrl i =
    meets (ctrl.map_mask (i / 32)) (bit (bit_and i 0x1f))
    && meets (ctrl.btns (i / 32)).value (bit (bit_and i 0x1f))

-- The codes found, and how many.
pub record Codes : Type 0 where
  pub key_codes : ℕ → ℕ
  pub code_idx : ℕ

-- After the third code the loop ends.
unfoldable pub code_round : WiredCtrl → ℕ → Codes → Codes
unfolding n64_kb_scancode
code_round ctrl i s =
    if ltb s.code_idx 3 && key_down ctrl i && not (n64_kb_scancode i == 0)
    then record {
      key_codes = update s.key_codes s.code_idx (n64_kb_scancode i);
      code_idx = s.code_idx + 1;
    }
    else s

unfoldable pub kb_codes : WiredCtrl → Codes
unfolding code_round
kb_codes ctrl = for_range kbm_max 0 (code_round ctrl) (record { key_codes = λ i. 0; code_idx = 0 })

unfoldable pub n64_kb_from_generic : WiredCtrl → (ℕ → ℕ) → ℕ → ℕ
unfolding kb_codes
n64_kb_from_generic ctrl output =
    let c = kb_codes ctrl in
    let codes =
      store16 (store16 (store16 output 0 (c.key_codes 0)) 2 (c.key_codes 1)) 4 (c.key_codes 2) in
    update codes 6 (if key_down ctrl kb_home then 1 else 0)
