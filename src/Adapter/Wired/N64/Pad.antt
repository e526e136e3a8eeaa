-- ===== src/Adapter/Wired/N64/Pad.antt =====
-- A pad of main/adapter/wired/n64.c: `struct n64_map` is the first four bytes of the output.
use blue_retro_forever.Prelude.{
  ℕ, ◌+◌, Bool, not, List, [], ◌∷◌, ◌++◌, ◌==◌, if◌then◌else◌, u8, u16, bit, bit_and, bit_or, not32,
  meets, set_bit, clear_bit, test_bit, update, for_range, ltz, ◌+ℤ◌,
}
use blue_retro_forever.Adapter.Ids.{pad_mt, pad_mq}
use blue_retro_forever.Adapter.Mapping.Types.{WiredCtrl, CtrlAxisWired}
use blue_retro_forever.Adapter.Buttons.Tables.{axis_to_btn_mask, axis_to_btn_id}
use blue_retro_forever.Adapter.Config.Layout.{Mem, acc_mode, banksel}
use blue_retro_forever.Adapter.HidGeneric.Types.{pattern32}
use blue_retro_forever.Adapter.Wired.Types.{
  WiredData, load16, store16, acc_mem, acc_rumble, wired_waiting_for_release,
  wired_waiting_for_release2,
}
use blue_retro_forever.Adapter.Wired.N64.Tables.{
  n64_axes_max, n64_axes_idx, n64_btns_mask, n64_desc,
}

-- A call of `adapter_toggle_fb`.
pub record Toggle : Type 0 where
  pub wired_id : ℕ
  pub duration_us : ℕ
  pub lf_pwr : ℕ
  pub hf_pwr : ℕ

-- The state that a report changes; `config` is the global configuration, the calls are the oldest first.
pub record N64 : Type 0 where
  pub wired : WiredData
  pub config : Mem
  pub toggles : List Toggle

-- The button `i` is on an output of this system, and held; `generic_btns_mask[i]` is BIT(i).
abbrev pub mapped : WiredCtrl → ℕ → Bool
mapped ctrl i = meets (ctrl.map_mask 0) (bit i)

abbrev pub held : WiredCtrl → ℕ → Bool
held ctrl i = meets (ctrl.btns 0).value (bit i)

-- What the loop over the buttons changes.
pub record Presses : Type 0 where
  pub buttons : ℕ
  pub map_mask : ℕ
  pub cnt_mask : ℕ → ℕ

unfoldable pub press_round : (ℕ → ℕ) → WiredCtrl → ℕ → Presses → Presses
press_round btns_mask ctrl i s =
    if mapped ctrl i
    then (if held ctrl i
        then record {
          buttons = u16 (bit_or s.buttons (btns_mask i));
          map_mask = bit_and s.map_mask (not32 (btns_mask i));
          cnt_mask = update s.cnt_mask i (u8 ((ctrl.btns 0).cnt_mask i));
        }
        else (if meets s.map_mask (btns_mask i)
            then record s {
              buttons = bit_and s.buttons (not32 (btns_mask i));
              cnt_mask = update s.cnt_mask i 0;
            }
            else s))
    else s

unfoldable pub press_all : (ℕ → ℕ) → WiredCtrl → ℕ → (ℕ → ℕ) → Presses
unfolding press_round
press_all btns_mask ctrl buttons cnt_mask =
    for_range 32 0 (press_round btns_mask ctrl)
      (record { buttons = buttons; map_mask = 0xffff; cnt_mask = cnt_mask })

-- A button that acts on its release: `flag` marks that it is down.
unfoldable pub on_release : ℕ → WiredCtrl → ℕ → (N64 → N64) → N64 → N64
on_release flag ctrl i action s =
    if mapped ctrl i
    then (if held ctrl i
        then (if not (test_bit s.wired.flags flag)
            then record s { wired = record s.wired { flags = set_bit s.wired.flags flag } }
            else s)
        else (if test_bit s.wired.flags flag
            then action
                (record s { wired = record s.wired { flags = clear_bit s.wired.flags flag } })
            else s))
    else s

abbrev pub toggle_fb : ℕ → ℕ → N64 → N64
toggle_fb index duration s = record s {
  toggles =
      s.toggles
      ++ record { wired_id = index; duration_us = duration; lf_pwr = 0xff; hf_pwr = 0xff } ∷ [];
}

-- The change between the memory and the rumble accessory; the file is not updated.
unfoldable pub toggle_accessory : ℕ → N64 → N64
toggle_accessory index s =
    if s.config (acc_mode index) == acc_mem
    then toggle_fb index 300_000 (record s { config = update s.config (acc_mode index) acc_rumble })
    else toggle_fb index 150_000 (record s { config = update s.config (acc_mode index) acc_mem })

unfoldable pub next_bank : N64 → N64
next_bank s = record s { config = update s.config banksel (bit_and (s.config banksel + 1) 3) }

unfoldable pub n64_ctrl_special_action : WiredCtrl → N64 → N64
unfolding on_release toggle_accessory next_bank
n64_ctrl_special_action ctrl s =
    on_release wired_waiting_for_release2 ctrl pad_mq next_bank
      (on_release wired_waiting_for_release ctrl pad_mt (toggle_accessory ctrl.index) s)

-- The byte of an axis.
unfoldable pub axis_byte : CtrlAxisWired → ℕ
axis_byte a =
    if ltz a.meta.size_max a.value
    then 127
    else (if ltz a.value a.meta.size_min then 0x80 else u8 (pattern32 (a.value +ℤ a.meta.neutral)))

-- The axes and the masks of their turbo.
pub record Axes : Type 0 where
  pub axes : ℕ → ℕ
  pub cnt_mask : ℕ → ℕ

unfoldable pub axis_round : WiredCtrl → ℕ → Axes → Axes
unfolding axis_byte axis_to_btn_mask axis_to_btn_id
axis_round ctrl i s = record {
  axes =
      if meets (ctrl.map_mask 0) (bit_and (axis_to_btn_mask i) (n64_desc 0))
      then update s.axes (n64_axes_idx i) (axis_byte (ctrl.axes i))
      else s.axes;
  cnt_mask = update s.cnt_mask (axis_to_btn_id i) (u8 (ctrl.axes i).cnt_mask);
}

-- `memcpy(wired_data->output, &map_tmp, sizeof(map_tmp))`
abbrev pub put_map : (ℕ → ℕ) → ℕ → (ℕ → ℕ) → ℕ → ℕ
put_map output buttons axes = update (update (store16 output 0 buttons) 2 (axes 0)) 3 (axes 1)

unfoldable pub n64_ctrl_from_generic : WiredCtrl → N64 → N64
unfolding press_all n64_ctrl_special_action axis_round
n64_ctrl_from_generic ctrl s =
    let p = press_all n64_btns_mask ctrl (load16 s.wired.output 0) s.wired.cnt_mask in
    let t =
      n64_ctrl_special_action ctrl
        (record s { wired = record s.wired { cnt_mask = p.cnt_mask } }) in
    let a =
      for_range n64_axes_max 0 (axis_round ctrl)
        (record { axes = λ i. s.wired.output (2 + i); cnt_mask = t.wired.cnt_mask }) in
    record t {
      wired = record t.wired {
        cnt_mask = a.cnt_mask;
        output = put_map t.wired.output p.buttons a.axes;
      };
    }
