-- ===== src/Adapter/HidGeneric/Pad.antt =====
-- Pads of main/adapter/wireless/hid_generic.c: `hid_pad_to_generic` behind its initialisation.
use blue_retro_forever.Prelude.{
  ℕ, ◌+◌, ◌-◌, ◌^◌, Bool, List, [], ◌∷◌, ℤ, pos, negsuc, ltz, update, for_range, bit, bit_and,
  bit_or, u32, get_or, if◌then◌else◌,
}
use blue_retro_forever.Adapter.Ids.{pad_ld_left, pad_ld_right, pad_ld_down, pad_ld_up}
use blue_retro_forever.Adapter.HidParser.Types.{HidUsage, HidReport}
use blue_retro_forever.Adapter.Mapping.Types.{WirelessCtrl}
use blue_retro_forever.Adapter.Quirks.Types.{RawSrcMapping}
use blue_retro_forever.Adapter.HidGeneric.Types.{
  HidReportMeta, adapter_ps2_max_axes, s32, pattern32, no_ctrl,
}
use blue_retro_forever.Adapter.HidGeneric.Fields.{field}
use blue_retro_forever.Adapter.HidGeneric.Mouse.{read_buttons, sign_fill}

-- The eight directions of a hat; the other positions have no button.
abbrev pub hat_to_ld_btns : List ℕ
hat_to_ld_btns =
    bit pad_ld_up
    ∷ bit_or (bit pad_ld_up) (bit pad_ld_right)
    ∷ bit pad_ld_right
    ∷ bit_or (bit pad_ld_down) (bit pad_ld_right)
    ∷ bit pad_ld_down
    ∷ bit_or (bit pad_ld_down) (bit pad_ld_left)
    ∷ bit pad_ld_left
    ∷ bit_or (bit pad_ld_up) (bit pad_ld_left)
    ∷ []

unfoldable pub hat_btns : ℕ → ℕ → ℕ
hat_btns position min = get_or hat_to_ld_btns (bit_and (u32 (position + 2 ^ 32 - min)) 0xf) 0

unfoldable pub read_hat : HidReport → (ℕ → ℕ) → ℤ → WirelessCtrl → WirelessCtrl
unfolding hat_btns
read_hat report input (negsuc n) ctrl = ctrl
read_hat report input (pos n) ctrl =
    let u = report.usages n in
    record ctrl {
      btns =
          update ctrl.btns 0 (bit_or (ctrl.btns 0) (hat_btns (field input u) (u32 u.logical_min)));
    }

pub record PadAxes : Type 0 where
  pub ctrl : WirelessCtrl
  pub axes_cal : ℕ → ℤ

-- `-(value - neutral)`
unfoldable pub calibrate : ℕ → ℤ → ℤ
calibrate value neutral = s32 (2 ^ 32 - u32 (value + 2 ^ 32 - pattern32 neutral))

-- The value of an axis with the calibration `cal`.
unfoldable pub axis_value : HidUsage → ℕ → ℤ → ℤ → ℤ
unfolding sign_fill
axis_value u value neutral cal =
    if ltz (s32 u.logical_min) (pos 0)
    then s32 (sign_fill u.bit_size value + pattern32 cal)
    else s32 (value + 2 ^ 32 - pattern32 neutral + pattern32 cal)

-- `first` is whether the device is not yet initialised.
unfoldable pub pad_axis : Bool → HidReport → (ℕ → ℕ) → RawSrcMapping → ℕ → ℤ → PadAxes → PadAxes
unfolding calibrate axis_value
pad_axis first report input map i (negsuc n) s = s
pad_axis first report input map i (pos n) s =
    let u = report.usages n in
    let value = field input u in
    let neutral = (map.meta i).neutral in
    let cal = if first then update s.axes_cal i (calibrate value neutral) else s.axes_cal in
    record {
      axes_cal = cal;
      ctrl = record s.ctrl {
        axes = update s.ctrl.axes i (record (s.ctrl.axes i) {
          meta = map.meta i;
          value = axis_value u value neutral (cal i);
        });
      };
    }

-- What follows the initialisation in `hid_pad_to_generic`.
unfoldable pub pad_read :
    Bool → HidReport → (ℕ → ℕ) → HidReportMeta → RawSrcMapping → (ℕ → ℤ) → PadAxes
unfolding read_buttons read_hat pad_axis
pad_read first report input meta map axes_cal =
    for_range adapter_ps2_max_axes 0 (λ i s. pad_axis first report input map i (map.axes_idx i) s)
      (record {
        ctrl =
            read_hat report input meta.hid_hat_idx
              (read_buttons report input meta.hid_btn_idx map (no_ctrl map));
        axes_cal = axes_cal;
      })
