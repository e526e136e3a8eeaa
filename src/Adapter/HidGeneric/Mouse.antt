-- ===== src/Adapter/HidGeneric/Mouse.antt =====
-- Mice of main/adapter/wireless/hid_generic.c: `hid_mouse_init` and `hid_mouse_to_generic`.
use blue_retro_forever.Prelude.{
  ℕ, zero, suc, ◌+◌, ◌-◌, true, false, ℤ, pos, negsuc, update, for_range, bit, bit_or, not32, meets,
  u32, ltb, ◌==◌, if◌then◌else◌,
}
use blue_retro_forever.Adapter.Ids.{axis_rx, axis_ry, axis_ly, mouse_wy_down, mouse_wy_up, pad_mt}
use blue_retro_forever.Adapter.KbIds.{
  mouse_x_left, mouse_x_right, mouse_y_down, mouse_y_up, mouse_left, mouse_right, mouse_middle,
  mouse_4, mouse_8,
}
use blue_retro_forever.Adapter.HidParser.Types.{HidUsage, HidReport}
use blue_retro_forever.Adapter.Mapping.Types.{WirelessCtrl}
use blue_retro_forever.Adapter.Quirks.Types.{RawSrcMapping, CtrlMeta}
use blue_retro_forever.Adapter.HidGeneric.Types.{
  HidReportMeta, adapter_max_axes, report_max_usage, s8, s32, no_ctrl,
}
use blue_retro_forever.Adapter.HidGeneric.Fields.{field, field_mask}

-- `mask[0] |= m`, with `desc[0] |= m` for an axis
abbrev pub add_mask : ℕ → RawSrcMapping → RawSrcMapping
add_mask m map = record map { mask = update map.mask 0 (bit_or (map.mask 0) m) }

abbrev pub add_axis : ℕ → ℕ → ℕ → CtrlMeta → RawSrcMapping → RawSrcMapping
add_axis m axis i meta map = record map {
  mask = update map.mask 0 (bit_or (map.mask 0) m);
  desc = update map.desc 0 (bit_or (map.desc 0) m);
  axes_idx = update map.axes_idx axis (pos i);
  meta = update map.meta axis meta;
}

-- The data of a relative axis; that of the horizontal one keeps its polarity.
abbrev pub relative_meta : HidUsage → CtrlMeta → CtrlMeta
relative_meta u meta = record meta {
  neutral = pos 0;
  abs_max = s32 u.logical_max;
  abs_min = s32 u.logical_min;
  relative = pos 1;
}

abbrev pub inverted : CtrlMeta → CtrlMeta
inverted meta = record meta { polarity = pos 1 }

-- The button of the bit `i`.
abbrev pub mouse_button : ℕ → ℕ
mouse_button i =
    if i == 0
    then mouse_left
    else (if i == 1
        then mouse_right
        else (if i == 2 then mouse_middle else (if i == 7 then mouse_8 else mouse_4 + i - 3)))

abbrev pub add_button : ℕ → RawSrcMapping → RawSrcMapping
add_button i map = record (add_mask (u32 (bit (mouse_button i))) map) {
  btns_mask = update map.btns_mask (mouse_button i) (u32 (bit i));
}

-- The inner loop: its counter shadows that of the outer one, so its bound is read from the entry of the
-- same number as the button. It leaves the array after `report_max_usage` rounds.
unfoldable pub mouse_buttons : (ℕ → HidUsage) → ℕ → ℕ → RawSrcMapping → RawSrcMapping
mouse_buttons usages zero i map = map
mouse_buttons usages (suc n) i map = elim (ltb i (usages i).bit_size) [
  | true ↦ mouse_buttons usages n (i + 1) (add_button i map)
  | false ↦ map
]

pub record PadMaps : Type 0 where
  pub meta : HidReportMeta
  pub map : RawSrcMapping

-- A usage of the page of the desktop.
pub mouse_desktop : HidUsage → ℕ → PadMaps → PadMaps
mouse_desktop u i s =
    let map = s.map in
    if u.usage == 0x30
    then record s {
      map =
          add_axis (bit_or (bit mouse_x_left) (bit mouse_x_right)) axis_rx i
            (relative_meta u (map.meta axis_rx)) map;
    }
    else (if u.usage == 0x31
        then record s {
          map =
              add_axis (bit_or (bit mouse_y_down) (bit mouse_y_up)) axis_ry i
                (inverted (relative_meta u (map.meta axis_ry))) map;
        }
        else (if u.usage == 0x38
            then record s {
              map =
                  add_axis (bit_or (bit mouse_wy_down) (bit mouse_wy_up)) axis_ly i
                    (inverted (relative_meta u (map.meta axis_ly))) map;
            }
            else (if u.usage == 0x85
                then record {
                  meta = record s.meta { hid_btn_idx = s8 i };
                  map = record (add_mask (bit pad_mt) map) {
                    btns_mask = update map.btns_mask pad_mt (bit 0);
                  };
                }
                else s)))

unfoldable pub mouse_usage : (ℕ → HidUsage) → ℕ → PadMaps → PadMaps
unfolding mouse_desktop mouse_buttons
mouse_usage usages i s =
    if (usages i).usage_page == 0x01
    then mouse_desktop (usages i) i s
    else (if (usages i).usage_page == 0x09
        then record {
          meta = record s.meta { hid_btn_idx = s8 i };
          map = mouse_buttons usages report_max_usage 0 s.map;
        }
        else s)

unfoldable pub hid_mouse_init :
    HidReport → HidReportMeta → RawSrcMapping → HidReportMeta × RawSrcMapping
unfolding mouse_usage
hid_mouse_init report meta map =
    let r = for_range report.usage_cnt 0 (mouse_usage report.usages) (record {
      meta = record meta { hid_btn_idx = negsuc 0 };
      map = record map { axes_idx = λ k. negsuc 0 };
    }) in
    (r.meta, r.map)

-- The loop over the 32 generic buttons; `generic_btns_mask[i]` is BIT(i).
unfoldable pub press_buttons : ℕ → (ℕ → ℕ) → ℕ → ℕ
press_buttons buttons btns_mask value =
    for_range 32 0 (λ i v. if meets buttons (btns_mask i) then bit_or v (bit i) else v) value

unfoldable pub read_buttons : HidReport → (ℕ → ℕ) → ℤ → RawSrcMapping → WirelessCtrl → WirelessCtrl
unfolding press_buttons
read_buttons report input (negsuc n) map ctrl = ctrl
read_buttons report input (pos n) map ctrl = record ctrl {
  btns =
      update ctrl.btns 0
        (press_buttons (field input (report.usages n)) map.btns_mask (ctrl.btns 0));
}

-- `if (v & BIT(len - 1)) v |= ~mask`
unfoldable pub sign_fill : ℕ → ℕ → ℕ
sign_fill len v = if meets v (bit (len - 1)) then bit_or v (not32 (field_mask len)) else v

unfoldable pub mouse_axis :
    HidReport → (ℕ → ℕ) → RawSrcMapping → ℕ → ℤ → WirelessCtrl → WirelessCtrl
unfolding sign_fill
mouse_axis report input map i (negsuc n) ctrl = ctrl
mouse_axis report input map i (pos n) ctrl = record ctrl {
  axes = update ctrl.axes i (record (ctrl.axes i) {
    meta = map.meta i;
    value = s32 (sign_fill (report.usages n).bit_size (field input (report.usages n)));
  });
}

-- What follows the initialisation in `hid_mouse_to_generic`.
unfoldable pub mouse_read : HidReport → (ℕ → ℕ) → HidReportMeta → RawSrcMapping → WirelessCtrl
unfolding read_buttons mouse_axis
mouse_read report input meta map =
    for_range adapter_max_axes 0 (λ i ctrl. mouse_axis report input map i (map.axes_idx i) ctrl)
      (read_buttons report input meta.hid_btn_idx map (no_ctrl map))
