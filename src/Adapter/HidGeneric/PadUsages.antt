-- ===== src/Adapter/HidGeneric/PadUsages.antt =====
-- The usages of a pad in `hid_pad_init` of main/adapter/wireless/hid_generic.c: its axes, its hat and
-- where its buttons begin.
use blue_retro_forever.Prelude.{
  ℕ, zero, suc, ◌+◌, Bool, true, false, ◌&&◌, ℤ, pos, negsuc, neg, ◌+ℤ◌, ltz, update, for_range,
  bit, bit_or, ltb, ◌==◌, if◌then◌else◌,
}
use blue_retro_forever.Adapter.Ids.{
  axis_lx, axis_ly, axis_rx, axis_ry, trig_l, trig_r, pad_lx_left, pad_lx_right, pad_ly_down,
  pad_ly_up, pad_rx_left, pad_rx_right, pad_ry_down, pad_ry_up, pad_lm, pad_rm, pad_ld_left,
  pad_ld_right, pad_ld_down, pad_ld_up,
}
use blue_retro_forever.Adapter.HidParser.Types.{HidUsage, HidReport}
use blue_retro_forever.Adapter.Quirks.Types.{RawSrcMapping, CtrlMeta}
use blue_retro_forever.Adapter.HidGeneric.Types.{HidReportMeta, adapter_max_axes, s8, s32, half}
use blue_retro_forever.Adapter.HidGeneric.Mouse.{add_axis, add_mask, inverted}

-- A usage `n` of the page of the desktop.
abbrev pub is_desktop : HidUsage → ℕ → Bool
is_desktop u n = u.usage_page == 0x01 && u.usage == n

-- Whether Z is the right stick: the loop looks for X and Y with RX or Z behind them. Its counter moves
-- inside of the body too.
unfoldable pub find_z : (ℕ → HidUsage) → ℕ → ℕ → ℕ → Bool
find_z usages cnt zero i = false
find_z usages cnt (suc n) i = elim (ltb i cnt) [
  | false ↦ false
  | true ↦ elim (is_desktop (usages i) 0x30) [
    | false ↦ find_z usages cnt n (i + 1)
    | true ↦ elim (is_desktop (usages (i + 1)) 0x31) [
      | false ↦ find_z usages cnt n (i + 2)
      | true ↦ elim (is_desktop (usages (i + 2)) 0x33) [
        | true ↦ false
        | false ↦ elim (is_desktop (usages (i + 2)) 0x32) [
          | true ↦ true
          | false ↦ find_z usages cnt n (i + 3)
        ]
      ]
    ]
  ]
]

unfoldable pub z_is_joy : HidReport → Bool
unfolding find_z
z_is_joy report = find_z report.usages report.usage_cnt report.usage_cnt 0

unfoldable pub btns_is_xinput : HidReport → Bool
btns_is_xinput report =
    let u = report.usages in
    report.usage_cnt == 8
    && (is_desktop (u 0) 0x30
        && (is_desktop (u 1) 0x31
            && (is_desktop (u 2) 0x33
                && (is_desktop (u 3) 0x34
                    && (is_desktop (u 4) 0x32
                        && (is_desktop (u 5) 0x35
                            && (is_desktop (u 6) 0x39
                                && ((u 7).usage_page == 0x09
                                    && ((u 7).usage == 0x01 && (u 7).usage_max == 0x0a)))))))))

-- The data of a stick: an unsigned field rests in the middle, a signed one at 0.
abbrev pub stick_neutral : HidUsage → ℤ
stick_neutral u =
    if ltz (s32 u.logical_min) (pos 0) then pos 0 else half (s32 u.logical_max) +ℤ pos 1

abbrev pub stick_meta : HidUsage → CtrlMeta → CtrlMeta
stick_meta u meta = record meta {
  neutral = stick_neutral u;
  abs_max = s32 u.logical_max +ℤ neg (stick_neutral u);
  abs_min = stick_neutral u +ℤ neg (s32 u.logical_min);
}

abbrev pub trigger_meta : HidUsage → CtrlMeta → CtrlMeta
trigger_meta u meta = record meta {
  abs_max = s32 u.logical_max;
  abs_min = s32 u.logical_min;
  neutral = s32 u.logical_min;
}

-- The state of the loop over the usages; `hid_cbtn_idx` is the first usage of the consumer page.
pub record PadInit : Type 0 where
  pub meta : HidReportMeta
  pub map : RawSrcMapping
  pub hid_cbtn_idx : ℤ

abbrev pub horizontal : ℕ → ℕ → HidUsage → ℕ → PadInit → PadInit
horizontal m axis u i s = record s {
  map = add_axis m axis i (stick_meta u (s.map.meta axis)) s.map;
}

abbrev pub vertical : ℕ → ℕ → HidUsage → ℕ → PadInit → PadInit
vertical m axis u i s = record s {
  map = add_axis m axis i (inverted (stick_meta u (s.map.meta axis))) s.map;
}

abbrev pub trigger : ℕ → ℕ → HidUsage → ℕ → PadInit → PadInit
trigger m axis u i s = record s { map = add_axis m axis i (trigger_meta u (s.map.meta axis)) s.map }

abbrev pub right_x : HidUsage → ℕ → PadInit → PadInit
right_x = horizontal (bit_or (bit pad_rx_left) (bit pad_rx_right)) axis_rx

abbrev pub right_y : HidUsage → ℕ → PadInit → PadInit
right_y = vertical (bit_or (bit pad_ry_down) (bit pad_ry_up)) axis_ry

abbrev pub left_trigger : HidUsage → ℕ → PadInit → PadInit
left_trigger = trigger (bit pad_lm) trig_l

abbrev pub right_trigger : HidUsage → ℕ → PadInit → PadInit
right_trigger = trigger (bit pad_rm) trig_r

abbrev pub hat : ℕ → PadInit → PadInit
hat i s = record s {
  map =
      add_mask
        (bit_or (bit pad_ld_left)
          (bit_or (bit pad_ld_right) (bit_or (bit pad_ld_down) (bit pad_ld_up))))
        s.map;
  meta = record s.meta { hid_hat_idx = s8 i };
}

-- A usage of the page of the desktop.
unfoldable pub pad_desktop : Bool → HidUsage → ℕ → PadInit → PadInit
pad_desktop z u i s =
    if u.usage == 0x30
    then horizontal (bit_or (bit pad_lx_left) (bit pad_lx_right)) axis_lx u i s
    else (if u.usage == 0x31
        then vertical (bit_or (bit pad_ly_down) (bit pad_ly_up)) axis_ly u i s
        else (if u.usage == 0x32
            then (if z then right_x u i s else left_trigger u i s)
            else (if u.usage == 0x33
                then (if z then left_trigger u i s else right_x u i s)
                else (if u.usage == 0x34
                    then (if z then right_trigger u i s else right_y u i s)
                    else (if u.usage == 0x35
                        then (if z then right_y u i s else right_trigger u i s)
                        else (if u.usage == 0x39 then hat i s else s))))))

-- The page of the simulation controls: accelerator and brake.
abbrev pub pad_sims : HidUsage → ℕ → PadInit → PadInit
pad_sims u i s =
    if u.usage == 0xc4
    then right_trigger u i s
    else (if u.usage == 0xc5 then left_trigger u i s else s)

unfoldable pub pad_usage : Bool → (ℕ → HidUsage) → ℕ → PadInit → PadInit
unfolding pad_desktop
pad_usage z usages i s =
    let u = usages i in
    if u.usage_page == 0x01
    then pad_desktop z u i s
    else (if u.usage_page == 0x09
        then (if ltz s.meta.hid_btn_idx (pos 0)
            then record s { meta = record s.meta { hid_btn_idx = s8 i } }
            else s)
        else (if u.usage_page == 0x02
            then pad_sims u i s
            else (if u.usage_page == 0x0c
                then (if ltz s.hid_cbtn_idx (pos 0) then record s { hid_cbtn_idx = s8 i } else s)
                else s)))

unfoldable pub pad_usages : HidReport → HidReportMeta → RawSrcMapping → PadInit
unfolding pad_usage z_is_joy
pad_usages report meta map =
    for_range report.usage_cnt 0 (pad_usage (z_is_joy report) report.usages) (record {
      meta = record meta { hid_btn_idx = negsuc 0; hid_hat_idx = negsuc 0 };
      map = record map { axes_idx = λ k. negsuc 0 };
      hid_cbtn_idx = negsuc 0;
    })

-- `pull_back` is the product of an `int32_t` with MAX_PULL_BACK, a double, as an `int32_t` again.
unfoldable pub pull_back_all : (ℤ → ℤ) → RawSrcMapping → RawSrcMapping
pull_back_all pull_back map =
    for_range adapter_max_axes 0
      (λ i (m : RawSrcMapping). record m {
        meta = update m.meta i (record (m.meta i) {
          abs_max = pull_back (m.meta i).abs_max;
          abs_min = pull_back (m.meta i).abs_min;
        });
      })
      map
