-- ===== src/Adapter/Wired/N64/Tables.antt =====
-- The tables of main/adapter/wired/n64.c.
use blue_retro_forever.Prelude.{ℕ, bit, bit_or, [], ◌∷◌, get_or, ℤ, pos, negsuc}
use blue_retro_forever.Adapter.Quirks.Types.{CtrlMeta}

abbrev pub n64_ld_right : ℕ
n64_ld_right = 0

abbrev pub n64_ld_left : ℕ
n64_ld_left = 1

abbrev pub n64_ld_down : ℕ
n64_ld_down = 2

abbrev pub n64_ld_up : ℕ
n64_ld_up = 3

abbrev pub n64_start : ℕ
n64_start = 4

abbrev pub n64_z : ℕ
n64_z = 5

abbrev pub n64_b : ℕ
n64_b = 6

abbrev pub n64_a : ℕ
n64_a = 7

abbrev pub n64_c_right : ℕ
n64_c_right = 8

abbrev pub n64_c_left : ℕ
n64_c_left = 9

abbrev pub n64_c_down : ℕ
n64_c_down = 10

abbrev pub n64_c_up : ℕ
n64_c_up = 11

abbrev pub n64_r : ℕ
n64_r = 12

abbrev pub n64_l : ℕ
n64_l = 13

abbrev pub n64_axes_max : ℕ
n64_axes_max = 2

abbrev pub n64_axes_idx : ℕ → ℕ
n64_axes_idx i = get_or (0 ∷ 1 ∷ 0 ∷ 1 ∷ 0 ∷ 1 ∷ []) i 0

-- The fields that the tables leave out are 0.
abbrev n64_axis_meta : ℤ → ℤ → CtrlMeta
n64_axis_meta abs_max abs_min = record {
  neutral = pos 0;
  deadzone = pos 0;
  abs_max = abs_max;
  abs_min = abs_min;
  polarity = pos 0;
  size_min = negsuc 127;
  size_max = pos 127;
  relative = pos 0;
}

abbrev pub n64_axes_meta : ℕ → CtrlMeta
n64_axes_meta i = n64_axis_meta (pos 0x54) (pos 0x54)

abbrev pub n64_mouse_axes_meta : ℕ → CtrlMeta
n64_mouse_axes_meta i = n64_axis_meta (pos 0x7f) (pos 0x80)

abbrev pub br_combo_mask : ℕ
br_combo_mask = 0xffc0_0000

abbrev pub n64_mask : ℕ → ℕ
n64_mask w = get_or (0x77df_0fff ∷ 0 ∷ 0 ∷ br_combo_mask ∷ []) w 0

abbrev pub n64_desc : ℕ → ℕ
n64_desc w = get_or (0xf ∷ 0 ∷ 0 ∷ 0 ∷ []) w 0

abbrev pub n64_mouse_mask : ℕ → ℕ
n64_mouse_mask w = get_or (0x1100_00f0 ∷ 0 ∷ 0 ∷ br_combo_mask ∷ []) w 0

abbrev pub n64_mouse_desc : ℕ → ℕ
n64_mouse_desc w = get_or (0xf0 ∷ 0 ∷ 0 ∷ 0 ∷ []) w 0

abbrev pub n64_kb_mask : ℕ → ℕ
n64_kb_mask w =
    get_or (0xe6ff_0f0f ∷ 0xffff_ffff ∷ 0x2d7f_ffff ∷ bit_or 0x7_c000 br_combo_mask ∷ []) w 0

abbrev pub n64_kb_desc : ℕ → ℕ
n64_kb_desc w = 0

abbrev pub n64_btns_mask : ℕ → ℕ
n64_btns_mask i =
    get_or
      (0
        ∷ 0
        ∷ 0
        ∷ 0
        ∷ bit n64_c_left
        ∷ bit n64_c_right
        ∷ bit n64_c_down
        ∷ bit n64_c_up
        ∷ bit n64_ld_left
        ∷ bit n64_ld_right
        ∷ bit n64_ld_down
        ∷ bit n64_ld_up
        ∷ 0
        ∷ 0
        ∷ 0
        ∷ 0
        ∷ bit n64_b
        ∷ bit n64_c_down
        ∷ bit n64_a
        ∷ bit n64_c_left
        ∷ bit n64_start
        ∷ 0
        ∷ 0
        ∷ 0
        ∷ bit n64_z
        ∷ bit n64_l
        ∷ bit n64_c_up
        ∷ 0
        ∷ bit n64_z
        ∷ bit n64_r
        ∷ bit n64_c_right
        ∷ 0
        ∷ [])
      i 0

abbrev pub n64_mouse_btns_mask : ℕ → ℕ
n64_mouse_btns_mask i =
    get_or
      (0
        ∷ 0
        ∷ 0
        ∷ 0
        ∷ 0
        ∷ 0
        ∷ 0
        ∷ 0
        ∷ 0
        ∷ 0
        ∷ 0
        ∷ 0
        ∷ 0
        ∷ 0
        ∷ 0
        ∷ 0
        ∷ 0
        ∷ 0
        ∷ 0
        ∷ 0
        ∷ 0
        ∷ 0
        ∷ 0
        ∷ 0
        ∷ bit n64_b
        ∷ 0
        ∷ 0
        ∷ 0
        ∷ bit n64_a
        ∷ 0
        ∷ 0
        ∷ 0
        ∷ [])
      i 0

unfoldable pub n64_kb_scancode : ℕ → ℕ
n64_kb_scancode i =
    get_or
      (0x070d ∷ 0x0705 ∷ 0x070c ∷ 0x0105 ∷ 0x0000 ∷ 0x0000 ∷ 0x0000 ∷ 0x0000 ∷ 0x0502 ∷ 0x0504
        ∷ 0x0503 ∷ 0x0402 ∷ 0x0000 ∷ 0x0000 ∷ 0x0000 ∷ 0x0000 ∷ 0x010c ∷ 0x0107 ∷ 0x0106 ∷ 0x0706
        ∷ 0x080a ∷ 0x040d ∷ 0x070f ∷ 0x050d ∷ 0x0000 ∷ 0x080d ∷ 0x0711 ∷ 0x0000 ∷ 0x0000 ∷ 0x080c
        ∷ 0x010e ∷ 0x0206 ∷ 0x0807 ∷ 0x0805 ∷ 0x0707 ∷ 0x0708 ∷ 0x0408 ∷ 0x0709 ∷ 0x0309 ∷ 0x0308
        ∷ 0x0809 ∷ 0x0808 ∷ 0x0407 ∷ 0x0406 ∷ 0x0108 ∷ 0x0409 ∷ 0x0806 ∷ 0x0109 ∷ 0x050c ∷ 0x0505
        ∷ 0x0506 ∷ 0x0507 ∷ 0x0508 ∷ 0x0509 ∷ 0x0609 ∷ 0x0608 ∷ 0x0607 ∷ 0x0606 ∷ 0x060d ∷ 0x010d
        ∷ 0x0605 ∷ 0x060c ∷ 0x040c ∷ 0x0604 ∷ 0x0410 ∷ 0x0307 ∷ 0x0306 ∷ 0x0405 ∷ 0x0209 ∷ 0x0208
        ∷ 0x0207 ∷ 0x050f ∷ 0x010b ∷ 0x010a ∷ 0x080b ∷ 0x070a ∷ 0x070b ∷ 0x020a ∷ 0x020b ∷ 0x030a
        ∷ 0x030b ∷ 0x040a ∷ 0x0302 ∷ 0x060b ∷ 0x050b ∷ 0x0802 ∷ 0x0702 ∷ 0x0000 ∷ 0x0000 ∷ 0x0000
        ∷ 0x0511 ∷ 0x0602 ∷ 0x0000 ∷ 0x050a ∷ 0x0000 ∷ 0x0000 ∷ 0x0000 ∷ 0x0000 ∷ 0x0000 ∷ 0x0000
        ∷ 0x0000 ∷ 0x0000 ∷ 0x0000 ∷ 0x0000 ∷ 0x0000 ∷ 0x0000 ∷ 0x0000 ∷ 0x0000 ∷ 0x0000 ∷ 0x0000
        ∷ 0x0810 ∷ 0x0610 ∷ 0x060e ∷ 0x020e ∷ 0x0210 ∷ [])
      i 0
