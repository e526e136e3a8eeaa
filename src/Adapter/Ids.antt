-- ===== src/Adapter/Ids.antt =====
-- The numbers that main/adapter/adapter.h gives to buttons, axes, flags, modes and limits. A value
-- of -1 stands for none, and is written out where the code meets it.
use blue_retro_forever.Prelude.{ℕ}

abbrev pub bt_max_dev : ℕ
bt_max_dev = 7

-- The board's value, not that of the emulator build.
abbrev pub wired_max_dev : ℕ
wired_max_dev = 12

abbrev pub report_max_usage : ℕ
report_max_usage = 24

abbrev pub hid_max_report : ℕ
hid_max_report = 10

-- The buttons of a generic pad, as mapping sources and destinations.
abbrev pub pad_lx_left : ℕ
pad_lx_left = 0

abbrev pub pad_lx_right : ℕ
pad_lx_right = 1

abbrev pub pad_ly_down : ℕ
pad_ly_down = 2

abbrev pub pad_ly_up : ℕ
pad_ly_up = 3

abbrev pub pad_rx_left : ℕ
pad_rx_left = 4

abbrev pub pad_rx_right : ℕ
pad_rx_right = 5

abbrev pub pad_ry_down : ℕ
pad_ry_down = 6

abbrev pub pad_ry_up : ℕ
pad_ry_up = 7

abbrev pub pad_ld_left : ℕ
pad_ld_left = 8

abbrev pub pad_ld_right : ℕ
pad_ld_right = 9

abbrev pub pad_ld_down : ℕ
pad_ld_down = 10

abbrev pub pad_ld_up : ℕ
pad_ld_up = 11

abbrev pub pad_rd_left : ℕ
pad_rd_left = 12

abbrev pub pad_rd_right : ℕ
pad_rd_right = 13

abbrev pub pad_rd_down : ℕ
pad_rd_down = 14

abbrev pub pad_rd_up : ℕ
pad_rd_up = 15

abbrev pub pad_rb_left : ℕ
pad_rb_left = 16

abbrev pub pad_rb_right : ℕ
pad_rb_right = 17

abbrev pub pad_rb_down : ℕ
pad_rb_down = 18

abbrev pub pad_rb_up : ℕ
pad_rb_up = 19

abbrev pub pad_mm : ℕ
pad_mm = 20

abbrev pub pad_ms : ℕ
pad_ms = 21

abbrev pub pad_mt : ℕ
pad_mt = 22

abbrev pub pad_mq : ℕ
pad_mq = 23

abbrev pub pad_lm : ℕ
pad_lm = 24

abbrev pub pad_ls : ℕ
pad_ls = 25

abbrev pub pad_lt : ℕ
pad_lt = 26

abbrev pub pad_lj : ℕ
pad_lj = 27

abbrev pub pad_rm : ℕ
pad_rm = 28

abbrev pub pad_rs : ℕ
pad_rs = 29

abbrev pub pad_rt : ℕ
pad_rt = 30

abbrev pub pad_rj : ℕ
pad_rj = 31

-- The keyboard and mouse identifiers that the modelled code names.
abbrev pub mouse_wx_left : ℕ
mouse_wx_left = 12

abbrev pub mouse_wx_right : ℕ
mouse_wx_right = 13

abbrev pub mouse_wy_down : ℕ
mouse_wy_down = 14

abbrev pub mouse_wy_up : ℕ
mouse_wy_up = 15

abbrev pub kbm_max : ℕ
kbm_max = 115

-- The identifiers of the system combos.
abbrev pub br_combo_base_1 : ℕ
br_combo_base_1 = 118

abbrev pub br_combo_base_2 : ℕ
br_combo_base_2 = 119

abbrev pub br_combo_base_3 : ℕ
br_combo_base_3 = 120

abbrev pub br_combo_base_4 : ℕ
br_combo_base_4 = 121

abbrev pub br_combo_sys_reset : ℕ
br_combo_sys_reset = 122

abbrev pub br_combo_bt_inquiry : ℕ
br_combo_bt_inquiry = 123

abbrev pub br_combo_sys_power_off : ℕ
br_combo_sys_power_off = 124

abbrev pub br_combo_factory_reset : ℕ
br_combo_factory_reset = 125

abbrev pub br_combo_deep_sleep : ℕ
br_combo_deep_sleep = 126

abbrev pub br_combo_wired_rst : ℕ
br_combo_wired_rst = 127

abbrev pub br_combo_max : ℕ
br_combo_max = 128

abbrev pub br_combo_cnt : ℕ
br_combo_cnt = 10

-- The axes of a generic pad.
abbrev pub axis_lx : ℕ
axis_lx = 0

abbrev pub axis_ly : ℕ
axis_ly = 1

abbrev pub axis_rx : ℕ
axis_rx = 2

abbrev pub axis_ry : ℕ
axis_ry = 3

abbrev pub trig_l : ℕ
trig_l = 4

abbrev pub trig_r : ℕ
trig_r = 5

abbrev pub trig_ls : ℕ
trig_ls = 6

abbrev pub trig_rs : ℕ
trig_rs = 7

abbrev pub dpad_left : ℕ
dpad_left = 8

abbrev pub dpad_right : ℕ
dpad_right = 9

abbrev pub dpad_down : ℕ
dpad_down = 10

abbrev pub dpad_up : ℕ
dpad_up = 11

abbrev pub btn_left : ℕ
btn_left = 12

abbrev pub btn_right : ℕ
btn_right = 13

abbrev pub btn_down : ℕ
btn_down = 14

abbrev pub btn_up : ℕ
btn_up = 15

-- The bits of the flags of a wireless device.
abbrev pub bt_init : ℕ
bt_init = 0

abbrev pub bt_waiting_for_release_macro1 : ℕ
bt_waiting_for_release_macro1 = 1

abbrev pub bt_waiting_for_release_macro2 : ℕ
bt_waiting_for_release_macro2 = 2

abbrev pub bt_waiting_for_release_macro3 : ℕ
bt_waiting_for_release_macro3 = 3

abbrev pub bt_waiting_for_release_macro4 : ℕ
bt_waiting_for_release_macro4 = 4

abbrev pub bt_waiting_for_release_macro5 : ℕ
bt_waiting_for_release_macro5 = 5

abbrev pub bt_waiting_for_release_macro6 : ℕ
bt_waiting_for_release_macro6 = 6

abbrev pub bt_quirk_face_btns_invert : ℕ
bt_quirk_face_btns_invert = 7

abbrev pub bt_quirk_face_btns_rotate_right : ℕ
bt_quirk_face_btns_rotate_right = 8

abbrev pub bt_quirk_face_btns_trigger_to_6buttons : ℕ
bt_quirk_face_btns_trigger_to_6buttons = 9

abbrev pub bt_quirk_face_btns_trigger_to_8buttons : ℕ
bt_quirk_face_btns_trigger_to_8buttons = 10

abbrev pub bt_quirk_trigger_pri_sec_invert : ℕ
bt_quirk_trigger_pri_sec_invert = 11

abbrev pub bt_quirk_8bitdo_n64 : ℕ
bt_quirk_8bitdo_n64 = 12

abbrev pub bt_quirk_8bitdo_n64_mk : ℕ
bt_quirk_8bitdo_n64_mk = 13

abbrev pub bt_quirk_8bitdo_m30 : ℕ
bt_quirk_8bitdo_m30 = 14

abbrev pub bt_quirk_8bitdo_m30_modkit : ℕ
bt_quirk_8bitdo_m30_modkit = 15

abbrev pub bt_quirk_bluen64_n64 : ℕ
bt_quirk_bluen64_n64 = 16

abbrev pub bt_quirk_rf_warrior : ℕ
bt_quirk_rf_warrior = 17

abbrev pub bt_quirk_8bitdo_saturn : ℕ
bt_quirk_8bitdo_saturn = 18

abbrev pub bt_quirk_ouya : ℕ
bt_quirk_ouya = 19

abbrev pub bt_quirk_8bitdo_gc : ℕ
bt_quirk_8bitdo_gc = 20

abbrev pub bt_quirk_8bitdo_gbros : ℕ
bt_quirk_8bitdo_gbros = 21

-- Report types.
abbrev pub report_kb : ℕ
report_kb = 0

abbrev pub report_mouse : ℕ
report_mouse = 1

abbrev pub report_pad : ℕ
report_pad = 2

abbrev pub report_rumble : ℕ
report_rumble = 3

abbrev pub report_max : ℕ
report_max = 4
