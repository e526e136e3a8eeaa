-- ===== src/Adapter/Quirks/Devices.antt =====
-- The quirks of main/adapter/mapping_quirks.c that write the masks of a device.
use blue_retro_forever.Prelude.{ℕ, bit, update, ltb, if◌then◌else◌}
use blue_retro_forever.Adapter.Ids.{
  pad_ld_down, pad_ld_left, pad_ld_right, pad_ld_up, pad_lj, pad_lm, pad_ls, pad_lt, pad_mm, pad_ms,
  pad_mt, pad_rb_down, pad_rb_left, pad_rb_right, pad_rb_up, pad_rj, pad_rm, pad_rs, pad_rt,
  pad_rx_left, pad_rx_right, pad_ry_down, pad_ry_up,
}
use blue_retro_forever.Adapter.Quirks.Types.{RawSrcMapping}

abbrev pub ouya_o : ℕ
ouya_o = 0

abbrev pub ouya_u : ℕ
ouya_u = 1

abbrev pub ouya_y : ℕ
ouya_y = 2

abbrev pub ouya_a : ℕ
ouya_a = 3

abbrev pub ouya_l1 : ℕ
ouya_l1 = 4

abbrev pub ouya_r1 : ℕ
ouya_r1 = 5

abbrev pub ouya_l3 : ℕ
ouya_l3 = 6

abbrev pub ouya_r3 : ℕ
ouya_r3 = 7

abbrev pub ouya_up : ℕ
ouya_up = 8

abbrev pub ouya_down : ℕ
ouya_down = 9

abbrev pub ouya_left : ℕ
ouya_left = 10

abbrev pub ouya_right : ℕ
ouya_right = 11

abbrev pub ouya_l2 : ℕ
ouya_l2 = 12

abbrev pub ouya_r2 : ℕ
ouya_r2 = 13

abbrev pub ouya_menu : ℕ
ouya_menu = 14

unfoldable pub n64_8bitdo : RawSrcMapping → RawSrcMapping
n64_8bitdo map =
    let k1 = update map.mask 0 0x2315_0fff in
    let d1 = update map.desc 0 0x0000_000f in
    let b1 = update map.btns_mask pad_ry_up (bit 8) in
    let b2 = update b1 pad_rx_right (bit 9) in
    let b3 = update b2 pad_ry_down (b2 pad_rb_left) in
    let b4 = update b3 pad_rx_left (b3 pad_rb_up) in
    let b5 = update b4 pad_lm (b4 pad_ms) in
    let b6 = update b5 pad_rb_left (b5 pad_rb_right) in
    let b7 = update b6 pad_rb_right 0 in
    let b8 = update b7 pad_rb_up 0 in
    let b9 = update b8 pad_ms 0 in
    let b10 = update b9 pad_rt 0 in record map { mask = k1; desc = d1; btns_mask = b10 }

unfoldable pub n64_8bitdo_mk : RawSrcMapping → RawSrcMapping
n64_8bitdo_mk map =
    let k1 = update map.mask 0 0x3355_0fff in
    let d1 = update map.desc 0 0x0000_00ff in
    let b1 = update map.btns_mask pad_rb_left (bit 1) in
    let b2 = update b1 pad_rb_right 0 in
    let b3 = update b2 pad_mt (bit 12) in
    let b4 = update b3 pad_lm (bit 8) in
    let b5 = update b4 pad_rm (bit 9) in record map { mask = k1; desc = d1; btns_mask = b5 }

unfoldable pub m30_8bitdo_modkit : RawSrcMapping → RawSrcMapping
m30_8bitdo_modkit map =
    let b1 = update map.btns_mask pad_rb_left (bit 0) in
    let b2 = update b1 pad_rb_right (bit 5) in
    let b3 = update b2 pad_rb_down (bit 1) in
    let b4 = update b3 pad_rb_up (bit 3) in
    let b5 = update b4 pad_ls (bit 2) in
    let b6 = update b5 pad_rs (bit 4) in record map { btns_mask = b6 }

unfoldable pub gc_diy_8bitdo : RawSrcMapping → RawSrcMapping
gc_diy_8bitdo map =
    let k1 = update map.mask 0 0xff1f_0fff in
    let d1 = update map.desc 0 0x1100_00ff in
    let tmp = map.btns_mask pad_rb_left in
    let b1 = update map.btns_mask pad_rb_left (map.btns_mask pad_rb_right) in
    let b2 = update b1 pad_rb_right tmp in
    let b3 = update b2 pad_rs (b2 pad_ms) in
    let b4 = update b3 pad_lt (bit 8) in
    let b5 = update b4 pad_rt (bit 9) in
    let b6 = update b5 pad_ms 0 in
    let b7 = update b6 pad_lm 0 in
    let b8 = update b7 pad_rm 0 in
    let b9 = update b8 pad_ls 0 in record map { mask = k1; desc = d1; btns_mask = b9 }

unfoldable pub gc_gbros_8bitdo : RawSrcMapping → RawSrcMapping
gc_gbros_8bitdo map =
    let k1 = update map.mask 0 0xff5f_0fff in
    let d1 = update map.desc 0 0x1100_00ff in
    let tmp = map.btns_mask pad_rb_left in
    let b1 = update map.btns_mask pad_rb_left (map.btns_mask pad_rb_right) in
    let b2 = update b1 pad_rb_right tmp in
    let b3 = update b2 pad_lt (b2 pad_ls) in
    let b4 = update b3 pad_rt (b3 pad_rs) in
    let b5 = update b4 pad_rs (b4 pad_ms) in
    let b6 = update b5 pad_ms 0 in
    let b7 = update b6 pad_lm 0 in
    let b8 = update b7 pad_rm 0 in
    let b9 = update b8 pad_ls 0 in record map { mask = k1; desc = d1; btns_mask = b9 }

unfoldable pub n64_bluen64 : RawSrcMapping → RawSrcMapping
n64_bluen64 map =
    let k1 = update map.mask 0 0x2315_0fff in
    let d1 = update map.desc 0 0x0000_00ff in
    let b1 = update map.btns_mask pad_rb_left (map.btns_mask pad_rb_right) in
    let b2 = update b1 pad_rx_left (bit 3) in
    let b3 = update b2 pad_ry_down (bit 4) in
    let b4 = update b3 pad_lm (bit 8) in
    let b5 = update b4 pad_mm (bit 5) in record map { mask = k1; desc = d1; btns_mask = b5 }

unfoldable pub rf_warrior : RawSrcMapping → RawSrcMapping
rf_warrior map =
    let k1 = update map.mask 0 0x337f_0fff in
    let d1 = update map.desc 0 0x0000_00ff in
    let b1 = update map.btns_mask pad_rb_left (bit 1) in
    let b2 = update b1 pad_rb_right (bit 2) in
    let b3 = update b2 pad_lm (bit 4) in
    let b4 = update b3 pad_ls 0 in
    let b5 = update b4 pad_rm (bit 5) in
    let b6 = update b5 pad_rs (bit 6) in
    let b7 = update b6 pad_ms 0 in record map { mask = k1; desc = d1; btns_mask = b7 }

unfoldable pub ouya : RawSrcMapping → RawSrcMapping
ouya map =
    let k1 = update map.mask 0 0xbb1f_0fff in
    let d1 = update map.desc 0 0x1100_00ff in
    let b1 : ℕ → ℕ = λ i. if ltb i 32 then 0 else map.btns_mask i in
    let b2 = update b1 pad_ld_left (bit ouya_left) in
    let b3 = update b2 pad_ld_right (bit ouya_right) in
    let b4 = update b3 pad_ld_down (bit ouya_down) in
    let b5 = update b4 pad_ld_up (bit ouya_up) in
    let b6 = update b5 pad_rb_left (bit ouya_u) in
    let b7 = update b6 pad_rb_right (bit ouya_a) in
    let b8 = update b7 pad_rb_down (bit ouya_o) in
    let b9 = update b8 pad_rb_up (bit ouya_y) in
    let b10 = update b9 pad_mm (bit ouya_menu) in
    let b11 = update b10 pad_ls (bit ouya_l1) in
    let b12 = update b11 pad_lj (bit ouya_l3) in
    let b13 = update b12 pad_rs (bit ouya_r1) in
    let b14 = update b13 pad_rj (bit ouya_r3) in
    record map { mask = k1; desc = d1; btns_mask = b14 }
