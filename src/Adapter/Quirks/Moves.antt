-- ===== src/Adapter/Quirks/Moves.antt =====
-- The quirks of main/adapter/mapping_quirks.c that move masks and axes, statement by statement.
use blue_retro_forever.Prelude.{negsuc, bit_and, not32, update}
use blue_retro_forever.Adapter.Ids.{
  btn_right, pad_lm, pad_ls, pad_rb_down, pad_rb_left, pad_rb_right, pad_rb_up, pad_rm, pad_rs,
  trig_l, trig_r, trig_rs,
}
use blue_retro_forever.Adapter.Quirks.Types.{RawSrcMapping}

unfoldable pub face_btns_invert : RawSrcMapping → RawSrcMapping
face_btns_invert map =
    let tmp = map.btns_mask pad_rb_left in
    let b1 = update map.btns_mask pad_rb_left (map.btns_mask pad_rb_up) in
    let b2 = update b1 pad_rb_up tmp in
    let tmp2 = b2 pad_rb_down in
    let b3 = update b2 pad_rb_down (b2 pad_rb_right) in
    let b4 = update b3 pad_rb_right tmp2 in record map { btns_mask = b4 }

unfoldable pub face_btns_rotate_right : RawSrcMapping → RawSrcMapping
face_btns_rotate_right map =
    let tmp = map.btns_mask pad_rb_up in
    let b1 = update map.btns_mask pad_rb_up (map.btns_mask pad_rb_left) in
    let b2 = update b1 pad_rb_left (b1 pad_rb_down) in
    let b3 = update b2 pad_rb_down (b2 pad_rb_right) in
    let b4 = update b3 pad_rb_right tmp in record map { btns_mask = b4 }

unfoldable pub face_btns_trigger_to_6buttons : RawSrcMapping → RawSrcMapping
face_btns_trigger_to_6buttons map =
    let d1 = update map.desc 0 0x2002_00ff in
    let b1 = update map.btns_mask pad_lm (map.btns_mask pad_rb_left) in
    let b2 = update b1 pad_rb_left (b1 pad_rb_down) in
    let b3 = update b2 pad_rb_down (b2 pad_rb_right) in
    let b4 = update b3 pad_rb_right 0 in
    let a1 = update map.axes_idx trig_rs (map.axes_idx trig_l) in
    let a2 = update a1 trig_l (negsuc 0) in
    let t1 = update map.meta trig_rs (map.meta trig_l) in
    let a3 = update a2 btn_right (a2 trig_r) in
    let a4 = update a3 trig_r (negsuc 0) in
    let t2 = update t1 btn_right (t1 trig_r) in
    record map { desc = d1; btns_mask = b4; axes_idx = a4; meta = t2 }

unfoldable pub face_btns_trigger_to_8buttons : RawSrcMapping → RawSrcMapping
face_btns_trigger_to_8buttons map =
    let d1 = update map.desc 0 0x1002_00ff in
    let b1 = update map.btns_mask pad_lm (map.btns_mask pad_ls) in
    let b2 = update b1 pad_ls (b1 pad_rb_left) in
    let b3 = update b2 pad_rb_left (b2 pad_rb_down) in
    let b4 = update b3 pad_rb_down (b3 pad_rb_right) in
    let b5 = update b4 pad_rb_right 0 in
    let a1 = update map.axes_idx btn_right (map.axes_idx trig_r) in
    let t1 = update map.meta btn_right (map.meta trig_r) in
    let a2 = update a1 trig_r (a1 trig_l) in
    let a3 = update a2 trig_l (negsuc 0) in
    let t2 = update t1 trig_r (t1 trig_l) in
    record map { desc = d1; btns_mask = b5; axes_idx = a3; meta = t2 }

unfoldable pub trigger_pri_sec_invert : RawSrcMapping → RawSrcMapping
trigger_pri_sec_invert map =
    let tmp = map.btns_mask pad_lm in
    let d1 = update map.desc 0 (bit_and (map.desc 0) (not32 0x1100_0000)) in
    let b1 = update map.btns_mask pad_lm (map.btns_mask pad_ls) in
    let b2 = update b1 pad_ls tmp in
    let tmp2 = b2 pad_rm in
    let b3 = update b2 pad_rm (b2 pad_rs) in
    let b4 = update b3 pad_rs tmp2 in record map { desc = d1; btns_mask = b4 }

unfoldable pub m30_8bitdo : RawSrcMapping → RawSrcMapping
m30_8bitdo map =
    let d1 = update map.desc 0 0x1002_00ff in
    let b1 = update map.btns_mask pad_lm (map.btns_mask pad_ls) in
    let b2 = update b1 pad_ls (b1 pad_rb_left) in
    let b3 = update b2 pad_rb_left (b2 pad_rb_down) in
    let b4 = update b3 pad_rb_down (b3 pad_rb_right) in
    let b5 = update b4 pad_rb_right 0 in
    let b6 = update b5 pad_rb_right 0 in
    let a1 = update map.axes_idx btn_right (map.axes_idx trig_r) in
    let t1 = update map.meta btn_right (map.meta trig_r) in
    let a2 = update a1 trig_r (a1 trig_l) in
    let a3 = update a2 trig_l (negsuc 0) in
    let t2 = update t1 trig_r (t1 trig_l) in
    record map { desc = d1; btns_mask = b6; axes_idx = a3; meta = t2 }

unfoldable pub saturn_diy_8bitdo : RawSrcMapping → RawSrcMapping
saturn_diy_8bitdo map =
    let tmp = map.btns_mask pad_ls in
    let b1 = update map.btns_mask pad_ls (map.btns_mask pad_rb_left) in
    let b2 = update b1 pad_rb_left (b1 pad_rb_down) in
    let b3 = update b2 pad_rb_down (b2 pad_rb_right) in
    let b4 = update b3 pad_rb_right (b3 pad_rs) in
    let b5 = update b4 pad_rs tmp in record map { btns_mask = b5 }
