-- ===== src/Adapter/Quirks/Tests.antt =====
-- The quirks of mapping_quirks.c at a concrete mapping.
use blue_retro_forever.Prelude.{◌≡◌, refl, pos, negsuc, bit, arith}
use blue_retro_forever.Adapter.Quirks.Types.{CtrlMeta, RawSrcMapping}
use blue_retro_forever.Adapter.Quirks.Moves.{
  face_btns_invert, face_btns_rotate_right, face_btns_trigger_to_6buttons,
  face_btns_trigger_to_8buttons, m30_8bitdo,
}
use blue_retro_forever.Adapter.Quirks.Remaps.{AxesDistinct, trigger_to_buttons-AxesDistinct}

abbrev stick : CtrlMeta
stick = record {
  neutral = pos 128;
  deadzone = pos 0;
  abs_max = pos 127;
  abs_min = pos 128;
  polarity = pos 0;
  size_min = negsuc 127;
  size_max = pos 127;
  relative = pos 0;
}

-- Button `i` is bit `i` of the report, and axis `i` its byte `i`.
abbrev plain : RawSrcMapping
plain = record {
  mask = λ w. 0xffff_ffff;
  desc = λ w. 0;
  btns_mask = bit;
  axes_idx = pos;
  meta = λ i. stick;
}

invert_test : (face_btns_invert plain).btns_mask 16 ≡ bit 19
unfolding face_btns_invert
invert_test = refl

rotate_test : (face_btns_rotate_right plain).btns_mask 19 ≡ bit 16
unfolding face_btns_rotate_right
rotate_test = refl

plain-AxesDistinct : AxesDistinct plain
plain-AxesDistinct i j e ne = ground arith

trigger_to_buttons-AxesDistinct_example :
    AxesDistinct (face_btns_trigger_to_6buttons plain)
    × AxesDistinct (face_btns_trigger_to_8buttons plain)
    × AxesDistinct (m30_8bitdo plain)
trigger_to_buttons-AxesDistinct_example = trigger_to_buttons-AxesDistinct plain plain-AxesDistinct
