-- ===== src/Adapter/Quirks/Apply.antt =====
-- `mapping_quirks_apply` of main/adapter/mapping_quirks.c: the quirks that a device's flags ask for. The
-- switch on the vendor before them has no case.
use blue_retro_forever.Prelude.{ℕ, Bool, true, false, ◌&&◌, test_bit, ◌==◌}
use blue_retro_forever.Adapter.Ids.{
  bt_quirk_face_btns_invert, bt_quirk_face_btns_rotate_right,
  bt_quirk_face_btns_trigger_to_6buttons, bt_quirk_face_btns_trigger_to_8buttons,
  bt_quirk_trigger_pri_sec_invert, bt_quirk_8bitdo_n64, bt_quirk_8bitdo_n64_mk, bt_quirk_8bitdo_m30,
  bt_quirk_8bitdo_m30_modkit, bt_quirk_8bitdo_saturn, bt_quirk_bluen64_n64, bt_quirk_rf_warrior,
  bt_quirk_ouya, bt_quirk_8bitdo_gc, bt_quirk_8bitdo_gbros,
}
use blue_retro_forever.Adapter.Quirks.Types.{RawSrcMapping}
use blue_retro_forever.Adapter.Quirks.Moves.{
  face_btns_invert, face_btns_rotate_right, face_btns_trigger_to_6buttons,
  face_btns_trigger_to_8buttons, trigger_pri_sec_invert, m30_8bitdo, saturn_diy_8bitdo,
}
use blue_retro_forever.Adapter.Quirks.Devices.{
  n64_8bitdo, n64_8bitdo_mk, m30_8bitdo_modkit, gc_diy_8bitdo, gc_gbros_8bitdo, n64_bluen64,
  rf_warrior, ouya,
}

-- `if (c) q(map)`
abbrev pub when : Bool → (RawSrcMapping → RawSrcMapping) → RawSrcMapping → RawSrcMapping
when true q map = q map
when false q map = map

unfoldable pub mapping_quirks_apply : ℕ → ℕ → RawSrcMapping → RawSrcMapping
unfolding test_bit face_btns_invert face_btns_rotate_right face_btns_trigger_to_6buttons
    face_btns_trigger_to_8buttons trigger_pri_sec_invert m30_8bitdo saturn_diy_8bitdo n64_8bitdo
    n64_8bitdo_mk m30_8bitdo_modkit gc_diy_8bitdo gc_gbros_8bitdo n64_bluen64 rf_warrior ouya
mapping_quirks_apply vid flags m0 =
    let m1 = when (test_bit flags bt_quirk_face_btns_invert) face_btns_invert m0 in
    let m2 = when (test_bit flags bt_quirk_face_btns_rotate_right) face_btns_rotate_right m1 in
    let m3 =
      when (test_bit flags bt_quirk_face_btns_trigger_to_6buttons) face_btns_trigger_to_6buttons
        m2 in
    let m4 =
      when (vid == 0x045e && test_bit flags bt_quirk_face_btns_trigger_to_8buttons)
        face_btns_trigger_to_8buttons m3 in
    let m5 = when (test_bit flags bt_quirk_trigger_pri_sec_invert) trigger_pri_sec_invert m4 in
    let m6 = when (test_bit flags bt_quirk_8bitdo_n64) n64_8bitdo m5 in
    let m7 = when (test_bit flags bt_quirk_8bitdo_n64_mk) n64_8bitdo_mk m6 in
    let m8 = when (test_bit flags bt_quirk_8bitdo_m30) m30_8bitdo m7 in
    let m9 = when (test_bit flags bt_quirk_8bitdo_m30_modkit) m30_8bitdo_modkit m8 in
    let m10 = when (test_bit flags bt_quirk_8bitdo_saturn) saturn_diy_8bitdo m9 in
    let m11 = when (test_bit flags bt_quirk_bluen64_n64) n64_bluen64 m10 in
    let m12 = when (test_bit flags bt_quirk_rf_warrior) rf_warrior m11 in
    let m13 = when (test_bit flags bt_quirk_ouya) ouya m12 in
    let m14 = when (test_bit flags bt_quirk_8bitdo_gc) gc_diy_8bitdo m13 in
    when (test_bit flags bt_quirk_8bitdo_gbros) gc_gbros_8bitdo m14
