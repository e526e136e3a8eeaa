-- ===== src/Adapter/Quirks/Dispatch.antt =====
-- Which quirk a flag selects, in mapping_quirks.c.
use blue_retro_forever.Prelude.{ℕ, Bool, true, false, ◌&&◌, ◌≡◌, refl, bit, ◌==◌, arith}
use blue_retro_forever.Adapter.Ids.{
  bt_quirk_face_btns_invert, bt_quirk_face_btns_rotate_right,
  bt_quirk_face_btns_trigger_to_6buttons, bt_quirk_face_btns_trigger_to_8buttons,
  bt_quirk_trigger_pri_sec_invert, bt_quirk_8bitdo_n64, bt_quirk_8bitdo_n64_mk, bt_quirk_8bitdo_m30,
  bt_quirk_8bitdo_m30_modkit, bt_quirk_8bitdo_saturn, bt_quirk_bluen64_n64, bt_quirk_rf_warrior,
  bt_quirk_ouya, bt_quirk_8bitdo_gc, bt_quirk_8bitdo_gbros,
}
use blue_retro_forever.Adapter.Quirks.Types.{RawSrcMapping}
use blue_retro_forever.Adapter.Quirks.Moves.{
  face_btns_invert, face_btns_rotate_right, face_btns_trigger_to_6buttons,
  face_btns_trigger_to_8buttons, trigger_pri_sec_invert, m30_8bitdo, saturn_diy_8bitdo,
}
use blue_retro_forever.Adapter.Quirks.Devices.{
  n64_8bitdo, n64_8bitdo_mk, m30_8bitdo_modkit, n64_bluen64, rf_warrior, ouya, gc_diy_8bitdo,
  gc_gbros_8bitdo,
}
use blue_retro_forever.Adapter.Quirks.Apply.{mapping_quirks_apply, when}

pub data Quirk : Type 0 where
  on_face_btns_invert on_face_btns_rotate_right on_face_btns_trigger_to_6buttons
        on_face_btns_trigger_to_8buttons on_trigger_pri_sec_invert on_8bitdo_n64 on_8bitdo_n64_mk
        on_8bitdo_m30 on_8bitdo_m30_modkit on_8bitdo_saturn on_bluen64_n64 on_rf_warrior on_ouya
        on_8bitdo_gc on_8bitdo_gbros :
      Quirk

abbrev pub flag : Quirk → ℕ
flag on_face_btns_invert = bt_quirk_face_btns_invert
flag on_face_btns_rotate_right = bt_quirk_face_btns_rotate_right
flag on_face_btns_trigger_to_6buttons = bt_quirk_face_btns_trigger_to_6buttons
flag on_face_btns_trigger_to_8buttons = bt_quirk_face_btns_trigger_to_8buttons
flag on_trigger_pri_sec_invert = bt_quirk_trigger_pri_sec_invert
flag on_8bitdo_n64 = bt_quirk_8bitdo_n64
flag on_8bitdo_n64_mk = bt_quirk_8bitdo_n64_mk
flag on_8bitdo_m30 = bt_quirk_8bitdo_m30
flag on_8bitdo_m30_modkit = bt_quirk_8bitdo_m30_modkit
flag on_8bitdo_saturn = bt_quirk_8bitdo_saturn
flag on_bluen64_n64 = bt_quirk_bluen64_n64
flag on_rf_warrior = bt_quirk_rf_warrior
flag on_ouya = bt_quirk_ouya
flag on_8bitdo_gc = bt_quirk_8bitdo_gc
flag on_8bitdo_gbros = bt_quirk_8bitdo_gbros

-- The one that turns triggers into eight buttons is for one vendor only.
abbrev pub quirk_of : Quirk → ℕ → RawSrcMapping → RawSrcMapping
quirk_of on_face_btns_invert vid map = face_btns_invert map
quirk_of on_face_btns_rotate_right vid map = face_btns_rotate_right map
quirk_of on_face_btns_trigger_to_6buttons vid map = face_btns_trigger_to_6buttons map
quirk_of on_face_btns_trigger_to_8buttons vid map =
    when (vid == 0x045e) face_btns_trigger_to_8buttons map
quirk_of on_trigger_pri_sec_invert vid map = trigger_pri_sec_invert map
quirk_of on_8bitdo_n64 vid map = n64_8bitdo map
quirk_of on_8bitdo_n64_mk vid map = n64_8bitdo_mk map
quirk_of on_8bitdo_m30 vid map = m30_8bitdo map
quirk_of on_8bitdo_m30_modkit vid map = m30_8bitdo_modkit map
quirk_of on_8bitdo_saturn vid map = saturn_diy_8bitdo map
quirk_of on_bluen64_n64 vid map = n64_bluen64 map
quirk_of on_rf_warrior vid map = rf_warrior map
quirk_of on_ouya vid map = ouya map
quirk_of on_8bitdo_gc vid map = gc_diy_8bitdo map
quirk_of on_8bitdo_gbros vid map = gc_gbros_8bitdo map

and_false : (b : Bool) → (b && false) ≡ false
and_false true = refl
and_false false = refl

-- A device with one quirk flag, and no other flag, gets that quirk and no other.
pub mapping_quirks_apply-single :
    (q : Quirk) (vid : ℕ) (map : RawSrcMapping)
    → mapping_quirks_apply vid (bit (flag q)) map ≡ quirk_of q vid map
unfolding mapping_quirks_apply
mapping_quirks_apply-single on_face_btns_invert vid map = rw (and_false (vid == 0x045e)) refl
mapping_quirks_apply-single on_face_btns_rotate_right vid map = rw (and_false (vid == 0x045e)) refl
mapping_quirks_apply-single on_face_btns_trigger_to_6buttons vid map =
    rw (and_false (vid == 0x045e)) refl
mapping_quirks_apply-single on_face_btns_trigger_to_8buttons vid map = ground arith
mapping_quirks_apply-single on_trigger_pri_sec_invert vid map = rw (and_false (vid == 0x045e)) refl
mapping_quirks_apply-single on_8bitdo_n64 vid map = rw (and_false (vid == 0x045e)) refl
mapping_quirks_apply-single on_8bitdo_n64_mk vid map = rw (and_false (vid == 0x045e)) refl
mapping_quirks_apply-single on_8bitdo_m30 vid map = rw (and_false (vid == 0x045e)) refl
mapping_quirks_apply-single on_8bitdo_m30_modkit vid map = rw (and_false (vid == 0x045e)) refl
mapping_quirks_apply-single on_8bitdo_saturn vid map = rw (and_false (vid == 0x045e)) refl
mapping_quirks_apply-single on_bluen64_n64 vid map = rw (and_false (vid == 0x045e)) refl
mapping_quirks_apply-single on_rf_warrior vid map = rw (and_false (vid == 0x045e)) refl
mapping_quirks_apply-single on_ouya vid map = rw (and_false (vid == 0x045e)) refl
mapping_quirks_apply-single on_8bitdo_gc vid map = rw (and_false (vid == 0x045e)) refl
mapping_quirks_apply-single on_8bitdo_gbros vid map = rw (and_false (vid == 0x045e)) refl
