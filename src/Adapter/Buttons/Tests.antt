-- ===== src/Adapter/Buttons/Tests.antt =====
-- The tables of adapter.c at concrete buttons.
use blue_retro_forever.Prelude.{◌≡◌, refl, some, arith}
use blue_retro_forever.Adapter.Ids.{axis_ly, pad_ly_up, trig_rs}
use blue_retro_forever.Adapter.Buttons.Tables.{btn_id_to_axis, axis_to_btn_id}
use blue_retro_forever.Adapter.Buttons.RoundTrips.{btn_id_to_axis-axis_to_btn_id}

ly_test : btn_id_to_axis pad_ly_up ≡ some axis_ly
unfolding btn_id_to_axis
ly_test = refl

btn_id_to_axis-axis_to_btn_id_example : btn_id_to_axis (axis_to_btn_id trig_rs) ≡ some trig_rs
btn_id_to_axis-axis_to_btn_id_example = btn_id_to_axis-axis_to_btn_id trig_rs (omega arith)
