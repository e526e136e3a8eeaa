-- ===== src/Adapter/HidGeneric/RumbleTests.antt =====
-- A rumble of two motors.
use blue_retro_forever.Prelude.{ℕ, ◌<◌, ◌≡◌, refl, ap, Option, none, some, arith, ℤ, for_range}
use blue_retro_forever.Adapter.HidParser.Types.{HidUsage, HidReport, rumble, zero_usage}
use blue_retro_forever.Adapter.HidGeneric.Rumble.{Level, level, fill_report}
use blue_retro_forever.Adapter.HidGeneric.RumbleSize.{AllSmall, fill_report-offset}
use blue_retro_forever.Adapter.Wired.Types.{GenericFb}

-- A field of one byte.
abbrev motor : HidUsage
motor = record zero_usage { usage = 0x70; bit_size = 8; logical_max = 255 }

abbrev motors : HidReport
motors = record { id = 5; len = 2; tag = 0; usage_cnt = 2; type = rumble; usages = λ i. motor }

abbrev strong : GenericFb
strong = record { wired_id = 0; type = 1; state = 1; lf_pwr = 0x20; hf_pwr = 0x30 }

abbrev exact : ℤ → ℕ → ℕ
exact max power = power

second_test : (fill_report exact strong motors (λ o. 0)).state 1 ≡ 0x30
unfolding fill_report for_range
second_test = refl

abbrev value_of : Option Level → ℕ
value_of none = 0
value_of (some l) = l.value

level_small : (p : ℕ) → value_of (level exact strong motor p) < 256
unfolding level
level_small p = ground arith

motors-AllSmall : AllSmall exact strong motors
motors-AllSmall i p l lt e = omega (arith, level_small p, ap value_of e)

fill_report-offset_example :
    (fill_report exact strong motors (λ o. 0)).offset
    ≡ (fill_report exact strong motors (λ o. 0)).report_size
fill_report-offset_example = fill_report-offset exact strong motors (λ o. 0) motors-AllSmall
