-- ===== src/Adapter/Mapping/Tests.antt =====
-- The mapping of adapter.c at a concrete input.
use blue_retro_forever.Prelude.{
  ◌⊎◌, true, ◌<◌, ℕ, ◌≡◌, refl, false, pos, negsuc, arith, bit, test_bit, test_bit-zero, update,
}
use blue_retro_forever.Adapter.Ids.{pad_rb_down, pad_rb_right, pad_lx_right, wired_max_dev}
use blue_retro_forever.Adapter.Quirks.Types.{CtrlMeta}
use blue_retro_forever.Adapter.Mapping.Types.{MapCfg, InCfg, WirelessCtrl, WiredCtrl, Ctrls, Float}
use blue_retro_forever.Adapter.Mapping.Map.{adapter_mapping}
use blue_retro_forever.Adapter.Mapping.Outputs.{IsDst, adapter_mapping-IsLocal}
use blue_retro_forever.Adapter.Mapping.Masks.{AllMasked, adapter_mapping-AllMasked}

-- Scaling by 1, with no dead zone and a threshold of half the range.
abbrev unscaled : Float
unscaled = record {
  dead = λ perc max. pos 0;
  press = λ perc max. pos 64;
  linear = λ sign value dst_max src_max deadzone perc. value;
  direct = λ sign value perc. value;
  full = λ sign dst_max perc. dst_max;
}

abbrev stick : CtrlMeta
stick = record {
  neutral = pos 0;
  deadzone = pos 0;
  abs_max = pos 127;
  abs_min = pos 128;
  polarity = pos 0;
  size_min = negsuc 127;
  size_max = pos 127;
  relative = pos 0;
}

-- The left stick is held to the right, and the lower face button is down.
abbrev held : WirelessCtrl
held = record {
  mask = λ w. 0xffff_ffff;
  desc = λ w. 0xff;
  btns = λ w. bit pad_rb_down;
  axes = λ a. record { value = pos 100; relative = pos 0; meta = stick };
}

abbrev idle : WiredCtrl
idle = record {
  index = 0;
  mask = λ w. 0xffff_ffff;
  desc = λ w. 0xff;
  map_mask = λ w. 0;
  btns = λ w. record { value = 0; cnt_mask = λ i. 0 };
  axes = λ a. record { value = pos 0; relative = pos 0; meta = stick; cnt_mask = 0 };
}

abbrev before : Ctrls
before = record { input = held; output = λ d. idle }

abbrev to : ℕ → ℕ → ℕ → MapCfg
to src dst id = record {
  src_btn = src;
  dst_btn = dst;
  dst_id = id;
  perc_max = 100;
  perc_threshold = 50;
  perc_deadzone = 135;
  turbo = 0;
  algo = 0;
}

-- The lower face button presses the right one of output 1, and the left stick moves that of output 0.
abbrev config : InCfg
config = record {
  size = 2;
  entry = update (λ i. to pad_rb_down pad_rb_right 1) 1 (to pad_lx_right pad_lx_right 0);
}

returned_test : (adapter_mapping unscaled config before).1 ≡ 3
unfolding adapter_mapping
returned_test = refl

pressed_test : ((adapter_mapping unscaled config before).0.output 1).map_mask 0 ≡ bit pad_rb_right
unfolding adapter_mapping
pressed_test = refl

moved_test : (((adapter_mapping unscaled config before).0.output 0).axes 0).value ≡ pos 100
unfolding adapter_mapping
moved_test = refl

unnamed_test : test_bit (adapter_mapping unscaled config before).1 2 ≡ false
unfolding adapter_mapping test_bit
unnamed_test = refl

config_known : (i : ℕ) → i < config.size → (config.entry i).dst_id < wired_max_dev
config_known i lt = ground arith

adapter_mapping-IsLocal_example :
    let r = adapter_mapping unscaled config before in
    ((test_bit r.1 1 ≡ false) × (r.0.output 1 ≡ before.output 1))
    ⊎ ((test_bit r.1 1 ≡ true) × IsDst config 1 2)
adapter_mapping-IsLocal_example = adapter_mapping-IsLocal 1 unscaled config before config_known

before-AllMasked : AllMasked before
before-AllMasked d w k flagged = absurd (ground (arith, test_bit-zero k))

adapter_mapping-AllMasked_example : AllMasked (adapter_mapping unscaled config before).0
adapter_mapping-AllMasked_example =
    adapter_mapping-AllMasked unscaled config before before-AllMasked
