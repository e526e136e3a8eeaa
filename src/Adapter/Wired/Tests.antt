-- ===== src/Adapter/Wired/Tests.antt =====
-- The turbo masks of wired.c at a concrete frame.
use blue_retro_forever.Prelude.{◌≡◌, refl, bit}
use blue_retro_forever.Adapter.Wired.Types.{WiredData}
use blue_retro_forever.Adapter.Wired.Turbo.{wired_gen_turbo_mask_btns16_pos}

-- Every button has turbo on the lowest bit of an even frame.
abbrev turbo : WiredData
turbo = record {
  flags = 0;
  frame_cnt = 4;
  output = λ o. 0;
  output_mask = λ o. 0;
  cnt_mask = λ i. 3;
}

pressed_test : wired_gen_turbo_mask_btns16_pos turbo bit 0xffff ≡ 0
unfolding wired_gen_turbo_mask_btns16_pos
pressed_test = refl
