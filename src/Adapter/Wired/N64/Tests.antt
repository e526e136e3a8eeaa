-- ===== src/Adapter/Wired/N64/Tests.antt =====
-- The outputs of an N64 at concrete reports.
use blue_retro_forever.Prelude.{
  ◌≢◌, ℕ, ◌+◌, ◌*◌, ◌%◌, ◌≡◌, refl, not, ◌==◌, for_range, ◌&&◌, ◌||◌, List, [], ◌∷◌, get_or, ℤ, pos,
  negsuc, bit, bit_or, test_bit, if◌then◌else◌, arith,
}
use blue_retro_forever.Adapter.Ids.{pad_mt, pad_mq, pad_rb_left, kbm_max}
use blue_retro_forever.Adapter.KbIds.{kb_home}
use blue_retro_forever.Adapter.Config.Layout.{acc_mode, banksel}
use blue_retro_forever.Adapter.Mapping.Types.{WiredCtrl}
use blue_retro_forever.Adapter.HidGeneric.Types.{s8}
use blue_retro_forever.Adapter.Wired.Types.{
  load16, acc_mem, wired_waiting_for_release, wired_waiting_for_release2,
}
use blue_retro_forever.Adapter.Wired.N64.Tables.{n64_axes_meta, n64_btns_mask, n64_b}
use blue_retro_forever.Adapter.Wired.N64.Pad.{N64, n64_ctrl_from_generic}
use blue_retro_forever.Adapter.Wired.N64.Others.{
  key_down, n64_kb_from_generic, n64_mouse_from_generic,
}
use blue_retro_forever.Adapter.Wired.N64.Dispatch.{n64_init_buffer, n64_fb_to_generic}
use blue_retro_forever.Adapter.Wired.N64.Buttons.{
  some_below, drives, rests, n64_ctrl_from_generic-buttons,
}
use blue_retro_forever.Adapter.Wired.N64.Accessory.{switched}
use blue_retro_forever.Adapter.Wired.N64.Releases.{releases, pad_run, pad_run_lem}
use blue_retro_forever.Adapter.Wired.N64.AxisBytes.{clamp, axis_mapped, n64_ctrl_from_generic-axis}
use blue_retro_forever.Adapter.Wired.N64.KeyCodes.{codes_below, n64_kb_from_generic_lem}

-- A report in which everything is mapped, the words of `held` are down and both axes are at `at`.
abbrev report : ℕ → ℤ → WiredCtrl
report held at = record {
  index = 1;
  mask = λ w. 0xffff_ffff;
  desc = λ w. 0xf;
  map_mask = λ w. 0xffff_ffff;
  btns = λ w. record { value = held; cnt_mask = λ i. 0 };
  axes = λ a. record { value = at; relative = pos 1; meta = n64_axes_meta a; cnt_mask = 0 };
}

abbrev idle : N64
idle = record {
  wired = record {
    flags = 0;
    frame_cnt = 0;
    output = λ o. 0;
    output_mask = λ o. 0;
    cnt_mask = λ i. 0;
  };
  config = λ a. if a == acc_mode 1 then acc_mem else 0;
  toggles = [];
}

-- B is held, and the stick is beyond its range.
pad_test :
    (n64_ctrl_from_generic (report (bit pad_rb_left) (negsuc 200)) idle).wired.output 2 ≡ 0x80
unfolding n64_ctrl_from_generic for_range
pad_test = refl

held_test :
    load16 (n64_ctrl_from_generic (report (bit pad_rb_left) (pos 0)) idle).wired.output 0
    ≡ bit n64_b
unfolding n64_ctrl_from_generic for_range
held_test = refl

-- Two moves of a mouse by 3 add up.
mouse_test :
    n64_mouse_from_generic (report 0 (pos 3)) (n64_mouse_from_generic (report 0 (pos 3)) (λ o. 0)) 4
    ≡ 6
unfolding n64_mouse_from_generic for_range
mouse_test = refl

init_test : (n64_init_buffer 0 idle.wired).output_mask 3 ≡ 0xff
unfolding n64_init_buffer for_range
init_test = refl

stop_test :
    (n64_fb_to_generic (record { wired_id = 1; type = 0; data_len = 0; bytes = λ i. 1 })).lf_pwr ≡ 0
unfolding n64_fb_to_generic
stop_test = refl

abbrev pressing : List WiredCtrl
pressing =
    report (bit pad_mt) (pos 0)
    ∷ report (bit_or (bit pad_mt) (bit pad_mq)) (pos 0)
    ∷ report 0 (pos 0)
    ∷ report (bit pad_mt) (pos 0)
    ∷ report 0 (pos 0)
    ∷ []

releases_test : releases pad_mt (test_bit 0 2) pressing ≡ 2
unfolding releases test_bit
releases_test = refl

n64_ctrl_from_generic-buttons_example :
    test_bit
      (load16 (n64_ctrl_from_generic (report (bit pad_rb_left) (pos 0)) idle).wired.output 0)
      n64_b
    ≡ (some_below (drives n64_btns_mask (report (bit pad_rb_left) (pos 0)) n64_b) 32
        || (test_bit (load16 idle.wired.output 0) n64_b
            && not (some_below (rests n64_btns_mask (report (bit pad_rb_left) (pos 0)) n64_b) 32)))
n64_ctrl_from_generic-buttons_example =
    n64_ctrl_from_generic-buttons (report (bit pad_rb_left) (pos 0)) idle n64_b (omega arith)

pad_run_lem_example :
    (((pad_run pressing idle).config (acc_mode 1), (pad_run pressing idle).toggles)
      ≡ switched 1
          (releases pad_mt (test_bit idle.wired.flags wired_waiting_for_release) pressing)
          (idle.config (acc_mode 1), idle.toggles))
    × ((pad_run pressing idle).config banksel
        ≡ (idle.config banksel
            + releases pad_mq (test_bit idle.wired.flags wired_waiting_for_release2) pressing)
          % 4)
    × ((a : ℕ) → a ≢ acc_mode 1 → a ≢ banksel → (pad_run pressing idle).config a ≡ idle.config a)
pad_run_lem_example =
    pad_run_lem 1 pressing idle (refl, (refl, (refl, (refl, (refl, tt))))) (omega arith)

n64_ctrl_from_generic-axis_example :
    s8 ((n64_ctrl_from_generic (report 0 (negsuc 200)) idle).wired.output (2 + 1))
    ≡ (if axis_mapped (report 0 (negsuc 200)) 1 then clamp (negsuc 200) else s8 0)
n64_ctrl_from_generic-axis_example =
    n64_ctrl_from_generic-axis (report 0 (negsuc 200)) idle 1 (omega arith) refl

n64_kb_from_generic_lem_example :
    (load16 (n64_kb_from_generic (report 0xff (pos 0)) (λ o. 0)) (2 * 2)
      ≡ get_or (codes_below (report 0xff (pos 0)) kbm_max) 2 0)
    × (n64_kb_from_generic (report 0xff (pos 0)) (λ o. 0) 6
        ≡ (if key_down (report 0xff (pos 0)) kb_home then 1 else 0))
n64_kb_from_generic_lem_example =
    n64_kb_from_generic_lem (report 0xff (pos 0)) (λ o. 0) 2 (omega arith)
