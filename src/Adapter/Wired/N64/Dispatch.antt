-- ===== src/Adapter/Wired/N64/Dispatch.antt =====
-- The entry points of main/adapter/wired/n64.c.
use blue_retro_forever.Prelude.{
  ℕ, ◌+◌, ◌*◌, ◌%◌, ◌^◌, ◌==◌, if◌then◌else◌, update, for_range, pos, ltb,
}
use blue_retro_forever.Adapter.Ids.{wired_max_dev}
use blue_retro_forever.Adapter.Quirks.Types.{CtrlMeta}
use blue_retro_forever.Adapter.Mapping.Types.{WiredCtrl}
use blue_retro_forever.Adapter.Config.Layout.{Mem, dev_mode}
use blue_retro_forever.Adapter.HidGeneric.Types.{pattern32, zero_meta}
use blue_retro_forever.Adapter.Wired.Types.{
  RawFb, GenericFb, WiredData, dev_kb, dev_mouse, memset, load16, store16, store32,
}
use blue_retro_forever.Adapter.Wired.Turbo.{
  wired_gen_turbo_mask_btns16_pos, wired_gen_turbo_mask_axes8,
}
use blue_retro_forever.Adapter.Wired.N64.Tables.{
  n64_axes_max, n64_axes_idx, n64_axes_meta, n64_mouse_axes_meta, n64_mask, n64_desc,
  n64_mouse_mask, n64_mouse_desc, n64_kb_mask, n64_kb_desc, n64_btns_mask,
}
use blue_retro_forever.Adapter.Wired.N64.Pad.{N64, n64_ctrl_from_generic}
use blue_retro_forever.Adapter.Wired.N64.Others.{n64_mouse_from_generic, n64_kb_from_generic}

-- The sizes of the packed structures are 7, 12 and 4 bytes.
unfoldable pub n64_init_buffer : ℕ → WiredData → WiredData
unfolding memset
n64_init_buffer mode d =
    if mode == dev_kb
    then record d { output = memset d.output 0 0 7 }
    else (if mode == dev_mouse
        then (let moved =
              for_range n64_axes_max 0 (λ i o. update (store32 o (4 + 4 * i) 0) (2 + i) 1)
                d.output in
            record d { output = store16 moved 0 0 })
        else (let still =
              for_range n64_axes_max 0
                (λ i o. update o (2 + n64_axes_idx i) (pattern32 (n64_axes_meta i).neutral % 2 ^ 8))
                (store16 d.output 0 0) in
            record d { output = still; output_mask = memset d.output_mask 0 0xff 4 }))

-- The first four entries are cleared; a null pointer to meta data is all 0.
abbrev pub cleared : WiredCtrl
cleared = record {
  index = 0;
  mask = λ w. 0;
  desc = λ w. 0;
  map_mask = λ w. 0;
  btns = λ w. record { value = 0; cnt_mask = λ i. 0 };
  axes = λ a. record { value = pos 0; relative = pos 0; meta = zero_meta; cnt_mask = 0 };
}

abbrev pub set_meta : ℕ → CtrlMeta → WiredCtrl → WiredCtrl
set_meta i meta c = record c { axes = update c.axes i (record (c.axes i) { meta = meta }) }

unfoldable pub meta_round : ℕ → ℕ → WiredCtrl → WiredCtrl
meta_round mode j c =
    if mode == dev_kb
    then record c { mask = n64_kb_mask; desc = n64_kb_desc }
    else (if mode == dev_mouse
        then set_meta (j + 2) (n64_mouse_axes_meta j)
            (record c { mask = n64_mouse_mask; desc = n64_mouse_desc })
        else set_meta j (n64_axes_meta j) (record c { mask = n64_mask; desc = n64_desc }))

unfoldable pub n64_meta_init : Mem → (ℕ → WiredCtrl) → ℕ → WiredCtrl
unfolding meta_round
n64_meta_init config ctrl_data =
    for_range wired_max_dev 0
      (λ i cs. update cs i (for_range n64_axes_max 0 (meta_round (config (dev_mode i))) (cs i)))
      (λ i. if ltb i 4 then cleared else ctrl_data i)

unfoldable pub n64_from_generic : ℕ → WiredCtrl → N64 → N64
unfolding n64_kb_from_generic n64_mouse_from_generic n64_ctrl_from_generic
n64_from_generic mode ctrl s =
    if mode == dev_kb
    then record s { wired = record s.wired { output = n64_kb_from_generic ctrl s.wired.output } }
    else (if mode == dev_mouse
        then record s {
          wired = record s.wired { output = n64_mouse_from_generic ctrl s.wired.output };
        }
        else n64_ctrl_from_generic ctrl s)

unfoldable pub n64_fb_to_generic : RawFb → GenericFb
n64_fb_to_generic raw =
    if raw.data_len == 0
    then record { wired_id = raw.wired_id; type = raw.type; state = 0; lf_pwr = 0; hf_pwr = 0 }
    else (let power = if raw.bytes 0 == 0 then 0 else 0xff in
        record {
          wired_id = raw.wired_id;
          type = raw.type;
          state = raw.bytes 0;
          lf_pwr = power;
          hf_pwr = power;
        })

unfoldable pub n64_gen_turbo_mask : WiredData → WiredData
unfolding memset wired_gen_turbo_mask_btns16_pos wired_gen_turbo_mask_axes8
n64_gen_turbo_mask d =
    let full = memset d.output_mask 0 0xff 4 in
    let pressed =
      store16 full 0 (wired_gen_turbo_mask_btns16_pos d n64_btns_mask (load16 full 0)) in
    let axes =
      wired_gen_turbo_mask_axes8 d n64_axes_max n64_axes_idx
        (λ i. pattern32 (n64_axes_meta i).neutral % 2 ^ 8) (λ i. pressed (2 + i)) in
    record d { output_mask = update (update pressed 2 (axes 0)) 3 (axes 1) }
