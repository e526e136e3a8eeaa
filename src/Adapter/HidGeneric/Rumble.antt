-- ===== src/Adapter/HidGeneric/Rumble.antt =====
-- The rumble of main/adapter/wireless/hid_generic.c: `hid_fb_from_generic`.
use blue_retro_forever.Prelude.{
  ℕ, zero, suc, ◌+◌, ◌-◌, ◌/◌, ◌^◌, ◌==◌, ◌&&◌, not, if◌then◌else◌, ltb, u8, u32, bit_and, update,
  for_range, test_bit, Option, none, some, ℤ,
}
use blue_retro_forever.Adapter.Ids.{bt_quirk_8bitdo_gc}
use blue_retro_forever.Adapter.HidParser.Types.{HidUsage, HidReport, rumble}
use blue_retro_forever.Adapter.HidGeneric.Types.{HidDevice, s32}
use blue_retro_forever.Adapter.Wired.Types.{GenericFb}

-- `struct generic_rumble`; a write past the 88 bytes of `state` is kept at its index.
pub record GenericRumble : Type 0 where
  pub state : ℕ → ℕ
  pub report_id : ℕ
  pub report_size : ℕ

abbrev pub fb_type_rumble : ℕ
fb_type_rumble = 1

-- A value for a field, and the next of the two powers.
pub record Level : Type 0 where
  pub value : ℕ
  pub pwr_idx : ℕ

unfoldable pub on_off : GenericFb → HidUsage → ℕ → Option Level
on_off fb u pwr_idx =
    some
      (record { value = if fb.state == 0 then u.logical_min else u.logical_max; pwr_idx = pwr_idx })

-- `scale` is the product in floating point of `logical_max / 255` and a power, as an `uint32_t`.
unfoldable pub magnitude : (ℤ → ℕ → ℕ) → GenericFb → HidUsage → ℕ → Option Level
magnitude scale fb u pwr_idx =
    if not (fb.state == 0) && ltb pwr_idx 2
    then some (record {
      value = scale (s32 u.logical_max) (if pwr_idx == 0 then fb.lf_pwr else fb.hf_pwr);
      pwr_idx = pwr_idx + 1;
    })
    else some (record { value = u.logical_min; pwr_idx = pwr_idx })

-- `none` is a usage that is not of a rumble.
unfoldable pub level : (ℤ → ℕ → ℕ) → GenericFb → HidUsage → ℕ → Option Level
unfolding on_off magnitude
level scale fb u pwr_idx =
    if u.usage == 0x50
    then on_off fb u pwr_idx
    else (if u.usage == 0x97 && u.logical_max == 1 && u.bit_size == 4
        then some (record { value = 3; pwr_idx = pwr_idx })
        else (if u.usage == 0x97
            then magnitude scale fb u pwr_idx
            else (if u.usage == 0x70
                then magnitude scale fb u pwr_idx
                else (if u.usage == 0x7c
                    then on_off fb u pwr_idx
                    else (if u.usage == 0xa7
                        then some (record { value = u.logical_min; pwr_idx = pwr_idx })
                        else none)))))

abbrev pub bytes_count : HidUsage → ℕ
bytes_count u = u32 (u.bit_size + 7) / 8

-- What is written, and how many bytes of the value.
pub record Written : Type 0 where
  pub state : ℕ → ℕ
  pub offset : ℕ
  pub counter : ℕ

abbrev pub put_byte : ℕ → Written → Written
put_byte v w = record {
  state = update w.state w.offset (u8 v);
  offset = u32 (w.offset + 1);
  counter = w.counter + 1;
}

-- The bytes of the value, the lowest first; an `uint32_t` has four.
unfoldable pub put_bytes : ℕ → ℕ → Written → Written
put_bytes zero v w = w
put_bytes (suc n) v w =
    let rest = put_bytes n (v / 2 ^ 8) (put_byte v w) in if v == 0 then w else rest

unfoldable pub put_value : ℕ → ℕ → (ℕ → ℕ) → ℕ → Written
unfolding put_bytes
put_value v count state offset =
    let w = put_bytes 4 v (record { state = state; offset = offset; counter = 0 }) in
    for_range (count - w.counter) w.counter (λ i. put_byte 0) w

-- The variables of the loop over the usages.
pub record Filling : Type 0 where
  pub state : ℕ → ℕ
  pub report_size : ℕ
  pub offset : ℕ
  pub pwr_idx : ℕ

unfoldable pub fill_level : HidUsage → Option Level → Filling → Filling
unfolding put_value
fill_level u none s = record s { pwr_idx = bit_and s.pwr_idx 1 }
fill_level u (some l) s =
    let w = put_value l.value (bytes_count u) s.state s.offset in
    record {
      state = w.state;
      report_size = u32 (s.report_size + bytes_count u);
      offset = w.offset;
      pwr_idx = bit_and l.pwr_idx 1;
    }

unfoldable pub fill_report : (ℤ → ℕ → ℕ) → GenericFb → HidReport → (ℕ → ℕ) → Filling
unfolding level fill_level
fill_report scale fb report state =
    for_range report.usage_cnt 0
      (λ i s. fill_level (report.usages i) (level scale fb (report.usages i) s.pwr_idx) s)
      (record { state = state; report_size = 0; offset = 0; pwr_idx = 0 })

abbrev pub by_report : (ℤ → ℕ → ℕ) → GenericFb → Option HidReport → GenericRumble → GenericRumble
by_report scale fb none out = out
by_report scale fb (some report) out =
    let s = fill_report scale fb report out.state in
    record { state = s.state; report_id = report.id; report_size = s.report_size }

-- The output of the device; the result is always `true`.
unfoldable pub hid_fb_from_generic :
    (ℤ → ℕ → ℕ) → GenericFb → HidDevice → GenericRumble → GenericRumble
unfolding fill_report
hid_fb_from_generic scale fb d out =
    if fb.type == fb_type_rumble
    then (if test_bit (d.flags 2) bt_quirk_8bitdo_gc
        then record {
          state =
              update
                (update (update out.state 0 0xdb) 1 (if fb.state == 0 then 0 else u8 fb.lf_pwr)) 2
                (if fb.state == 0 then 0 else u8 fb.hf_pwr);
          report_id = 0xa5;
          report_size = 3;
        }
        else by_report scale fb (d.bt.reports rumble) out)
    else out
