-- ===== src/Adapter/HidGeneric/Kb.antt =====
-- Keyboards of main/adapter/wireless/hid_generic.c: `hid_kb_init` and `hid_kb_to_generic`.
use blue_retro_forever.Prelude.{
  ℕ, zero, suc, ◌+◌, ◌-◌, ◌/◌, Bool, true, false, ◌&&◌, List, [], ◌∷◌, ℤ, pos, negsuc, update,
  for_range, bit, bit_and, bit_or, meets, u32, get_or, leb, ltb, ◌==◌, if◌then◌else◌, length,
}
use blue_retro_forever.Adapter.KbIds.{
  kb_0, kb_1, kb_2, kb_3, kb_4, kb_5, kb_6, kb_7, kb_8, kb_9, kb_a, kb_apostrophe, kb_b,
  kb_backslash, kb_backspace, kb_c, kb_capslock, kb_comma, kb_d, kb_del, kb_dot, kb_down, kb_e,
  kb_end, kb_enter, kb_equal, kb_esc, kb_f, kb_f1, kb_f10, kb_f11, kb_f12, kb_f2, kb_f3, kb_f4,
  kb_f5, kb_f6, kb_f7, kb_f8, kb_f9, kb_g, kb_grave, kb_h, kb_hash, kb_home, kb_i, kb_insert, kb_j,
  kb_k, kb_kp_0, kb_kp_1, kb_kp_2, kb_kp_3, kb_kp_4, kb_kp_5, kb_kp_6, kb_kp_7, kb_kp_8, kb_kp_9,
  kb_kp_div, kb_kp_dot, kb_kp_enter, kb_kp_minus, kb_kp_multi, kb_kp_plus, kb_l, kb_lalt, kb_lctrl,
  kb_left, kb_leftbrace, kb_lshift, kb_lwin, kb_m, kb_minus, kb_n, kb_numlock, kb_o, kb_p,
  kb_pagedown, kb_pageup, kb_pause, kb_pscreen, kb_q, kb_r, kb_ralt, kb_rctrl, kb_right,
  kb_rightbrace, kb_rshift, kb_rwin, kb_s, kb_scroll, kb_semicolon, kb_slash, kb_space, kb_t,
  kb_tab, kb_u, kb_up, kb_v, kb_w, kb_x, kb_y, kb_z,
}
use blue_retro_forever.Adapter.HidParser.Types.{HidUsage, HidReport}
use blue_retro_forever.Adapter.Mapping.Types.{WirelessCtrl}
use blue_retro_forever.Adapter.Quirks.Types.{RawSrcMapping}
use blue_retro_forever.Adapter.HidGeneric.Types.{HidReportMeta, adapter_ps2_max_axes, s8, no_ctrl}
use blue_retro_forever.Adapter.HidGeneric.Fields.{field}

abbrev pub hid_kb_bitfield_to_generic : List ℕ
hid_kb_bitfield_to_generic =
    kb_lctrl ∷ kb_lshift ∷ kb_lalt ∷ kb_lwin ∷ kb_rctrl ∷ kb_rshift ∷ kb_ralt ∷ kb_rwin ∷ []

abbrev pub hid_kb_key_to_generic : List ℕ
hid_kb_key_to_generic =
    0 ∷ 0 ∷ 0 ∷ 0 ∷ kb_a ∷ kb_b ∷ kb_c ∷ kb_d ∷ kb_e ∷ kb_f ∷ kb_g ∷ kb_h ∷ kb_i ∷ kb_j ∷ kb_k
    ∷ kb_l ∷ kb_m ∷ kb_n ∷ kb_o ∷ kb_p ∷ kb_q ∷ kb_r ∷ kb_s ∷ kb_t ∷ kb_u ∷ kb_v ∷ kb_w ∷ kb_x
    ∷ kb_y ∷ kb_z ∷ kb_1 ∷ kb_2 ∷ kb_3 ∷ kb_4 ∷ kb_5 ∷ kb_6 ∷ kb_7 ∷ kb_8 ∷ kb_9 ∷ kb_0 ∷ kb_enter
    ∷ kb_esc ∷ kb_backspace ∷ kb_tab ∷ kb_space ∷ kb_minus ∷ kb_equal ∷ kb_leftbrace ∷ kb_rightbrace
    ∷ kb_backslash ∷ kb_hash ∷ kb_semicolon ∷ kb_apostrophe ∷ kb_grave ∷ kb_comma ∷ kb_dot
    ∷ kb_slash ∷ kb_capslock ∷ kb_f1 ∷ kb_f2 ∷ kb_f3 ∷ kb_f4 ∷ kb_f5 ∷ kb_f6 ∷ kb_f7 ∷ kb_f8 ∷ kb_f9
    ∷ kb_f10 ∷ kb_f11 ∷ kb_f12 ∷ kb_pscreen ∷ kb_scroll ∷ kb_pause ∷ kb_insert ∷ kb_home ∷ kb_pageup
    ∷ kb_del ∷ kb_end ∷ kb_pagedown ∷ kb_right ∷ kb_left ∷ kb_down ∷ kb_up ∷ kb_numlock ∷ kb_kp_div
    ∷ kb_kp_multi ∷ kb_kp_minus ∷ kb_kp_plus ∷ kb_kp_enter ∷ kb_kp_1 ∷ kb_kp_2 ∷ kb_kp_3 ∷ kb_kp_4
    ∷ kb_kp_5 ∷ kb_kp_6 ∷ kb_kp_7 ∷ kb_kp_8 ∷ kb_kp_9 ∷ kb_kp_0 ∷ kb_kp_dot ∷ []

-- `btns[g >> 5].value |= BIT(g & 0x1F)`
unfoldable pub press : ℕ → (ℕ → ℕ) → ℕ → ℕ
press g btns = update btns (g / 32) (bit_or (btns (g / 32)) (bit (bit_and g 0x1f)))

-- The first loop: whether a usage stands for a single key.
unfoldable pub has_key_usage : (ℕ → HidUsage) → ℕ → ℕ → Bool
has_key_usage usages zero i = false
has_key_usage usages (suc n) i =
    let rest = has_key_usage usages n (i + 1) in
    if ltb 0 (usages i).usage && ltb (usages i).usage 0xe0 then true else rest

pub record KbInit : Type 0 where
  pub meta : HidReportMeta
  pub map : RawSrcMapping
  pub key_idx : ℕ

abbrev pub or_mask : ℕ → ℕ → RawSrcMapping → RawSrcMapping
or_mask w m map = record map { mask = update map.mask w (bit_or (map.mask w) m) }

-- One usage of the second loop.
pub kb_usage : (ℕ → HidUsage) → ℕ → KbInit → KbInit
kb_usage usages i s =
    let u = (usages i).usage in
    if (usages i).usage_page == 0x07
    then (if leb 0xe0 u && leb u 0xe7
        then record s {
          map =
              or_mask 3
                (bit_or (bit (bit_and kb_lalt 0x1f)) (
                  bit_or (bit (bit_and kb_rctrl 0x1f)) (
                    bit_or (bit (bit_and kb_rshift 0x1f))
                      (bit_or (bit (bit_and kb_ralt 0x1f)) (bit (bit_and kb_rwin 0x1f))))))
                (or_mask 0
                  (bit_or (bit (bit_and kb_lwin 0x1f))
                    (bit_or (bit (bit_and kb_lctrl 0x1f)) (bit (bit_and kb_lshift 0x1f))))
                  s.map);
          meta = record s.meta { hid_btn_idx = s8 i };
        }
        else (if ltb s.key_idx 6
            then record s {
              map = record s.map { axes_idx = update s.map.axes_idx s.key_idx (pos i) };
              key_idx = s.key_idx + 1;
            }
            else s))
    else s

-- The masks that every keyboard has.
abbrev pub kb_masks : RawSrcMapping → RawSrcMapping
kb_masks map =
    or_mask 3 0x7ffff (or_mask 2 0xffff_ffff (or_mask 1 0xffff_ffff (or_mask 0 0xe6ff_0f0f map)))

unfoldable pub hid_kb_init :
    HidReport → HidReportMeta → RawSrcMapping → HidReportMeta × RawSrcMapping
unfolding kb_usage has_key_usage
hid_kb_init report meta map =
    let meta' = record meta {
      hid_btn_idx = negsuc 0;
      kb_bitfield =
          (if has_key_usage report.usages report.usage_cnt 0 then 1 else meta.kb_bitfield);
    } in
    let r =
      for_range report.usage_cnt 0 (kb_usage report.usages)
        (record { meta = meta'; map = record map { axes_idx = λ k. negsuc 0 }; key_idx = 0 }) in
    (r.meta, kb_masks r.map)

-- The modifiers: `mask` is a byte, so there are eight rounds.
pub modifiers : ℕ → (ℕ → ℕ) → ℕ → ℕ
modifiers buttons btns =
    for_range 8 0
      (λ i b. if meets buttons (bit i) then press (get_or hid_kb_bitfield_to_generic i 0) b else b)
      btns

-- A field of single keys from the usage `first` on; `past` is what lies behind the table.
abbrev pub key_table : (ℕ → ℕ) → ℕ → ℕ
key_table past key =
    if ltb key (length hid_kb_key_to_generic)
    then get_or hid_kb_key_to_generic key 0
    else past (key - length hid_kb_key_to_generic)

pub bitfield_keys : (ℕ → ℕ) → ℕ → ℕ → (ℕ → ℕ) → ℕ → ℕ
bitfield_keys past first key_field btns =
    for_range 32 0
      (λ i b. if meets key_field (bit i) then press (key_table past (u32 (i + first))) b else b)
      btns

-- One slot of the array of keys.
unfoldable pub key_slot : ℕ → (ℕ → ℕ) → ℕ → ℕ
key_slot key btns =
    if ltb 3 key && ltb key (length hid_kb_key_to_generic)
    then press (get_or hid_kb_key_to_generic key 0) btns
    else btns

-- What one entry of `axes_idx` adds.
abbrev pub slot_round : (ℕ → ℕ) → HidReport → (ℕ → ℕ) → ℕ → ℤ → (ℕ → ℕ) → ℕ → ℕ
slot_round past report input kb_bitfield (pos n) btns =
    if kb_bitfield == 0
    then key_slot (field input (report.usages n)) btns
    else bitfield_keys past (report.usages n).usage (field input (report.usages n)) btns
slot_round past report input kb_bitfield (negsuc n) btns = btns

unfoldable pub kb_slots :
    (ℕ → ℕ) → HidReport → (ℕ → ℕ) → HidReportMeta → RawSrcMapping → (ℕ → ℕ) → ℕ → ℕ
unfolding bitfield_keys key_slot
kb_slots past report input meta map btns =
    for_range adapter_ps2_max_axes 0
      (λ i b. slot_round past report input meta.kb_bitfield (map.axes_idx i) b) btns

abbrev pub kb_modifiers : HidReport → (ℕ → ℕ) → ℤ → (ℕ → ℕ) → ℕ → ℕ
kb_modifiers report input (pos n) btns = modifiers (field input (report.usages n)) btns
kb_modifiers report input (negsuc n) btns = btns

-- What follows the initialisation in `hid_kb_to_generic`.
unfoldable pub kb_read :
    (ℕ → ℕ) → HidReport → (ℕ → ℕ) → HidReportMeta → RawSrcMapping → WirelessCtrl
unfolding modifiers kb_slots
kb_read past report input meta map = record (no_ctrl map) {
  btns = kb_slots past report input meta map (kb_modifiers report input meta.hid_btn_idx (λ w. 0));
}
