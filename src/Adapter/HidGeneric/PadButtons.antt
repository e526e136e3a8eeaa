-- ===== src/Adapter/HidGeneric/PadButtons.antt =====
-- The buttons of a pad in `hid_pad_init` of main/adapter/wireless/hid_generic.c, and that function as a
-- whole. The button-like usages are gathered under a single one.
use blue_retro_forever.Prelude.{
  ℕ, zero, suc, ◌+◌, ◌-◌, ◌^◌, Bool, true, false, List, [], ◌∷◌, ℤ, pos, negsuc, update, for_range,
  bit, ltb, ◌==◌, if◌then◌else◌, u32, get_or,
}
use blue_retro_forever.Adapter.Ids.{
  pad_rb_down, pad_rb_right, pad_rt, pad_rb_left, pad_rb_up, pad_lt, pad_ls, pad_rs, pad_lm, pad_rm,
  pad_ms, pad_mm, pad_mt, pad_lj, pad_rj, pad_mq, pad_rd_left, pad_rd_right, pad_rd_down, pad_rd_up,
}
use blue_retro_forever.Adapter.HidParser.Types.{HidUsage, HidReport}
use blue_retro_forever.Adapter.Quirks.Types.{RawSrcMapping}
use blue_retro_forever.Adapter.HidGeneric.Types.{HidReportMeta, report_max_usage}
use blue_retro_forever.Adapter.HidGeneric.Mouse.{add_mask}
use blue_retro_forever.Adapter.HidGeneric.PadUsages.{pad_usages, pull_back_all, btns_is_xinput}

abbrev pub hid_rj : ℕ
hid_rj = 14

-- The rest of the 32 entries of each table is 0; `past` is what lies behind the table.
abbrev pub hid_pad_default_btns_idx : List ℕ
hid_pad_default_btns_idx =
    pad_rb_down ∷ pad_rb_right ∷ pad_rt ∷ pad_rb_left ∷ pad_rb_up ∷ pad_lt ∷ pad_ls ∷ pad_rs
    ∷ pad_lm ∷ pad_rm ∷ pad_ms ∷ pad_mm ∷ pad_mt ∷ pad_lj ∷ pad_rj ∷ pad_mq ∷ pad_rd_left
    ∷ pad_rd_right ∷ pad_rd_down ∷ pad_rd_up ∷ []

abbrev pub hid_pad_xinput_btns_idx : List ℕ
hid_pad_xinput_btns_idx =
    pad_rb_down ∷ pad_rb_right ∷ pad_rb_left ∷ pad_rb_up ∷ pad_ls ∷ pad_rs ∷ pad_ms ∷ pad_mm
    ∷ pad_lj ∷ pad_rj ∷ []

abbrev pub btns_idx : (ℕ → ℕ) → Bool → ℕ → ℕ
btns_idx past xinput usage =
    if ltb usage 32
    then get_or (if xinput then hid_pad_xinput_btns_idx else hid_pad_default_btns_idx) usage 0
    else past (usage - 32)

-- `mask[0] |= BIT(b); btns_mask[b] = BIT(n)`
abbrev pub place : ℕ → ℕ → RawSrcMapping → RawSrcMapping
place b n map = record (add_mask (u32 (bit b)) map) {
  btns_mask = update map.btns_mask b (u32 (bit n));
}

-- The bits of one usage.
unfoldable pub place_all : (ℕ → ℕ) → Bool → ℕ → ℕ → ℕ → RawSrcMapping → RawSrcMapping
place_all past xinput usage bits at map =
    for_range bits 0
      (λ j (m : RawSrcMapping). place (btns_idx past xinput (usage + j)) (u32 (at + j)) m) map

pub record PadButtons : Type 0 where
  pub uidx : ℕ
  pub undef_usage : ℕ
  pub map : RawSrcMapping

-- The number of the button that a usage begins with, and the next number for one that has none.
abbrev pub button_usage : ℕ → ℕ → ℕ
button_usage usage undef = if ltb hid_rj (usage - 1) then undef else usage - 1

unfoldable pub button_step : (ℕ → ℕ) → Bool → ℕ → HidUsage → PadButtons → PadButtons
unfolding place_all
button_step past xinput btn_offset u s =
    if u.usage == 0 then record s { uidx = s.uidx + 1 } else record {
      uidx = s.uidx + 1;
      undef_usage = (if ltb hid_rj (u.usage - 1) then s.undef_usage + 1 else s.undef_usage);
      map =
          place_all past xinput (button_usage u.usage s.undef_usage) u.bit_size
            (u32 (u.bit_offset + 2 ^ 32 - btn_offset)) s.map;
    }

-- The loop stops at the first usage of another page, which may be behind the array; on fuel.
unfoldable pub button_loop : (ℕ → ℕ) → Bool → ℕ → (ℕ → HidUsage) → ℕ → PadButtons → PadButtons
button_loop past xinput btn_offset usages zero s = s
button_loop past xinput btn_offset usages (suc n) s = elim ((usages s.uidx).usage_page == 0x09) [
  | false ↦ s
  | true ↦
      button_loop past xinput btn_offset usages n
        (button_step past xinput btn_offset (usages s.uidx) s)
]

-- A usage of the consumer page: menu, record, home or back.
abbrev pub consumer_button : ℕ → HidUsage → RawSrcMapping → RawSrcMapping
consumer_button btn_offset u map =
    let n = u32 (u.bit_offset + 2 ^ 32 - btn_offset) in
    if u.usage == 0x40
    then place pad_mm n map
    else (if u.usage == 0xb2
        then place pad_mq n map
        else (if u.usage == 0x223
            then place pad_mt n map
            else (if u.usage == 0x224 then place pad_ms n map else map)))

unfoldable pub consumer_loop : ℕ → (ℕ → HidUsage) → ℕ → ℕ → RawSrcMapping → ℕ × RawSrcMapping
consumer_loop btn_offset usages zero uidx map = (uidx, map)
consumer_loop btn_offset usages (suc n) uidx map = elim ((usages uidx).usage_page == 0x0c) [
  | false ↦ (uidx, map)
  | true ↦
      consumer_loop btn_offset usages n (uidx + 1) (consumer_button btn_offset (usages uidx) map)
]

-- Which usage stands for all the buttons, and the bit that they begin with.
abbrev pub group : (ℕ → HidUsage) → ℤ → ℤ → ℕ × ℕ
group usages (negsuc a) (negsuc c) = (0, 0)
group usages (pos b) (negsuc c) = (b, (usages b).bit_offset)
group usages (negsuc a) (pos c) = (c, (usages c).bit_offset)
group usages (pos b) (pos c) =
    (b, (if ltb b c then (usages b).bit_offset else (usages c).bit_offset))

-- The bits from `btn_offset` to the end of the usage before `uidx`.
abbrev pub span : (ℕ → HidUsage) → ℕ → ℕ → ℕ
span usages uidx btn_offset =
    let u = usages (uidx - 1) in u32 (u.bit_offset + u.bit_size + 2 ^ 32 - btn_offset)

abbrev pub resize : ℕ → ℕ → (ℕ → HidUsage) → ℕ → HidUsage
resize k size usages = update usages k (record (usages k) { bit_size = size })

pub record PadReady : Type 0 where
  pub meta : HidReportMeta
  pub map : RawSrcMapping
  pub usages : ℕ → HidUsage

unfoldable pub own_buttons : (ℕ → ℕ) → Bool → ℕ → ℕ → ℤ → PadReady → PadReady
unfolding button_loop button_step
own_buttons past xinput btn_idx btn_offset (negsuc n) r = r
own_buttons past xinput btn_idx btn_offset (pos n) r =
    let s =
      button_loop past xinput btn_offset r.usages report_max_usage
        (record { uidx = n; undef_usage = 15; map = r.map }) in
    record r { map = s.map; usages = resize btn_idx (span r.usages s.uidx btn_offset) r.usages }

unfoldable pub consumer_buttons : ℕ → ℕ → ℤ → PadReady → PadReady
unfolding consumer_loop
consumer_buttons btn_idx btn_offset (negsuc n) r = r
consumer_buttons btn_idx btn_offset (pos n) r =
    let s = consumer_loop btn_offset r.usages report_max_usage n r.map in
    let size = span r.usages s.0 btn_offset in
    record {
      map = s.1;
      usages =
          (if ltb (r.usages btn_idx).bit_size size then resize btn_idx size r.usages else r.usages);
      meta = (if btn_idx == n then record r.meta { hid_btn_idx = pos btn_idx } else r.meta);
    }

unfoldable pub hid_pad_init :
    (ℤ → ℤ) → (ℕ → ℕ) → HidReport → HidReportMeta → RawSrcMapping → PadReady
unfolding pad_usages pull_back_all btns_is_xinput own_buttons consumer_buttons
hid_pad_init pull_back past report meta map =
    let s = pad_usages report meta map in
    let (btn_idx, btn_offset) = group report.usages s.meta.hid_btn_idx s.hid_cbtn_idx in
    let r =
      own_buttons past (btns_is_xinput report) btn_idx btn_offset s.meta.hid_btn_idx
        (record { meta = s.meta; map = pull_back_all pull_back s.map; usages = report.usages }) in
    consumer_buttons btn_idx btn_offset s.hid_cbtn_idx r
