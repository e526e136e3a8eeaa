-- ===== src/Adapter/Mapping/Map.antt =====
-- The mapping of one input, main/adapter/adapter.c: `adapter_map_from_axis`, `adapter_map_from_btn` and
-- the loop `adapter_mapping`.
use blue_retro_forever.Prelude.{
  ℕ, Bool, Option, none, some, ℤ, pos, neg, abs, ◌+ℤ◌, ltz, times_sign, bit, bit_and, bit_or, meets,
  update, u32, for_range, ltb, ◌==◌, if◌then◌else◌,
}
use blue_retro_forever.Adapter.Quirks.Types.{CtrlMeta}
use blue_retro_forever.Adapter.Buttons.Tables.{btn_id_to_btn_idx, btn_id_to_axis, btn_sign}
use blue_retro_forever.Adapter.Mapping.Types.{
  MapCfg, InCfg, CtrlAxis, WirelessCtrl, CtrlAxisWired, WiredCtrl, Ctrls, Float,
}

-- AXIS_NONE is -1, and is 2^32 - 1 as an index.
abbrev pub axis_index : Option ℕ → ℕ
axis_index none = 0xffff_ffff
axis_index (some a) = a

-- A polarity as the condition that the code makes of it.
abbrev pub polarity_of : CtrlMeta → ℕ
polarity_of meta = abs meta.polarity

-- The sign of a mapping end, for the meta data of its axis.
abbrev pub sign_of : CtrlMeta → ℕ → ℤ
sign_of meta btn = btn_sign (polarity_of meta) btn

abbrev pub abs_max_of : CtrlMeta → ℤ → ℤ
abs_max_of meta sign = if ltz (pos 0) sign then meta.abs_max else meta.abs_min

-- `axes[a].value = value; axes[a].cnt_mask = turbo` if the new value is the larger one.
abbrev pub keep_larger : ℤ → ℕ → CtrlAxisWired → CtrlAxisWired
keep_larger value turbo axis =
    if ltb (abs axis.value) (abs value)
    then (record axis { value = value; cnt_mask = turbo })
    else axis

abbrev pub press_btn : ℕ → ℕ → WiredCtrl → WiredCtrl
press_btn dst turbo out =
    let idx = btn_id_to_btn_idx dst in
    let btn = out.btns idx in
    record out {
      btns = update out.btns idx (record {
        value = bit_or btn.value (bit (bit_and dst 0x1f));
        cnt_mask = update btn.cnt_mask (bit_and dst 0x1f) turbo;
      });
    }

abbrev pub flag_dst : ℕ → WiredCtrl → WiredCtrl
flag_dst dst out =
    let idx = btn_id_to_btn_idx dst in
    record out {
      map_mask = update out.map_mask idx (bit_or (out.map_mask idx) (bit (bit_and dst 0x1f)));
    }

-- The meta data of a source whose value is over its maximum takes the value.
abbrev pub raise_max : ℤ → ℕ → CtrlMeta → CtrlMeta
raise_max sign value meta =
    if ltz (pos 0) sign
    then (if ltz meta.abs_max (pos value) then (record meta { abs_max = pos value }) else meta)
    else (if ltz meta.abs_min (pos value) then (record meta { abs_min = pos value }) else meta)

-- The destination is an axis: the source's value over its dead zone, scaled. LINEAR is 0.
unfoldable pub axis_to_axis : Float → MapCfg → CtrlAxis → CtrlMeta → ℤ → WiredCtrl → WiredCtrl
unfolding btn_id_to_axis btn_sign
axis_to_axis float m axis meta sign out =
    let a = axis_index (btn_id_to_axis m.dst_btn) in
    let src_max = abs_max_of meta sign in
    let target = record (out.axes a) { relative = meta.relative } in
    let deadzone = float.dead m.perc_deadzone src_max +ℤ meta.deadzone in
    let over = pos (abs axis.value) +ℤ neg deadzone in
    let dst_sign = sign_of target.meta m.dst_btn in
    let dst_max = abs_max_of target.meta dst_sign in
    let value =
      if bit_and m.algo 0xf == 0
      then float.linear dst_sign over dst_max src_max deadzone m.perc_max
      else float.direct dst_sign over m.perc_max in
    let moved =
      if ltz deadzone (pos (abs axis.value)) then keep_larger value m.turbo target else target in
    record out { axes = update out.axes a moved }

-- The destination is a button: pressed from the threshold on.
unfoldable pub axis_to_btn : Float → MapCfg → CtrlAxis → CtrlMeta → ℤ → WiredCtrl → WiredCtrl
unfolding btn_id_to_btn_idx
axis_to_btn float m axis meta sign out =
    if ltz (pos (abs axis.value)) (float.press m.perc_threshold (abs_max_of meta sign))
    then out
    else press_btn m.dst_btn m.turbo out

-- The destination exists in the output: the input and the output after it.
unfoldable pub map_axis : Float → MapCfg → ℕ → WirelessCtrl → WiredCtrl → WirelessCtrl × WiredCtrl
unfolding axis_to_axis axis_to_btn btn_id_to_btn_idx btn_sign
map_axis float m a input out =
    let axis = input.axes a in
    let sign = sign_of axis.meta m.src_btn in
    let meta = raise_max sign (abs axis.value) axis.meta in
    let mapped =
      if meets (bit (bit_and m.dst_btn 0x1f)) (out.desc (btn_id_to_btn_idx m.dst_btn))
      then axis_to_axis float m axis meta sign out
      else axis_to_btn float m axis meta sign out in
    if ltz (times_sign sign axis.value) (pos 0) then (input, flag_dst m.dst_btn out) else (
      record input { axes = update input.axes a (record axis { meta = meta }) },
      flag_dst m.dst_btn mapped,
    )

-- Whether the mapping's destination exists in its output.
abbrev pub has_dst : MapCfg → WiredCtrl → Bool
has_dst m out = meets (bit (bit_and m.dst_btn 0x1f)) (out.mask (btn_id_to_btn_idx m.dst_btn))

-- `uint32_t out_mask = BIT(dst_id)`. A shift by 32 or more, which C leaves open, gives 0 here.
abbrev pub out_bit : ℕ → ℕ
out_bit dst_id = u32 (bit dst_id)

-- `none` is the AXIS_NONE of the source.
abbrev pub from_axis : Float → MapCfg → Option ℕ → Ctrls → Ctrls × ℕ
from_axis float m none s = (s, 0)
from_axis float m (some a) s =
    let out = s.output m.dst_id in
    let (input', out') = map_axis float m a s.input out in
    if has_dst m out
    then ((record { input = input'; output = update s.output m.dst_id out' }), out_bit m.dst_id)
    else (s, out_bit m.dst_id)

unfoldable pub adapter_map_from_axis : Float → MapCfg → Ctrls → Ctrls × ℕ
unfolding map_axis btn_id_to_axis btn_id_to_btn_idx
adapter_map_from_axis float m s = from_axis float m (btn_id_to_axis m.src_btn) s

-- A pressed source: `none` where the destination is an axis that there is not.
abbrev pub btn_to_axis : Float → MapCfg → Option ℕ → WiredCtrl → Option WiredCtrl
btn_to_axis float m none out = none
btn_to_axis float m (some a) out =
    let axis = out.axes a in
    let sign = sign_of axis.meta m.dst_btn in
    let value = float.full sign (abs_max_of axis.meta sign) m.perc_max in
    some (record out { axes = update out.axes a (keep_larger value m.turbo axis) })

unfoldable pub map_btn : Float → MapCfg → Bool → WiredCtrl → Option WiredCtrl
unfolding btn_id_to_axis btn_id_to_btn_idx btn_sign
map_btn float m pressed out =
    if pressed
    then (if meets (bit (bit_and m.dst_btn 0x1f)) (out.desc (btn_id_to_btn_idx m.dst_btn))
        then btn_to_axis float m (btn_id_to_axis m.dst_btn) out
        else some (press_btn m.dst_btn m.turbo out))
    else some out

abbrev pub put_btn : MapCfg → Option WiredCtrl → Ctrls → Ctrls × ℕ
put_btn m none s = (s, 0)
put_btn m (some out) s =
    ((record s { output = update s.output m.dst_id (flag_dst m.dst_btn out) }), out_bit m.dst_id)

unfoldable pub adapter_map_from_btn : Float → MapCfg → ℕ → ℕ → Ctrls → Ctrls × ℕ
unfolding map_btn btn_id_to_btn_idx
adapter_map_from_btn float m src_mask src_btn_idx s =
    if has_dst m (s.output m.dst_id)
    then put_btn m (map_btn float m (meets (s.input.btns src_btn_idx) src_mask) (s.output m.dst_id))
        s
    else (s, out_bit m.dst_id)

-- A round of the loop, without the `|=`.
unfoldable pub map_entry : Float → MapCfg → Ctrls → Ctrls × ℕ
unfolding adapter_map_from_axis adapter_map_from_btn btn_id_to_btn_idx
map_entry float m s =
    let src_mask = bit (bit_and m.src_btn 0x1f) in
    let src_btn_idx = btn_id_to_btn_idx m.src_btn in
    if meets src_mask (s.input.mask src_btn_idx)
    then (if meets src_mask (s.input.desc src_btn_idx)
        then adapter_map_from_axis float m s
        else adapter_map_from_btn float m src_mask src_btn_idx s)
    else (s, 0)

unfoldable pub map_round : Float → InCfg → ℕ → Ctrls × ℕ → Ctrls × ℕ
unfolding map_entry
map_round float cfg i (s, out_mask) =
    let (s', r) = map_entry float (cfg.entry i) s in (s', bit_or out_mask r)

unfoldable pub adapter_mapping : Float → InCfg → Ctrls → Ctrls × ℕ
unfolding for_range map_round
adapter_mapping float cfg s = for_range cfg.size 0 (map_round float cfg) (s, 0)
