-- ===== src/Adapter/HidGeneric/Generic.antt =====
-- The functions of main/adapter/wireless/hid_generic.c by report type, and `hid_to_generic`.
use blue_retro_forever.Prelude.{
  ℕ, Bool, not, Option, none, some, ℤ, pos, negsuc, update, set_bit, test_bit, ◌==◌, if◌then◌else◌,
}
use blue_retro_forever.Adapter.Ids.{bt_init}
use blue_retro_forever.Adapter.HidParser.Types.{
  HidReport, ReportType, type_id, kb, mouse, pad, ◌is◌,
}
use blue_retro_forever.Adapter.HidParser.Parse.{hid_parser_load_report}
use blue_retro_forever.Adapter.Mapping.Types.{WirelessCtrl}
use blue_retro_forever.Adapter.Quirks.Types.{RawSrcMapping}
use blue_retro_forever.Adapter.Quirks.Apply.{mapping_quirks_apply}
use blue_retro_forever.Adapter.HidGeneric.Types.{HidDevice, HidReportMeta}
use blue_retro_forever.Adapter.HidGeneric.Kb.{hid_kb_init, kb_read}
use blue_retro_forever.Adapter.HidGeneric.Mouse.{hid_mouse_init, mouse_read}
use blue_retro_forever.Adapter.HidGeneric.PadButtons.{hid_pad_init, PadReady}
use blue_retro_forever.Adapter.HidGeneric.Pad.{pad_read}

-- What the functions use of elsewhere: the table of the parser, the product with MAX_PULL_BACK, and the
-- memory behind the tables of keys and of buttons.
pub record HidEnv : Type 0 where
  pub reports : ℕ → Option HidReport
  pub pull_back : ℤ → ℤ
  pub past_keys : ℕ → ℕ
  pub past_btns : ℕ → ℕ

abbrev pub ready : ReportType → HidDevice → Bool
ready t d = test_bit (d.flags (type_id t)) bt_init

abbrev pub load : HidEnv → HidDevice → HidDevice
load env d = record d { bt = hid_parser_load_report env.reports d.bt d.report_id }

abbrev pub put_init : ReportType → HidReportMeta → RawSrcMapping → HidDevice → HidDevice
put_init t meta map d = record d {
  reports_meta = update d.reports_meta (type_id t) meta;
  raw_src_mappings = update d.raw_src_mappings (type_id t) map;
}

abbrev pub set_ready : ReportType → HidDevice → HidDevice
set_ready t d = record d {
  flags = update d.flags (type_id t) (set_bit (d.flags (type_id t)) bt_init);
}

-- `none` is a read through a null pointer, of a report that the parser has not found.
abbrev pub with_report {ℓ} : {A : Type ℓ} → Option HidReport → (HidReport → Option A) → Option A
with_report none f = none
with_report (some r) f = f r

abbrev pub with_device {ℓ} : {A : Type ℓ} → Option HidDevice → (HidDevice → Option A) → Option A
with_device none f = none
with_device (some d) f = f d

pub kb_prepare : HidEnv → HidDevice → Option HidDevice
kb_prepare env d =
    if ready kb d
    then some d
    else (let d' = load env d in
        with_report (d'.bt.reports kb) λ r.
          let i = hid_kb_init r (d'.reports_meta 0) (d'.raw_src_mappings 0) in
          some (set_ready kb (put_init kb i.0 i.1 d')))

unfoldable pub hid_kb_to_generic : HidEnv → HidDevice → Option (HidDevice × WirelessCtrl)
unfolding kb_prepare
hid_kb_to_generic env d = with_device (kb_prepare env d) λ d'.
    with_report (d'.bt.reports kb)
      λ r. some (d', kb_read env.past_keys r d'.input (d'.reports_meta 0) (d'.raw_src_mappings 0))

pub mouse_prepare : HidEnv → HidDevice → Option HidDevice
mouse_prepare env d =
    if ready mouse d
    then some d
    else (let d' = load env d in
        with_report (d'.bt.reports mouse) λ r.
          let i = hid_mouse_init r (d'.reports_meta 1) (d'.raw_src_mappings 1) in
          some (set_ready mouse (put_init mouse i.0 i.1 d')))

unfoldable pub hid_mouse_to_generic : HidEnv → HidDevice → Option (HidDevice × WirelessCtrl)
unfolding mouse_prepare
hid_mouse_to_generic env d = with_device (mouse_prepare env d) λ d'.
    with_report (d'.bt.reports mouse)
      λ r. some (d', mouse_read r d'.input (d'.reports_meta 1) (d'.raw_src_mappings 1))

-- The pad's report keeps the size of its gathered buttons; the quirks come after it. In the code the
-- report of the device is the entry of the parser's table; here it is a copy.
abbrev pub put_pad : PadReady → HidReport → HidDevice → HidDevice
put_pad i r d =
    let d' = put_init pad i.meta (mapping_quirks_apply d.bt.vid (d.flags (type_id pad)) i.map) d in
    record d' {
      bt = record d'.bt {
        reports = λ t. if t is pad then some (record r { usages = i.usages }) else d'.bt.reports t;
      };
    }

unfoldable pub pad_prepare : HidEnv → HidDevice → Option HidDevice
pad_prepare env d =
    if ready pad d
    then some d
    else (let d' = load env d in
        with_report (d'.bt.reports pad) λ r. some (
          put_pad
            (hid_pad_init env.pull_back env.past_btns r (d'.reports_meta 2) (d'.raw_src_mappings 2))
            r d'))

-- The report is read; the first one calibrates the axes and ends the initialisation.
unfoldable pub pad_finish : HidDevice → Option (HidDevice × WirelessCtrl)
pad_finish d = with_report (d.bt.reports pad) λ r.
    let s =
      pad_read (not (ready pad d)) r d.input (d.reports_meta 2) (d.raw_src_mappings 2) d.axes_cal in
    some (set_ready pad (record d { axes_cal = s.axes_cal }), s.ctrl)

unfoldable pub hid_pad_to_generic : HidEnv → HidDevice → Option (HidDevice × WirelessCtrl)
unfolding pad_prepare pad_finish
hid_pad_to_generic env d = with_device (pad_prepare env d) pad_finish

-- Outside the three types of input the result is -1 and nothing changes.
abbrev pub done : Option (HidDevice × WirelessCtrl) → Option (HidDevice × WirelessCtrl × ℤ)
done none = none
done (some (d, ctrl)) = some (d, ctrl, pos 0)

unfoldable pub hid_to_generic :
    HidEnv → HidDevice → WirelessCtrl → Option (HidDevice × WirelessCtrl × ℤ)
unfolding hid_kb_to_generic hid_mouse_to_generic hid_pad_to_generic
hid_to_generic env d ctrl =
    if d.report_type == 0
    then done (hid_kb_to_generic env d)
    else (if d.report_type == 1
        then done (hid_mouse_to_generic env d)
        else (if d.report_type == 2
            then done (hid_pad_to_generic env d)
            else some (d, ctrl, negsuc 0)))
