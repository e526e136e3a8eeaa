-- ===== src/Adapter/HidGeneric/Once.antt =====
-- A pad is initialised and calibrated once (main/adapter/wireless/hid_generic.c).
use blue_retro_forever.Prelude.{
  ℕ, ◌<◌, ◌≡◌, refl, ap, ◌∙◌, true, false, not, Option, none, some, List, [], ◌∷◌, ℤ,
  test_bit-set_bit, arith,
}
use blue_retro_forever.Adapter.Ids.{bt_init}
use blue_retro_forever.Adapter.HidParser.Types.{HidReport, BtData, pad}
use blue_retro_forever.Adapter.HidParser.Parse.{hid_parser_load_report}
use blue_retro_forever.Adapter.Mapping.Types.{WirelessCtrl}
use blue_retro_forever.Adapter.Quirks.Types.{RawSrcMapping}
use blue_retro_forever.Adapter.Quirks.Apply.{mapping_quirks_apply}
use blue_retro_forever.Adapter.HidGeneric.Types.{HidDevice, HidReportMeta}
use blue_retro_forever.Adapter.HidGeneric.PadButtons.{hid_pad_init}
use blue_retro_forever.Adapter.HidGeneric.Pad.{pad_read}
use blue_retro_forever.Adapter.HidGeneric.Calibrated.{first_cal, pad_read-axes_cal, pad_read-first}
use blue_retro_forever.Adapter.HidGeneric.Generic.{
  HidEnv, ready, load, put_pad, pad_prepare, pad_finish, hid_pad_to_generic, with_device, set_ready,
}

finish_some :
    (d : HidDevice) (r : HidReport)
    → d.bt.reports pad ≡ some r
    → pad_finish d
      ≡ some (
        set_ready pad (record d {
          axes_cal =
              (pad_read
                (not (ready pad d))
                r
                d.input
                (d.reports_meta 2)
                (d.raw_src_mappings 2)
                d.axes_cal).axes_cal;
        }),
        (pad_read
            (not (ready pad d))
            r
            d.input
            (d.reports_meta 2)
            (d.raw_src_mappings 2)
            d.axes_cal).ctrl,
      )
unfolding pad_finish
finish_some d r e = rw e refl

-- Reports of a pad, one after the other.
unfoldable pub pad_reports : HidEnv → List (ℕ → ℕ) → HidDevice → Option HidDevice
pad_reports env [] d = some d
pad_reports env (input ∷ rest) d = elim (hid_pad_to_generic env (record d { input = input })) [
  | none ↦ none
  | some (d', ctrl) ↦ pad_reports env rest d'
]

-- The device `t` is initialised as `d` is, and has its calibration.
record Steady (d t : HidDevice) : Type 0 where
  ready_now : ready pad t ≡ true
  same_maps : t.raw_src_mappings ≡ d.raw_src_mappings
  same_metas : t.reports_meta ≡ d.reports_meta
  same_bt : t.bt ≡ d.bt
  same_cal : t.axes_cal ≡ d.axes_cal

prepare_ready : (env : HidEnv) (d : HidDevice) → ready pad d ≡ true → pad_prepare env d ≡ some d
unfolding pad_prepare
prepare_ready env d h = rw h refl

abbrev finished : HidDevice → HidReport → HidDevice
finished d r = set_ready pad (record d {
  axes_cal =
      (pad_read (not (ready pad d)) r d.input (d.reports_meta 2) (d.raw_src_mappings 2)
        d.axes_cal).axes_cal;
})

finished-ready : (d : HidDevice) (r : HidReport) → ready pad (finished d r) ≡ true
finished-ready d r = test_bit-set_bit (d.flags 2) bt_init bt_init ∙ ground arith

module _ (env : HidEnv) (rest : List (ℕ → ℕ)) (input : ℕ → ℕ) (d x : HidDevice)
    (r : HidReport) where
  -- One report.
  step :
      pad_prepare env (record d { input = input }) ≡ some x
      → x.bt.reports pad ≡ some r
      → pad_reports env (input ∷ rest) d ≡ pad_reports env rest (finished x r)
  unfolding pad_reports hid_pad_to_generic
  step p e =
      ap
        (λ (o : Option (HidDevice × WirelessCtrl)). elim o [
          | none ↦ none
          | some (d', ctrl) ↦ pad_reports env rest d'
        ])
        (ap (λ o. with_device o pad_finish) p ∙ finish_some x r e)

later :
    (env : HidEnv) (inputs : List (ℕ → ℕ)) (d : HidDevice) (r : HidReport)
    → ready pad d ≡ true
    → d.bt.reports pad ≡ some r
    → (t : HidDevice) × (pad_reports env inputs d ≡ some t) × Steady d t
unfolding pad_reports
later env [] d r h e = (
  d,
  refl,
  record { ready_now = h; same_maps = refl; same_metas = refl; same_bt = refl; same_cal = refl },
)
later env (input ∷ rest) d r h e =
    let x : HidDevice = record d { input = input } in
    let (t, runs, s) = later env rest (finished x r) r (finished-ready x r) e in
    let kept =
      ap
        (λ b.
          (pad_read (not b) r input (d.reports_meta 2) (d.raw_src_mappings 2) d.axes_cal).axes_cal)
        h
      ∙ pad_read-axes_cal r input (d.reports_meta 2) (d.raw_src_mappings 2) d.axes_cal in
    (
      t,
      step env rest input d x r (prepare_ready env x h) e ∙ runs,
      record {
        ready_now = s.ready_now;
        same_maps = s.same_maps;
        same_metas = s.same_metas;
        same_bt = s.same_bt;
        same_cal = s.same_cal ∙ kept;
      },
    )

prepare_first :
    (env : HidEnv) (d : HidDevice) (r : HidReport)
    → ready pad d ≡ false
    → (load env d).bt.reports pad ≡ some r
    → pad_prepare env d
      ≡ some (
          put_pad
            (hid_pad_init env.pull_back env.past_btns r (d.reports_meta 2) (d.raw_src_mappings 2))
            r
            (load env d))
unfolding pad_prepare
prepare_first env d r h e = rw (h, e) refl

-- The first report of a pad that is not yet initialised, whose report the parser has found, initialises
-- it: its mapping and the indexes of its usages are those of `hid_pad_init` and the quirks, and each axis is
-- calibrated with the bytes of this report. Further reports, however many and whatever their bytes, are
-- read too and leave all of this as it is.
pub hid_pad_to_generic_once :
    (env : HidEnv) (d : HidDevice) (r : HidReport) (input : ℕ → ℕ) (inputs : List (ℕ → ℕ))
    → ready pad d ≡ false
    → (load env d).bt.reports pad ≡ some r
    → let i =
        hid_pad_init env.pull_back env.past_btns r (d.reports_meta 2) (d.raw_src_mappings 2) in
      let map = mapping_quirks_apply d.bt.vid (d.flags 2) i.map in
      let report : HidReport = record r { usages = i.usages } in
      (t : HidDevice) × (pad_reports env (input ∷ inputs) d ≡ some t)
      × (ready pad t ≡ true)
      × (t.bt.reports pad ≡ some report)
      × (t.reports_meta 2 ≡ i.meta)
      × (t.raw_src_mappings 2 ≡ map)
      × ((k : ℕ)
          → k < 16
          → t.axes_cal k ≡ first_cal report input map k (map.axes_idx k) (d.axes_cal k))
unfolding hid_parser_load_report
hid_pad_to_generic_once env d r input inputs h e =
    let i = hid_pad_init env.pull_back env.past_btns r (d.reports_meta 2) (d.raw_src_mappings 2) in
    let map = mapping_quirks_apply d.bt.vid (d.flags 2) i.map in
    let report : HidReport = record r { usages = i.usages } in
    let d0 : HidDevice = record d { input = input } in
    let x = put_pad i r (load env d0) in
    let (t, runs, s) = later env inputs (finished x report) report (finished-ready x report) refl in
    (
      t,
      step env inputs input d x report (prepare_first env d0 r h e) refl ∙ runs,
      s.ready_now,
      ap (λ (b : BtData). b.reports pad) s.same_bt,
      ap (λ (m : ℕ → HidReportMeta). m 2) s.same_metas,
      ap (λ (m : ℕ → RawSrcMapping). m 2) s.same_maps,
      λ k lt.
          ap (λ (c : ℕ → ℤ). c k) s.same_cal
          ∙ ap (λ b. (pad_read (not b) report input i.meta map d.axes_cal).axes_cal k) h
          ∙ pad_read-first report input i.meta map d.axes_cal k lt,
    )
