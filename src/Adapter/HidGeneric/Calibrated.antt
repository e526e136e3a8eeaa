-- ===== src/Adapter/HidGeneric/Calibrated.antt =====
-- The calibration of the axes of a pad by its reports (main/adapter/wireless/hid_generic.c).
use blue_retro_forever.Prelude.{
  ℕ, ◌+◌, ◌<◌, ◌≡◌, refl, sym, ap, ◌∙◌, true, false, arith, ltb, ◌==◌, if◌then◌else◌, for_range_inv,
  ℤ, pos, negsuc,
}
use native.Mathlib.Decide.{ℕ_discrete}
use blue_retro_forever.Adapter.HidParser.Types.{HidReport}
use blue_retro_forever.Adapter.Quirks.Types.{RawSrcMapping}
use blue_retro_forever.Adapter.HidGeneric.Types.{HidReportMeta, adapter_ps2_max_axes, no_ctrl}
use blue_retro_forever.Adapter.HidGeneric.Fields.{field}
use blue_retro_forever.Adapter.HidGeneric.Mouse.{read_buttons}
use blue_retro_forever.Adapter.HidGeneric.Pad.{calibrate, pad_axis, pad_read, PadAxes, read_hat}

axis_keeps :
    (report : HidReport) (input : ℕ → ℕ) (map : RawSrcMapping) (i : ℕ) (idx : ℤ) (s : PadAxes)
    → (pad_axis false report input map i idx s).axes_cal ≡ s.axes_cal
unfolding pad_axis
axis_keeps report input map i (negsuc n) s = refl
axis_keeps report input map i (pos n) s = refl

pub pad_read-axes_cal :
    (report : HidReport) (input : ℕ → ℕ) (meta : HidReportMeta) (map : RawSrcMapping)
    (axes_cal : ℕ → ℤ)
    → (pad_read false report input meta map axes_cal).axes_cal ≡ axes_cal
unfolding pad_read
pad_read-axes_cal report input meta map axes_cal =
    for_range_inv (λ i (s : PadAxes). s.axes_cal ≡ axes_cal)
      (λ i s. pad_axis false report input map i (map.axes_idx i) s) adapter_ps2_max_axes 0 16
      (record {
        ctrl =
            read_hat report input meta.hid_hat_idx
              (read_buttons report input meta.hid_btn_idx map (no_ctrl map));
        axes_cal = axes_cal;
      })
      refl (λ i s _ _ h. axis_keeps report input map i (map.axes_idx i) s ∙ h) refl

-- The calibration that a first report gives the axis `k`.
abbrev pub first_cal : HidReport → (ℕ → ℕ) → RawSrcMapping → ℕ → ℤ → ℤ → ℤ
first_cal report input map k (negsuc n) old = old
first_cal report input map k (pos n) old =
    calibrate (field input (report.usages n)) (map.meta k).neutral

axis_first :
    (report : HidReport) (input : ℕ → ℕ) (map : RawSrcMapping) (i k : ℕ) (idx : ℤ) (s : PadAxes)
    → (pad_axis true report input map i idx s).axes_cal k
      ≡ (if k == i then first_cal report input map i idx (s.axes_cal k) else s.axes_cal k)
unfolding pad_axis
axis_first report input map i k (negsuc n) s = ground arith
axis_first report input map i k (pos n) s = refl

pub pad_read-first :
    (report : HidReport) (input : ℕ → ℕ) (meta : HidReportMeta) (map : RawSrcMapping)
    (axes_cal : ℕ → ℤ) (k : ℕ)
    → k < 16
    → (pad_read true report input meta map axes_cal).axes_cal k
      ≡ first_cal report input map k (map.axes_idx k) (axes_cal k)
unfolding pad_read
pad_read-first report input meta map axes_cal k lt =
    for_range_inv
      (λ i (s : PadAxes). s.axes_cal k ≡ (
        if ltb k i then first_cal report input map k (map.axes_idx k) (axes_cal k) else axes_cal k))
      (λ i s. pad_axis true report input map i (map.axes_idx i) s) adapter_ps2_max_axes 0 16
      (record {
        ctrl =
            read_hat report input meta.hid_hat_idx
              (read_buttons report input meta.hid_btn_idx map (no_ctrl map));
        axes_cal = axes_cal;
      })
      refl
      (λ i s _ _ h. axis_first report input map i k (map.axes_idx i) s ∙ next i (s.axes_cal k) h)
      (ground arith)
    ∙ ground arith
  where
    next :
        (i : ℕ) (now : ℤ)
        → now ≡ (
            if ltb k i
            then first_cal report input map k (map.axes_idx k) (axes_cal k)
            else axes_cal k)
        → (if k == i then first_cal report input map i (map.axes_idx i) now else now) ≡ (
            if ltb k (i + 1)
            then first_cal report input map k (map.axes_idx k) (axes_cal k)
            else axes_cal k)
    next i now h = elim (ℕ_discrete k i) [
      | yes same ↦
          let old : now ≡ axes_cal k = h ∙ ground arith in
          let at : first_cal report input map i (map.axes_idx i) now
              ≡ first_cal report input map k (map.axes_idx k) (axes_cal k) =
            ap (λ j. first_cal report input map j (map.axes_idx j) now) (sym same)
            ∙ ap (first_cal report input map k (map.axes_idx k)) old in
          ground (arith, at)
      | no other ↦ ground (arith, h)
    ]
