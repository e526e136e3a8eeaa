-- ===== src/Adapter/Mapping/Masks.antt =====
-- Which destinations `adapter_mapping` of main/adapter/adapter.c flags for an update.
use blue_retro_forever.Prelude.{
  ℕ, ◌≡◌, refl, ap, Bool, true, false, some, arith, bit, bit_and, test_bit, test_bit-bit,
  test_bit-or, bit_and-bit, meets, update, for_range_inv, ◌==◌, if◌then◌else◌, Bool-cases, inl, inr,
  ℤ, pos, abs, ltz, times_sign,
}
use blue_retro_forever.Adapter.Buttons.Tables.{btn_id_to_btn_idx}
use blue_retro_forever.Adapter.Mapping.Types.{
  MapCfg, InCfg, CtrlAxis, WirelessCtrl, WiredCtrl, Ctrls, Float,
}
use blue_retro_forever.Adapter.Quirks.Types.{CtrlMeta}
use blue_retro_forever.Adapter.Mapping.Map.{
  has_dst, flag_dst, sign_of, raise_max, axis_to_axis, axis_to_btn, map_axis, map_btn, map_entry,
  map_round, adapter_mapping,
}
use blue_retro_forever.Adapter.Mapping.Cases.{map_entry-P}

-- Every flagged destination exists in the output.
abbrev pub IsMasked : WiredCtrl → Type 0
IsMasked out = (w k : ℕ) → test_bit (out.map_mask w) k ≡ true → test_bit (out.mask w) k ≡ true

meets-bit : (n x : ℕ) → meets (bit n) x ≡ true → test_bit x n ≡ true
meets-bit n x h = elim (Bool-cases (test_bit x n)) [
  | inl set ↦ set
  | inr clear ↦ absurd (let z = bit_and-bit n x clear in ground arith)
]

flag_dst-IsMasked :
    (m : MapCfg) (out t : WiredCtrl)
    → has_dst m out ≡ true
    → t.mask ≡ out.mask
    → t.map_mask ≡ out.map_mask
    → IsMasked out
    → IsMasked (flag_dst m.dst_btn t)
flag_dst-IsMasked m out t has e e' h w k flagged =
    let idx = btn_id_to_btn_idx m.dst_btn in
    let n = bit_and m.dst_btn 0x1f in
    let exists = meets-bit n (out.mask idx) has in
    let added = test_bit-or (t.map_mask idx) (bit n) k in
    let one = test_bit-bit n k in
    let old = h w k in
    let same_mask = ap (λ (f : ℕ → ℕ). f w) e in
    let same_map = ap (λ (f : ℕ → ℕ). f w) e' in grind arith

-- What an output keeps of its masks.
abbrev Alike : WiredCtrl → WiredCtrl → Type 0
Alike out t = (t.mask ≡ out.mask) × (t.map_mask ≡ out.map_mask)

axis_to_axis-Alike :
    (float : Float) (m : MapCfg) (axis : CtrlAxis) (meta : CtrlMeta) (sign : ℤ) (out : WiredCtrl)
    → Alike out (axis_to_axis float m axis meta sign out)
unfolding axis_to_axis
axis_to_axis-Alike float m axis meta sign out = (refl, refl)

axis_to_btn-Alike :
    (float : Float) (m : MapCfg) (axis : CtrlAxis) (meta : CtrlMeta) (sign : ℤ) (out : WiredCtrl)
    → Alike out (axis_to_btn float m axis meta sign out)
unfolding axis_to_btn
axis_to_btn-Alike float m axis meta sign out = (ground arith, ground arith)

map_btn-Alike :
    (float : Float) (m : MapCfg) (pressed : Bool) (out t : WiredCtrl)
    → map_btn float m pressed out ≡ some t
    → Alike out t
unfolding map_btn
map_btn-Alike float m pressed out t e = ground arith

-- A choice between two outputs, both flagged.
choice-IsMasked :
    (m : MapCfg) (out t : WiredCtrl) (i j : WirelessCtrl) (b c : Bool) (u : WiredCtrl)
    → has_dst m out ≡ true
    → Alike out t
    → Alike out u
    → IsMasked out
    → IsMasked
        (if◌then◌else◌ {A = WirelessCtrl × WiredCtrl} b
          (i, flag_dst m.dst_btn out)
          (j, flag_dst m.dst_btn (if c then t else u))).1
choice-IsMasked m out t i j true c u has at au h = flag_dst-IsMasked m out out has refl refl h
choice-IsMasked m out t i j false true u has (e, e') au h = flag_dst-IsMasked m out t has e e' h
choice-IsMasked m out t i j false false u has at (e, e') h = flag_dst-IsMasked m out u has e e' h

map_axis-IsMasked :
    (float : Float) (m : MapCfg) (a : ℕ) (input : WirelessCtrl) (out : WiredCtrl)
    → has_dst m out ≡ true
    → IsMasked out
    → IsMasked (map_axis float m a input out).1
unfolding map_axis
map_axis-IsMasked float m a input out has h =
    choice-IsMasked m out (axis_to_axis float m (input.axes a) meta sign out) input
      (record input { axes = update input.axes a (record (input.axes a) { meta = meta }) })
      (ltz (times_sign sign (input.axes a).value) (pos 0))
      (meets (bit (bit_and m.dst_btn 0x1f)) (out.desc (btn_id_to_btn_idx m.dst_btn)))
      (axis_to_btn float m (input.axes a) meta sign out) has
      (axis_to_axis-Alike float m (input.axes a) meta sign out)
      (axis_to_btn-Alike float m (input.axes a) meta sign out) h
  where
    sign : ℤ
    sign = sign_of (input.axes a).meta m.src_btn

    meta : CtrlMeta
    meta = raise_max sign (abs (input.axes a).value) (input.axes a).meta

-- Every flagged destination exists in its output, for all outputs.
abbrev pub AllMasked : Ctrls → Type 0
AllMasked s = (d : ℕ) → IsMasked (s.output d)

update-AllMasked :
    (s : Ctrls) (input : WirelessCtrl) (i : ℕ) (out : WiredCtrl)
    → AllMasked s
    → IsMasked out
    → AllMasked (record { input = input; output = update s.output i out })
update-AllMasked s input i out h g d = elim (Bool-cases (d == i)) [
  | inl e ↦ rw e g
  | inr e ↦ rw e (h d)
]

map_entry-AllMasked :
    (float : Float) (m : MapCfg) (s : Ctrls) → AllMasked s → AllMasked (map_entry float m s).0
map_entry-AllMasked float m s h =
    map_entry-P (λ r. AllMasked r.0) float m s
      (record {
        nothing = h;
        no_dst = h;
        axis = λ a has.
            update-AllMasked s (map_axis float m a s.input (s.output m.dst_id)).0 m.dst_id
              (map_axis float m a s.input (s.output m.dst_id)).1 h
              (map_axis-IsMasked float m a s.input (s.output m.dst_id) has (h m.dst_id));
        btn = λ p out has e.
            let (e1, e2) = map_btn-Alike float m p (s.output m.dst_id) out e in
            update-AllMasked s s.input m.dst_id (flag_dst m.dst_btn out) h
              (flag_dst-IsMasked m (s.output m.dst_id) out has e1 e2 (h m.dst_id));
      })

map_round-AllMasked :
    (float : Float) (cfg : InCfg) (i : ℕ) (s : Ctrls) (r : ℕ)
    → AllMasked s
    → AllMasked (map_round float cfg i (s, r)).0
unfolding map_round
map_round-AllMasked float cfg i s r h = map_entry-AllMasked float (cfg.entry i) s h

-- If the destinations that are flagged for an update exist in their outputs, so do those that are
-- flagged after the mapping.
pub adapter_mapping-AllMasked :
    (float : Float) (cfg : InCfg) (s : Ctrls)
    → AllMasked s
    → AllMasked (adapter_mapping float cfg s).0
unfolding adapter_mapping
adapter_mapping-AllMasked float cfg s h =
    for_range_inv (λ i t. AllMasked t.0) (map_round float cfg) cfg.size 0 cfg.size (s, 0)
      (omega arith) (λ i (t, r) _ _ g. map_round-AllMasked float cfg i t r g) h
