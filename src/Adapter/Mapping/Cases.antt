-- ===== src/Adapter/Mapping/Cases.antt =====
-- The ways in which one entry of the mapping ends, main/adapter/adapter.c.
use blue_retro_forever.Prelude.{
  ℕ, ◌≡◌, refl, Bool, true, false, Option, none, some, bit, bit_and, meets, update, if◌then◌else◌,
}
use blue_retro_forever.Adapter.Mapping.Types.{MapCfg, WiredCtrl, Ctrls, Float}
use blue_retro_forever.Adapter.Buttons.Tables.{btn_id_to_axis, btn_id_to_btn_idx}
use blue_retro_forever.Adapter.Mapping.Map.{
  out_bit, has_dst, map_axis, from_axis, adapter_map_from_axis, map_btn, put_btn,
  adapter_map_from_btn, map_entry, flag_dst,
}

-- A property of what an entry returns holds if it holds of each way to return.
pub record Ways (P : Ctrls × ℕ → Type 0) (float : Float) (m : MapCfg) (s : Ctrls) : Type 0 where
  pub nothing : P (s, 0)
  pub no_dst : P (s, out_bit m.dst_id)
  pub axis :
      (a : ℕ)
      → has_dst m (s.output m.dst_id) ≡ true
      → P (
        (record {
          input = (map_axis float m a s.input (s.output m.dst_id)).0;
          output = update s.output m.dst_id (map_axis float m a s.input (s.output m.dst_id)).1;
        }),
        out_bit m.dst_id,
      )
  pub btn :
      (pressed : Bool) (out : WiredCtrl)
      → has_dst m (s.output m.dst_id) ≡ true
      → map_btn float m pressed (s.output m.dst_id) ≡ some out
      → P (
        (record s { output = update s.output m.dst_id (flag_dst m.dst_btn out) }),
        out_bit m.dst_id,
      )

module _ (P : Ctrls × ℕ → Type 0) (float : Float) (m : MapCfg) (s : Ctrls)
    (w : Ways P float m s) where
  choose : (b : Bool) (r t : Ctrls × ℕ) → (b ≡ true → P r) → P t → P (if b then r else t)
  choose true r t h g = h refl
  choose false r t h g = g

  from_axis-P : (a : Option ℕ) → P (from_axis float m a s)
  from_axis-P none = w.nothing
  from_axis-P (some a) = choose (has_dst m (s.output m.dst_id)) _ _ (w.axis a) w.no_dst

  put_btn-P :
      (pressed : Bool) (o : Option WiredCtrl)
      → has_dst m (s.output m.dst_id) ≡ true
      → map_btn float m pressed (s.output m.dst_id) ≡ o
      → P (put_btn m o s)
  put_btn-P pressed none has e = w.nothing
  put_btn-P pressed (some out) has e = w.btn pressed out has e

  from_btn-P : (src_mask src_btn_idx : ℕ) → P (adapter_map_from_btn float m src_mask src_btn_idx s)
  unfolding adapter_map_from_btn
  from_btn-P src_mask src_btn_idx =
      choose (has_dst m (s.output m.dst_id)) _ _
        (λ has.
          put_btn-P (meets (s.input.btns src_btn_idx) src_mask)
            (map_btn float m (meets (s.input.btns src_btn_idx) src_mask) (s.output m.dst_id)) has
            refl)
        w.no_dst

  axis-P : P (adapter_map_from_axis float m s)
  unfolding adapter_map_from_axis
  axis-P = from_axis-P (btn_id_to_axis m.src_btn)

  pub map_entry-P : P (map_entry float m s)
  unfolding map_entry
  map_entry-P =
      choose (meets (bit (bit_and m.src_btn 0x1f)) (s.input.mask (btn_id_to_btn_idx m.src_btn))) _ _
        (λ _.
          choose (meets (bit (bit_and m.src_btn 0x1f)) (s.input.desc (btn_id_to_btn_idx m.src_btn)))
            (adapter_map_from_axis float m s)
            (adapter_map_from_btn float m (bit (bit_and m.src_btn 0x1f))
              (btn_id_to_btn_idx m.src_btn) s)
            (λ _. axis-P) (from_btn-P (bit (bit_and m.src_btn 0x1f)) (btn_id_to_btn_idx m.src_btn)))
        w.nothing
