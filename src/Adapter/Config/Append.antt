-- ===== src/Adapter/Config/Append.antt =====
-- The upgrade from version 2 appends the combos to the mappings of each device.
use blue_retro_forever.Prelude.{
  ℕ, ◌+◌, ◌*◌, ◌≤◌, ◌<◌, ◌≡◌, ◌≢◌, ◌⊎◌, ap, ◌∙◌, inl, inr, arith, u8, update, update_self,
  update_ne,
}
use blue_retro_forever.Adapter.Ids.{br_combo_cnt}
use blue_retro_forever.Adapter.Config.Layout.{Mem, in_cfg, map_size, map_cfg, adapter_mapping_max}
use blue_retro_forever.Adapter.Config.Init.{put_combos}
use blue_retro_forever.Adapter.Config.Load.{v2_device}
use blue_retro_forever.Adapter.Config.Bytes.{
  IsRow, mapping_byte, combo_src, combo_dst, put_combos-IsRow,
}
use native.Mathlib.Decide.{dec_lt}

-- Device `i`, which had `n` mappings in `m`, has them in `t`, and the ten combos after them.
pub record IsAppended (m t : Mem) (i n : ℕ) : Type 0 where
  pub counted : t (map_size i) ≡ n + br_combo_cnt
  pub kept : (o : ℕ) → o < 3 + 8 * n → o ≢ 2 → t (in_cfg i + o) ≡ m (in_cfg i + o)
  pub added :
      (k f : ℕ)
      → k < br_combo_cnt
      → f < 8
      → t (map_cfg i (n + k) + f) ≡ mapping_byte (combo_src k) (combo_dst k) i f

-- Only the bytes of device `i` change.
abbrev Elsewhere : ℕ → Mem → Mem → Type 0
Elsewhere i m t = (a : ℕ) → (a < in_cfg i) ⊎ (in_cfg (i + 1) ≤ a) → t a ≡ m a

pub v2_device-IsAppended :
    (i n : ℕ) (m : Mem)
    → m (map_size i) ≡ n
    → n + br_combo_cnt ≤ adapter_mapping_max
    → IsAppended m (v2_device i m) i n × Elsewhere i m (v2_device i m)
unfolding v2_device
v2_device-IsAppended i n m e fits = rw e (
  record {
    counted = row.outside (map_size i) (omega arith) ∙ update_self m (map_size i) _ ∙ omega arith;
    kept = λ o lt ne.
        row.outside (in_cfg i + o) (omega arith)
        ∙ update_ne m (map_size i) (in_cfg i + o) _ (omega arith);
    added = λ k f lt fl. ap t (address k f) ∙ row.inside k f lt fl;
  },
  λ a out. row.outside a (omega arith) ∙ update_ne m (map_size i) a _ (omega arith),
)
  where
    t : Mem
    t = put_combos i n (update m (map_size i) (u8 (n + br_combo_cnt)))

    row :
        IsRow combo_src combo_dst i
          (map_cfg i n)
          br_combo_cnt
          (update m (map_size i) (u8 (n + br_combo_cnt)))
          t
    row = put_combos-IsRow i n (update m (map_size i) (u8 (n + br_combo_cnt)))

    address : (k f : ℕ) → map_cfg i (n + k) + f ≡ map_cfg i n + 8 * k + f
    address k f = omega arith

-- Nothing is written before the number of mappings of device `i`.
pub v2_device-below : (i : ℕ) (m : Mem) (a : ℕ) → a < map_size i → v2_device i m a ≡ m a
unfolding v2_device
v2_device-below i m a lt =
    (put_combos-IsRow i (m (map_size i))
        (update m (map_size i) (u8 (m (map_size i) + br_combo_cnt)))).outside
      a (inl (omega arith))
    ∙ update_ne m (map_size i) a (u8 (m (map_size i) + br_combo_cnt)) (omega arith)

-- What the loop has done before device `i`.
abbrev pub Before : Mem → ℕ → Mem → Type 0
Before m i t =
    ((d : ℕ) → d < i → IsAppended m t d (m (map_size d)))
    × ((a : ℕ) → (a < in_cfg 0) ⊎ (in_cfg i ≤ a) → t a ≡ m a)

pub v2_device-Before :
    (m : Mem) (i : ℕ) (t : Mem)
    → m (map_size i) + br_combo_cnt ≤ adapter_mapping_max
    → ((d : ℕ) → d < i → m (map_size d) + br_combo_cnt ≤ adapter_mapping_max)
    → Before m i t
    → Before m (i + 1) (v2_device i t)
v2_device-Before m i t fits small (done, rest) =
    let (h, elsewhere) =
      v2_device-IsAppended i (m (map_size i)) t (rest (map_size i) (inr (omega arith))) fits in
    (
      λ d lt. elim (dec_lt d i) [
        | yes p ↦
            let g = done d p in
            let b = small d p in
            record {
              counted = elsewhere (map_size d) (omega arith) ∙ g.counted;
              kept = λ o lo ne. elsewhere (in_cfg d + o) (omega arith) ∙ g.kept o lo ne;
              added = λ k f lk lf.
                  elsewhere (map_cfg d (m (map_size d) + k) + f) (omega arith) ∙ g.added k f lk lf;
            }
        | no p ↦
            let same : d ≡ i = omega arith in
            rw same (record {
              counted = h.counted;
              kept = λ o lo ne. h.kept o lo ne ∙ rest (in_cfg i + o) (inr (omega arith));
              added = h.added;
            })
      ],
      λ a out. elsewhere a (omega arith) ∙ rest a (omega arith),
    )
