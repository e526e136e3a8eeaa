-- ===== src/Adapter/Config/Bytes.antt =====
-- What the loops of config.c leave at each byte.
use blue_retro_forever.Prelude.{
  ℕ, zero, suc, ◌+◌, ◌*◌, ◌≤◌, ◌<◌, ◌≡◌, ◌⊎◌, refl, ◌∙◌, arith, for_range, for_range_inv, get_or,
}
use blue_retro_forever.Adapter.Ids.{br_combo_cnt, br_combo_base_1, kbm_max}
use blue_retro_forever.Adapter.Config.Layout.{Mem, map_cfg, put_mapping}
use blue_retro_forever.Adapter.Config.Init.{config_default_combo, put_combos, put_identity}
use native.Mathlib.Decide.{dec_lt}

-- Byte `f` of a mapping with the default percentages.
abbrev pub mapping_byte : ℕ → ℕ → ℕ → ℕ → ℕ
mapping_byte src dst id zero = src
mapping_byte src dst id (suc zero) = dst
mapping_byte src dst id (suc (suc zero)) = id
mapping_byte src dst id (suc (suc (suc zero))) = 100
mapping_byte src dst id (suc (suc (suc (suc zero)))) = 50
mapping_byte src dst id (suc (suc (suc (suc (suc zero))))) = 135
mapping_byte src dst id (suc (suc (suc (suc (suc (suc f)))))) = 0

pub put_mapping-inside :
    (at src dst id : ℕ) (m : Mem) (f : ℕ)
    → f < 8
    → put_mapping at src dst id m (at + f) ≡ mapping_byte src dst id f
unfolding put_mapping
put_mapping-inside at src dst id m zero lt = ground arith
put_mapping-inside at src dst id m (suc zero) lt = ground arith
put_mapping-inside at src dst id m (suc (suc zero)) lt = ground arith
put_mapping-inside at src dst id m (suc (suc (suc zero))) lt = ground arith
put_mapping-inside at src dst id m (suc (suc (suc (suc zero)))) lt = ground arith
put_mapping-inside at src dst id m (suc (suc (suc (suc (suc zero))))) lt = ground arith
put_mapping-inside at src dst id m (suc (suc (suc (suc (suc (suc zero)))))) lt = ground arith
put_mapping-inside at src dst id m (suc (suc (suc (suc (suc (suc (suc zero))))))) lt = ground arith
put_mapping-inside at src dst id m (suc (suc (suc (suc (suc (suc (suc (suc f)))))))) lt =
    absurd (omega arith)

pub put_mapping-outside :
    (at src dst id : ℕ) (m : Mem) (a : ℕ)
    → (a < at) ⊎ (at + 8 ≤ a)
    → put_mapping at src dst id m a ≡ m a
unfolding put_mapping
put_mapping-outside at src dst id m a out = ground arith

-- A row of mappings from address `at` on.
pub record IsRow (src dst : ℕ → ℕ) (id at n : ℕ) (m t : Mem) : Type 0 where
  pub inside : (k f : ℕ) → k < n → f < 8 → t (at + 8 * k + f) ≡ mapping_byte (src k) (dst k) id f
  pub outside : (a : ℕ) → (a < at) ⊎ (at + 8 * n ≤ a) → t a ≡ m a

module _ (src dst addr : ℕ → ℕ) (id at : ℕ) (m : Mem) (e : (k : ℕ) → addr k ≡ at + 8 * k) where
  for_range-IsRow :
      (n : ℕ)
      → IsRow src dst id at n m (for_range n 0 (λ k. put_mapping (addr k) (src k) (dst k) id) m)
  for_range-IsRow n =
      for_range_inv (λ i t. IsRow src dst id at i m t)
        (λ k. put_mapping (addr k) (src k) (dst k) id) n 0 n m (omega arith) step
        (record { inside = λ k f lt fl. absurd (omega arith); outside = λ a out. refl })
    where
      step :
          (k : ℕ) (t : Mem)
          → 0 ≤ k
          → k < n
          → IsRow src dst id at k m t
          → IsRow src dst id at (k + 1) m (put_mapping (addr k) (src k) (dst k) id t)
      step k t a b h = rw (e k) (record {
        inside = λ j f lt fl. elim (dec_lt j k) [
          | yes p ↦
              put_mapping-outside (at + 8 * k) (src k) (dst k) id t (at + 8 * j + f) (omega arith)
              ∙ h.inside j f p fl
          | no p ↦
              let same : j ≡ k = omega arith in
              rw same (put_mapping-inside (at + 8 * k) (src k) (dst k) id t f fl)
        ];
        outside = λ c out.
            put_mapping-outside (at + 8 * k) (src k) (dst k) id t c (omega arith)
            ∙ h.outside c (omega arith);
      })

abbrev pub combo_src : ℕ → ℕ
combo_src k = get_or config_default_combo k 0

abbrev pub combo_dst : ℕ → ℕ
combo_dst k = k + br_combo_base_1

pub put_combos-IsRow :
    (i j : ℕ) (m : Mem)
    → IsRow combo_src combo_dst i (map_cfg i j) br_combo_cnt m (put_combos i j m)
unfolding put_combos
put_combos-IsRow i j m =
    for_range-IsRow combo_src combo_dst (λ k. map_cfg i (j + k)) i (map_cfg i j) m
      (λ k. omega arith) br_combo_cnt

pub put_identity-IsRow :
    (i : ℕ) (m : Mem) → IsRow (λ j. j) (λ j. j) i (map_cfg i 0) kbm_max m (put_identity i m)
unfolding put_identity
put_identity-IsRow i m =
    for_range-IsRow (λ j. j) (λ j. j) (λ j. map_cfg i j) i (map_cfg i 0) m (λ k. omega arith)
      kbm_max
