-- ===== src/Adapter/Config/Init.antt =====
-- The defaults of config.c: `config_init_struct` and the values taken from non-volatile storage.
use blue_retro_forever.Prelude.{
  ℕ, ◌+◌, Option, none, some, List, [], ◌∷◌, update, for_range, get_or,
}
use blue_retro_forever.Adapter.Ids.{
  wired_max_dev, kbm_max, br_combo_cnt, br_combo_base_1, pad_lm, pad_rm, pad_mm, pad_rb_up,
  pad_rb_left, pad_rb_right, pad_rb_down, pad_ld_up, pad_ld_down, pad_ms,
}
use blue_retro_forever.Adapter.Config.Layout.{
  Mem, config_magic, system_cfg, multitap_cfg, inquiry_mode, banksel, dev_mode, acc_mode, in_cfg,
  map_size, map_cfg, set_magic, put_mapping,
}

abbrev pub config_default_combo : List ℕ
config_default_combo =
    pad_lm ∷ pad_rm ∷ pad_mm ∷ pad_rb_up ∷ pad_rb_left ∷ pad_rb_right ∷ pad_rb_down ∷ pad_ld_up
    ∷ pad_ld_down ∷ pad_ms ∷ []

-- The loop on `k`: the ten combos of device `i` from entry `j` on.
unfoldable pub put_combos : ℕ → ℕ → Mem → Mem
unfolding for_range put_mapping
put_combos i j =
    for_range br_combo_cnt 0 (λ k.
      put_mapping (map_cfg i (j + k)) (get_or config_default_combo k 0) (k + br_combo_base_1) i)

-- The loop on `j`: every button of device `i` to itself.
unfoldable pub put_identity : ℕ → Mem → Mem
unfolding for_range put_mapping
put_identity i = for_range kbm_max 0 (λ j. put_mapping (map_cfg i j) j j i)

-- A round of the loop on `i`, before its loops. DEV_PAD and ACC_NONE are 0.
unfoldable pub init_header : ℕ → Mem → Mem
init_header i m0 =
    let m1 = update (update m0 (dev_mode i) 0) (acc_mode i) 0 in
    let m2 = update (update m1 (in_cfg i) 0) (in_cfg i + 1) 0 in
    update m2 (map_size i) (kbm_max + br_combo_cnt)

-- A round of the loop on `i`.
unfoldable pub init_device : ℕ → Mem → Mem
unfolding init_header put_identity put_combos
init_device i m = put_combos i kbm_max (put_identity i (init_header i m))

-- WIRED_AUTO, MT_NONE and INQ_AUTO are 0.
unfoldable pub config_init_struct : Mem → Mem
unfolding set_magic init_device for_range
config_init_struct m0 =
    let m1 = update (set_magic config_magic m0) system_cfg 0 in
    let m2 = update (update (update m1 multitap_cfg 0) inquiry_mode 0) banksel 0 in
    for_range wired_max_dev 0 init_device m2

-- What non-volatile storage holds: the values that could be read, and the mappings with their index.
pub record Nvs : Type 0 where
  pub system : Option ℕ
  pub multitap : Option ℕ
  pub inquiry : Option ℕ
  pub bank : Option ℕ
  pub mode : Option ℕ
  pub accessories : Option ℕ
  pub mappings : List (ℕ × (ℕ → ℕ))

abbrev pub put_some : Option ℕ → ℕ → Mem → Mem
put_some none at m = m
put_some (some v) at m = update m at v

abbrev pub put_all : Option ℕ → (ℕ → ℕ) → Mem → Mem
put_all none at m = m
put_all (some v) at m = for_range wired_max_dev 0 (λ i t. update t (at i) v) m

-- One stored mapping, for every device; the eight bytes are copied, then the device is set.
unfoldable pub put_stored : ℕ → (ℕ → ℕ) → Mem → Mem
unfolding for_range
put_stored index mapping = for_range wired_max_dev 0 (λ i m.
    update (for_range 8 0 (λ f t. update t (map_cfg i index + f) (mapping f)) m)
      (map_cfg i index + 2) i)

pub put_mappings : List (ℕ × (ℕ → ℕ)) → Mem → Mem
put_mappings [] m = m
put_mappings ((index, mapping) ∷ rest) m = put_mappings rest (put_stored index mapping m)

unfoldable pub config_init_nvs_patch : Nvs → Mem → Mem
unfolding put_stored put_mappings
config_init_nvs_patch nvs m0 =
    let m1 = put_some nvs.multitap multitap_cfg (put_some nvs.system system_cfg m0) in
    let m2 = put_some nvs.bank banksel (put_some nvs.inquiry inquiry_mode m1) in
    let m3 = put_all nvs.accessories acc_mode (put_all nvs.mode dev_mode m2) in
    put_mappings nvs.mappings m3
