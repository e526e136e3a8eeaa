-- ===== src/Adapter/Config/Defaults.antt =====
-- What `config_init_struct` of config.c writes.
use blue_retro_forever.Prelude.{
  ℕ, ◌+◌, ◌*◌, ◌≤◌, ◌<◌, ◌≡◌, ◌⊎◌, refl, ap, ◌∙◌, arith, update, for_range, for_range_inv,
}
use blue_retro_forever.Adapter.Ids.{wired_max_dev, br_combo_cnt, kbm_max}
use blue_retro_forever.Adapter.Config.Layout.{
  Mem, in_cfg, map_size, map_cfg, set_magic, magic, config_magic, system_cfg, multitap_cfg,
  inquiry_mode, banksel,
}
use blue_retro_forever.Adapter.Config.Init.{
  put_combos, put_identity, init_header, init_device, config_init_struct,
}
use blue_retro_forever.Adapter.Config.Bytes.{
  IsRow, mapping_byte, combo_src, combo_dst, put_combos-IsRow, put_identity-IsRow,
}
use blue_retro_forever.Adapter.Config.Store.{magic-set_magic, magic-first}
use native.Mathlib.Decide.{dec_lt}

-- The input of device `i` has every button mapped to itself, then the ten combos.
pub record IsDefault (i : ℕ) (m : Mem) : Type 0 where
  pub counted : m (map_size i) ≡ kbm_max + br_combo_cnt
  pub buttons : (j f : ℕ) → j < kbm_max → f < 8 → m (map_cfg i j + f) ≡ mapping_byte j j i f
  pub combos :
      (k f : ℕ)
      → k < br_combo_cnt
      → f < 8
      → m (map_cfg i (kbm_max + k) + f) ≡ mapping_byte (combo_src k) (combo_dst k) i f

-- The inputs up to that of device `i` are the default, and its first 4 bytes and the global settings
-- are those of `m`.
abbrev pub Filled : Mem → ℕ → Mem → Type 0
Filled m i t = ((d : ℕ) → d < i → IsDefault d t) × ((a : ℕ) → a < 8 → t a ≡ m a)

init_header-size : (i : ℕ) (m : Mem) → init_header i m (map_size i) ≡ kbm_max + br_combo_cnt
unfolding init_header
init_header-size i m = ground arith

init_header-outside :
    (i : ℕ) (m : Mem) (a : ℕ)
    → i < wired_max_dev
    → (a < 8) ⊎ (in_cfg 0 ≤ a)
    → (a < in_cfg i) ⊎ (in_cfg (i + 1) ≤ a)
    → init_header i m a ≡ m a
unfolding init_header
init_header-outside i m a lt io out = ground arith

init_device-inside : (i : ℕ) (m : Mem) → i < wired_max_dev → IsDefault i (init_device i m)
unfolding init_device
init_device-inside i m lt = record {
  counted =
      upper.outside (map_size i) (omega arith)
      ∙ lower.outside (map_size i) (omega arith)
      ∙ init_header-size i m;
  buttons = λ j f lj lf.
      upper.outside (map_cfg i j + f) (omega arith) ∙ ap low (address j f) ∙ lower.inside j f lj lf;
  combos = λ k f lk lf. ap high (address' k f) ∙ upper.inside k f lk lf;
}
  where
    head : Mem
    head = init_header i m

    low : Mem
    low = put_identity i head

    high : Mem
    high = put_combos i kbm_max low

    lower : IsRow (λ j. j) (λ j. j) i (map_cfg i 0) kbm_max head low
    lower = put_identity-IsRow i head

    upper : IsRow combo_src combo_dst i (map_cfg i kbm_max) br_combo_cnt low high
    upper = put_combos-IsRow i kbm_max low

    address : (j f : ℕ) → map_cfg i j + f ≡ map_cfg i 0 + 8 * j + f
    address j f = omega arith

    address' : (k f : ℕ) → map_cfg i (kbm_max + k) + f ≡ map_cfg i kbm_max + 8 * k + f
    address' k f = omega arith

-- A device writes its modes and its input, nothing else.
init_device-outside :
    (i : ℕ) (m : Mem) (a : ℕ)
    → i < wired_max_dev
    → (a < 8) ⊎ (in_cfg 0 ≤ a)
    → (a < in_cfg i) ⊎ (in_cfg (i + 1) ≤ a)
    → init_device i m a ≡ m a
unfolding init_device
init_device-outside i m a lt io out =
    upper.outside a (omega arith)
    ∙ lower.outside a (omega arith)
    ∙ init_header-outside i m a lt io out
  where
    head : Mem
    head = init_header i m

    lower : IsRow (λ j. j) (λ j. j) i (map_cfg i 0) kbm_max head (put_identity i head)
    lower = put_identity-IsRow i head

    upper :
        IsRow combo_src combo_dst i
          (map_cfg i kbm_max)
          br_combo_cnt
          (put_identity i head)
          (put_combos i kbm_max (put_identity i head))
    upper = put_combos-IsRow i kbm_max (put_identity i head)

init_device-Filled :
    (m : Mem) (i : ℕ) (t : Mem)
    → i < wired_max_dev
    → Filled m i t
    → Filled m (i + 1) (init_device i t)
init_device-Filled m i t lt (done, rest) = (
  λ d ld. elim (dec_lt d i) [
    | yes p ↦
        let g = done d p in
        record {
          counted = init_device-outside i t (map_size d) lt (omega arith) (omega arith) ∙ g.counted;
          buttons = λ j f lj lf.
              init_device-outside i t (map_cfg d j + f) lt (omega arith) (omega arith)
              ∙ g.buttons j f lj lf;
          combos = λ k f lk lf.
              init_device-outside i t (map_cfg d (kbm_max + k) + f) lt (omega arith) (omega arith)
              ∙ g.combos k f lk lf;
        }
    | no p ↦ let same : d ≡ i = omega arith in rw same (init_device-inside i t lt)
  ],
  λ a la. init_device-outside i t a lt (omega arith) (omega arith) ∙ rest a la,
)

-- Whatever was in memory, the initial configuration has the magic number of version 3, the global
-- settings all 0, and for each of the twelve devices every button mapped to itself with the default
-- percentages, followed by the ten combos.
pub config_init_struct-IsDefault :
    (m : Mem)
    → (magic (config_init_struct m) ≡ config_magic)
      × ((a : ℕ) → 4 ≤ a → a < 8 → config_init_struct m a ≡ 0)
      × ((d : ℕ) → d < wired_max_dev → IsDefault d (config_init_struct m))
unfolding config_init_struct
config_init_struct-IsDefault m = (
  magic-first (set_magic config_magic m) t (λ a lt. rest a (omega arith) ∙ head-first a lt)
      ∙ magic-set_magic config_magic m (omega arith),
  (λ a le lt. rest a lt ∙ head-global a le lt),
  done,
)
  where
    head : Mem
    head =
        update
          (update (update (update (set_magic config_magic m) system_cfg 0) multitap_cfg 0)
            inquiry_mode 0)
          banksel 0

    t : Mem
    t = for_range wired_max_dev 0 init_device head

    head-first : (a : ℕ) → a < 4 → head a ≡ set_magic config_magic m a
    head-first a lt = ground arith

    head-global : (a : ℕ) → 4 ≤ a → a < 8 → head a ≡ 0
    head-global a le lt = ground arith

    all : Filled head wired_max_dev t
    all =
        for_range_inv (Filled head) init_device wired_max_dev 0 wired_max_dev head refl
          (λ i s _ lt h. init_device-Filled head i s lt h)
          ((λ d lt. absurd (omega arith)), (λ a lt. refl))

    done : (d : ℕ) → d < wired_max_dev → IsDefault d t
    done = let (h, _) = all in h

    rest : (a : ℕ) → a < 8 → t a ≡ head a
    rest = let (_, h) = all in h
