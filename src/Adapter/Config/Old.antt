-- ===== src/Adapter/Config/Old.antt =====
-- The upgrades from versions 0 and 1, `config_v0_update` and `config_v1_update` of config.c.
use blue_retro_forever.Prelude.{
  ℕ, ◌+◌, ◌*◌, ◌≤◌, ◌<◌, ◌≡◌, ◌≢◌, ◌⊎◌, refl, ap, ◌∙◌, min, true, false, some, arith, for_range,
  for_range_inv,
}
use blue_retro_forever.Adapter.Ids.{wired_max_dev}
use blue_retro_forever.Adapter.Config.Layout.{
  Mem, in_cfg, in_cfg_size, map_size, adapter_mapping_max,
}
use blue_retro_forever.Adapter.Config.Init.{config_init_struct, config_init_nvs_patch}
use blue_retro_forever.Adapter.Config.Load.{
  File, Env, Cfg, fread, config_v1_update, v1_fail, v1_move, v1_finish, v1_read_device,
  v1_read_devices, v1_read,
}
use blue_retro_forever.Adapter.Config.Store.{config_store_on_file-mem}
use native.Mathlib.Decide.{dec_lt}

-- Where a file of version 1 has the input of device `i`.
abbrev pub old_in_cfg : ℕ → ℕ
old_in_cfg i = 31 + (3 + 255 * 8) * i

v1_read_device-short :
    (env : Env) (f : File) (i : ℕ) (m : Mem) (count : ℕ)
    → f.size < old_in_cfg i + in_cfg_size
    → (v1_read_device env f i (m, count)).1 ≡ count
unfolding v1_read_device fread
v1_read_device-short env f i m count short = ground arith

v1_read_device-count :
    (env : Env) (f : File) (i : ℕ) (m : Mem) (count : ℕ)
    → (v1_read_device env f i (m, count)).1 ≤ count + 1
unfolding v1_read_device fread
v1_read_device-count env f i m count = ground arith

-- How many devices can be counted before device `i` where those from the seventh on are out of reach.
abbrev Few : ℕ → Mem × ℕ → Type 0
Few i s = s.1 ≤ min i 6

v1_read_devices-short :
    (env : Env) (f : File) (m : Mem)
    → f.size < old_in_cfg 6 + in_cfg_size
    → (v1_read_devices env f m).1 ≤ 6
unfolding v1_read_devices
v1_read_devices-short env f m short = few
  where
    few : Few wired_max_dev (for_range wired_max_dev 0 (v1_read_device env f) (m, 0))
    few =
        for_range_inv Few (v1_read_device env f) wired_max_dev 0 wired_max_dev (m, 0) refl
          (λ i (t, count) _ lt h. elim (dec_lt i 6) [
            | yes p ↦ let one = v1_read_device-count env f i t count in omega arith
            | no p ↦ let none' = v1_read_device-short env f i t count (omega arith) in omega arith
          ])
          (omega arith)

pub v1_read-short :
    (env : Env) (f : File) (m : Mem)
    → f.size < old_in_cfg 6 + in_cfg_size
    → (v1_read env (some f) m).1 ≡ false
v1_read-short env f m short = let few = v1_read_devices-short env f m short in ground arith

-- A device of a file of version 1: its header and mappings, with their number cut to 128.
pub record IsRead (f : File) (d : ℕ) (m : Mem) : Type 0 where
  pub counted : m (map_size d) ≡ min (f.bytes (old_in_cfg d + 2)) adapter_mapping_max
  pub kept : (o : ℕ) → o < in_cfg_size → o ≢ 2 → m (in_cfg d + o) ≡ f.bytes (old_in_cfg d + o)

v1_read_device-inside :
    (env : Env) (f : File) (i : ℕ) (m : Mem) (count : ℕ)
    → old_in_cfg i + in_cfg_size ≤ f.size
    → IsRead f i (v1_read_device env f i (m, count)).0
      × ((v1_read_device env f i (m, count)).1 ≡ count + 1)
      × ((a : ℕ)
          → (a < in_cfg i) ⊎ (in_cfg (i + 1) ≤ a)
          → (v1_read_device env f i (m, count)).0 a ≡ m a)
unfolding v1_read_device fread
v1_read_device-inside env f i m count long = (
  record { counted = ground arith; kept = λ o lo ne. ground arith },
  (ground arith),
  λ a out. ground arith,
)

-- What the loop has done before device `i`.
abbrev pub ReadBefore : File → Mem → ℕ → Mem × ℕ → Type 0
ReadBefore f m i s =
    ((d : ℕ) → d < i → IsRead f d s.0) × (s.1 ≡ i) × ((a : ℕ) → a < in_cfg 0 → s.0 a ≡ m a)

v1_read_device-ReadBefore :
    (env : Env) (f : File) (m : Mem) (i : ℕ) (s : Mem × ℕ)
    → old_in_cfg i + in_cfg_size ≤ f.size
    → ReadBefore f m i s
    → ReadBefore f m (i + 1) (v1_read_device env f i s)
v1_read_device-ReadBefore env f m i (t, count) long (done, counted, rest) =
    let (h, one, elsewhere) = v1_read_device-inside env f i t count long in
    (
      (λ d ld. elim (dec_lt d i) [
        | yes p ↦
            let g = done d p in
            record {
              counted = elsewhere (map_size d) (omega arith) ∙ g.counted;
              kept = λ o lo ne. elsewhere (in_cfg d + o) (omega arith) ∙ g.kept o lo ne;
            }
        | no p ↦ let same : d ≡ i = omega arith in rw same h
      ]),
      (one ∙ ap (λ x. x + 1) counted),
      λ a la. elsewhere a (omega arith) ∙ rest a la,
    )

pub v1_read_devices-ReadBefore :
    (env : Env) (f : File) (m : Mem)
    → old_in_cfg 11 + in_cfg_size ≤ f.size
    → ReadBefore f m wired_max_dev (v1_read_devices env f m)
unfolding v1_read_devices
v1_read_devices-ReadBefore env f m long =
    for_range_inv (ReadBefore f m) (v1_read_device env f) wired_max_dev 0 wired_max_dev (m, 0) refl
      (λ i s _ lt h. v1_read_device-ReadBefore env f m i s (omega arith) h)
      ((λ d lt. absurd (omega arith)), refl, (λ a lt. refl))

-- How the upgrade goes on after the read.
config_v1_update-read :
    (env : Env) (c : Cfg)
    → config_v1_update env c ≡ v1_finish env c (v1_read env c.file (v1_move c.mem))
unfolding config_v1_update
config_v1_update-read env c = refl

v1_read-long :
    (env : Env) (f : File) (m : Mem)
    → env.can_read ≡ true
    → old_in_cfg 11 + in_cfg_size ≤ f.size
    → v1_read env (some f) m ≡ ((v1_read_devices env f m).0, true)
v1_read-long env f m r long =
    let (_, counted, _) = v1_read_devices-ReadBefore env f m long in ground arith

-- The bytes of the upgrade from version 1 when all devices could be read.
pub config_v1_update-mem :
    (env : Env) (c : Cfg) (f : File)
    → c.file ≡ some f
    → env.can_read ≡ true
    → old_in_cfg 11 + in_cfg_size ≤ f.size
    → (config_v1_update env c).mem ≡ (v1_read_devices env f (v1_move c.mem)).0
config_v1_update-mem env c f e r long =
    ap (λ (u : Cfg). u.mem)
      (config_v1_update-read env c
        ∙ ap (λ g. v1_finish env c (v1_read env g (v1_move c.mem))) e
        ∙ ap (v1_finish env c) (v1_read-long env f (v1_move c.mem) r long))
    ∙ config_store_on_file-mem env (record c { mem = (v1_read_devices env f (v1_move c.mem)).0 })

v1_fail-mem :
    (env : Env) (c : Cfg)
    → (v1_fail env c).mem ≡ config_init_nvs_patch env.nvs (config_init_struct c.mem)
unfolding v1_fail
v1_fail-mem env c =
    config_store_on_file-mem env
      (record c { mem = config_init_nvs_patch env.nvs (config_init_struct c.mem) })

-- The upgrade fails on a file that ends before the seventh device.
pub config_v1_update-short :
    (env : Env) (c : Cfg) (f : File)
    → c.file ≡ some f
    → f.size < old_in_cfg 6 + in_cfg_size
    → (config_v1_update env c).mem
      ≡ config_init_nvs_patch env.nvs (config_init_struct (v1_read env (some f) (v1_move c.mem)).0)
config_v1_update-short env c f e short =
    ap (λ (u : Cfg). u.mem)
      (config_v1_update-read env c
        ∙ ap (λ g. v1_finish env c (v1_read env g (v1_move c.mem))) e
        ∙ ap (λ b. v1_finish env c (m, b)) (v1_read-short env f (v1_move c.mem) short))
    ∙ v1_fail-mem env (record c { mem = m })
  where
    m : Mem
    m = (v1_read env (some f) (v1_move c.mem)).0
