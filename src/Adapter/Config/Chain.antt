-- ===== src/Adapter/Config/Chain.antt =====
-- A file of version 0 in `config_load_from_file` of config.c.
use blue_retro_forever.Prelude.{
  ℕ, ◌+◌, ◌≤◌, ◌<◌, ◌≡◌, refl, ap, ◌∙◌, true, Option, some, [], arith, for_range, for_range_inv,
  for_range_first, ◌==◌, if◌then◌else◌,
}
use blue_retro_forever.Adapter.Ids.{wired_max_dev, br_combo_cnt}
use blue_retro_forever.Adapter.Config.Layout.{
  Mem, in_cfg, map_size, set_magic, magic, config_magic, config_magic_v0, config_size,
}
use blue_retro_forever.Adapter.Config.Load.{
  File, Env, Cfg, fread, config_store_on_file, config_v0_update, config_v1_update, config_v2_update,
  v2_device, config_get_version, upgrade, upgrade_from, read_config, config_load_from_file,
}
use blue_retro_forever.Adapter.Config.Store.{
  config_store_on_file-mem, set_magic-outside, magic-first,
}
use blue_retro_forever.Adapter.Config.Append.{IsAppended, v2_device-IsAppended, v2_device-below}
use blue_retro_forever.Adapter.Config.Upgrade.{v2_device-overrun}
use blue_retro_forever.Adapter.Config.Versions.{config_v0_update-IsDefault}

upgrade_from-steps :
    (env : Env) (c : Cfg)
    → upgrade_from env (some 0) c
      ≡ config_v2_update env (config_v1_update env (config_v0_update env c))
unfolding upgrade_from
upgrade_from-steps env c = refl

upgrade-eq :
    (env : Env) (c : Cfg)
    → upgrade env c ≡ (
        if magic c.mem == config_magic
        then c
        else upgrade_from env (config_get_version (magic c.mem)) c)
unfolding upgrade
upgrade-eq env c = refl

config_get_version-v0 : config_get_version config_magic_v0 ≡ some 0
unfolding config_get_version
config_get_version-v0 = refl

-- The three upgrades run one after the other.
pub upgrade-v0 :
    (env : Env) (c : Cfg)
    → magic c.mem ≡ config_magic_v0
    → upgrade env c ≡ config_v2_update env (config_v1_update env (config_v0_update env c))
upgrade-v0 env c e =
    upgrade-eq env c
    ∙ ap (λ n. if n == config_magic then c else upgrade_from env (config_get_version n) c) e
    ∙ ap (λ v. upgrade_from env v c) config_get_version-v0
    ∙ upgrade_from-steps env c

-- Device 0 has 125 mappings, and gets ten more than there is room for; device 1 then has as many
-- mappings as device 0's number says.
v2_devices-overrun :
    (m : Mem)
    → m (map_size 0) ≡ 125
    → (for_range wired_max_dev 0 v2_device m (map_size 0) ≡ 135)
      × (for_range wired_max_dev 0 v2_device m (map_size 1) ≡ 10)
v2_devices-overrun m e = (
  after (map_size 0) (omega arith)
      ∙ v2_device-below 1 m1 (map_size 0) (omega arith)
      ∙ first
      ∙ omega arith,
  after (map_size 1) (omega arith) ∙ appended.counted,
)
  where
    m1 : Mem
    m1 = v2_device 0 m

    m2 : Mem
    m2 = v2_device 1 m1

    first : m1 (map_size 0) ≡ m (map_size 0) + br_combo_cnt
    first = let (h, _) = v2_device-overrun 0 m (omega arith) (omega arith) (omega arith) in h

    second : m1 (map_size 1) ≡ 0
    second = let (_, h) = v2_device-overrun 0 m (omega arith) (omega arith) (omega arith) in h

    appended : IsAppended m1 m2 1 0
    appended = let (h, _) = v2_device-IsAppended 1 0 m1 second (omega arith) in h

    after : (a : ℕ) → a < in_cfg 2 → for_range wired_max_dev 0 v2_device m a ≡ m2 a
    after a lt =
        ap (λ (t : Mem). t a) (for_range_first 11 0 v2_device m ∙ for_range_first 10 1 v2_device m1)
        ∙ for_range_inv (λ i t. t a ≡ m2 a) v2_device 10 2 wired_max_dev m2 (omega arith)
            (λ i t ge _ h. v2_device-below i t a (omega arith) ∙ h) refl

config_v2_update-eq :
    (env : Env) (c : Cfg)
    → config_v2_update env c
      ≡ config_store_on_file env
          (record c { mem = for_range wired_max_dev 0 v2_device (set_magic config_magic c.mem) })
unfolding config_v2_update
config_v2_update-eq env c = refl

config_load_from_file-eq :
    (env : Env) (o : Option File) (m : Mem)
    → config_load_from_file env o m ≡ upgrade env (read_config env o m)
unfolding config_load_from_file
config_load_from_file-eq env o m = refl

-- A file that is as long as the configuration is read whole.
read_config-mem :
    (env : Env) (f : File) (m : Mem) (a : ℕ)
    → env.can_read ≡ true
    → config_size ≤ f.size
    → a < config_size
    → (read_config env (some f) m).mem a ≡ f.bytes a
unfolding fread
read_config-mem env f m a r long lt = ground arith

-- Loading a file of version 0 that can be read whole ends with 135 mappings for device 0, more than the
-- 128 there is room for, and with 10 for device 1, if the file can be written and no mapping is in
-- non-volatile storage.
pub config_load_from_file-v0 :
    (env : Env) (f : File) (m : Mem)
    → env.can_read ≡ true
    → env.can_write ≡ true
    → env.nvs.mappings ≡ []
    → config_size ≤ f.size
    → magic f.bytes ≡ config_magic_v0
    → ((config_load_from_file env (some f) m).mem (map_size 0) ≡ 135)
      × ((config_load_from_file env (some f) m).mem (map_size 1) ≡ 10)
config_load_from_file-v0 env f m r w none' long e =
    let (h0, h1) = v2_devices-overrun (set_magic config_magic c2.mem) size in
    (ap (λ (t : Mem). t (map_size 0)) loaded ∙ h0, ap (λ (t : Mem). t (map_size 1)) loaded ∙ h1)
  where
    c0 : Cfg
    c0 = read_config env (some f) m

    c2 : Cfg
    c2 = config_v1_update env (config_v0_update env c0)

    old : magic c0.mem ≡ config_magic_v0
    old = magic-first f.bytes c0.mem (λ a lt. read_config-mem env f m a r long (omega arith)) ∙ e

    size : set_magic config_magic c2.mem (map_size 0) ≡ 125
    size =
        let h = config_v0_update-IsDefault env c0 w none' 0 (omega arith) in
        set_magic-outside config_magic c2.mem (map_size 0) (omega arith) ∙ h.counted

    loaded :
        (config_load_from_file env (some f) m).mem
        ≡ for_range wired_max_dev 0 v2_device (set_magic config_magic c2.mem)
    loaded =
        ap (λ (u : Cfg). u.mem)
          (config_load_from_file-eq env (some f) m
            ∙ upgrade-v0 env c0 old
            ∙ config_v2_update-eq env c2)
        ∙ config_store_on_file-mem env (record c2 {
          mem = for_range wired_max_dev 0 v2_device (set_magic config_magic c2.mem);
        })
