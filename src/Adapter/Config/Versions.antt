-- ===== src/Adapter/Config/Versions.antt =====
-- What the upgrades of the oldest files leave, in config.c.
use blue_retro_forever.Prelude.{
  ℕ, ◌+◌, ◌-◌, ◌≤◌, ◌<◌, ◌≡◌, refl, ap, ◌∙◌, true, Option, some, none, [], arith, update, update_ne,
  for_range_inv, memmove,
}
use blue_retro_forever.Adapter.Ids.{wired_max_dev, kbm_max}
use blue_retro_forever.Adapter.Config.Layout.{
  Mem, in_cfg, in_cfg_size, map_size, map_cfg, set_magic, magic, config_magic, config_size, banksel,
  inquiry_mode, acc_mode, dev_mode, system_cfg, multitap_cfg,
}
use blue_retro_forever.Adapter.Config.Init.{
  Nvs, put_some, put_all, put_mappings, config_init_struct, config_init_nvs_patch,
}
use blue_retro_forever.Adapter.Config.Load.{
  File, Env, Cfg, config_v0_update, config_v1_update, v0_move, v1_move, v1_read_devices, v1_read,
}
use blue_retro_forever.Adapter.Config.Store.{
  config_store_on_file-file, magic-set_magic, magic-first,
}
use blue_retro_forever.Adapter.Config.Defaults.{IsDefault, config_init_struct-IsDefault}
use blue_retro_forever.Adapter.Config.Old.{
  old_in_cfg, IsRead, v1_read_devices-ReadBefore, config_v1_update-mem, config_v1_update-short,
}

v1_move-first :
    (m : Mem) (a : ℕ) → a < 4 → v1_move m a ≡ set_magic config_magic (memmove m 8 7 (31 - 8)) a
unfolding v1_move
v1_move-first m a lt = ground arith

v1_move-modes : (m : Mem) (a : ℕ) → a < 23 → v1_move m (dev_mode 0 + a) ≡ m (7 + a)
unfolding v1_move
v1_move-modes m a lt = ground arith

v1_move-last : (m : Mem) → v1_move m (acc_mode 11) ≡ m (old_in_cfg 0)
unfolding v1_move
v1_move-last m = refl

-- From a file that can be read and reaches to the 128th mapping of the twelfth device of version 1, the
-- upgrade from version 1 sets the magic number, reads the input of every device from where that version had it,
-- with at most 128 mappings, and moves the modes of the outputs by one byte, except the last one: the
-- accessory of the twelfth output becomes the first byte of the old first input.
pub config_v1_update-keeps :
    (env : Env) (c : Cfg) (f : File)
    → c.file ≡ some f
    → env.can_read ≡ true
    → old_in_cfg 11 + in_cfg_size ≤ f.size
    → (magic (config_v1_update env c).mem ≡ config_magic)
      × ((d : ℕ) → d < wired_max_dev → IsRead f d (config_v1_update env c).mem)
      × ((a : ℕ) → a < 23 → (config_v1_update env c).mem (dev_mode 0 + a) ≡ c.mem (7 + a))
      × ((config_v1_update env c).mem (acc_mode 11) ≡ c.mem (old_in_cfg 0))
config_v1_update-keeps env c f e r long = rw (config_v1_update-mem env c f e r long) (
  magic-first (set_magic config_magic (memmove c.mem 8 7 (31 - 8))) t
        (λ a lt. rest a (omega arith) ∙ v1_move-first c.mem a lt)
      ∙ magic-set_magic config_magic (memmove c.mem 8 7 (31 - 8)) (omega arith),
  done,
  (λ a lt. rest (dev_mode 0 + a) (omega arith) ∙ v1_move-modes c.mem a lt),
  rest (acc_mode 11) (omega arith) ∙ v1_move-last c.mem,
)
  where
    t : Mem
    t = (v1_read_devices env f (v1_move c.mem)).0

    done : (d : ℕ) → d < wired_max_dev → IsRead f d t
    done = let (h, _, _) = v1_read_devices-ReadBefore env f (v1_move c.mem) long in h

    rest : (a : ℕ) → a < in_cfg 0 → t a ≡ v1_move c.mem a
    rest = let (_, _, h) = v1_read_devices-ReadBefore env f (v1_move c.mem) long in h

put_some-outside :
    (o : Option ℕ) (at : ℕ) (m : Mem) (a : ℕ)
    → at < in_cfg 0
    → in_cfg 0 ≤ a
    → put_some o at m a ≡ m a
put_some-outside none at m a near far = refl
put_some-outside (some v) at m a near far = update_ne m at a v (omega arith)

put_all-outside :
    (o : Option ℕ) (at : ℕ → ℕ) (m : Mem) (a : ℕ)
    → ((i : ℕ) → i < wired_max_dev → at i < in_cfg 0)
    → in_cfg 0 ≤ a
    → put_all o at m a ≡ m a
put_all-outside none at m a near far = refl
put_all-outside (some v) at m a near far =
    for_range_inv (λ i t. t a ≡ m a) (λ i t. update t (at i) v) wired_max_dev 0 wired_max_dev m refl
      (λ i t _ lt h. let b = near i lt in update_ne t (at i) a v (omega arith) ∙ h) refl

config_init_nvs_patch-outside :
    (nvs : Nvs) (m : Mem) (a : ℕ)
    → nvs.mappings ≡ []
    → in_cfg 0 ≤ a
    → config_init_nvs_patch nvs m a ≡ m a
unfolding config_init_nvs_patch
config_init_nvs_patch-outside nvs m a e far =
    ap (λ l. put_mappings l m3 a) e
    ∙ put_all-outside nvs.accessories acc_mode _ a (λ i lt. omega arith) far
    ∙ put_all-outside nvs.mode dev_mode m2 a (λ i lt. omega arith) far
    ∙ put_some-outside nvs.bank banksel _ a (omega arith) far
    ∙ put_some-outside nvs.inquiry inquiry_mode m1 a (omega arith) far
    ∙ put_some-outside nvs.multitap multitap_cfg _ a (omega arith) far
    ∙ put_some-outside nvs.system system_cfg m a (omega arith) far
  where
    m1 : Mem
    m1 = put_some nvs.multitap multitap_cfg (put_some nvs.system system_cfg m)

    m2 : Mem
    m2 = put_some nvs.bank banksel (put_some nvs.inquiry inquiry_mode m1)

    m3 : Mem
    m3 = put_all nvs.accessories acc_mode (put_all nvs.mode dev_mode m2)

same-IsDefault :
    (d : ℕ) (m t : Mem) → ((a : ℕ) → in_cfg 0 ≤ a → t a ≡ m a) → IsDefault d m → IsDefault d t
same-IsDefault d m t same h = record {
  counted = same (map_size d) (omega arith) ∙ h.counted;
  buttons = λ j f lj lf. same (map_cfg d j + f) (omega arith) ∙ h.buttons j f lj lf;
  combos = λ k f lk lf. same (map_cfg d (kbm_max + k) + f) (omega arith) ∙ h.combos k f lk lf;
}

config_v0_update-file :
    (env : Env) (c : Cfg)
    → env.can_write ≡ true
    → (config_v0_update env c).file ≡ some (record { size = config_size; bytes = v0_move c.mem })
unfolding config_v0_update
config_v0_update-file env c w = config_store_on_file-file env (record c { mem = v0_move c.mem }) w

-- When the file can be written and no mapping is in non-volatile storage, the upgrade from version 1
-- that follows the upgrade from version 0 finds a file that is too short and resets every device to the
-- default mappings, whatever the file of version 0 held.
pub config_v0_update-IsDefault :
    (env : Env) (c : Cfg)
    → env.can_write ≡ true
    → env.nvs.mappings ≡ []
    → (d : ℕ) → d < wired_max_dev
    → IsDefault d (config_v1_update env (config_v0_update env c)).mem
config_v0_update-IsDefault env c w none' d lt =
    rw (config_v1_update-short env c1 f (config_v0_update-file env c w) (omega arith)) (
      same-IsDefault d (config_init_struct m) (config_init_nvs_patch env.nvs (config_init_struct m))
        (λ a far. config_init_nvs_patch-outside env.nvs (config_init_struct m) a none' far)
        (let (_, _, h) = config_init_struct-IsDefault m in h d lt))
  where
    c1 : Cfg
    c1 = config_v0_update env c

    f : File
    f = record { size = config_size; bytes = v0_move c.mem }

    m : Mem
    m = (v1_read env (some f) (v1_move c1.mem)).0
