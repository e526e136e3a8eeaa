-- ===== src/Adapter/Config/Load.antt =====
-- The configuration file of config.c: storing, loading and the upgrades of older files.
use blue_retro_forever.Prelude.{
  ℕ, zero, suc, ◌+◌, ◌*◌, ◌-◌, Bool, true, false, ◌&&◌, Option, none, some, u8, update, memmove,
  for_range, ltb, leb, ◌==◌, if◌then◌else◌,
}
use blue_retro_forever.Adapter.Ids.{wired_max_dev, br_combo_cnt}
use blue_retro_forever.Adapter.Config.Layout.{
  Mem, config_magic, config_magic_v0, config_magic_v1, config_magic_v2, config_magic_v3,
  config_version, inquiry_mode, banksel, in_cfg, in_cfg_size, map_size, adapter_mapping_max,
  config_size, magic, set_magic,
}
use blue_retro_forever.Adapter.Config.Init.{
  Nvs, put_combos, config_init_struct, config_init_nvs_patch,
}

pub record File : Type 0 where
  pub size : ℕ
  pub bytes : Mem

-- What the file system and non-volatile storage answer: whether the file can be opened for reading and
-- for writing, and which bytes a read that comes short leaves in its buffer (the C library does not
-- say). A write to an open file succeeds.
pub record Env : Type 0 where
  pub can_read : Bool
  pub can_write : Bool
  pub torn : File → ℕ → ℕ → Mem → Mem
  pub nvs : Nvs

-- `*data`, the file, and whether the last step returned 0 (and not -1).
pub record Cfg : Type 0 where
  pub mem : Mem
  pub file : Option File
  pub ok : Bool

-- `fread(data + at, n, 1, file)` at position `from`: the bytes, and how many items were read.
unfoldable pub fread : Env → File → ℕ → ℕ → ℕ → Mem → Mem × ℕ
fread env f from at n m =
    if leb (from + n) f.size
    then ((λ a. if leb at a && ltb a (at + n) then f.bytes (a - at + from) else m a), 1)
    else (env.torn f at n m, 0)

unfoldable pub config_store_on_file : Env → Cfg → Cfg
config_store_on_file env c =
    if env.can_write
    then (record c { file = some (record { size = config_size; bytes = c.mem }); ok = true })
    else (record c { ok = false })

-- What is written before the file is stored.
unfoldable pub v0_move : Mem → Mem
unfolding memmove set_magic
v0_move m = update (set_magic config_magic (memmove m 7 6 (config_size - 7))) inquiry_mode 0

unfoldable pub config_v0_update : Env → Cfg → Cfg
unfolding config_store_on_file v0_move
config_v0_update env c = config_store_on_file env (record c { mem = v0_move c.mem })

-- The label `fail`.
unfoldable pub v1_fail : Env → Cfg → Cfg
unfolding config_store_on_file config_init_struct config_init_nvs_patch
v1_fail env c =
    config_store_on_file env
      (record c { mem = config_init_nvs_patch env.nvs (config_init_struct c.mem) })

-- A round of the loop: the 255 mappings of the old layout are cut to 128.
unfoldable pub v1_read_device : Env → File → ℕ → Mem × ℕ → Mem × ℕ
unfolding fread
v1_read_device env f i (m, count) =
    let (m', n) = fread env f (31 + (3 + 255 * 8) * i) (in_cfg i) in_cfg_size m in
    (
      (if ltb adapter_mapping_max (m' (map_size i))
          then update m' (map_size i) adapter_mapping_max
          else m'),
      count + n,
    )

-- The loop: the bytes, and how many devices were read.
unfoldable pub v1_read_devices : Env → File → Mem → Mem × ℕ
unfolding v1_read_device for_range
v1_read_devices env f m = for_range wired_max_dev 0 (v1_read_device env f) (m, 0)

-- The bytes after the loop, and whether all devices were read.
abbrev pub v1_read : Env → Option File → Mem → Mem × Bool
v1_read env none m = (m, false)
v1_read env (some f) m =
    if env.can_read
    then (let (m', count) = v1_read_devices env f m in (m', count == wired_max_dev))
    else (m, false)

-- What is written before the file is opened.
unfoldable pub v1_move : Mem → Mem
unfolding memmove set_magic
v1_move m = update (set_magic config_magic (memmove m 8 7 (31 - 8))) banksel 0

-- After the loop, with whether all devices were read.
abbrev pub v1_finish : Env → Cfg → Mem × Bool → Cfg
v1_finish env c (m, true) = config_store_on_file env (record c { mem = m })
v1_finish env c (m, false) = v1_fail env (record c { mem = m })

unfoldable pub config_v1_update : Env → Cfg → Cfg
unfolding v1_move v1_fail v1_read_devices
config_v1_update env c = v1_finish env c (v1_read env c.file (v1_move c.mem))

-- A round of the loop. `map_size` is a byte, and is not compared with the 128 entries there are.
unfoldable pub v2_device : ℕ → Mem → Mem
unfolding put_combos
v2_device i m =
    let j = m (map_size i) in put_combos i j (update m (map_size i) (u8 (j + br_combo_cnt)))

unfoldable pub config_v2_update : Env → Cfg → Cfg
unfolding v2_device
config_v2_update env c =
    config_store_on_file env
      (record c { mem = for_range wired_max_dev 0 v2_device (set_magic config_magic c.mem) })

-- `none` is the -1 of an unknown number.
unfoldable pub config_get_version : ℕ → Option ℕ
config_get_version n =
    if n == config_magic_v0
    then some 0
    else (if n == config_magic_v1
        then some 1
        else (if n == config_magic_v2
            then some 2
            else (if n == config_magic_v3 then some 3 else none)))

-- `config_ver_update[i]`; the entry of the current version is null.
abbrev pub ver_update : Env → ℕ → Cfg → Cfg
ver_update env zero c = config_v0_update env c
ver_update env (suc zero) c = config_v1_update env c
ver_update env (suc (suc zero)) c = config_v2_update env c
ver_update env (suc (suc (suc i))) c = c

-- A configuration that is not the current one: an unknown one is reset, without the values of
-- non-volatile storage.
unfoldable pub upgrade_from : Env → Option ℕ → Cfg → Cfg
unfolding config_v0_update config_v1_update config_v2_update config_store_on_file config_init_struct
    for_range
upgrade_from env none c = config_store_on_file env (record c { mem = config_init_struct c.mem })
upgrade_from env (some v) c = for_range (config_version - v) v (ver_update env) c

-- The upgrade after the read.
unfoldable pub upgrade : Env → Cfg → Cfg
unfolding upgrade_from config_get_version magic
upgrade env c =
    if magic c.mem == config_magic then c else upgrade_from env (config_get_version (magic c.mem)) c

abbrev pub read_config : Env → Option File → Mem → Cfg
read_config env none m =
    config_store_on_file env (record {
      mem = config_init_nvs_patch env.nvs (config_init_struct m);
      file = none;
      ok = false;
    })
read_config env (some f) m =
    if env.can_read
    then (let (m', count) = fread env f 0 0 config_size m in
        record { mem = m'; file = some f; ok = count == 1 })
    else (record { mem = m; file = some f; ok = false })

unfoldable pub config_load_from_file : Env → Option File → Mem → Cfg
unfolding upgrade
config_load_from_file env file m = upgrade env (read_config env file m)
