-- ===== src/Adapter/Config/Tests.antt =====
-- Runs of the configuration of config.c, and its theorems at concrete configurations.
use blue_retro_forever.Prelude.{
  ◌==◌, if◌then◌else◌, ℕ, ◌+◌, ◌%◌, ◌≤◌, ◌<◌, ◌≡◌, refl, true, none, some, [], arith,
}
use blue_retro_forever.Adapter.Ids.{wired_max_dev, br_combo_cnt}
use blue_retro_forever.Adapter.Config.Layout.{
  Mem, in_cfg, map_size, set_magic, magic, config_magic, config_magic_v0, acc_mode, dev_mode,
  multitap_cfg,
}
use blue_retro_forever.Adapter.Config.Init.{Nvs, config_init_struct}
use blue_retro_forever.Adapter.Config.Load.{
  File, Env, Cfg, v2_device, config_v0_update, config_v1_update, config_v2_update,
  config_load_from_file, config_get_version,
}
use blue_retro_forever.Adapter.Config.Store.{magic-set_magic}
use blue_retro_forever.Adapter.Config.Append.{IsAppended}
use blue_retro_forever.Adapter.Config.Upgrade.{config_v2_update-appends, v2_device-overrun}
use blue_retro_forever.Adapter.Config.Defaults.{IsDefault, config_init_struct-IsDefault}
use blue_retro_forever.Adapter.Config.Old.{old_in_cfg, IsRead}
use blue_retro_forever.Adapter.Config.Versions.{config_v1_update-keeps, config_v0_update-IsDefault}
use blue_retro_forever.Adapter.Config.Reset.{Seen, config_is_rst_required}
use blue_retro_forever.Adapter.Config.Chain.{config_load_from_file-v0}

abbrev empty_nvs : Nvs
empty_nvs = record {
  system = none;
  multitap = none;
  inquiry = none;
  bank = none;
  mode = none;
  accessories = none;
  mappings = [];
}

abbrev working : Env
working = record { can_read = true; can_write = true; torn = λ f at n m. m; nvs = empty_nvs }

abbrev zeros : Mem
zeros a = 0

abbrev counting : Mem
counting a = a % 256

abbrev old_file : File
old_file = record { size = 24547; bytes = counting }

abbrev old_cfg : Cfg
old_cfg = record { mem = counting; file = some old_file; ok = true }

abbrev zero_cfg : Cfg
zero_cfg = record { mem = zeros; file = none; ok = true }

abbrev v0_file : File
v0_file = record { size = 24546; bytes = set_magic config_magic_v0 zeros }

-- Versions by their numbers.
get_version_test : config_get_version config_magic ≡ some 3
unfolding config_get_version
get_version_test = refl

get_version_unknown_test : config_get_version 0 ≡ none
unfolding config_get_version
get_version_unknown_test = refl

-- Device 0 of the initial configuration has 125 mappings.
init_test : config_init_struct zeros (map_size 0) ≡ 125
init_test = let (_, _, h) = config_init_struct-IsDefault zeros in (h 0 (omega arith)).counted

config_v2_update-appends_example :
    (magic (config_v2_update working zero_cfg).mem ≡ config_magic)
    × ((a : ℕ) → 4 ≤ a → a < in_cfg 0 → (config_v2_update working zero_cfg).mem a ≡ zero_cfg.mem a)
    × ((d : ℕ)
        → d < wired_max_dev
        → IsAppended zero_cfg.mem
            (config_v2_update working zero_cfg).mem
            d
            (zero_cfg.mem (map_size d)))
config_v2_update-appends_example = config_v2_update-appends working zero_cfg (λ d lt. omega arith)

v2_device-overrun_example :
    (v2_device 0 (λ a. 128) (map_size 0) ≡ 128 + br_combo_cnt)
    × (v2_device 0 (λ a. 128) (map_size (0 + 1)) ≡ 0)
v2_device-overrun_example = v2_device-overrun 0 (λ a. 128) (omega arith) (omega arith) (omega arith)

config_init_struct-IsDefault_example :
    (magic (config_init_struct zeros) ≡ config_magic)
    × ((a : ℕ) → 4 ≤ a → a < 8 → config_init_struct zeros a ≡ 0)
    × ((d : ℕ) → d < wired_max_dev → IsDefault d (config_init_struct zeros))
config_init_struct-IsDefault_example = config_init_struct-IsDefault zeros

config_v1_update-keeps_example :
    (magic (config_v1_update working old_cfg).mem ≡ config_magic)
    × ((d : ℕ) → d < wired_max_dev → IsRead old_file d (config_v1_update working old_cfg).mem)
    × ((a : ℕ)
        → a < 23
        → (config_v1_update working old_cfg).mem (dev_mode 0 + a) ≡ old_cfg.mem (7 + a))
    × ((config_v1_update working old_cfg).mem (acc_mode 11) ≡ old_cfg.mem (old_in_cfg 0))
config_v1_update-keeps_example =
    config_v1_update-keeps working old_cfg old_file refl refl (omega arith)

config_v0_update-IsDefault_example :
    IsDefault 3 (config_v1_update working (config_v0_update working old_cfg)).mem
config_v0_update-IsDefault_example =
    config_v0_update-IsDefault working old_cfg refl refl 3 (omega arith)

config_load_from_file-v0_example :
    ((config_load_from_file working (some v0_file) zeros).mem (map_size 0) ≡ 135)
    × ((config_load_from_file working (some v0_file) zeros).mem (map_size 1) ≡ 10)
config_load_from_file-v0_example =
    config_load_from_file-v0 working v0_file zeros refl refl refl (omega arith)
      (magic-set_magic config_magic_v0 zeros (omega arith))

abbrev seen_zeros : Seen
seen_zeros = record { magic = 0; multitap_cfg = 0; dev_mode = λ i. 0 }

-- The multitap setting has changed.
abbrev tapped : Mem
tapped a = if a == multitap_cfg then 1 else 0

tapped_test : (config_is_rst_required tapped seen_zeros).1 ≡ true
unfolding config_is_rst_required
tapped_test = refl
