-- ===== src/Adapter/Config/Layout.antt =====
-- `struct config` of main/adapter/config.h as bytes: the struct is packed, and the upgrades move its
-- bytes. Memory is a function from the offset; a write past the struct lands where it lands.
use blue_retro_forever.Prelude.{ℕ, ◌+◌, ◌*◌, ◌^◌, ◌/◌, ◌%◌, update}

abbrev pub Mem : Type 0
Mem = ℕ → ℕ

abbrev pub config_magic_v0 : ℕ
config_magic_v0 = 0xa5a5_a5a5

abbrev pub config_magic_v1 : ℕ
config_magic_v1 = 0xf380_d824

abbrev pub config_magic_v2 : ℕ
config_magic_v2 = 0x1782_db8a

abbrev pub config_magic_v3 : ℕ
config_magic_v3 = 0xab89_c69a

abbrev pub config_magic : ℕ
config_magic = config_magic_v3

abbrev pub config_version : ℕ
config_version = 3

abbrev pub adapter_mapping_max : ℕ
adapter_mapping_max = 128

-- `global_cfg`
abbrev pub system_cfg : ℕ
system_cfg = 4

abbrev pub multitap_cfg : ℕ
multitap_cfg = 5

abbrev pub inquiry_mode : ℕ
inquiry_mode = 6

abbrev pub banksel : ℕ
banksel = 7

-- `out_cfg[i]`, two bytes each.
abbrev pub dev_mode : ℕ → ℕ
dev_mode i = 8 + 2 * i

abbrev pub acc_mode : ℕ → ℕ
acc_mode i = 9 + 2 * i

-- `sizeof(struct in_cfg)`: three bytes and 128 mappings of eight bytes.
abbrev pub in_cfg_size : ℕ
in_cfg_size = 1027

abbrev pub in_cfg : ℕ → ℕ
in_cfg i = 32 + in_cfg_size * i

abbrev pub map_size : ℕ → ℕ
map_size i = in_cfg i + 2

-- `in_cfg[i].map_cfg[j]`
abbrev pub map_cfg : ℕ → ℕ → ℕ
map_cfg i j = in_cfg i + 3 + 8 * j

-- `sizeof(struct config)`
abbrev pub config_size : ℕ
config_size = 12356

-- The magic number is stored low byte first.
unfoldable pub magic : Mem → ℕ
magic m = m 0 + m 1 * 2 ^ 8 + m 2 * 2 ^ 16 + m 3 * 2 ^ 24

unfoldable pub set_magic : ℕ → Mem → Mem
set_magic n m =
    update (update (update (update m 0 (n % 2 ^ 8)) 1 (n / 2 ^ 8 % 2 ^ 8)) 2 (n / 2 ^ 16 % 2 ^ 8)) 3
      (n / 2 ^ 24 % 2 ^ 8)

-- `struct map_cfg` as the code fills it: source, destination and device, and the defaults of the rest.
unfoldable pub put_mapping : ℕ → ℕ → ℕ → ℕ → Mem → Mem
put_mapping at src dst id m0 =
    let m1 = update m0 at src in
    let m2 = update m1 (at + 1) dst in
    let m3 = update m2 (at + 2) id in
    let m4 = update m3 (at + 3) 100 in
    let m5 = update m4 (at + 4) 50 in
    let m6 = update m5 (at + 5) 135 in let m7 = update m6 (at + 6) 0 in update m7 (at + 7) 0
