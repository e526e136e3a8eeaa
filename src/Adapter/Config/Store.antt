-- ===== src/Adapter/Config/Store.antt =====
-- What storing keeps, the magic number, and the versions of config.c.
use blue_retro_forever.Prelude.{ℕ, ◌^◌, ◌<◌, ◌≤◌, ◌≡◌, refl, true, some, arith}
use blue_retro_forever.Adapter.Config.Layout.{Mem, magic, set_magic, config_size}
use blue_retro_forever.Adapter.Config.Load.{Env, Cfg, config_store_on_file}

pub config_store_on_file-mem : (env : Env) (c : Cfg) → (config_store_on_file env c).mem ≡ c.mem
unfolding config_store_on_file
config_store_on_file-mem env c = ground arith

pub config_store_on_file-file :
    (env : Env) (c : Cfg)
    → env.can_write ≡ true
    → (config_store_on_file env c).file ≡ some (record { size = config_size; bytes = c.mem })
unfolding config_store_on_file
config_store_on_file-file env c w = rw w refl

pub set_magic-outside : (n : ℕ) (m : Mem) (a : ℕ) → 4 ≤ a → set_magic n m a ≡ m a
unfolding set_magic
set_magic-outside n m a far = ground arith

-- A magic number of 32 bits that is stored is read back.
pub magic-set_magic : (n : ℕ) (m : Mem) → n < 2 ^ 32 → magic (set_magic n m) ≡ n
unfolding magic set_magic
magic-set_magic n m lt = ground arith

-- The magic number is in the first four bytes.
pub magic-first : (m t : Mem) → ((a : ℕ) → a < 4 → t a ≡ m a) → magic t ≡ magic m
unfolding magic
magic-first m t same =
    rw (same 0 (omega arith))
      (rw (same 1 (omega arith)) (rw (same 2 (omega arith)) (rw (same 3 (omega arith)) refl)))
