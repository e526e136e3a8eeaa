-- ===== src/Adapter/Quirks/Types.antt =====
-- `struct raw_src_mapping` of main/adapter/adapter.h: which bits of a report are which buttons, and which
-- axes.
use blue_retro_forever.Prelude.{ℕ, ℤ}

-- `struct ctrl_meta`
pub record CtrlMeta : Type 0 where
  pub neutral : ℤ
  pub deadzone : ℤ
  pub abs_max : ℤ
  pub abs_min : ℤ
  pub polarity : ℤ
  pub size_min : ℤ
  pub size_max : ℤ
  pub relative : ℤ

-- The arrays are functions from the index.
pub record RawSrcMapping : Type 0 where
  pub mask : ℕ → ℕ
  pub desc : ℕ → ℕ
  pub btns_mask : ℕ → ℕ
  pub axes_idx : ℕ → ℤ
  pub meta : ℕ → CtrlMeta
