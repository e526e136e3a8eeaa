-- ===== src/Adapter/Mapping/Types.antt =====
-- The input and the outputs of the mapping (structures of main/adapter/adapter.h and config.h).
use blue_retro_forever.Prelude.{ℕ, ℤ}
use blue_retro_forever.Adapter.Quirks.Types.{CtrlMeta}

-- `struct map_cfg`
pub record MapCfg : Type 0 where
  pub src_btn : ℕ
  pub dst_btn : ℕ
  pub dst_id : ℕ
  pub perc_max : ℕ
  pub perc_threshold : ℕ
  pub perc_deadzone : ℕ
  pub turbo : ℕ
  pub algo : ℕ

-- `struct in_cfg`
pub record InCfg : Type 0 where
  pub size : ℕ
  pub entry : ℕ → MapCfg

-- `struct ctrl_axis`. The code points to the meta data of the axis in the device's mapping; no two axes
-- of a device share it.
pub record CtrlAxis : Type 0 where
  pub value : ℤ
  pub relative : ℤ
  pub meta : CtrlMeta

-- `struct wireless_ctrl`: what the mapping reads of it.
pub record WirelessCtrl : Type 0 where
  pub mask : ℕ → ℕ
  pub desc : ℕ → ℕ
  pub btns : ℕ → ℕ
  pub axes : ℕ → CtrlAxis

-- `struct ctrl_axis_wired`
pub record CtrlAxisWired : Type 0 where
  pub value : ℤ
  pub relative : ℤ
  pub meta : CtrlMeta
  pub cnt_mask : ℕ

-- `struct ctrl_btn`, as unsigned words.
pub record CtrlBtn : Type 0 where
  pub value : ℕ
  pub cnt_mask : ℕ → ℕ

-- `struct wired_ctrl`
pub record WiredCtrl : Type 0 where
  pub index : ℕ
  pub mask : ℕ → ℕ
  pub desc : ℕ → ℕ
  pub map_mask : ℕ → ℕ
  pub btns : ℕ → CtrlBtn
  pub axes : ℕ → CtrlAxisWired

-- `ctrl_input` and `ctrl_output`
pub record Ctrls : Type 0 where
  pub input : WirelessCtrl
  pub output : ℕ → WiredCtrl

-- The single-precision arithmetic of the mapping, which the processor does. Each function is one
-- expression of the code, converted back to an integer:
--   dead     (perc_deadzone / 10000) * src_abs_max
--   press    (perc_threshold / 100) * src_abs_max
--   linear   dst_sign * value * (dst_abs_max / (src_abs_max - deadzone)) * (perc_max / 100)
--   direct   dst_sign * value * (perc_max / 100)
--   full     dst_sign * dst_abs_max * (perc_max / 100)
pub record Float : Type 0 where
  pub dead : ℕ → ℤ → ℤ
  pub press : ℕ → ℤ → ℤ
  pub linear : ℤ → ℤ → ℤ → ℤ → ℤ → ℕ → ℤ
  pub direct : ℤ → ℤ → ℕ → ℤ
  pub full : ℤ → ℤ → ℕ → ℤ
