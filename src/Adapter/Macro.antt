-- ===== src/Adapter/Macro.antt =====
-- System combos, main/adapter/macro.c. A combo is armed while its buttons are held and acts when they
-- are released.
pub mod Bits
pub mod Release
mod Tests
use blue_retro_forever.Prelude.{
  ℕ, ◌+◌, ◌%◌, Bool, true, false, Option, none, some, List, [], ◌∷◌, ◌++◌, bit, bit_and, bit_or,
  bit_xor, test_bit, set_bit, clear_bit, update, ◌==◌, if◌then◌else◌,
}
use blue_retro_forever.Adapter.Ids.{
  br_combo_base_1, br_combo_base_2, br_combo_base_3, br_combo_base_4, br_combo_sys_reset,
  br_combo_bt_inquiry, br_combo_sys_power_off, br_combo_factory_reset, br_combo_deep_sleep,
  br_combo_wired_rst, bt_waiting_for_release_macro1, bt_waiting_for_release_macro2,
  bt_waiting_for_release_macro3, bt_waiting_for_release_macro4, bt_waiting_for_release_macro5,
  bt_waiting_for_release_macro6,
}

-- The commands of the system manager that a combo sends (enum of main/system/manager.h).
pub data SysMgrCmd : Type 0 where
  rst pwr_off inq_toogle factory_rst deep_sleep wired_rst : SysMgrCmd

-- What the handler changes: the device's flag word, the output modes of the configuration by wired
-- index, and the commands sent to the system manager, oldest first.
pub record State : Type 0 where
  pub flags : ℕ
  pub dev_mode : ℕ → ℕ
  pub cmds : List SysMgrCmd

abbrev pub bit_32 : ℕ → ℕ
bit_32 n = bit (bit_and n 0x1f)

abbrev pub macro_base : ℕ
macro_base =
    bit_or (bit_or (bit_32 br_combo_base_1) (bit_32 br_combo_base_2)) (bit_32 br_combo_base_3)

abbrev pub sys_reset : ℕ
sys_reset = bit_or macro_base (bit_32 br_combo_sys_reset)

abbrev pub bt_inquiry : ℕ
bt_inquiry = bit_or macro_base (bit_32 br_combo_bt_inquiry)

abbrev pub sys_power_off : ℕ
sys_power_off = bit_or macro_base (bit_32 br_combo_sys_power_off)

abbrev pub factory_reset : ℕ
factory_reset = bit_or (bit_or macro_base (bit_32 br_combo_base_4)) (bit_32 br_combo_factory_reset)

abbrev pub deep_sleep_combo : ℕ
deep_sleep_combo = bit_or (bit_or macro_base (bit_32 br_combo_base_4)) (bit_32 br_combo_deep_sleep)

abbrev pub wired_rst_combo : ℕ
wired_rst_combo = bit_or macro_base (bit_32 br_combo_wired_rst)

-- `dev_mode &= 0x01; dev_mode ^= 0x01`
unfoldable pub update_cfg_mode : ℕ → (ℕ → ℕ) → ℕ → ℕ
update_cfg_mode index dev_mode =
    update dev_mode index (bit_xor (bit_and (dev_mode index) 0x01) 0x01)

-- `struct macro`; a null `cfg_func` is `none`.
pub record Macro : Type 0 where
  pub macro : ℕ
  pub sys_mgr_cmd : SysMgrCmd
  pub flag_mask : ℕ
  pub cfg_func : Option (ℕ → (ℕ → ℕ) → ℕ → ℕ)

abbrev pub macros : List Macro
macros =
    record {
      macro = sys_reset;
      sys_mgr_cmd = rst;
      flag_mask = bt_waiting_for_release_macro1;
      cfg_func = none;
    }
    ∷ record {
      macro = bt_inquiry;
      sys_mgr_cmd = inq_toogle;
      flag_mask = bt_waiting_for_release_macro2;
      cfg_func = none;
    }
    ∷ record {
      macro = sys_power_off;
      sys_mgr_cmd = pwr_off;
      flag_mask = bt_waiting_for_release_macro3;
      cfg_func = none;
    }
    ∷ record {
      macro = factory_reset;
      sys_mgr_cmd = factory_rst;
      flag_mask = bt_waiting_for_release_macro4;
      cfg_func = none;
    }
    ∷ record {
      macro = deep_sleep_combo;
      sys_mgr_cmd = deep_sleep;
      flag_mask = bt_waiting_for_release_macro5;
      cfg_func = none;
    }
    ∷ record {
      macro = wired_rst_combo;
      sys_mgr_cmd = wired_rst;
      flag_mask = bt_waiting_for_release_macro6;
      cfg_func = some update_cfg_mode;
    }
    ∷ []

abbrev pub apply_cfg : Option (ℕ → (ℕ → ℕ) → ℕ → ℕ) → ℕ → (ℕ → ℕ) → ℕ → ℕ
apply_cfg none index dev_mode = dev_mode
apply_cfg (some f) index dev_mode = f index dev_mode

-- The value is the 32 bits of the last bank of buttons.
pub check_macro : ℕ → ℕ → Macro → State → State
check_macro index value m s =
    if value == m.macro
    then (if test_bit s.flags m.flag_mask
        then s
        else record s { flags = set_bit s.flags m.flag_mask })
    else (if test_bit s.flags m.flag_mask
        then record s {
          flags = clear_bit s.flags m.flag_mask;
          dev_mode = apply_cfg m.cfg_func index s.dev_mode;
          cmds = s.cmds ++ (m.sys_mgr_cmd ∷ []);
        }
        else s)

-- The loop over the table.
pub check_all : ℕ → ℕ → List Macro → State → State
check_all index value [] s = s
check_all index value (m ∷ ms) s = check_all index value ms (check_macro index value m s)

-- `index` is that of the output controller, `value` its `btns[3].value`.
unfoldable pub sys_macro_hdl : ℕ → ℕ → State → State
sys_macro_hdl index value s = check_all index value macros s
