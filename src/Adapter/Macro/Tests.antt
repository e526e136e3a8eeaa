-- ===== src/Adapter/Macro/Tests.antt =====
-- Runs of the combo handler.
use blue_retro_forever.Prelude.{◌≡◌, refl, [], ◌∷◌, ◌++◌, test_bit, set_bit, clear_bit}
use blue_retro_forever.Adapter.Macro.{
  State, sys_reset, wired_rst_combo, sys_macro_hdl, check_all, check_macro, update_cfg_mode, rst,
  wired_rst,
}
use blue_retro_forever.Adapter.Macro.Release.{sys_macro_hdl-released, run, run-releases}

abbrev start : State
start = record { flags = 0; dev_mode = λ _. 0; cmds = [] }

reset_runs : (run 0 (0 ∷ sys_reset ∷ sys_reset ∷ 0 ∷ 0 ∷ []) start).cmds ≡ rst ∷ []
unfolding run sys_macro_hdl check_all check_macro test_bit set_bit clear_bit
reset_runs = refl

wired_runs : (run 3 (wired_rst_combo ∷ 0 ∷ []) start).dev_mode 3 ≡ 1
unfolding run sys_macro_hdl check_all check_macro test_bit set_bit clear_bit update_cfg_mode
wired_runs = refl

sys_macro_hdl-released_example :
    let t = sys_macro_hdl 0 sys_reset start in
    ((sys_macro_hdl 0 1 t).cmds ≡ t.cmds ++ (rst ∷ []))
    × ((sys_macro_hdl 0 1 t).dev_mode ≡ t.dev_mode)
sys_macro_hdl-released_example = sys_macro_hdl-released 0 sys_reset 1 start

run-releases_example :
    (run 0 (sys_reset ∷ 0 ∷ []) (sys_macro_hdl 0 wired_rst_combo start)).cmds
    ≡ (sys_macro_hdl 0 wired_rst_combo start).cmds ++ (wired_rst ∷ rst ∷ [])
run-releases_example = run-releases 0 wired_rst_combo (sys_reset ∷ 0 ∷ []) start
