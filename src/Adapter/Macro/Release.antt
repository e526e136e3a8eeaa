-- ===== src/Adapter/Macro/Release.antt =====
-- A combo acts once, when the report after it differs.
use blue_retro_forever.Prelude.{
  ℕ, zero, suc, ◌<◌, ◌≡◌, refl, sym, ap, ◌∙◌, Bool, false, not, ◌&&◌, List, [], ◌∷◌, ◌++◌, arith,
  test_bit, test_bit-zero, bit_xor, bit_and, ◌==◌, if◌then◌else◌,
}
use mathlib.Core.List.{append-nil, append_assoc}
use blue_retro_forever.Adapter.Macro.{
  State, SysMgrCmd, rst, pwr_off, inq_toogle, factory_rst, deep_sleep, wired_rst, sys_reset,
  bt_inquiry, sys_power_off, factory_reset, deep_sleep_combo, wired_rst_combo, macros,
  update_cfg_mode, sys_macro_hdl,
}
use blue_retro_forever.Adapter.Macro.Bits.{
  flag_after, fired, modes_after, FlagsFit, check_all-flag, check_all-cmds, check_all-dev_mode,
}

-- What the buttons `v` ask for.
abbrev pub command_of : ℕ → List SysMgrCmd
command_of v =
    if v == sys_reset
    then rst ∷ []
    else (if v == bt_inquiry
        then inq_toogle ∷ []
        else (if v == sys_power_off
            then pwr_off ∷ []
            else (if v == factory_reset
                then factory_rst ∷ []
                else (if v == deep_sleep_combo
                    then deep_sleep ∷ []
                    else (if v == wired_rst_combo then wired_rst ∷ [] else [])))))

-- What giving up `v` for `w` sends.
abbrev pub released : ℕ → ℕ → List SysMgrCmd
released v w = if v == w then [] else command_of v

-- The flags that a report of the buttons `v` leaves.
held : ℕ → State → ℕ → Bool
held v s j = flag_after macros v (test_bit s.flags) j

sys_macro_hdl-held :
    (i v : ℕ) (s : State) (j : ℕ) → j < 32 → test_bit (sys_macro_hdl i v s).flags j ≡ held v s j
unfolding sys_macro_hdl held
sys_macro_hdl-held i v s j h = check_all-flag macros i v j s (test_bit s.flags) h refl

fired-held : (v w : ℕ) (s : State) → fired macros w (held v s) ≡ released v w
unfolding held
fired-held v w s = ground arith

modes-held :
    (i v w : ℕ) (s : State) (d : ℕ → ℕ)
    → modes_after macros i w (held v s) d
      ≡ (if v == wired_rst_combo && not (v == w) then update_cfg_mode i d else d)
unfolding held
modes-held i v w s d = ground arith

fit : FlagsFit macros
fit = omega arith

module _ (i w : ℕ) (s : State) (f : ℕ → Bool)
    (e : (j : ℕ) → j < 32 → test_bit s.flags j ≡ f j) where
  sys_macro_hdl-cmds : (sys_macro_hdl i w s).cmds ≡ s.cmds ++ fired macros w f
  unfolding sys_macro_hdl
  sys_macro_hdl-cmds = check_all-cmds macros i w s f fit e

  sys_macro_hdl-dev_mode : (sys_macro_hdl i w s).dev_mode ≡ modes_after macros i w f s.dev_mode
  unfolding sys_macro_hdl
  sys_macro_hdl-dev_mode = check_all-dev_mode macros i w s f fit e

-- After a report of the buttons `v`, in whatever state, a report of `w` sends the command of the
-- combo `v` if `w` is not `v`, and nothing otherwise. The output mode of the device changes exactly
-- when that combo is the one that resets the wired side.
pub sys_macro_hdl-released :
    (i v w : ℕ) (s : State)
    → let t = sys_macro_hdl i v s in
      ((sys_macro_hdl i w t).cmds ≡ t.cmds ++ released v w)
      × ((sys_macro_hdl i w t).dev_mode ≡ (
          if v == wired_rst_combo && not (v == w)
          then update_cfg_mode i t.dev_mode
          else t.dev_mode))
sys_macro_hdl-released i v w s =
    let t = sys_macro_hdl i v s in
    let e = sys_macro_hdl-held i v s in
    (
      sys_macro_hdl-cmds i w t (held v s) e ∙ ap (λ l. t.cmds ++ l) (fired-held v w s),
      sys_macro_hdl-dev_mode i w t (held v s) e ∙ modes-held i v w s t.dev_mode,
    )

-- A run of reports, oldest first.
unfoldable pub run : ℕ → List ℕ → State → State
run i [] s = s
run i (v ∷ vs) s = run i vs (sys_macro_hdl i v s)

-- The commands that a run of reports sends after the report `v`.
abbrev pub releases : ℕ → List ℕ → List SysMgrCmd
releases v [] = []
releases v (w ∷ ws) = released v w ++ releases w ws

-- Over any run of reports the commands sent are those of the combos given up between a report and
-- the next, once each and in order.
pub run-releases :
    (i v : ℕ) (ws : List ℕ) (s : State)
    → (run i ws (sys_macro_hdl i v s)).cmds ≡ (sys_macro_hdl i v s).cmds ++ releases v ws
unfolding run
run-releases i v [] s = sym (append-nil _)
run-releases i v (w ∷ ws) s =
    run-releases i w ws (sys_macro_hdl i v s)
    ∙ ap (λ l. l ++ releases w ws) (sys_macro_hdl-released i v w s).0
    ∙ append_assoc _ (released v w) (releases w ws)

-- A fresh flag word, one with no combo armed, sends nothing at the first report.
pub sys_macro_hdl-fresh :
    (i v : ℕ) (d : ℕ → ℕ) (c : List SysMgrCmd)
    → (sys_macro_hdl i v (record { flags = 0; dev_mode = d; cmds = c })).cmds ≡ c
sys_macro_hdl-fresh i v d c =
    sys_macro_hdl-cmds i v (record { flags = 0; dev_mode = d; cmds = c }) (λ _. false)
      (λ j h. test_bit-zero j)
    ∙ append-nil c

-- Resetting the wired side twice gives the mode back, if it was one of the two pad modes.
pub update_cfg_mode_twice :
    (i : ℕ) (d : ℕ → ℕ) → d i < 2 → update_cfg_mode i (update_cfg_mode i d) i ≡ d i
unfolding update_cfg_mode
update_cfg_mode_twice i d h = ground (arith, toggles (d i) h)
  where
    toggles : (m : ℕ) → m < 2 → bit_xor (bit_and (bit_xor (bit_and m 1) 1) 1) 1 ≡ m
    toggles zero h = refl
    toggles (suc zero) h = refl
    toggles (suc (suc m)) h = absurd (omega arith)
