-- ===== src/Adapter/Macro/Bits.antt =====
-- What one pass over the table does to the flags, the commands and the output modes.
use blue_retro_forever.Prelude.{
  ℕ, ◌<◌, ◌≡◌, refl, sym, ap, ◌∙◌, Bool, true, false, not, ◌&&◌, List, [], ◌∷◌, ◌++◌, arith,
  test_bit, test_bit-set_bit, test_bit-clear_bit, ◌==◌, if◌then◌else◌,
}
use mathlib.Core.List.{append-nil, append_assoc}
use blue_retro_forever.Adapter.Macro.{State, Macro, SysMgrCmd, check_macro, check_all, apply_cfg}

-- The flag of the macro says whether its combo was held; the others stay.
check_macro-flag :
    (i v j : ℕ) (m : Macro) (s : State)
    → j < 32
    → test_bit (check_macro i v m s).flags j
      ≡ (if m.flag_mask == j then v == m.macro else test_bit s.flags j)
unfolding check_macro
check_macro-flag i v j m s h =
    ground
      (arith, test_bit-set_bit s.flags m.flag_mask j, test_bit-clear_bit s.flags m.flag_mask j h)

-- What a flag word reads as after the table.
abbrev pub flag_after : List Macro → ℕ → (ℕ → Bool) → ℕ → Bool
flag_after [] v f j = f j
flag_after (m ∷ ms) v f j = flag_after ms v (λ k. if m.flag_mask == k then v == m.macro else f k) j

pub check_all-flag :
    (ms : List Macro) (i v j : ℕ) (s : State) (f : ℕ → Bool)
    → j < 32
    → test_bit s.flags j ≡ f j
    → test_bit (check_all i v ms s).flags j ≡ flag_after ms v f j
unfolding check_all
check_all-flag [] i v j s f h e = e
check_all-flag (m ∷ ms) i v j s f h e =
    check_all-flag ms i v j (check_macro i v m s) _ h
      (check_macro-flag i v j m s h ∙ ap_if (m.flag_mask == j))
  where
    ap_if :
        (b : Bool)
        → (if b then v == m.macro else test_bit s.flags j) ≡ (if b then v == m.macro else f j)
    ap_if true = refl
    ap_if false = e

-- The commands of the macros that were armed and are not held any more.
abbrev pub fired : List Macro → ℕ → (ℕ → Bool) → List SysMgrCmd
fired [] v f = []
fired (m ∷ ms) v f =
    (if f m.flag_mask && not (v == m.macro) then m.sys_mgr_cmd ∷ [] else [])
    ++ fired ms v (λ k. if m.flag_mask == k then v == m.macro else f k)

check_macro-cmds :
    (i v : ℕ) (m : Macro) (s : State) (f : ℕ → Bool)
    → test_bit s.flags m.flag_mask ≡ f m.flag_mask
    → (check_macro i v m s).cmds
      ≡ s.cmds ++ (if f m.flag_mask && not (v == m.macro) then m.sys_mgr_cmd ∷ [] else [])
unfolding check_macro
check_macro-cmds i v m s f e = ground (arith, append-nil s.cmds)

abbrev pub FlagsFit : List Macro → Type 0
FlagsFit [] = Unit
FlagsFit (m ∷ ms) = (m.flag_mask < 32) × FlagsFit ms

step_flags :
    (i v : ℕ) (m : Macro) (s : State) (f : ℕ → Bool)
    → ((j : ℕ) → j < 32 → test_bit s.flags j ≡ f j)
    → (j : ℕ) → j < 32
    → test_bit (check_macro i v m s).flags j ≡ (if m.flag_mask == j then v == m.macro else f j)
step_flags i v m s f e j h = ground (arith, check_macro-flag i v j m s h, e j h)

pub check_all-cmds :
    (ms : List Macro) (i v : ℕ) (s : State) (f : ℕ → Bool)
    → FlagsFit ms
    → ((j : ℕ) → j < 32 → test_bit s.flags j ≡ f j)
    → (check_all i v ms s).cmds ≡ s.cmds ++ fired ms v f
unfolding check_all
check_all-cmds [] i v s f fit e = sym (append-nil s.cmds)
check_all-cmds (m ∷ ms) i v s f fit e =
    check_all-cmds ms i v (check_macro i v m s) _ fit.1 (step_flags i v m s f e)
    ∙ ap (λ l. l ++ fired ms v (λ k. if m.flag_mask == k then v == m.macro else f k))
        (check_macro-cmds i v m s f (e m.flag_mask fit.0))
    ∙ append_assoc s.cmds _ _

-- The output modes, changed by each macro that acts.
abbrev pub modes_after : List Macro → ℕ → ℕ → (ℕ → Bool) → (ℕ → ℕ) → ℕ → ℕ
modes_after [] i v f d = d
modes_after (m ∷ ms) i v f d =
    modes_after ms i v (λ k. if m.flag_mask == k then v == m.macro else f k)
      (if f m.flag_mask && not (v == m.macro) then apply_cfg m.cfg_func i d else d)

check_macro-dev_mode :
    (i v : ℕ) (m : Macro) (s : State) (f : ℕ → Bool)
    → test_bit s.flags m.flag_mask ≡ f m.flag_mask
    → (check_macro i v m s).dev_mode ≡ (
        if f m.flag_mask && not (v == m.macro)
        then apply_cfg m.cfg_func i s.dev_mode
        else s.dev_mode)
unfolding check_macro
check_macro-dev_mode i v m s f e = ground arith

pub check_all-dev_mode :
    (ms : List Macro) (i v : ℕ) (s : State) (f : ℕ → Bool)
    → FlagsFit ms
    → ((j : ℕ) → j < 32 → test_bit s.flags j ≡ f j)
    → (check_all i v ms s).dev_mode ≡ modes_after ms i v f s.dev_mode
unfolding check_all
check_all-dev_mode [] i v s f fit e = refl
check_all-dev_mode (m ∷ ms) i v s f fit e =
    check_all-dev_mode ms i v (check_macro i v m s) _ fit.1 (step_flags i v m s f e)
    ∙ ap (modes_after ms i v (λ k. if m.flag_mask == k then v == m.macro else f k))
        (check_macro-dev_mode i v m s f (e m.flag_mask fit.0))
