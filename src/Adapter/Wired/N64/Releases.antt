-- ===== src/Adapter/Wired/N64/Releases.antt =====
-- The two buttons of an N64 pad that act on their release (main/adapter/wired/n64.c).
use blue_retro_forever.Prelude.{
  sym, ◌≢◌, subst, ℕ, ◌+◌, ◌/◌, ◌%◌, ◌<◌, ◌≡◌, refl, ap, ◌∙◌, Bool, true, false, not, ◌&&◌, arith,
  List, [], ◌∷◌, if◌then◌else◌, ◌==◌, test_bit, test_bit-set_bit, test_bit-clear_bit, bit_and,
  bit_and_step, bit_and-zero,
}
use blue_retro_forever.Adapter.Ids.{pad_mt, pad_mq}
use blue_retro_forever.Adapter.Mapping.Types.{WiredCtrl}
use blue_retro_forever.Adapter.Config.Layout.{acc_mode, banksel}
use blue_retro_forever.Adapter.Wired.Types.{
  WiredData, load16, wired_waiting_for_release, wired_waiting_for_release2,
}
use blue_retro_forever.Adapter.Wired.N64.Tables.{n64_btns_mask}
use blue_retro_forever.Adapter.Wired.N64.Accessory.{
  freed, on_release-view, accessory, switched, toggle_accessory-accessory, toggle_accessory-others,
  toggle_accessory-wired, toggle_accessory-bank, next_bank-others, next_bank-accessory, either,
  count_one, switched-add,
}
use blue_retro_forever.Adapter.Wired.N64.Pad.{
  N64, press_all, mapped, held, on_release, toggle_accessory, next_bank, n64_ctrl_special_action,
  n64_ctrl_from_generic,
}

-- The reports of a pad, in their order.
unfoldable pub pad_run : List WiredCtrl → N64 → N64
pad_run [] s = s
pad_run (c ∷ cs) s = pad_run cs (n64_ctrl_from_generic c s)

-- How often the reports release the button `i`, which is down at first or not. A report in which the
-- button is not mapped does not count.
unfoldable pub releases : ℕ → Bool → List WiredCtrl → ℕ
releases i down [] = 0
releases i down (c ∷ cs) =
    if mapped c i
    then (if held c i then releases i true cs else (if down then 1 else 0) + releases i false cs)
    else releases i down cs

abbrev after : ℕ → WiredCtrl → Bool → Bool
after i c down = if mapped c i then held c i else down

abbrev once : ℕ → WiredCtrl → Bool → ℕ
once i c down = if mapped c i && not (held c i) && down then 1 else 0

releases-next :
    (i : ℕ) (down : Bool) (c : WiredCtrl) (cs : List WiredCtrl)
    → releases i down (c ∷ cs) ≡ once i c down + releases i (after i c down) cs
unfolding releases
releases-next i down c cs = ground arith

-- The two flags.
abbrev flag_mt : N64 → Bool
flag_mt s = test_bit s.wired.flags wired_waiting_for_release

abbrev flag_mq : N64 → Bool
flag_mq s = test_bit s.wired.flags wired_waiting_for_release2

on_release-flag :
    (flag : ℕ) (c : WiredCtrl) (i k : ℕ) (action : N64 → N64) (s : N64)
    → k < 32
    → (action (freed flag s)).wired ≡ (freed flag s).wired
    → test_bit (on_release flag c i action s).wired.flags k
      ≡ (if flag == k then after i c (test_bit s.wired.flags k) else test_bit s.wired.flags k)
unfolding on_release
on_release-flag flag c i k action s lt kept =
    let keeps = ap (λ (w : WiredData). test_bit w.flags k) kept in
    ground (
      arith,
      keeps,
      test_bit-set_bit s.wired.flags flag k,
      test_bit-clear_bit s.wired.flags flag k lt,
    )

bit_and-3 : (x : ℕ) → bit_and x 3 ≡ x % 4
bit_and-3 x = omega (arith, bit_and_step x 3, bit_and_step (x / 2) 1, bit_and-zero (x / 2 / 2))

next_bank-bank : (s : N64) → (next_bank s).config banksel ≡ (s.config banksel + 1) % 4
unfolding next_bank
next_bank-bank s = bit_and-3 (s.config banksel + 1)

next_bank-rest : (s : N64) → ((next_bank s).toggles ≡ s.toggles) × ((next_bank s).wired ≡ s.wired)
unfolding next_bank
next_bank-rest s = (refl, refl)

-- What one report of a pad does to the accessory, the bank and the flags.
record Acts (c : WiredCtrl) (s t : N64) : Type 0 where
  toggled : accessory c.index t ≡ switched c.index (once pad_mt c (flag_mt s)) (accessory c.index s)
  banked :
      s.config banksel < 4 → t.config banksel ≡ (s.config banksel + once pad_mq c (flag_mq s)) % 4
  marked_mt : flag_mt t ≡ after pad_mt c (flag_mt s)
  marked_mq : flag_mq t ≡ after pad_mq c (flag_mq s)
  others : (a : ℕ) → a ≢ acc_mode c.index → a ≢ banksel → t.config a ≡ s.config a

special-Acts : (c : WiredCtrl) (s : N64) → Acts c s (n64_ctrl_special_action c s)
unfolding n64_ctrl_special_action
special-Acts c s =
    let action = toggle_accessory c.index in
    let first = on_release wired_waiting_for_release c pad_mt action s in
    let free = freed wired_waiting_for_release s in
    let free' = freed wired_waiting_for_release2 first in
    let still = toggle_accessory-wired c.index free in
    let still' = (next_bank-rest free').1 in
    let bank =
      on_release-view (λ t. t.config banksel) (λ w t. refl) wired_waiting_for_release c pad_mt
        action s in
    let bank' =
      on_release-view (λ t. t.config banksel) (λ w t. refl) wired_waiting_for_release2 c pad_mq
        next_bank first in
    let toggles =
      on_release-view (accessory c.index) (λ w t. refl) wired_waiting_for_release c pad_mt action
        s in
    let toggles' =
      on_release-view (accessory c.index) (λ w t. refl) wired_waiting_for_release2 c pad_mq
        next_bank first in
    let mt =
      on_release-flag wired_waiting_for_release c pad_mt wired_waiting_for_release action s
        (omega arith) still in
    let mq =
      on_release-flag wired_waiting_for_release c pad_mt wired_waiting_for_release2 action s
        (omega arith) still in
    let mt' =
      on_release-flag wired_waiting_for_release2 c pad_mq wired_waiting_for_release next_bank first
        (omega arith) still' in
    let mq' =
      on_release-flag wired_waiting_for_release2 c pad_mq wired_waiting_for_release2 next_bank first
        (omega arith) still' in
    record {
      toggled =
          toggles'
          ∙ either (mapped c pad_mq && not (held c pad_mq) && flag_mq first)
              (next_bank-accessory c.index free') refl
          ∙ toggles
          ∙ count_one c.index (mapped c pad_mt && not (held c pad_mt) && flag_mt s)
              (accessory c.index (action free)) (accessory c.index s)
              (toggle_accessory-accessory c.index free);
      banked = λ small.
          ground (arith, bank, bank', mq, toggle_accessory-bank c.index free, next_bank-bank free');
      marked_mt = mt' ∙ mt;
      marked_mq = mq' ∙ ap (after pad_mq c) mq;
      others = λ a far near.
          on_release-view (λ t. t.config a) (λ w t. refl) wired_waiting_for_release2 c pad_mq
            next_bank first
          ∙ either (mapped c pad_mq && not (held c pad_mq) && flag_mq first)
              (next_bank-others a free' near) refl
          ∙ on_release-view (λ t. t.config a) (λ w t. refl) wired_waiting_for_release c pad_mt
              action s
          ∙ either (mapped c pad_mt && not (held c pad_mt) && flag_mt s)
              (toggle_accessory-others c.index a free far) refl;
    }

ctrl-Acts : (c : WiredCtrl) (s : N64) → Acts c s (n64_ctrl_from_generic c s)
unfolding n64_ctrl_from_generic
ctrl-Acts c s =
    let p = press_all n64_btns_mask c (load16 s.wired.output 0) s.wired.cnt_mask in
    let a = special-Acts c (record s { wired = record s.wired { cnt_mask = p.cnt_mask } }) in
    record {
      toggled = a.toggled;
      banked = a.banked;
      marked_mt = a.marked_mt;
      marked_mq = a.marked_mq;
      others = a.others;
    }

-- The reports are of the output `i`.
abbrev pub AllOf : ℕ → List WiredCtrl → Type 0
AllOf i [] = Unit
AllOf i (c ∷ cs) = (c.index ≡ i) × AllOf i cs

-- Over any reports of the pad of output `i` the accessory of that output changes once for each release of
-- its button, from memory to rumble and else to memory, with one call for the rumble each time; the
-- bank, which is one of four, moves on once for each release of the other button; and the rest of the
-- configuration is as it was.
pub pad_run_lem :
    (i : ℕ) (cs : List WiredCtrl) (s : N64)
    → AllOf i cs
    → s.config banksel < 4
    → (((pad_run cs s).config (acc_mode i), (pad_run cs s).toggles)
        ≡ switched i
            (releases pad_mt (test_bit s.wired.flags wired_waiting_for_release) cs)
            (s.config (acc_mode i), s.toggles))
      × ((pad_run cs s).config banksel
          ≡ (s.config banksel
              + releases pad_mq (test_bit s.wired.flags wired_waiting_for_release2) cs)
            % 4)
      × ((a : ℕ) → a ≢ acc_mode i → a ≢ banksel → (pad_run cs s).config a ≡ s.config a)
unfolding pad_run releases switched
pad_run_lem i [] s of small = (refl, omega arith, λ a far near. refl)
pad_run_lem i (c ∷ cs) s (same, of) small =
    let t = n64_ctrl_from_generic c s in
    let a = ctrl-Acts c s in
    let b = a.banked small in
    let (t', b', o') = pad_run_lem i cs t of (omega (arith, b)) in
    let n = releases-next pad_mt (flag_mt s) c cs in
    let n' = releases-next pad_mq (flag_mq s) c cs in
    let toggled =
      subst (λ j. accessory j t ≡ switched j (once pad_mt c (flag_mt s)) (accessory j s)) same
        a.toggled in
    (
      t'
          ∙ ap (λ d. switched i (releases pad_mt d cs) (accessory i t)) a.marked_mt
          ∙ ap (switched i (releases pad_mt (after pad_mt c (flag_mt s)) cs)) toggled
          ∙ sym (
              switched-add i (once pad_mt c (flag_mt s))
                (releases pad_mt (after pad_mt c (flag_mt s)) cs) (accessory i s))
          ∙ ap (λ k. switched i k (accessory i s)) (sym n),
      b'
          ∙ ap (λ d. (t.config banksel + releases pad_mq d cs) % 4) a.marked_mq
          ∙ omega (arith, b, n'),
      λ x far near. o' x far near ∙ a.others x (λ e. far (e ∙ ap acc_mode same)) near,
    )
