-- ===== src/Adapter/Wired/N64/Buttons.antt =====
-- Which buttons an N64 pad gets (main/adapter/wired/n64.c).
use blue_retro_forever.Prelude.{
  ℕ, zero, suc, ◌+◌, ◌/◌, ◌%◌, ◌^◌, ◌*◌, ◌<◌, ◌≡◌, refl, sym, ap, ◌∙◌, Bool, true, false, not, ◌&&◌,
  ◌||◌, arith, ◌==◌, ==_iff, for_range, for_range_inv, test_bit, test_bit-or, test_bit-and,
  test_bit-not32, test_bit-below, u16, bit, bit_and, bit_or, not32, meets, meets-bit, all_below,
  all_below_sound,
}
use blue_retro_forever.Adapter.Mapping.Types.{WiredCtrl}
use blue_retro_forever.Adapter.Wired.N64.Tables.{n64_btns_mask, n64_axes_max}
use blue_retro_forever.Adapter.Wired.Types.{load16}
use blue_retro_forever.Adapter.Wired.N64.Pad.{
  N64, Presses, mapped, held, press_round, press_all, put_map, n64_ctrl_special_action, axis_round,
  n64_ctrl_from_generic,
}

-- Whether the test holds of a number below `n`.
abbrev pub some_below : (ℕ → Bool) → ℕ → Bool
some_below test zero = false
some_below test (suc n) = some_below test n || test n

-- The button `i` is on an output, is held or is not, and drives the bit `k`.
abbrev pub drives : (ℕ → ℕ) → WiredCtrl → ℕ → ℕ → Bool
drives btns_mask ctrl k i = mapped ctrl i && held ctrl i && test_bit (btns_mask i) k

abbrev pub rests : (ℕ → ℕ) → WiredCtrl → ℕ → ℕ → Bool
rests btns_mask ctrl k i = mapped ctrl i && not (held ctrl i) && test_bit (btns_mask i) k

-- Each generic button drives at most one bit.
abbrev pub IsSingle : (ℕ → ℕ) → ℕ → Type 0
IsSingle btns_mask k = (i : ℕ) → i < 32 → test_bit (btns_mask i) k ≡ true → btns_mask i ≡ bit k

test_bit-u16 : (x k : ℕ) → k < 16 → test_bit (u16 x) k ≡ test_bit x k
test_bit-u16 x k lt =
    let e : x ≡ x % 2 ^ 16 + 2 ^ 16 * (x / 2 ^ 16) = omega arith in
    sym (ap (λ y. test_bit y k) e ∙ test_bit-below 16 k (x % 2 ^ 16) (x / 2 ^ 16) lt)

set_bits : (x m k : ℕ) → k < 16 → test_bit (u16 (bit_or x m)) k ≡ (test_bit x k || test_bit m k)
set_bits x m k lt = test_bit-u16 (bit_or x m) k lt ∙ test_bit-or x m k

drop_bits :
    (x m k : ℕ) → k < 16 → test_bit (bit_and x (not32 m)) k ≡ (test_bit x k && not (test_bit m k))
drop_bits x m k lt =
    test_bit-and x (not32 m) k ∙ ap (λ b. test_bit x k && b) (test_bit-not32 m k (omega arith))

guard_bit :
    (btns_mask : ℕ → ℕ) (k i x : ℕ)
    → IsSingle btns_mask k
    → i < 32
    → test_bit (btns_mask i) k ≡ true
    → meets x (btns_mask i) ≡ test_bit x k
guard_bit btns_mask k i x single lt b = ap (meets x) (single i lt b) ∙ meets-bit k x

-- The bit `k` of the two words after the first `i` buttons.
abbrev Inv : (ℕ → ℕ) → WiredCtrl → ℕ → ℕ → ℕ → Presses → Type 0
Inv btns_mask ctrl buttons k i s =
    (test_bit s.map_mask k ≡ not (some_below (drives btns_mask ctrl k) i))
    × (test_bit s.buttons k ≡ (
        some_below (drives btns_mask ctrl k) i
        || (test_bit buttons k && not (some_below (rests btns_mask ctrl k) i))))

some_below-next :
    (test : ℕ → Bool) (i : ℕ) → some_below test (i + 1) ≡ (some_below test i || test i)
some_below-next test i = let e : i + 1 ≡ suc i = omega arith in ap (some_below test) e

-- What one button does to the bit `k` of the two words.
round_map :
    (btns_mask : ℕ → ℕ) (ctrl : WiredCtrl) (k i : ℕ) (s : Presses)
    → k < 16
    → test_bit (press_round btns_mask ctrl i s).map_mask k
      ≡ (test_bit s.map_mask k && not (drives btns_mask ctrl k i))
unfolding press_round
round_map btns_mask ctrl k i s lt = ground (arith, drop_bits s.map_mask (btns_mask i) k lt)

round_buttons :
    (btns_mask : ℕ → ℕ) (ctrl : WiredCtrl) (k i : ℕ) (s : Presses)
    → k < 16
    → (test_bit (btns_mask i) k ≡ true → meets s.map_mask (btns_mask i) ≡ test_bit s.map_mask k)
    → test_bit (press_round btns_mask ctrl i s).buttons k ≡ (
        (test_bit s.buttons k || drives btns_mask ctrl k i)
        && not (rests btns_mask ctrl k i && test_bit s.map_mask k))
unfolding press_round
round_buttons btns_mask ctrl k i s lt guard =
    ground
      (arith, set_bits s.buttons (btns_mask i) k lt, drop_bits s.buttons (btns_mask i) k lt, guard)

fold_map : (m d n : Bool) → m ≡ not d → (m && not n) ≡ not (d || n)
fold_map m d n h = ground arith

fold_buttons :
    (b m d r n q x : Bool)
    → m ≡ not d
    → b ≡ (d || (x && not r))
    → (q && n) ≡ false
    → ((b || n) && not (q && m)) ≡ ((d || n) || (x && not (r || q)))
fold_buttons b m d r n q x h g e = ground arith

apart :
    (btns_mask : ℕ → ℕ) (ctrl : WiredCtrl) (k i : ℕ)
    → (rests btns_mask ctrl k i && drives btns_mask ctrl k i) ≡ false
apart btns_mask ctrl k i = ground arith

carry :
    (btns_mask : ℕ → ℕ) (ctrl : WiredCtrl) (buttons k i : ℕ) (s : Presses)
    → k < 16
    → IsSingle btns_mask k
    → i < 32
    → Inv btns_mask ctrl buttons k i s
    → Inv btns_mask ctrl buttons k (i + 1) (press_round btns_mask ctrl i s)
carry btns_mask ctrl buttons k i s lt single below (m, b) =
    let on = some_below (drives btns_mask ctrl k) i in
    let off = some_below (rests btns_mask ctrl k) i in
    let next = some_below-next (drives btns_mask ctrl k) i in
    let next' = some_below-next (rests btns_mask ctrl k) i in
    (
      round_map btns_mask ctrl k i s lt
          ∙ fold_map (test_bit s.map_mask k) on (drives btns_mask ctrl k i) m
          ∙ ap not (sym next),
      round_buttons btns_mask ctrl k i s lt (guard_bit btns_mask k i s.map_mask single below)
          ∙ fold_buttons (test_bit s.buttons k) (test_bit s.map_mask k) on off
              (drives btns_mask ctrl k i) (rests btns_mask ctrl k i) (test_bit buttons k) m b
              (apart btns_mask ctrl k i)
          ∙ ap (λ d. d || (test_bit buttons k && not (off || rests btns_mask ctrl k i))) (sym next)
          ∙ ap (λ r. some_below (drives btns_mask ctrl k) (i + 1) || (test_bit buttons k && not r))
              (sym next'),
    )

full_table : all_below 16 (λ k. test_bit 0xffff k) ≡ true
unfolding all_below test_bit
full_table = refl

-- The buttons of a pad with any table in which each generic button drives at most one bit.
pub press_all_lem :
    (btns_mask : ℕ → ℕ) (ctrl : WiredCtrl) (buttons k : ℕ) (cnt_mask : ℕ → ℕ)
    → k < 16
    → IsSingle btns_mask k
    → test_bit (press_all btns_mask ctrl buttons cnt_mask).buttons k ≡ (
        some_below (drives btns_mask ctrl k) 32
        || (test_bit buttons k && not (some_below (rests btns_mask ctrl k) 32)))
unfolding press_all
press_all_lem btns_mask ctrl buttons k cnt_mask lt single =
    (for_range_inv (Inv btns_mask ctrl buttons k) (press_round btns_mask ctrl) 32 0 32
      (record { buttons = buttons; map_mask = 0xffff; cnt_mask = cnt_mask }) refl
      (λ i s _ below h. carry btns_mask ctrl buttons k i s lt single below h)
      (all_below_sound 16 (λ i. test_bit 0xffff i) k full_table lt, ground arith)).1

single_table :
    all_below 16
      (λ k. all_below 32 (λ i. not (test_bit (n64_btns_mask i) k) || (n64_btns_mask i == bit k)))
    ≡ true
unfolding all_below test_bit
single_table = refl

n64_btns_mask-IsSingle : (k : ℕ) → k < 16 → IsSingle n64_btns_mask k
n64_btns_mask-IsSingle k lt i below b =
    let row =
      all_below_sound 16
        (λ n. all_below 32 (λ j. not (test_bit (n64_btns_mask j) n) || (n64_btns_mask j == bit n)))
        k single_table lt in
    let cell =
      all_below_sound 32 (λ j. not (test_bit (n64_btns_mask j) k) || (n64_btns_mask j == bit k)) i
        row below in
    (==_iff (n64_btns_mask i) (bit k)).0
      (ap (λ t. not t || (n64_btns_mask i == bit k)) (sym b) ∙ cell)

put_map-load16 :
    (output axes : ℕ → ℕ) (buttons : ℕ) → load16 (put_map output buttons axes) 0 ≡ u16 buttons
put_map-load16 output axes buttons = omega arith

-- A report of a pad holds an output of the N64 if a generic button that is mapped to it is held; otherwise
-- it releases the output if one is mapped to it, and leaves it as it was if none is.
pub n64_ctrl_from_generic-buttons :
    (ctrl : WiredCtrl) (s : N64) (k : ℕ)
    → k < 16
    → test_bit (load16 (n64_ctrl_from_generic ctrl s).wired.output 0) k ≡ (
        some_below (drives n64_btns_mask ctrl k) 32
        || (test_bit (load16 s.wired.output 0) k
            && not (some_below (rests n64_btns_mask ctrl k) 32)))
unfolding n64_ctrl_from_generic
n64_ctrl_from_generic-buttons ctrl s k lt =
    let p = press_all n64_btns_mask ctrl (load16 s.wired.output 0) s.wired.cnt_mask in
    let t =
      n64_ctrl_special_action ctrl
        (record s { wired = record s.wired { cnt_mask = p.cnt_mask } }) in
    let a =
      for_range n64_axes_max 0 (axis_round ctrl)
        (record { axes = λ i. s.wired.output (2 + i); cnt_mask = t.wired.cnt_mask }) in
    ap (λ w. test_bit w k) (put_map-load16 t.wired.output a.axes p.buttons)
    ∙ test_bit-u16 p.buttons k lt
    ∙ press_all_lem n64_btns_mask ctrl (load16 s.wired.output 0) k s.wired.cnt_mask lt
        (n64_btns_mask-IsSingle k lt)
