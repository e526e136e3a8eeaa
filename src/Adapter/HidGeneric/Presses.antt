-- ===== src/Adapter/HidGeneric/Presses.antt =====
-- Which generic buttons and keys a report presses (main/adapter/wireless/hid_generic.c).
use blue_retro_forever.Prelude.{
  ℕ, ◌+◌, ◌-◌, ◌/◌, ◌%◌, ◌^◌, ◌<◌, ◌≡◌, refl, sym, ap, ◌∙◌, Bool, true, false, not, ◌&&◌, ◌||◌,
  arith, ltb, leb, ◌==◌, if◌then◌else◌, get_or, for_range_inv, test_bit, test_bit-or, test_bit-bit,
  u32, ℤ, pos, negsuc, bit, bit_and, bit_or, meets, bit_and_step, bit_and-zero, Bool-cases, inl,
  inr, all_below, all_below_sound, ==_iff, test_bit-zero,
}
use blue_retro_forever.Adapter.Ids.{pad_ld_left, pad_ld_right, pad_ld_down, pad_ld_up}
use blue_retro_forever.Adapter.HidParser.Types.{HidReport}
use blue_retro_forever.Adapter.Mapping.Types.{WirelessCtrl}
use blue_retro_forever.Adapter.Quirks.Types.{RawSrcMapping}
use blue_retro_forever.Adapter.HidGeneric.Types.{HidReportMeta, adapter_ps2_max_axes, no_ctrl}
use blue_retro_forever.Adapter.HidGeneric.Fields.{field}
use blue_retro_forever.Adapter.HidGeneric.Mouse.{press_buttons, read_buttons}
use blue_retro_forever.Adapter.HidGeneric.Pad.{
  hat_btns, hat_to_ld_btns, read_hat, pad_axis, pad_read, PadAxes,
}

press_one :
    (b : Bool) (v m k : ℕ)
    → test_bit (if b then bit_or v (bit m) else v) k ≡ (test_bit v k || ((m == k) && b))
press_one true v m k = ground (arith, test_bit-or v (bit m) k, test_bit-bit m k)
press_one false v m k = ground arith

press_step :
    (now before : Bool) (i k : ℕ) (p : ℕ → Bool)
    → now ≡ (before || (ltb k i && p k))
    → (now || ((i == k) && p i)) ≡ (before || (ltb k (i + 1) && p k))
press_step now before i k p h = elim (Bool-cases (i == k)) [
  | inl same ↦
      let e : p i ≡ p k = ap p ((==_iff i k).0 same) in
      let below : ltb k i ≡ false = ground arith in
      let next : ltb k (i + 1) ≡ true = ground arith in ground arith
  | inr other ↦ let next : ltb k (i + 1) ≡ ltb k i = ground arith in ground arith
]

press_buttons_lem :
    (buttons v k : ℕ) (btns_mask : ℕ → ℕ)
    → test_bit (press_buttons buttons btns_mask v) k
      ≡ (test_bit v k || (ltb k 32 && meets buttons (btns_mask k)))
unfolding press_buttons
press_buttons_lem buttons v k btns_mask =
    for_range_inv (λ i t. test_bit t k ≡ (test_bit v k || (ltb k i && meets buttons (btns_mask k))))
      (λ i t. if meets buttons (btns_mask i) then bit_or t (bit i) else t) 32 0 32 v refl
      (λ i t _ _ h.
        press_one (meets buttons (btns_mask i)) t i k
        ∙ press_step (test_bit t k) (test_bit v k) i k (λ j. meets buttons (btns_mask j)) h)
      (ground arith)

-- The position of a hat, counted from its smallest value and modulo 16: 0 is up, and the others follow
-- clockwise.
abbrev pub hat_position : ℕ → ℕ → ℕ
hat_position value min = u32 (value + 2 ^ 32 - min) % 16

-- The buttons of a position: each direction is pressed in its own position and in those beside it.
abbrev pub hat_presses : ℕ → ℕ → Bool
hat_presses p k =
    (k == pad_ld_up && (p == 7 || p == 0 || p == 1))
    || (k == pad_ld_right && (p == 1 || p == 2 || p == 3))
    || (k == pad_ld_down && (p == 3 || p == 4 || p == 5))
    || (k == pad_ld_left && (p == 5 || p == 6 || p == 7))

-- Whether the usage of the buttons presses the generic button `k`, and whether the hat does.
abbrev pub by_buttons : HidReport → (ℕ → ℕ) → ℤ → RawSrcMapping → ℕ → Bool
by_buttons report input (negsuc n) map k = false
by_buttons report input (pos n) map k = meets (field input (report.usages n)) (map.btns_mask k)

abbrev pub by_hat : HidReport → (ℕ → ℕ) → ℤ → ℕ → Bool
by_hat report input (negsuc n) k = false
by_hat report input (pos n) k =
    hat_presses (hat_position (field input (report.usages n)) (u32 (report.usages n).logical_min)) k

read_buttons_lem :
    (report : HidReport) (input : ℕ → ℕ) (idx : ℤ) (map : RawSrcMapping) (ctrl : WirelessCtrl)
    (k : ℕ)
    → k < 32
    → test_bit ((read_buttons report input idx map ctrl).btns 0) k
      ≡ (test_bit (ctrl.btns 0) k || by_buttons report input idx map k)
unfolding read_buttons
read_buttons_lem report input (negsuc n) map ctrl k lt = ground arith
read_buttons_lem report input (pos n) map ctrl k lt =
    press_buttons_lem (field input (report.usages n)) (ctrl.btns 0) k map.btns_mask ∙ ground arith

abbrev same : Bool → Bool → Bool
same true b = b
same false b = not b

of_not : (b : Bool) → not b ≡ true → b ≡ false
of_not true h = cc
of_not false h = refl

eq_of_same : (a b : Bool) → same a b ≡ true → a ≡ b
eq_of_same true b h = sym h
eq_of_same false true h = cc
eq_of_same false false h = refl

bit_and-15 : (x : ℕ) → bit_and x 0xf ≡ x % 16
bit_and-15 x = omega (
  arith,
  bit_and_step x 15,
  bit_and_step (x / 2) 7,
  bit_and_step (x / 2 / 2) 3,
  bit_and_step (x / 2 / 2 / 2) 1,
  bit_and-zero (x / 2 / 2 / 2 / 2),
)

direction_table :
    all_below 16
      (λ p. all_below 32 (λ k. same (test_bit (get_or hat_to_ld_btns p 0) k) (hat_presses p k)))
    ≡ true
unfolding all_below test_bit
direction_table = refl

hat_btns-presses :
    (value min k : ℕ)
    → k < 32
    → test_bit (hat_btns value min) k ≡ hat_presses (hat_position value min) k
unfolding hat_btns
hat_btns-presses value min k lt =
    let x = u32 (value + 2 ^ 32 - min) in
    let p = x % 16 in
    let row =
      all_below_sound 16
        (λ p. all_below 32 (λ k. same (test_bit (get_or hat_to_ld_btns p 0) k) (hat_presses p k))) p
        direction_table (omega arith) in
    ap (λ q. test_bit (get_or hat_to_ld_btns q 0) k) (bit_and-15 x)
    ∙ eq_of_same (test_bit (get_or hat_to_ld_btns p 0) k) (hat_presses p k) (
        all_below_sound 32 (λ k. same (test_bit (get_or hat_to_ld_btns p 0) k) (hat_presses p k)) k
          row lt)

read_hat_lem :
    (report : HidReport) (input : ℕ → ℕ) (idx : ℤ) (ctrl : WirelessCtrl) (k : ℕ)
    → k < 32
    → test_bit ((read_hat report input idx ctrl).btns 0) k
      ≡ (test_bit (ctrl.btns 0) k || by_hat report input idx k)
unfolding read_hat
read_hat_lem report input (negsuc n) ctrl k lt = ground arith
read_hat_lem report input (pos n) ctrl k lt =
    let value = field input (report.usages n) in
    let min = u32 (report.usages n).logical_min in
    test_bit-or (ctrl.btns 0) (hat_btns value min) k
    ∙ ap (λ b. test_bit (ctrl.btns 0) k || b) (hat_btns-presses value min k lt)

pad_axis-btns :
    (first : Bool) (report : HidReport) (input : ℕ → ℕ) (map : RawSrcMapping) (i : ℕ) (idx : ℤ)
    (s : PadAxes)
    → (pad_axis first report input map i idx s).ctrl.btns ≡ s.ctrl.btns
unfolding pad_axis
pad_axis-btns first report input map i (negsuc n) s = refl
pad_axis-btns first report input map i (pos n) s = refl

-- A report of a pad presses exactly the generic buttons that have a set bit of the report in their mask,
-- and those of the position of the hat, less its smallest value and modulo 16: each of the four
-- directions in its own position and in the two beside it.
pub pad_read-btns :
    (first : Bool) (report : HidReport) (input : ℕ → ℕ) (meta : HidReportMeta) (map : RawSrcMapping)
    (axes_cal : ℕ → ℤ) (k : ℕ)
    → k < 32
    → test_bit ((pad_read first report input meta map axes_cal).ctrl.btns 0) k
      ≡ (by_buttons report input meta.hid_btn_idx map k || by_hat report input meta.hid_hat_idx k)
unfolding pad_read
pad_read-btns first report input meta map axes_cal k lt =
    let own = read_buttons report input meta.hid_btn_idx map (no_ctrl map) in
    let start = read_hat report input meta.hid_hat_idx own in
    let kept =
      for_range_inv (λ i (s : PadAxes). s.ctrl.btns ≡ start.btns)
        (λ i s. pad_axis first report input map i (map.axes_idx i) s) adapter_ps2_max_axes 0 16
        (record { ctrl = start; axes_cal = axes_cal }) refl
        (λ i s _ _ h. pad_axis-btns first report input map i (map.axes_idx i) s ∙ h) refl in
    ap (λ (b : ℕ → ℕ). test_bit (b 0) k) kept
    ∙ read_hat_lem report input meta.hid_hat_idx own k lt
    ∙ ap (λ b. b || by_hat report input meta.hid_hat_idx k)
        (read_buttons_lem report input meta.hid_btn_idx map (no_ctrl map) k lt
          ∙ ap (λ b. b || by_buttons report input meta.hid_btn_idx map k) (test_bit-zero k))

-- The sixteen positions of the hat.
hat_table :
    all_below 16 (λ p.
      not (
        test_bit (get_or hat_to_ld_btns p 0) pad_ld_left
        && test_bit (get_or hat_to_ld_btns p 0) pad_ld_right)
      && (not (
            test_bit (get_or hat_to_ld_btns p 0) pad_ld_down
            && test_bit (get_or hat_to_ld_btns p 0) pad_ld_up)
          && same (get_or hat_to_ld_btns p 0 == 0) (leb 8 p)))
    ≡ true
unfolding all_below test_bit
hat_table = refl

and_true : (a b : Bool) → (a && b) ≡ true → (a ≡ true) × (b ≡ true)
and_true true b h = (refl, h)
and_true false b h = cc

-- The hat never presses left and right or down and up together, and it presses nothing exactly when its
-- position, counted from the smallest and modulo 16, is not one of the first eight.
pub hat_btns_lem :
    (position min : ℕ)
    → ((test_bit (hat_btns position min) pad_ld_left
          && test_bit (hat_btns position min) pad_ld_right)
        ≡ false)
      × ((test_bit (hat_btns position min) pad_ld_down
            && test_bit (hat_btns position min) pad_ld_up)
          ≡ false)
      × ((hat_btns position min == 0) ≡ leb 8 (u32 (position + 2 ^ 32 - min) % 16))
unfolding hat_btns
hat_btns_lem position min =
    let x = u32 (position + 2 ^ 32 - min) in
    let p = bit_and x 0xf in
    let b = get_or hat_to_ld_btns p 0 in
    let row = all_below_sound 16 _ p hat_table (omega (arith, bit_and-15 x)) in
    let (h1, rest) = and_true _ _ row in
    let (h2, h3) = and_true _ _ rest in
    (of_not _ h1, of_not _ h2, eq_of_same _ _ h3 ∙ ap (leb 8) (bit_and-15 x))
