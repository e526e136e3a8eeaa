-- ===== src/Adapter/Buttons/RoundTrips.antt =====
-- How the tables of main/adapter/adapter.c agree with each other.
use blue_retro_forever.Prelude.{
  ℕ, zero, suc, ◌+◌, ◌*◌, ◌<◌, ◌≤◌, ◌≡◌, refl, sym, ◌∙◌, ap, Bool, true, false, ◌&&◌, Option, some,
  none, ℤ, pos, negsuc, neg, bit_and, test_bit, ltb, ◌==◌, arith, all_below, all_below_sound, not,
}
use native.Mathlib.Decide.{dec_lt}
use blue_retro_forever.Adapter.Buttons.Tables.{
  btn_id_to_btn_idx, btn_id_to_axis, axis_to_btn_mask, axis_to_btn_id, btn_sign,
}

-- Whether an axis, if there is one, is this one.
abbrev pub is_axis : ℕ → Option ℕ → Bool
is_axis a none = false
is_axis a (some b) = a == b

is_axis-some : (a : ℕ) (o : Option ℕ) → is_axis a o ≡ true → o ≡ some a
is_axis-some a none h = ground arith
is_axis-some a (some b) h = ground arith

ids_table : all_below 16 (λ a. is_axis a (btn_id_to_axis (axis_to_btn_id a))) ≡ true
unfolding all_below axis_to_btn_id btn_id_to_axis
ids_table = refl

-- The button that stands for an axis belongs to that axis.
pub btn_id_to_axis-axis_to_btn_id : (a : ℕ) → a < 16 → btn_id_to_axis (axis_to_btn_id a) ≡ some a
btn_id_to_axis-axis_to_btn_id a lt =
    is_axis-some a (btn_id_to_axis (axis_to_btn_id a))
      (all_below_sound 16 (λ x. is_axis x (btn_id_to_axis (axis_to_btn_id x))) a ids_table lt)

abbrev same : Bool → Bool → Bool
same true b = b
same false b = not b

same-≡ : (a b : Bool) → same a b ≡ true → a ≡ b
same-≡ true true h = refl
same-≡ true false h = ground arith
same-≡ false true h = ground arith
same-≡ false false h = refl

agree : ℕ → ℕ → Bool
agree a b = same (test_bit (axis_to_btn_mask a) b) (is_axis a (btn_id_to_axis b))

masks_table : all_below 16 (λ a. all_below 32 (agree a)) ≡ true
unfolding all_below agree test_bit axis_to_btn_mask btn_id_to_axis
masks_table = refl

-- The mask of an axis has the bits of the buttons that belong to it, and no others.
pub axis_to_btn_mask-btn_id_to_axis :
    (a b : ℕ) → a < 16 → b < 32 → test_bit (axis_to_btn_mask a) b ≡ is_axis a (btn_id_to_axis b)
unfolding agree
axis_to_btn_mask-btn_id_to_axis a b la lb =
    same-≡ (test_bit (axis_to_btn_mask a) b) (is_axis a (btn_id_to_axis b)) (
      all_below_sound 32 (agree a) b
        (all_below_sound 16 (λ x. all_below 32 (agree x)) a masks_table la) lb)

idx_table :
    all_below 128
      (λ b. ltb (btn_id_to_btn_idx b) 4 && b == 32 * btn_id_to_btn_idx b + bit_and b 0x1f)
    ≡ true
unfolding all_below btn_id_to_btn_idx
idx_table = refl

-- A button number below 128 is its word, one of four, and its bit.
pub btn_id_to_btn_idx_lem :
    (b : ℕ) → b < 128 → (btn_id_to_btn_idx b < 4) × (b ≡ 32 * btn_id_to_btn_idx b + bit_and b 0x1f)
btn_id_to_btn_idx_lem b lt =
    let h =
      all_below_sound 128
        (λ b. ltb (btn_id_to_btn_idx b) 4 && b == 32 * btn_id_to_btn_idx b + bit_and b 0x1f) b
        idx_table lt in
    (ground arith, ground arith)

-- Only the buttons of the first word have an axis.
btn_id_to_axis-far : (b : ℕ) → 32 ≤ b → btn_id_to_axis b ≡ none
unfolding btn_id_to_axis
btn_id_to_axis-far b far = ground arith

-- Whether the sign of a button without an axis is 1, and that of another the opposite of `z`.
opposite : ℤ → Option ℕ → ℤ → Bool
opposite (pos (suc zero)) none (pos (suc zero)) = true
opposite (pos (suc zero)) (some a) (negsuc zero) = true
opposite (negsuc zero) (some a) (pos (suc zero)) = true
opposite y o z = false

opposite-neg : (y : ℤ) (a : ℕ) (z : ℤ) → opposite y (some a) z ≡ true → z ≡ neg y
unfolding opposite
opposite-neg y a z h = ground arith

sign_table : all_below 32 (λ b. opposite (btn_sign 0 b) (btn_id_to_axis b) (btn_sign 1 b)) ≡ true
unfolding all_below opposite btn_sign btn_id_to_axis
sign_table = refl

-- Inverting the polarity of an axis inverts the sign of each of its buttons.
pub btn_sign-polarity : (b a : ℕ) → btn_id_to_axis b ≡ some a → btn_sign 1 b ≡ neg (btn_sign 0 b)
btn_sign-polarity b a h = elim (dec_lt b 32) [
  | yes lt ↦ opposite-neg (btn_sign 0 b) a (btn_sign 1 b) (
      ap (λ o. opposite (btn_sign 0 b) o (btn_sign 1 b)) (sym h)
      ∙ all_below_sound 32 (λ x. opposite (btn_sign 0 x) (btn_id_to_axis x) (btn_sign 1 x)) b
          sign_table lt)
  | no ge ↦ absurd (let far = btn_id_to_axis-far b (omega arith) in ground arith)
]
