-- ===== src/Adapter/Wired/Turbo.antt =====
-- The turbo masks of main/adapter/wired/wired.c: which buttons a frame leaves out.
use blue_retro_forever.Prelude.{
  ℕ, ◌/◌, ◌%◌, ◌^◌, ◌&&◌, Bool, not, u8, bit_and, bit_or, not32, update, for_range, ◌==◌,
  if◌then◌else◌,
}
use blue_retro_forever.Adapter.Buttons.Tables.{axis_to_btn_id}
use blue_retro_forever.Adapter.Wired.Types.{WiredData}

-- `uint8_t mask = cnt_mask >> 1`
abbrev pub phase_mask : ℕ → ℕ
phase_mask cnt = u8 (cnt / 2)

-- Whether this frame leaves out a button with turbo: with the lowest bit of `cnt` when no bit of the
-- mask is set in the frame count, and without it when not all are.
unfoldable pub leaves_out : ℕ → ℕ → Bool
leaves_out cnt frame =
    if bit_and cnt 1 == 0
    then not (bit_and (phase_mask cnt) frame == phase_mask cnt)
    else bit_and (phase_mask cnt) frame == 0

-- The condition under which the button `i` is left out.
abbrev pub drops : WiredData → (ℕ → ℕ) → ℕ → Bool
drops w btns_mask i =
    not (btns_mask i == 0)
    && not (phase_mask (w.cnt_mask i) == 0)
    && leaves_out (w.cnt_mask i) w.frame_cnt

-- `*buttons &= ~btns_mask[i]`
unfoldable pub wired_gen_turbo_mask_btns16_pos : WiredData → (ℕ → ℕ) → ℕ → ℕ
unfolding leaves_out for_range
wired_gen_turbo_mask_btns16_pos w btns_mask =
    for_range 32 0
      (λ i buttons. if drops w btns_mask i then bit_and buttons (not32 (btns_mask i)) else buttons)

-- `*buttons |= btns_mask[i]`, in 16 bits.
unfoldable pub wired_gen_turbo_mask_btns16_neg : WiredData → (ℕ → ℕ) → ℕ → ℕ
unfolding leaves_out for_range
wired_gen_turbo_mask_btns16_neg w btns_mask =
    for_range 32 0
      (λ i buttons. if drops w btns_mask i then bit_or buttons (btns_mask i) % 2 ^ 16 else buttons)

-- The same for banks of 32 bits.
unfoldable pub wired_gen_turbo_mask_btns32 : WiredData → (ℕ → ℕ → ℕ) → ℕ → (ℕ → ℕ) → ℕ → ℕ
unfolding leaves_out for_range
wired_gen_turbo_mask_btns32 w btns_mask bank_cnt = for_range 32 0 (λ i banks.
    if phase_mask (w.cnt_mask i) == 0
    then banks
    else for_range bank_cnt 0
        (λ j buttons.
          if drops w (btns_mask j) i
          then update buttons j (bit_or (buttons j) (btns_mask j i))
          else buttons)
        banks)

-- An axis that is left out takes its neutral value, given as the byte that is stored.
unfoldable pub wired_gen_turbo_mask_axes8 : WiredData → ℕ → (ℕ → ℕ) → (ℕ → ℕ) → (ℕ → ℕ) → ℕ → ℕ
unfolding leaves_out axis_to_btn_id for_range
wired_gen_turbo_mask_axes8 w axes_cnt axes_idx neutral = for_range axes_cnt 0 (λ i axes.
    let cnt = w.cnt_mask (axis_to_btn_id i) in
    if not (phase_mask cnt == 0) && leaves_out cnt w.frame_cnt
    then update axes (axes_idx i) (neutral i)
    else axes)
