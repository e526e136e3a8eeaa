-- ===== src/Adapter/Wired/Phases.antt =====
-- What the turbo masks of wired.c do to each bit.
use blue_retro_forever.Prelude.{
  ℕ, zero, suc, ◌+◌, ◌<◌, ◌≡◌, refl, sym, ap, ◌∙◌, Bool, true, false, not, ◌&&◌, ◌||◌, arith,
  test_bit, test_bit-and, test_bit-not32, bit_and, not32, for_range_inv, if◌then◌else◌,
}
use blue_retro_forever.Adapter.Wired.Types.{WiredData}
use blue_retro_forever.Adapter.Wired.Turbo.{drops, wired_gen_turbo_mask_btns16_pos}

-- Whether one of the buttons below `n` is left out and has the bit `k` in its mask.
abbrev pub dropped : WiredData → (ℕ → ℕ) → ℕ → ℕ → Bool
dropped w btns_mask k zero = false
dropped w btns_mask k (suc n) =
    dropped w btns_mask k n || (drops w btns_mask n && test_bit (btns_mask n) k)

dropped-next :
    (w : WiredData) (btns_mask : ℕ → ℕ) (k i : ℕ)
    → dropped w btns_mask k (i + 1)
      ≡ (dropped w btns_mask k i || (drops w btns_mask i && test_bit (btns_mask i) k))
dropped-next w btns_mask k i = let e : i + 1 ≡ suc i = omega arith in ap (dropped w btns_mask k) e

-- One button of the loop.
mask_out :
    (b : Bool) (t m k : ℕ)
    → k < 32
    → test_bit (if b then bit_and t (not32 m) else t) k ≡ (test_bit t k && not (b && test_bit m k))
mask_out true t m k lt = ground (arith, test_bit-and t (not32 m) k, test_bit-not32 m k lt)
mask_out false t m k lt = ground arith

fold_out : (x d n : Bool) → ((x && not d) && not n) ≡ (x && not (d || n))
fold_out x d n = ground arith

-- A bit of the active-high buttons is kept unless it belongs to a button that the frame leaves out.
pub btns16_pos-dropped :
    (w : WiredData) (btns_mask : ℕ → ℕ) (buttons k : ℕ)
    → k < 32
    → test_bit (wired_gen_turbo_mask_btns16_pos w btns_mask buttons) k
      ≡ (test_bit buttons k && not (dropped w btns_mask k 32))
unfolding wired_gen_turbo_mask_btns16_pos
btns16_pos-dropped w btns_mask buttons k lt =
    for_range_inv (λ i t. test_bit t k ≡ (test_bit buttons k && not (dropped w btns_mask k i)))
      (λ i b. if drops w btns_mask i then bit_and b (not32 (btns_mask i)) else b) 32 0 32 buttons
      refl
      (λ i t _ _ h.
        mask_out (drops w btns_mask i) t (btns_mask i) k lt
        ∙ ap (λ x. x && not (drops w btns_mask i && test_bit (btns_mask i) k)) h
        ∙ fold_out (test_bit buttons k) (dropped w btns_mask k i)
            (drops w btns_mask i && test_bit (btns_mask i) k)
        ∙ ap (λ d. test_bit buttons k && not d) (sym (dropped-next w btns_mask k i)))
      (ground arith)
