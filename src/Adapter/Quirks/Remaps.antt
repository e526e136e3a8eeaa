-- ===== src/Adapter/Quirks/Remaps.antt =====
-- The quirks of mapping_quirks.c that only exchange buttons: nothing is lost by them.
use blue_retro_forever.Prelude.{ℕ, ◌≡◌, ◌≢◌, ap, fun_ext, negsuc, arith, ◌==◌, if◌then◌else◌}
use blue_retro_forever.Adapter.Ids.{
  pad_lm, pad_ls, pad_rb_down, pad_rb_left, pad_rb_right, pad_rb_up, pad_rm, pad_rs,
}
use blue_retro_forever.Adapter.Quirks.Types.{RawSrcMapping}
use blue_retro_forever.Adapter.Quirks.Moves.{
  face_btns_invert, face_btns_rotate_right, face_btns_trigger_to_6buttons,
  face_btns_trigger_to_8buttons, trigger_pri_sec_invert, m30_8bitdo, saturn_diy_8bitdo,
}

-- Exchanging the face buttons twice is as good as never.
pub face_btns_invert_twice : (map : RawSrcMapping) → face_btns_invert (face_btns_invert map) ≡ map
unfolding face_btns_invert
face_btns_invert_twice map =
    ap (λ (b : ℕ → ℕ). record map { btns_mask = b }) (fun_ext (λ i. ground arith))

-- Rotating the face buttons four times is as good as never.
pub face_btns_rotate_right_four :
    (map : RawSrcMapping)
    → face_btns_rotate_right
        (face_btns_rotate_right (face_btns_rotate_right (face_btns_rotate_right map)))
      ≡ map
unfolding face_btns_rotate_right
face_btns_rotate_right_four map =
    ap (λ (b : ℕ → ℕ). record map { btns_mask = b }) (fun_ext (λ i. ground arith))

-- An axis of the report stands for one axis of the pad.
abbrev pub AxesDistinct : RawSrcMapping → Type 0
AxesDistinct map = (i j : ℕ) → map.axes_idx i ≡ map.axes_idx j → map.axes_idx i ≢ negsuc 0 → i ≡ j

-- The three quirks that turn triggers into face buttons keep the axes of a pad distinct.
pub trigger_to_buttons-AxesDistinct :
    (map : RawSrcMapping)
    → AxesDistinct map
    → AxesDistinct (face_btns_trigger_to_6buttons map)
      × AxesDistinct (face_btns_trigger_to_8buttons map)
      × AxesDistinct (m30_8bitdo map)
unfolding face_btns_trigger_to_6buttons face_btns_trigger_to_8buttons m30_8bitdo
trigger_to_buttons-AxesDistinct map h =
    ((λ i j e ne. grind arith), (λ i j e ne. grind arith), λ i j e ne. grind arith)

-- Where the quirks that exchange buttons put the mask of a button.
abbrev swap : ℕ → ℕ → ℕ → ℕ
swap a b i = if i == a then b else (if i == b then a else i)

abbrev swap_face : ℕ → ℕ
swap_face i = swap pad_rb_left pad_rb_up (swap pad_rb_down pad_rb_right i)

abbrev rotated : ℕ → ℕ
rotated i =
    if i == pad_rb_left
    then pad_rb_up
    else (if i == pad_rb_down
        then pad_rb_left
        else (if i == pad_rb_right
            then pad_rb_down
            else (if i == pad_rb_up then pad_rb_right else i)))

abbrev swap_trigger : ℕ → ℕ
swap_trigger i = swap pad_lm pad_ls (swap pad_rm pad_rs i)

abbrev saturn_moved : ℕ → ℕ
saturn_moved i =
    if i == pad_rb_left
    then pad_ls
    else (if i == pad_rb_down
        then pad_rb_left
        else (if i == pad_rb_right
            then pad_rb_down
            else (if i == pad_rs then pad_rb_right else (if i == pad_ls then pad_rs else i))))

-- The mask of every button of `map` is the mask of some button of `t`.
abbrev pub KeepsMasks : RawSrcMapping → RawSrcMapping → Type 0
KeepsMasks map t = (i : ℕ) → (j : ℕ) × (t.btns_mask j ≡ map.btns_mask i)

-- The four quirks that exchange buttons keep the mask of every button, for some button.
pub exchange-KeepsMasks :
    (map : RawSrcMapping)
    → KeepsMasks map (face_btns_invert map)
      × KeepsMasks map (face_btns_rotate_right map)
      × KeepsMasks map (trigger_pri_sec_invert map)
      × KeepsMasks map (saturn_diy_8bitdo map)
unfolding face_btns_invert face_btns_rotate_right trigger_pri_sec_invert saturn_diy_8bitdo
exchange-KeepsMasks map = (
  (λ i. (swap_face i, ground arith)),
  (λ i. (rotated i, ground arith)),
  (λ i. (swap_trigger i, ground arith)),
  λ i. (saturn_moved i, ground arith),
)
