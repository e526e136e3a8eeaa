-- ===== src/Adapter/Buttons/Tables.antt =====
-- The buttons and axes of a generic pad, main/adapter/adapter.c.
use blue_retro_forever.Prelude.{
  ℕ, ◌&&◌, Option, some, none, List, [], ◌∷◌, ℤ, pos, negsuc, bit, bit_or, ltb, leb, ◌==◌,
  if◌then◌else◌,
}
use blue_retro_forever.Adapter.HidParser.Usage.{one_of}
use blue_retro_forever.Adapter.Ids.{
  axis_lx, axis_ly, axis_rx, axis_ry, btn_down, btn_left, btn_right, btn_up, dpad_down, dpad_left,
  dpad_right, dpad_up, mouse_wx_left, mouse_wx_right, mouse_wy_down, mouse_wy_up, pad_ld_down,
  pad_ld_left, pad_ld_right, pad_ld_up, pad_lm, pad_ls, pad_lx_left, pad_lx_right, pad_ly_down,
  pad_ly_up, pad_rb_down, pad_rb_left, pad_rb_right, pad_rb_up, pad_rm, pad_rs, pad_rx_left,
  pad_rx_right, pad_ry_down, pad_ry_up, trig_l, trig_ls, trig_r, trig_rs,
}

-- A `switch`: the first branch that has the label, or what follows the `switch`.
unfoldable pub switch {ℓ} : {A : Type ℓ} → List (List ℕ × A) → A → ℕ → A
unfolding one_of
switch [] otherwise n = otherwise
switch ((labels, value) ∷ rest) otherwise n =
    let next = switch rest otherwise n in if one_of labels n then value else next

unfoldable pub btn_id_to_btn_idx : ℕ → ℕ
btn_id_to_btn_idx btn_id =
    if ltb btn_id 32
    then 0
    else (if leb 32 btn_id && ltb btn_id 64
        then 1
        else (if leb 64 btn_id && ltb btn_id 96 then 2 else 3))

-- AXIS_NONE is `none`.
unfoldable pub btn_id_to_axis : ℕ → Option ℕ
unfolding switch
btn_id_to_axis =
    switch
      (((pad_lx_left ∷ pad_lx_right ∷ mouse_wx_left ∷ mouse_wx_right ∷ []), some axis_lx)
        ∷ ((pad_ly_down ∷ pad_ly_up ∷ mouse_wy_down ∷ mouse_wy_up ∷ []), some axis_ly)
        ∷ ((pad_rx_left ∷ pad_rx_right ∷ []), some axis_rx)
        ∷ ((pad_ry_down ∷ pad_ry_up ∷ []), some axis_ry)
        ∷ ((pad_lm ∷ []), some trig_l)
        ∷ ((pad_rm ∷ []), some trig_r)
        ∷ ((pad_ls ∷ []), some trig_ls)
        ∷ ((pad_rs ∷ []), some trig_rs)
        ∷ ((pad_ld_left ∷ []), some dpad_left)
        ∷ ((pad_ld_right ∷ []), some dpad_right)
        ∷ ((pad_ld_down ∷ []), some dpad_down)
        ∷ ((pad_ld_up ∷ []), some dpad_up)
        ∷ ((pad_rb_left ∷ []), some btn_left)
        ∷ ((pad_rb_right ∷ []), some btn_right)
        ∷ ((pad_rb_down ∷ []), some btn_down)
        ∷ ((pad_rb_up ∷ []), some btn_up)
        ∷ [])
      none

unfoldable pub axis_to_btn_mask : ℕ → ℕ
unfolding switch
axis_to_btn_mask =
    switch
      ((
        (axis_lx ∷ []),
        bit_or (bit_or (bit_or (bit pad_lx_left) (bit pad_lx_right)) (bit mouse_wx_left))
            (bit mouse_wx_right),
      )
        ∷ (
          (axis_ly ∷ []),
          bit_or (bit_or (bit_or (bit pad_ly_down) (bit pad_ly_up)) (bit mouse_wy_down))
              (bit mouse_wy_up),
        )
        ∷ ((axis_rx ∷ []), bit_or (bit pad_rx_left) (bit pad_rx_right))
        ∷ ((axis_ry ∷ []), bit_or (bit pad_ry_down) (bit pad_ry_up))
        ∷ ((trig_l ∷ []), bit pad_lm)
        ∷ ((trig_r ∷ []), bit pad_rm)
        ∷ ((trig_ls ∷ []), bit pad_ls)
        ∷ ((trig_rs ∷ []), bit pad_rs)
        ∷ ((dpad_left ∷ []), bit pad_ld_left)
        ∷ ((dpad_right ∷ []), bit pad_ld_right)
        ∷ ((dpad_down ∷ []), bit pad_ld_down)
        ∷ ((dpad_up ∷ []), bit pad_ld_up)
        ∷ ((btn_left ∷ []), bit pad_rb_left)
        ∷ ((btn_right ∷ []), bit pad_rb_right)
        ∷ ((btn_down ∷ []), bit pad_rb_down)
        ∷ ((btn_up ∷ []), bit pad_rb_up)
        ∷ [])
      0

unfoldable pub axis_to_btn_id : ℕ → ℕ
unfolding switch
axis_to_btn_id =
    switch
      (((axis_lx ∷ []), pad_lx_left)
        ∷ ((axis_ly ∷ []), pad_ly_down)
        ∷ ((axis_rx ∷ []), pad_rx_left)
        ∷ ((axis_ry ∷ []), pad_ry_down)
        ∷ ((trig_l ∷ []), pad_lm)
        ∷ ((trig_r ∷ []), pad_rm)
        ∷ ((trig_ls ∷ []), pad_ls)
        ∷ ((trig_rs ∷ []), pad_rs)
        ∷ ((dpad_left ∷ []), pad_ld_left)
        ∷ ((dpad_right ∷ []), pad_ld_right)
        ∷ ((dpad_down ∷ []), pad_ld_down)
        ∷ ((dpad_up ∷ []), pad_ld_up)
        ∷ ((btn_left ∷ []), pad_rb_left)
        ∷ ((btn_right ∷ []), pad_rb_right)
        ∷ ((btn_down ∷ []), pad_rb_down)
        ∷ ((btn_up ∷ []), pad_rb_up)
        ∷ [])
      0

unfoldable pub btn_sign : ℕ → ℕ → ℤ
unfolding switch
btn_sign polarity =
    switch
      ((
        (pad_lx_right ∷ pad_ly_up ∷ pad_rx_right ∷ pad_ry_up ∷ pad_lm ∷ pad_rm ∷ mouse_wx_right
            ∷ mouse_wy_up ∷ pad_ls ∷ pad_rs ∷ pad_ld_left ∷ pad_ld_right ∷ pad_ld_down ∷ pad_ld_up
            ∷ pad_rb_left ∷ pad_rb_right ∷ pad_rb_down ∷ pad_rb_up ∷ []),
        (if polarity == 0 then pos 1 else negsuc 0),
      )
        ∷ (
          (pad_lx_left ∷ pad_ly_down ∷ pad_ry_down ∷ pad_rx_left ∷ mouse_wx_left ∷ mouse_wy_down
              ∷ []),
          (if polarity == 0 then negsuc 0 else pos 1),
        )
        ∷ [])
      (pos 1)
