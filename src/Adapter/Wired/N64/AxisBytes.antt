-- ===== src/Adapter/Wired/N64/AxisBytes.antt =====
-- The axes of an N64 pad (main/adapter/wired/n64.c).
use blue_retro_forever.Prelude.{
  ℕ, zero, suc, ◌+◌, ◌<◌, ◌≡◌, refl, ap, ◌∙◌, Bool, true, false, arith, if◌then◌else◌, for_range,
  update, bit_and, meets, ℤ, pos, negsuc, ltz, ◌+ℤ◌, u8,
}
use blue_retro_forever.Adapter.Mapping.Types.{WiredCtrl, CtrlAxisWired}
use blue_retro_forever.Adapter.Quirks.Types.{CtrlMeta}
use blue_retro_forever.Adapter.Buttons.Tables.{axis_to_btn_mask}
use blue_retro_forever.Adapter.HidGeneric.Types.{s8, pattern32}
use blue_retro_forever.Adapter.Wired.N64.Tables.{n64_axes_meta, n64_desc}
use blue_retro_forever.Adapter.Wired.N64.Pad.{N64, axis_byte, axis_round, n64_ctrl_from_generic}

-- The nearest number of a signed byte.
abbrev pub clamp : ℤ → ℤ
clamp z = if ltz (pos 127) z then pos 127 else (if ltz z (negsuc 127) then negsuc 127 else z)

abbrev byte : CtrlMeta → ℤ → ℕ
byte m z =
    if ltz m.size_max z
    then 127
    else (if ltz z m.size_min then 0x80 else u8 (pattern32 (z +ℤ m.neutral)))

clamped : (z : ℤ) → s8 (byte (n64_axes_meta 0) z) ≡ clamp z
clamped (pos n) = ground arith
clamped (negsuc n) = ground arith

axis_byte_lem :
    (a : CtrlAxisWired) (i : ℕ) → a.meta ≡ n64_axes_meta i → s8 (axis_byte a) ≡ clamp a.value
unfolding axis_byte
axis_byte_lem a i e = ap (λ m. s8 (byte m a.value)) e ∙ clamped a.value

-- Whether the axis `i` is on an output.
abbrev pub axis_mapped : WiredCtrl → ℕ → Bool
axis_mapped ctrl i = meets (ctrl.map_mask 0) (bit_and (axis_to_btn_mask i) (n64_desc 0))

two : Bool → Bool → ℕ → ℕ → (ℕ → ℕ) → ℕ → ℕ
two a b x y old = let one = if a then update old 0 x else old in if b then update one 1 y else one

first_of : (a b : Bool) (x y : ℕ) (old : ℕ → ℕ) → two a b x y old 0 ≡ (if a then x else old 0)
unfolding two
first_of true true x y old = refl
first_of true false x y old = refl
first_of false true x y old = refl
first_of false false x y old = refl

second_of : (a b : Bool) (x y : ℕ) (old : ℕ → ℕ) → two a b x y old 1 ≡ (if b then y else old 1)
unfolding two
second_of true true x y old = refl
second_of true false x y old = refl
second_of false true x y old = refl
second_of false false x y old = refl

written :
    (ctrl : WiredCtrl) (s : N64) (i : ℕ)
    → i < 2
    → (n64_ctrl_from_generic ctrl s).wired.output (2 + i)
      ≡ (if axis_mapped ctrl i then axis_byte (ctrl.axes i) else s.wired.output (2 + i))
unfolding n64_ctrl_from_generic axis_round for_range axis_to_btn_mask two
written ctrl s zero h =
    first_of (axis_mapped ctrl 0) (axis_mapped ctrl 1) (axis_byte (ctrl.axes 0))
      (axis_byte (ctrl.axes 1)) (λ i. s.wired.output (2 + i))
written ctrl s (suc zero) h =
    second_of (axis_mapped ctrl 0) (axis_mapped ctrl 1) (axis_byte (ctrl.axes 0))
      (axis_byte (ctrl.axes 1)) (λ i. s.wired.output (2 + i))
written ctrl s (suc (suc i)) h = absurd (omega arith)

-- The byte of an axis that is mapped is the nearest signed byte to its value.
pub n64_ctrl_from_generic-axis :
    (ctrl : WiredCtrl) (s : N64) (i : ℕ)
    → i < 2
    → (ctrl.axes i).meta ≡ n64_axes_meta i
    → s8 ((n64_ctrl_from_generic ctrl s).wired.output (2 + i))
      ≡ (if axis_mapped ctrl i then clamp (ctrl.axes i).value else s8 (s.wired.output (2 + i)))
n64_ctrl_from_generic-axis ctrl s i h e = ap s8 (written ctrl s i h) ∙ branch (axis_mapped ctrl i)
  where
    branch :
        (b : Bool)
        → s8 (if b then axis_byte (ctrl.axes i) else s.wired.output (2 + i))
          ≡ (if b then clamp (ctrl.axes i).value else s8 (s.wired.output (2 + i)))
    branch true = axis_byte_lem (ctrl.axes i) i e
    branch false = refl
