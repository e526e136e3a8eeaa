-- ===== src/Adapter/HidGeneric/Signs.antt =====
-- Signed fields and the calibration of the first report (main/adapter/wireless/hid_generic.c).
use blue_retro_forever.Prelude.{
  ℕ, zero, suc, ◌+◌, ◌-◌, ◌*◌, ◌/◌, ◌%◌, ◌^◌, ◌≤◌, ◌<◌, ◌≡◌, refl, sym, ap, ◌∙◌, true, false, arith,
  ltb, leb, ◌==◌, if◌then◌else◌, test_bit, test_bit-of_lt, u32, ℤ, pos, negsuc, ltz, bit, bit_or,
  meets, meets-bit, not32, not32-mask, bit_or-above, positive, Bool-cases, inl, inr, all_below,
  all_below_sound, ==_iff, ◌&&◌,
}
use native.Mathlib.Nat.{pow-suc}
use native.Mathlib.Decide.{dec_lt}
use blue_retro_forever.Adapter.HidParser.Types.{HidUsage}
use blue_retro_forever.Adapter.HidGeneric.Types.{s32, pattern32}
use blue_retro_forever.Adapter.HidGeneric.Fields.{field_mask}
use blue_retro_forever.Adapter.HidGeneric.FieldBits.{pow_le, pow_31}
use blue_retro_forever.Adapter.HidGeneric.Mouse.{sign_fill}
use blue_retro_forever.Adapter.HidGeneric.PadUsages.{stick_neutral}
use blue_retro_forever.Adapter.HidGeneric.Pad.{axis_value, calibrate}

-- The number that a field of `len` bits stands for in two's complement.
abbrev pub signed : ℕ → ℕ → ℤ
signed len v = if ltb v (2 ^ (len - 1)) then pos v else negsuc (2 ^ len - 1 - v)

less : (n : ℕ) → suc n - 1 ≡ n
less n = omega arith

top_low : (n v : ℕ) → v < 2 ^ n → test_bit v n ≡ false
top_low n v h = test_bit-of_lt n n v h (omega arith)

top_high : (n v : ℕ) → 2 ^ n ≤ v → v < 2 ^ suc n → test_bit v n ≡ true
unfolding test_bit
top_high zero v h g = ground arith
top_high (suc n) v h g =
    top_high n (v / 2) (omega (arith, pow-suc 2 n)) (omega (arith, pow-suc 2 (suc n)))

fill_value :
    (n v : ℕ)
    → sign_fill (suc n) v ≡ (if test_bit v n then bit_or v (not32 (field_mask (suc n))) else v)
unfolding sign_fill
fill_value n v =
    let e : suc n - 1 ≡ n = omega arith in
    let w = bit_or v (not32 (field_mask (suc n))) in
    ap (λ m. if meets v (bit m) then w else v) e ∙ ap (λ b. if b then w else v) (meets-bit n v)

above_table : all_below 33 (λ n. (2 ^ (32 - n) - 1) * 2 ^ n + 2 ^ n == 2 ^ 32) ≡ true
unfolding all_below
above_table = refl

-- The bits above a field of `len` bits, all set.
filled :
    (len v : ℕ) → len ≤ 32 → v < 2 ^ len → bit_or v (not32 (field_mask len)) + 2 ^ len ≡ v + 2 ^ 32
unfolding field_mask
filled len v small lt =
    let e : u32 (2 ^ len - 1) ≡ 2 ^ len - 1 = omega (arith, pow_le len small) in
    let m : not32 (u32 (2 ^ len - 1)) ≡ (2 ^ (32 - len) - 1) * 2 ^ len =
      ap not32 e ∙ not32-mask len small in
    let all : (2 ^ (32 - len) - 1) * 2 ^ len + 2 ^ len ≡ 2 ^ 32 =
      (==_iff ((2 ^ (32 - len) - 1) * 2 ^ len + 2 ^ len) (2 ^ 32)).0 (
        all_below_sound 33 (λ n. (2 ^ (32 - n) - 1) * 2 ^ n + 2 ^ n == 2 ^ 32) len above_table
          (omega arith)) in
    let sum = ap (bit_or v) m ∙ bit_or-above len v (2 ^ (32 - len) - 1) lt in
    omega (arith, sum, all)

s32_below : (w : ℕ) → w < 2 ^ 31 → s32 w ≡ pos w
s32_below w h = ground arith

s32_negative : (w k : ℕ) → 2 ^ 31 ≤ w → w + suc k ≡ 2 ^ 32 → s32 w ≡ negsuc k
s32_negative w k h e = ground arith

signed_low : (n v : ℕ) → v < 2 ^ n → pos v ≡ signed (suc n) v
signed_low n v h = let e : 2 ^ (suc n - 1) ≡ 2 ^ n = ap (λ m. 2 ^ m) (less n) in ground arith

signed_high : (n v : ℕ) → 2 ^ n ≤ v → negsuc (2 ^ suc n - 1 - v) ≡ signed (suc n) v
signed_high n v h = let e : 2 ^ (suc n - 1) ≡ 2 ^ n = ap (λ m. 2 ^ m) (less n) in ground arith

-- A signed field of 1 to 32 bits is carried to the number that it stands for in two's complement.
pub sign_fill_lem :
    (n v : ℕ) → n < 32 → v < 2 ^ suc n → s32 (sign_fill (suc n) v) ≡ signed (suc n) v
sign_fill_lem n v small lt =
    let half = pow_le n (omega arith) in
    let full = pow_le (suc n) small in
    let half31 = pow_31 n small in
    let e : suc n - 1 ≡ n = omega arith in
    let w = bit_or v (not32 (field_mask (suc n))) in
    ap s32 (fill_value n v) ∙ elim (dec_lt v (2 ^ n)) [
      | yes low ↦
          ap (λ b. s32 (if b then w else v)) (top_low n v low)
          ∙ s32_below v (omega (arith, half31))
          ∙ signed_low n v low
      | no high ↦
          ap (λ b. s32 (if b then w else v)) (top_high n v (omega arith) lt)
          ∙ s32_negative w (2 ^ suc n - 1 - v)
              (omega (arith, filled (suc n) v small lt, half31, pow-suc 2 n))
              (omega (arith, filled (suc n) v small lt))
          ∙ signed_high n v (omega arith)
    ]

pattern32-s32 : (x : ℕ) → pattern32 (s32 x) ≡ x % 2 ^ 32
pattern32-s32 x = ground arith

pattern32-small : (z : ℤ) → pattern32 z < 2 ^ 32
pattern32-small (pos n) = omega arith
pattern32-small (negsuc n) = omega arith

s32_zero : (w : ℕ) → w % 2 ^ 32 ≡ 0 → s32 w ≡ pos 0
s32_zero w h = ground arith

s32_wrapped : (w k : ℕ) → w + suc k ≡ 2 ^ 32 + 2 ^ 32 → suc k ≤ 2 ^ 31 → s32 w ≡ negsuc k
s32_wrapped w k e h = ground arith

-- With an unsigned field the calibration of a report cancels its value.
unsigned_first :
    (u : HidUsage) (v : ℕ) (neutral : ℤ)
    → ltz (s32 u.logical_min) (pos 0) ≡ false
    → axis_value u v neutral (calibrate v neutral) ≡ pos 0
unfolding axis_value calibrate
unsigned_first u v neutral h =
    let d = u32 (v + 2 ^ 32 - pattern32 neutral) in
    let small = pattern32-small neutral in
    let cal = pattern32-s32 (2 ^ 32 - d) in
    ap
      (λ b.
        if b
        then s32 (sign_fill u.bit_size v + pattern32 (s32 (2 ^ 32 - d)))
        else s32 (v + 2 ^ 32 - pattern32 neutral + pattern32 (s32 (2 ^ 32 - d))))
      h
    ∙ s32_zero (v + 2 ^ 32 - pattern32 neutral + pattern32 (s32 (2 ^ 32 - d)))
        (omega (arith, cal, small))

signed_first :
    (u : HidUsage) (n v : ℕ)
    → ltz (s32 u.logical_min) (pos 0) ≡ true
    → u.bit_size ≡ suc n
    → n < 31
    → v < 2 ^ suc n
    → axis_value u v (pos 0) (calibrate v (pos 0))
      ≡ (if leb (2 ^ n) v then negsuc (2 ^ suc n - 1) else pos 0)
unfolding axis_value calibrate
signed_first u n v h size small lt =
    let cal = pattern32 (s32 (2 ^ 32 - u32 (v + 2 ^ 32 - pattern32 (pos 0)))) in
    let cal_is = pattern32-s32 (2 ^ 32 - u32 (v + 2 ^ 32 - pattern32 (pos 0))) in
    let full = pow_31 (suc n) (omega arith) in
    let w = bit_or v (not32 (field_mask (suc n))) in
    ap
      (λ b.
        if b
        then s32 (sign_fill u.bit_size v + cal)
        else s32 (v + 2 ^ 32 - pattern32 (pos 0) + cal))
      h
    ∙ ap (λ k. s32 (sign_fill k v + cal)) size
    ∙ ap (λ x. s32 (x + cal)) (fill_value n v)
    ∙ elim (dec_lt v (2 ^ n)) [
      | yes low ↦
          ap (λ b. s32 ((if b then w else v) + cal)) (top_low n v low)
          ∙ s32_zero (v + cal) (omega (arith, cal_is, full))
          ∙ ground arith
      | no high ↦
          ap (λ b. s32 ((if b then w else v) + cal)) (top_high n v (omega arith) lt)
          ∙ s32_wrapped (w + cal) (2 ^ suc n - 1)
              (omega (arith, cal_is, full, filled (suc n) v (omega arith) lt, positive (suc n)))
              (omega (arith, full, positive (suc n)))
          ∙ ground arith
    ]

stick_neutral_signed :
    (u : HidUsage) → ltz (s32 u.logical_min) (pos 0) ≡ true → stick_neutral u ≡ pos 0
stick_neutral_signed u h = rw h refl

-- In the first report of a pad a stick reads as centred, wherever it rests, with one exception: a signed
-- field of up to 31 bits that rests below zero reads as the smallest number of a field that is one bit
-- wider, since the calibration takes the field before its sign is filled in.
pub axis_value-first :
    (u : HidUsage) (n v : ℕ)
    → u.bit_size ≡ suc n
    → n < 31
    → v < 2 ^ suc n
    → axis_value u v (stick_neutral u) (calibrate v (stick_neutral u))
      ≡ (if ltz (s32 u.logical_min) (pos 0) && leb (2 ^ n) v then negsuc (2 ^ suc n - 1) else pos 0)
axis_value-first u n v size small lt = elim (Bool-cases (ltz (s32 u.logical_min) (pos 0))) [
  | inl below ↦
      ap (λ z. axis_value u v z (calibrate v z)) (stick_neutral_signed u below)
      ∙ signed_first u n v below size small lt
      ∙ sym (ap (λ b. if b && leb (2 ^ n) v then negsuc (2 ^ suc n - 1) else pos 0) below)
  | inr unsigned ↦
      unsigned_first u v (stick_neutral u) unsigned
      ∙ sym (ap (λ b. if b && leb (2 ^ n) v then negsuc (2 ^ suc n - 1) else pos 0) unsigned)
]
