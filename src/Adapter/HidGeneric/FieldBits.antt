-- ===== src/Adapter/HidGeneric/FieldBits.antt =====
-- The bits of a field of a report, and the number that a signed field stands for.
use blue_retro_forever.Prelude.{
  ℕ, ◌+◌, ◌-◌, ◌*◌, ◌/◌, ◌%◌, ◌^◌, ◌≤◌, ◌<◌, ◌≡◌, refl, sym, ap, ◌∙◌, Bool, true, false, ◌&&◌,
  arith, all_below, all_below_sound, leb→le, lt→ltb, ap₂, ltb, leb, if◌then◌else◌, test_bit,
  test_bit-and, test_bit-of_lt, test_bit-below, test_bit-above, test_bit-shift, test_bit-mask, u32,
}
use native.Mathlib.Decide.{dec_lt}
use blue_retro_forever.Adapter.HidGeneric.Fields.{word_at, field_mask, field_bits}

-- The bit `k` of a report: the lowest bit of each byte comes first.
abbrev pub report_bit : (ℕ → ℕ) → ℕ → Bool
report_bit input k = test_bit (input (k / 8)) (k % 8)

abbrev pub AreBytes : (ℕ → ℕ) → Type 0
AreBytes input = (i : ℕ) → input i < 256

if_true : (b x : Bool) → b ≡ true → (if b then x else false) ≡ x
if_true b x h = rw h refl

if_false : (b x : Bool) → b ≡ false → (if b then x else false) ≡ false
if_false b x h = rw h refl

not_ltb : (a b : ℕ) → b ≤ a → ltb a b ≡ false
not_ltb a b h = ground arith

both : (p q r : Bool) → ((if p then r else false) && q) ≡ (if q && p then r else false)
both true true r = ground arith
both true false r = ground arith
both false true r = ground arith
both false false r = ground arith

pow_table : all_below 33 (λ n. leb (2 ^ n) (2 ^ 32)) ≡ true
unfolding all_below
pow_table = refl

pub pow_le : (n : ℕ) → n ≤ 32 → 2 ^ n ≤ 2 ^ 32
pow_le n h =
    leb→le (2 ^ n) (2 ^ 32)
      (all_below_sound 33 (λ k. leb (2 ^ k) (2 ^ 32)) n pow_table (omega arith))

half_table : all_below 32 (λ n. leb (2 ^ n) (2 ^ 31)) ≡ true
unfolding all_below
half_table = refl

pub pow_31 : (n : ℕ) → n < 32 → 2 ^ n ≤ 2 ^ 31
pow_31 n h = leb→le (2 ^ n) (2 ^ 31) (all_below_sound 32 (λ k. leb (2 ^ k) (2 ^ 31)) n half_table h)

-- The bits behind the first byte.
next_byte : (a r k : ℕ) → a < 256 → 8 ≤ k → test_bit (a + 2 ^ 8 * r) k ≡ test_bit r (k - 8)
next_byte a r k small le =
    let e : k ≡ 8 + (k - 8) = omega arith in
    ap (test_bit (a + 2 ^ 8 * r)) e ∙ test_bit-above 8 (k - 8) a r small

-- The bit `j` of the byte `i` behind `o`.
report_bit_at :
    (input : ℕ → ℕ) (o k i j : ℕ)
    → j < 8
    → k ≡ 8 * i + j
    → test_bit (input (o + i)) j ≡ report_bit input (8 * o + k)
report_bit_at input o k i j lt e =
    let q : o + i ≡ (8 * o + k) / 8 = omega arith in
    let r : j ≡ (8 * o + k) % 8 = omega arith in ap₂ (λ x y. test_bit (input x) y) q r

word_at-bit :
    (input : ℕ → ℕ) (o k : ℕ)
    → AreBytes input
    → k < 32
    → test_bit (word_at input o) k ≡ report_bit input (8 * o + k)
unfolding word_at
word_at-bit input o k h lt =
    let a = input o in
    let b = input (o + 1) in
    let c = input (o + 2) in
    let d = input (o + 3) in
    let nested : word_at input o ≡ a + 2 ^ 8 * (b + 2 ^ 8 * (c + 2 ^ 8 * d)) = omega arith in
    let first : o ≡ o + 0 = omega arith in
    ap (λ x. test_bit x k) nested ∙ elim (dec_lt k 8) [
      | yes p0 ↦
          test_bit-below 8 k a (b + 2 ^ 8 * (c + 2 ^ 8 * d)) p0
          ∙ ap (λ x. test_bit (input x) k) first
          ∙ report_bit_at input o k 0 k p0 (omega arith)
      | no q0 ↦
          next_byte a (b + 2 ^ 8 * (c + 2 ^ 8 * d)) k (h o) (omega arith) ∙ elim (dec_lt k 16) [
            | yes p1 ↦
                test_bit-below 8 (k - 8) b (c + 2 ^ 8 * d) (omega arith)
                ∙ report_bit_at input o k 1 (k - 8) (omega arith) (omega arith)
            | no q1 ↦
                next_byte b (c + 2 ^ 8 * d) (k - 8) (h (o + 1)) (omega arith) ∙ elim (dec_lt k 24) [
                  | yes p2 ↦
                      test_bit-below 8 (k - 8 - 8) c d (omega arith)
                      ∙ report_bit_at input o k 2 (k - 8 - 8) (omega arith) (omega arith)
                  | no q2 ↦
                      next_byte c d (k - 8 - 8) (h (o + 2)) (omega arith)
                      ∙ report_bit_at input o k 3 (k - 8 - 8 - 8) (omega arith) (omega arith)
                ]
          ]
    ]

word_at-small : (input : ℕ → ℕ) (o : ℕ) → AreBytes input → word_at input o < 2 ^ 32
unfolding word_at
word_at-small input o h = omega (arith, h o, h (o + 1), h (o + 2), h (o + 3))

shifted_bit :
    (input : ℕ → ℕ) (offset k : ℕ)
    → AreBytes input
    → test_bit (word_at input (offset / 8) / 2 ^ (offset % 8)) k
      ≡ (if ltb (offset % 8 + k) 32 then report_bit input (offset + k) else false)
shifted_bit input offset k h =
    let s = offset % 8 in
    let w = word_at input (offset / 8) in
    test_bit-shift s k w ∙ elim (dec_lt (s + k) 32) [
      | yes lt ↦
          let e : 8 * (offset / 8) + (s + k) ≡ offset + k = omega arith in
          word_at-bit input (offset / 8) (s + k) h lt
          ∙ ap (report_bit input) e
          ∙ sym (if_true (ltb (s + k) 32) (report_bit input (offset + k)) (lt→ltb (s + k) 32 lt))
      | no ge ↦
          test_bit-of_lt 32 (s + k) w (word_at-small input (offset / 8) h) (omega arith)
          ∙ sym (
              if_false (ltb (s + k) 32) (report_bit input (offset + k))
                (not_ltb (s + k) 32 (omega arith)))
    ]

mask_bit : (len k : ℕ) → len ≤ 32 → test_bit (field_mask len) k ≡ ltb k len
unfolding field_mask
mask_bit len k small =
    let e : u32 (2 ^ len - 1) ≡ 2 ^ len - 1 = omega (arith, pow_le len small) in
    ap (λ x. test_bit x k) e ∙ test_bit-mask len k

-- What a field of at most 32 bits reads: its bits are those of the report from its offset on, as far as
-- the word of four bytes that starts at the byte of the offset goes. A field that ends behind that word
-- loses its last bits.
pub field_bits_lem :
    (input : ℕ → ℕ) (len offset k : ℕ)
    → AreBytes input
    → len ≤ 32
    → test_bit (field_bits input len offset) k
      ≡ (if ltb k len && ltb (offset % 8 + k) 32 then report_bit input (offset + k) else false)
unfolding field_bits field_mask
field_bits_lem input len offset k h small =
    let w = word_at input (offset / 8) / 2 ^ (offset % 8) in
    test_bit-and w (field_mask len) k
    ∙ ap₂ ◌&&◌ (shifted_bit input offset k h) (mask_bit len k small)
    ∙ both (ltb (offset % 8 + k) 32) (ltb k len) (report_bit input (offset + k))
