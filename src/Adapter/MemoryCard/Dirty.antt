-- ===== src/Adapter/MemoryCard/Dirty.antt =====
-- The blocks that the file lacks are marked, and are stored in the end: memory_card.c.
use blue_retro_forever.Prelude.{
  ℕ, zero, suc, ◌+◌, ◌/◌, ◌≤◌, ◌<◌, ◌≡◌, inl, inr, true, false, Option, none, some, arith, test_bit,
  test_bit-set_bit, ltb, if◌then◌else◌, Bool-cases,
}
use native.Mathlib.Decide.{dec_lt}
use blue_retro_forever.Adapter.MemoryCard.Card.{
  Card, mc_buffer_block_cnt, config_banksel_max, ffs, mc_write,
}

-- A byte of the file, if it is that long.
abbrev pub file_byte : Option (ℕ × (ℕ → ℕ → ℕ)) → ℕ → ℕ → Option ℕ
file_byte none i j = none
file_byte (some (blocks, bytes)) i j = if ltb i blocks then some (bytes i j) else none

-- The file has every block that is not marked.
abbrev pub IsSynced : Card → Type 0
IsSynced c =
    (i j : ℕ)
    → i < mc_buffer_block_cnt
    → test_bit c.state i ≡ false
    → file_byte c.file i j ≡ some (c.buffer i j)

-- With a bank in use, if the file has every block that is not marked, it still does after a write to the
-- card.
pub mc_write-IsSynced :
    (banksel addr size : ℕ) (bytes : ℕ → ℕ) (c : Card)
    → banksel < config_banksel_max
    → IsSynced c
    → IsSynced (mc_write banksel addr bytes size c)
unfolding mc_write
mc_write-IsSynced banksel addr size bytes c bank h i j lt clear =
    let marked = test_bit-set_bit c.state (addr / 4096) i in let old = h i j lt in ground arith

-- What `ffs` finds is the first bit that is set.
pub record IsFirst (i x b : ℕ) : Type 0 where
  pub after : i ≤ b
  pub is_set : test_bit x b ≡ true
  pub lower : (j : ℕ) → i ≤ j → j < b → test_bit x j ≡ false

pub ffs-IsFirst : (n i x b : ℕ) → ffs n i x ≡ some b → IsFirst i x b
unfolding ffs
ffs-IsFirst zero i x b e = ground arith
ffs-IsFirst (suc n) i x b e = elim (Bool-cases (test_bit x i)) [
  | inl set ↦ record {
    after = ground arith;
    is_set = ground arith;
    lower = λ j ge lt. absurd (ground arith);
  }
  | inr clear ↦
      let r : IsFirst (i + 1) x b = ffs-IsFirst n (i + 1) x b (ground arith) in
      record {
        after = let a = r.after in omega arith;
        is_set = r.is_set;
        lower = λ j ge lt. elim (dec_lt i j) [
          | yes p ↦ r.lower j (omega arith) lt
          | no p ↦ let same : j ≡ i = omega arith in rw same clear
        ];
      }
]

pub ffs-none : (n i x j : ℕ) → ffs n i x ≡ none → i ≤ j → j < i + n → test_bit x j ≡ false
unfolding ffs
ffs-none zero i x j e ge lt = absurd (omega arith)
ffs-none (suc n) i x j e ge lt = elim (dec_lt i j) [
  | yes p ↦ ffs-none n (i + 1) x j (ground arith) (omega arith) (omega arith)
  | no p ↦ let same : j ≡ i = omega arith in rw same (ground arith)
]
