-- ===== src/Adapter/MemoryCard/Tests.antt =====
-- The memory card of memory_card.c at a concrete card.
use blue_retro_forever.Prelude.{
  ℕ, ◌<◌, ◌≡◌, refl, true, false, some, arith, test_bit, test_bit-bit, ◌==◌, if◌then◌else◌,
}
use blue_retro_forever.Adapter.MemoryCard.Card.{
  Card, Env, stopped, mc_buffer_block_cnt, ffs, mc_store_spread, mc_init, mc_write,
}
use blue_retro_forever.Adapter.MemoryCard.Dirty.{IsSynced, file_byte, mc_write-IsSynced}
use blue_retro_forever.Adapter.MemoryCard.Spread.{handles_after, mc_store_spread-IsSynced}
use blue_retro_forever.Adapter.MemoryCard.Drain.{rounds, rounds-drained}
use blue_retro_forever.Adapter.MemoryCard.Restore.{mc_init-IsSynced}

abbrev working : Env
working = record { opens = true; writes = λ b. true }

abbrev old_file : ℕ × (ℕ → ℕ → ℕ)
old_file = (32, (λ b j. if b == 0 then 0 else j))

-- Block 0 is marked, and differs from the file.
abbrev card : Card
card = record {
  buffer = λ b j. j;
  state = 1;
  ready = true;
  timer = stopped;
  file = some old_file;
  handles = 0;
  feedback = 0;
}

card-IsSynced : IsSynced card
card-IsSynced i j lt clear = ground (arith, test_bit-bit 0 i)

mc_write-IsSynced_example : IsSynced (mc_write 0 4100 (λ i. 7) 16 card)
mc_write-IsSynced_example = mc_write-IsSynced 0 4100 16 (λ i. 7) card (omega arith) card-IsSynced

mc_store_spread-IsSynced_example : IsSynced (mc_store_spread working card).0
mc_store_spread-IsSynced_example = mc_store_spread-IsSynced working card card-IsSynced

-- With nothing marked, a handle stays open.
leak_test : handles_after (ffs 32 0 0) 0 ≡ 1
unfolding ffs
leak_test = refl

rounds-drained_example :
    ((i : ℕ) → i < mc_buffer_block_cnt → test_bit (rounds 32 working card).state i ≡ false)
    × ((i j : ℕ)
        → i < mc_buffer_block_cnt
        → file_byte (rounds 32 working card).file i j ≡ some (card.buffer i j))
rounds-drained_example = rounds-drained working card old_file refl (λ b. refl) refl card-IsSynced

restored : (mc_init working 0 card).1 ≡ true
unfolding mc_init
restored = refl

mc_init-IsSynced_example :
    ((mc_init working 0 card).0.ready ≡ true) × IsSynced (mc_init working 0 card).0
mc_init-IsSynced_example = mc_init-IsSynced working 0 card restored
