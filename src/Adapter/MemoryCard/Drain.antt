-- ===== src/Adapter/MemoryCard/Drain.antt =====
-- The timer of memory_card.c stores the marked blocks one after the other.
use blue_retro_forever.Prelude.{
  ℕ, zero, suc, ◌+◌, ◌<◌, ◌≡◌, refl, ap, ◌∙◌, true, false, Option, none, some, arith, test_bit,
  test_bit-clear_bit, clear_bit,
}
use blue_retro_forever.Adapter.MemoryCard.Card.{
  Card, Env, mc_buffer_block_cnt, opened, ffs, write_block, store_found, mc_store_spread,
}
use blue_retro_forever.Adapter.MemoryCard.Dirty.{
  IsSynced, file_byte, IsFirst, ffs-IsFirst, ffs-none,
}
use blue_retro_forever.Adapter.MemoryCard.Spread.{
  store_block-IsStored, mc_store_spread-IsSynced, spread-found,
}

-- The rounds of the timer.
abbrev pub rounds : ℕ → Env → Card → Card
rounds zero env c = c
rounds (suc n) env c = rounds n env (mc_store_spread env c).0

-- What the rounds have done once the blocks below `k` are stored.
record IsDrained (m : ℕ → ℕ → ℕ) (k : ℕ) (c : Card) : Type 0 where
  pub kept : c.buffer ≡ m
  pub has_file : (f : ℕ × (ℕ → ℕ → ℕ)) × (c.file ≡ some f)
  pub clear : (i : ℕ) → i < k → test_bit c.state i ≡ false

found-IsDrained :
    (env : Env) (m : ℕ → ℕ → ℕ) (k : ℕ) (f : ℕ × (ℕ → ℕ → ℕ)) (o : Option ℕ) (c : Card)
    → ((b : ℕ) → env.writes b ≡ true)
    → ffs 32 0 c.state ≡ o
    → k < 32
    → c.file ≡ some f
    → IsDrained m k c
    → IsDrained m (k + 1) (store_found env f o (opened c)).0
found-IsDrained env m k f none c w e lt file h = record {
  kept = h.kept;
  has_file = (f, file);
  clear = λ i li. ffs-none 32 0 c.state i e (omega arith) (omega arith);
}
found-IsDrained env m k f (some b) c w e lt file h =
    let first = ffs-IsFirst 32 0 c.state b e in
    let s = store_block-IsStored env b f (opened c) (w b) in
    record {
      kept = s.same_buffer ∙ h.kept;
      has_file = (write_block b (c.buffer b) f, s.stored);
      clear = λ i li. ap (λ x. test_bit x i) s.unmarked ∙ cleared first i li;
    }
  where
    cleared : IsFirst 0 c.state b → (i : ℕ) → i < k + 1 → test_bit (clear_bit c.state b) i ≡ false
    cleared first i li =
        let low = first.lower i (omega arith) in
        let old = h.clear b in
        let set = first.is_set in ground (arith, test_bit-clear_bit c.state b i (omega arith))

spread-IsDrained :
    (env : Env) (m : ℕ → ℕ → ℕ) (k : ℕ) (c : Card)
    → env.opens ≡ true
    → ((b : ℕ) → env.writes b ≡ true)
    → k < 32
    → IsDrained m k c
    → IsDrained m (k + 1) (mc_store_spread env c).0
spread-IsDrained env m k c o w lt h =
    let (f, e) = h.has_file in
    rw (spread-found env c f e o) (found-IsDrained env m k f (ffs 32 0 c.state) c w refl lt e h)

rounds-IsDrained :
    (env : Env) (m : ℕ → ℕ → ℕ) (n k : ℕ) (c : Card)
    → env.opens ≡ true
    → ((b : ℕ) → env.writes b ≡ true)
    → k + n ≡ 32
    → IsDrained m k c
    → IsDrained m 32 (rounds n env c)
rounds-IsDrained env m zero k c o w e h = let e' : 32 ≡ k = omega arith in rw e' h
rounds-IsDrained env m (suc n) k c o w e h =
    rounds-IsDrained env m n (k + 1) (mc_store_spread env c).0 o w (omega arith)
      (spread-IsDrained env m k c o w (omega arith) h)

rounds-IsSynced : (env : Env) (n : ℕ) (c : Card) → IsSynced c → IsSynced (rounds n env c)
rounds-IsSynced env zero c h = h
rounds-IsSynced env (suc n) c h =
    rounds-IsSynced env n (mc_store_spread env c).0 (mc_store_spread-IsSynced env c h)

-- If the file is there, opens and can be written, and has every block that is not marked, then after 32
-- rounds of the timer no block is marked and the file has the whole card, which the rounds have not
-- changed.
pub rounds-drained :
    (env : Env) (c : Card) (f : ℕ × (ℕ → ℕ → ℕ))
    → env.opens ≡ true
    → ((b : ℕ) → env.writes b ≡ true)
    → c.file ≡ some f
    → IsSynced c
    → ((i : ℕ) → i < mc_buffer_block_cnt → test_bit (rounds 32 env c).state i ≡ false)
      × ((i j : ℕ)
          → i < mc_buffer_block_cnt
          → file_byte (rounds 32 env c).file i j ≡ some (c.buffer i j))
rounds-drained env c f o w e h = (
  (λ i lt. drained.clear i (omega arith)),
  λ i j lt.
      rounds-IsSynced env 32 c h i j lt (drained.clear i (omega arith))
      ∙ ap (λ (g : ℕ → ℕ → ℕ). some (g i j)) drained.kept,
)
  where
    drained : IsDrained c.buffer 32 (rounds 32 env c)
    drained =
        rounds-IsDrained env c.buffer 32 0 c o w refl
          (record { kept = refl; has_file = (f, e); clear = λ i lt. absurd (omega arith) })
