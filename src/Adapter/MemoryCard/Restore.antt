-- ===== src/Adapter/MemoryCard/Restore.antt =====
-- The start of memory_card.c leaves the card as the file has it.
use blue_retro_forever.Prelude.{
  ℕ, ◌+◌, ◌≤◌, ◌<◌, ◌≡◌, refl, sym, ap, subst, ◌∙◌, ◌&&◌, Bool, true, false, Option, none, some,
  arith, for_range_inv, ltb, leb, ◌==◌, if◌then◌else◌, Bool-cases, inl, inr,
}
use native.Mathlib.Decide.{dec_lt}
use blue_retro_forever.Adapter.MemoryCard.Card.{
  Card, Env, stopped, mc_buffer_block_cnt, count_writes, write_all, store_all, set_ready, mc_store,
  restore_from, mc_init, config_banksel_max,
}
use blue_retro_forever.Adapter.MemoryCard.Dirty.{IsSynced, file_byte}

-- The count is at most the number of rounds, and is that number if every write went through.
abbrev Counted : Env → ℕ → ℕ → Type 0
Counted env i n = (n ≤ i) × (n ≡ i → (j : ℕ) → j < i → env.writes j ≡ true)

count_writes-Counted : (env : Env) → Counted env mc_buffer_block_cnt (count_writes env)
count_writes-Counted env =
    for_range_inv (Counted env) (λ i count. count + (if env.writes i then 1 else 0))
      mc_buffer_block_cnt 0 mc_buffer_block_cnt 0 refl (λ i n _ _ h. counted_next i n h)
      (omega arith, λ _ j lt. absurd (omega arith))
  where
    counted_next :
        (i n : ℕ) → Counted env i n → Counted env (i + 1) (n + (if env.writes i then 1 else 0))
    counted_next i n (le, all) = elim (Bool-cases (env.writes i)) [
      | inl w ↦ (
        ground arith,
        λ e j lt. elim (dec_lt j i) [
          | yes p ↦ all (ground arith) j p
          | no p ↦ let same : j ≡ i = omega arith in rw same w
        ],
      )
      | inr w ↦ (ground arith, λ e. absurd (ground arith))
    ]

-- What `write_all` has written before block `i` where every write goes through.
abbrev Written : Card → ℕ → ℕ × (ℕ → ℕ → ℕ) → Type 0
Written c i f = (f.0 ≡ i) × ((k j : ℕ) → k < i → f.1 k j ≡ c.buffer k j)

write_all-Written :
    (env : Env) (c : Card)
    → ((j : ℕ) → j < mc_buffer_block_cnt → env.writes j ≡ true)
    → Written c mc_buffer_block_cnt (write_all env c)
write_all-Written env c w =
    for_range_inv (Written c)
      (λ i (n, bytes).
        if env.writes i then (n + 1, (λ j. if j == n then c.buffer i else bytes j)) else (n, bytes))
      mc_buffer_block_cnt 0 mc_buffer_block_cnt (0, (λ i j. 0)) refl
      (λ i (n, bytes) _ lt (e, h).
        let now = w i lt in (ground arith, λ k j lk. let old = h k j in grind arith))
      (refl, λ k j lt. absurd (omega arith))

store_all-IsSynced :
    (opens : Bool) (count : ℕ) (f : ℕ × (ℕ → ℕ → ℕ)) (c : Card)
    → (count ≡ mc_buffer_block_cnt → Written c mc_buffer_block_cnt f)
    → (store_all opens count f c).1 ≡ true
    → IsSynced (store_all opens count f c).0
store_all-IsSynced true count (blocks, bytes) c h ok i j lt clear =
    let (e, same) = h (ground arith) in let one = same i j lt in grind arith
store_all-IsSynced false count f c h ok i j lt clear = absurd (ground arith)

mc_store-eq :
    (env : Env) (c : Card)
    → mc_store env c ≡ store_all env.opens (count_writes env) (write_all env c) c
unfolding mc_store
mc_store-eq env c = refl

mc_store-IsSynced : (env : Env) (c : Card) → (mc_store env c).1 ≡ true → IsSynced (mc_store env c).0
mc_store-IsSynced env c ok =
    subst (λ (r : Card × Bool). IsSynced r.0) (sym (mc_store-eq env c))
      (store_all-IsSynced env.opens (count_writes env) (write_all env c) c
        (λ all. let (_, w) = count_writes-Counted env in write_all-Written env c (w all))
        (ap (λ (r : Card × Bool). r.1) (sym (mc_store-eq env c)) ∙ ok))

-- What holds when either branch succeeds.
if-ok :
    (P : Card → Type 0) (b : Bool) (r t : Card × Bool)
    → (r.1 ≡ true → P r.0)
    → (t.1 ≡ true → P t.0)
    → (if◌then◌else◌ {A = Card × Bool} b r t).1 ≡ true
    → P (if◌then◌else◌ {A = Card × Bool} b r t).0
if-ok P true r t h g ok = h ok
if-ok P false r t h g ok = g ok

restore_from-IsSynced :
    (env : Env) (o : Option (ℕ × (ℕ → ℕ → ℕ))) (c : Card)
    → c.file ≡ o
    → (restore_from env o c).1 ≡ true
    → IsSynced (restore_from env o c).0
restore_from-IsSynced env none c e ok = mc_store-IsSynced env c ok
restore_from-IsSynced env (some (blocks, bytes)) c e ok =
    if-ok IsSynced env.opens
      (
        (record c {
          buffer =
              λ i j. if ltb i mc_buffer_block_cnt && ltb i blocks then bytes i j else c.buffer i j;
        }),
        leb mc_buffer_block_cnt blocks,
      )
      (c, false) (λ long i j lt clear. ap (λ g. file_byte g i j) e ∙ ground arith)
      (λ no'. absurd (ground arith)) ok

set_ready-IsSynced :
    (r : Card × Bool)
    → (r.1 ≡ true → IsSynced r.0)
    → (set_ready r).1 ≡ true
    → ((set_ready r).0.ready ≡ true) × IsSynced (set_ready r).0
set_ready-IsSynced (c, true) h ok = (refl, h refl)
set_ready-IsSynced (c, false) h ok = absurd (ground arith)

mc_init-eq :
    (env : Env) (banksel : ℕ) (c : Card)
    → mc_init env banksel c ≡ (
        if ltb banksel config_banksel_max
        then set_ready (restore_from env c.file (record c { timer = stopped }))
        else (c, false))
unfolding mc_init
mc_init-eq env banksel c = refl

abbrev IsStarted : Card → Type 0
IsStarted c = (c.ready ≡ true) × IsSynced c

-- When the start of the card succeeds, whether it read the file or made it, the card is ready and the
-- file has every block of it that is not marked.
pub mc_init-IsSynced :
    (env : Env) (banksel : ℕ) (c : Card)
    → (mc_init env banksel c).1 ≡ true
    → ((mc_init env banksel c).0.ready ≡ true) × IsSynced (mc_init env banksel c).0
mc_init-IsSynced env banksel c ok =
    subst (λ (r : Card × Bool). IsStarted r.0) (sym (mc_init-eq env banksel c))
      (if-ok IsStarted (ltb banksel config_banksel_max)
        (set_ready (restore_from env c.file (record c { timer = stopped }))) (c, false)
        (set_ready-IsSynced (restore_from env c.file (record c { timer = stopped }))
          (restore_from-IsSynced env c.file (record c { timer = stopped }) refl))
        (λ no'. absurd (ground arith))
        (ap (λ (r : Card × Bool). r.1) (sym (mc_init-eq env banksel c)) ∙ ok))
