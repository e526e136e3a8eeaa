-- ===== src/Adapter/MemoryCard/Card.antt =====
-- The memory card of main/adapter/memory_card.c: 32 blocks in memory, the blocks that the file lacks, the
-- timer that stores one block at a time, and the file.
use blue_retro_forever.Prelude.{
  ℕ, zero, suc, ◌+◌, ◌*◌, ◌-◌, ◌/◌, ◌%◌, ◌&&◌, Bool, true, false, Option, none, some, test_bit,
  set_bit, clear_bit, for_range, ltb, leb, ◌==◌, if◌then◌else◌,
}

abbrev pub mc_buffer_block_size : ℕ
mc_buffer_block_size = 4 * 1024

abbrev pub mc_buffer_block_cnt : ℕ
mc_buffer_block_cnt = 32

abbrev pub config_banksel_max : ℕ
config_banksel_max = 4

-- Whether the timer runs, and for how long it was started.
pub data Timer : Type 0 where
  absent : Timer
  stopped : Timer
  running : ℕ → Timer

-- The file, if it is there; `handles` counts those that were opened and not closed. The bytes of the
-- buffer and of the file are functions of the block and the offset in it, and the file has `blocks`
-- whole blocks.
pub record Card : Type 0 where
  pub buffer : ℕ → ℕ → ℕ
  pub state : ℕ
  pub ready : Bool
  pub timer : Timer
  pub file : Option (ℕ × (ℕ → ℕ → ℕ))
  pub handles : ℕ
  pub feedback : ℕ

-- What the file system answers: whether the file opens, and how many whole blocks a write from a block
-- on can write.
pub record Env : Type 0 where
  pub opens : Bool
  pub writes : ℕ → Bool

-- `fopen` and `fclose`
abbrev pub opened : Card → Card
opened c = record c { handles = c.handles + 1 }

abbrev pub closed : Card → Card
closed c = record c { handles = c.handles - 1 }

unfoldable pub mc_start_update_timer : ℕ → Card → Card
mc_start_update_timer timeout c = record c {
  timer = elim c.timer [
    | absent ↦ absent
    | stopped ↦ running timeout
    | running t ↦ running timeout
  ];
}

-- `__builtin_ffs` from bit `i` on, for `n` bits.
unfoldable pub ffs : ℕ → ℕ → ℕ → Option ℕ
unfolding test_bit
ffs zero i x = none
ffs (suc n) i x = let next = ffs n (i + 1) x in if test_bit x i then some i else next

-- A block of a file that is written; a file that ends before it grows to it.
abbrev pub write_block : ℕ → (ℕ → ℕ) → ℕ × (ℕ → ℕ → ℕ) → ℕ × (ℕ → ℕ → ℕ)
write_block b block (blocks, bytes) =
    ((if ltb b blocks then blocks else b + 1), (λ i. if i == b then block else bytes i))

-- A block was found: it is written and the file closed; the timer runs on while blocks are left.
unfoldable pub store_block : Env → ℕ → ℕ × (ℕ → ℕ → ℕ) → Card → Card × Bool
unfolding clear_bit mc_start_update_timer
store_block env b f c0 =
    let c1 =
      if env.writes b
      then (record c0 { file = some (write_block b (c0.buffer b) f); state = clear_bit c0.state b })
      else c0 in
    let c2 = closed c1 in
    ((if c2.state == 0 then c2 else mc_start_update_timer 20000 c2), env.writes b)

abbrev pub store_found : Env → ℕ × (ℕ → ℕ → ℕ) → Option ℕ → Card → Card × Bool
store_found env f none c = (c, false)
store_found env f (some b) c = store_block env b f c

-- With "r+b" a file that is not there does not open.
abbrev pub store_open : Env → Option (ℕ × (ℕ → ℕ → ℕ)) → Card → Card × Bool
store_open env none c = (c, false)
store_open env (some f) c =
    if env.opens then store_found env f (ffs 32 0 c.state) (opened c) else (c, false)

-- The card, and whether 0 (and not -1) is returned. Where no block is dirty the file is not closed.
unfoldable pub mc_store_spread : Env → Card → Card × Bool
unfolding store_block ffs
mc_store_spread env c = store_open env c.file c

-- How many blocks `fwrite` could write.
abbrev pub count_writes : Env → ℕ
count_writes env =
    for_range mc_buffer_block_cnt 0 (λ i count. count + (if env.writes i then 1 else 0)) 0

-- Each block is written after the last one that could be.
abbrev pub write_all : Env → Card → ℕ × (ℕ → ℕ → ℕ)
write_all env c =
    for_range mc_buffer_block_cnt 0
      (λ i (n, bytes).
        if env.writes i then (n + 1, (λ j. if j == n then c.buffer i else bytes j)) else (n, bytes))
      (0, (λ i j. 0))

-- The file that was opened has `count` blocks.
abbrev pub store_all : Bool → ℕ → ℕ × (ℕ → ℕ → ℕ) → Card → Card × Bool
store_all true count f c =
    let all = count == mc_buffer_block_cnt in
    ((record c { file = some f; state = if all then 0 else c.state }), all)
store_all false count f c = (c, false)

-- The card, and whether 0 (and not -1) is returned.
unfoldable pub mc_store : Env → Card → Card × Bool
unfolding for_range
mc_store env c = store_all env.opens (count_writes env) (write_all env c) c

abbrev pub restore_from : Env → Option (ℕ × (ℕ → ℕ → ℕ)) → Card → Card × Bool
restore_from env none c = mc_store env c
restore_from env (some (blocks, bytes)) c =
    if env.opens
    then (
      (record c {
        buffer =
            λ i j. if ltb i mc_buffer_block_cnt && ltb i blocks then bytes i j else c.buffer i j;
      }),
      leb mc_buffer_block_cnt blocks,
    )
    else (c, false)

unfoldable pub mc_restore : Env → Card → Card × Bool
unfolding mc_store
mc_restore env c = restore_from env c.file c

-- The card is ready when it could be restored.
abbrev pub set_ready : Card × Bool → Card × Bool
set_ready (c, true) = ((record c { ready = true }), true)
set_ready (c, false) = (c, false)

unfoldable pub mc_init : Env → ℕ → Card → Card × Bool
unfolding mc_restore
mc_init env banksel c =
    if ltb banksel config_banksel_max
    then set_ready (mc_restore env (record c { timer = stopped }))
    else (c, false)

unfoldable pub mc_storage_update : Card → Card
unfolding mc_start_update_timer
mc_storage_update c = mc_start_update_timer 1000000 c

-- A read and a write of `size` bytes; the offset runs on in the block, which no access crosses.
unfoldable pub mc_read : ℕ → ℕ → Card → ℕ
mc_read addr i c = c.buffer (addr / 4096) (addr % 4096 + i)

unfoldable pub mc_write : ℕ → ℕ → (ℕ → ℕ) → ℕ → Card → Card
unfolding set_bit
mc_write banksel addr bytes size c =
    let block = addr / 4096 in
    let offset = addr % 4096 in
    let c1 = record c {
      buffer = λ b j.
          if b == block && leb offset j && ltb j (offset + size)
          then bytes (j - offset)
          else c.buffer b j;
    } in
    if ltb banksel config_banksel_max
    then (record c1 { state = set_bit c1.state block; feedback = c1.feedback + 1 })
    else c1
