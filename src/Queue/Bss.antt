-- ===== src/Queue/Bss.antt =====
-- queue_bss.c over a ring: the buffers and their lengths are memory that the two rings point into.
use blue_retro_forever.Prelude.{
  ℕ, zero, suc, ◌+◌, ◌-◌, ◌*◌, ◌^◌, Bool, true, false, ◌&&◌, Option, none, some, ltb, leb,
  if◌then◌else◌, update, u32, ℤ, pos, negsuc,
}
use blue_retro_forever.Queue.Ring.{Slot, RingOps}

pub record QueueBss (S : Type 0) : Type 0 where
  pub item_queue_state : S
  pub item_free_state : S
  pub item : ℕ → ℕ
  pub item_len : ℕ → ℕ
  pub item_max_len : ℕ
  pub item_num : ℕ

-- `sizeof(struct queue_bss)` and `sizeof(struct lfds711_queue_bss_element)`, which liblfds711 decides.
pub record Sizes : Type 0 where
  pub queue : ℕ
  pub element : ℕ

-- `memcpy(mem + dst, src, n)` from another object
unfoldable pub memcpy : (ℕ → ℕ) → ℕ → (ℕ → ℕ) → ℕ → ℕ → ℕ
memcpy mem dst src n j = if leb dst j && ltb j (dst + n) then src (j - dst) else mem j

module _ {S : Type 0} (ring : RingOps S) where
  -- The loop that puts the buffers into the ring of free ones, `n` rounds from `i` on.
  unfoldable pub fill_free : ℕ → ℕ → ℕ → S → (ℕ → ℕ) → Option (S × (ℕ → ℕ))
  fill_free item_len zero i free lens = some (free, lens)
  fill_free item_len (suc n) i free lens =
      elim (ring.enqueue free (record { key = i; value = i * item_len })) [
        | none ↦ none
        | some free' ↦ fill_free item_len n (i + 1) free' (update lens i 0)
      ]

  -- The blocks of the rings and of the lengths hold what is put into them: `malloc(size * item_num)`
  -- takes 32 bits of the product.
  abbrev pub blocks_fit : Sizes → ℕ → Bool
  blocks_fit sizes item_num =
      leb (sizes.element * item_num) (u32 (sizes.element * item_num))
      && leb (4 * item_num) (u32 (4 * item_num))

  -- `granted k n` is whether the allocation number `k`, of `n` bytes, succeeds; `calloc` fails when the
  -- product is too large for 32 bits. `bytes` and `lens` are what the buffers hold at first. The result is
  -- `none` when something is written behind a block, which C leaves open, and `some none` for a null
  -- pointer. The block of the items is as large as that of `calloc`, so it holds them all.
  unfoldable pub queue_bss_init :
      Sizes → (ℕ → ℕ → Bool) → (ℕ → ℕ) → (ℕ → ℕ) → ℕ → ℕ → Option (Option (QueueBss S))
  unfolding fill_free
  queue_bss_init sizes granted bytes lens item_num item_len =
      if ltb (item_num * item_len) (2 ^ 32) && granted 0 (item_num * item_len)
      then (if leb sizes.queue (item_num * item_len)
          then (if granted 1 (u32 (sizes.element * item_num))
                && granted 2 (u32 (sizes.element * item_num))
                && granted 3 (u32 (item_len * item_num))
                && granted 4 (u32 (4 * item_num))
              then (if blocks_fit sizes item_num
                  then elim (fill_free item_len (u32 (item_num + 2 ^ 32 - 1)) 0 (ring.init item_num)
                      lens) [
                        | none ↦ some none
                        | some (free, lens') ↦ some (
                            some (record {
                              item_queue_state = ring.init item_num;
                              item_free_state = free;
                              item = bytes;
                              item_len = lens';
                              item_max_len = item_len;
                              item_num = item_num;
                            }))
                      ]
                  else none)
              else some none)
          else none)
      else some none

  -- The buffer and its length are `none` where a pointer is null.
  pub return_slot : QueueBss S → Option ℕ → Option ℕ → QueueBss S × ℤ
  return_slot q none item_len = (q, negsuc 0)
  return_slot q (some item) none = (q, negsuc 0)
  return_slot q (some item) (some item_len) =
      elim (ring.enqueue q.item_free_state (record { key = item_len; value = item })) [
        | none ↦ (q, pos 0)
        | some free ↦ (record q { item_free_state = free }, negsuc 0)
      ]

  unfoldable pub queue_bss_return :
      Option (QueueBss S) → Option ℕ → Option ℕ → Option (QueueBss S) × ℤ
  unfolding return_slot
  queue_bss_return none item item_len = (none, negsuc 0)
  queue_bss_return (some q) item item_len = let r = return_slot q item item_len in (some r.0, r.1)

  -- The copy into the buffer, and the hand-over to the other core.
  pub send : QueueBss S → Slot → QueueBss S × ℤ
  unfolding return_slot
  send q slot = elim (ring.enqueue q.item_queue_state slot) [
    | none ↦ ((return_slot q (some slot.value) (some slot.key)).0, negsuc 0)
    | some queue ↦ (record q { item_queue_state = queue }, pos 0)
  ]

  pub enqueue_item : QueueBss S → (ℕ → ℕ) → ℕ → QueueBss S × ℤ
  unfolding send
  enqueue_item q item item_len =
      if ltb q.item_max_len item_len then (q, negsuc 0) else elim (ring.dequeue q.item_free_state) [
        | none ↦ (q, negsuc 0)
        | some (slot, free) ↦
            send
              (record q {
                item_free_state = free;
                item = memcpy q.item slot.value item item_len;
                item_len = update q.item_len slot.key item_len;
              })
              slot
      ]

  unfoldable pub queue_bss_enqueue : Option (QueueBss S) → (ℕ → ℕ) → ℕ → Option (QueueBss S) × ℤ
  unfolding enqueue_item
  queue_bss_enqueue none item item_len = (none, negsuc 0)
  queue_bss_enqueue (some q) item item_len = let r = enqueue_item q item item_len in (some r.0, r.1)

  pub dequeue_slot : QueueBss S → QueueBss S × Option Slot
  dequeue_slot q = elim (ring.dequeue q.item_queue_state) [
    | none ↦ (q, none)
    | some (slot, queue) ↦ (record q { item_queue_state = queue }, some slot)
  ]

  -- `wants_len` is whether the pointer for the length is there.
  unfoldable pub queue_bss_dequeue : Option (QueueBss S) → Bool → Option (QueueBss S) × Option Slot
  unfolding dequeue_slot
  queue_bss_dequeue none wants_len = (none, none)
  queue_bss_dequeue (some q) false = (some q, none)
  queue_bss_dequeue (some q) true = let r = dequeue_slot q in (some r.0, r.1)
