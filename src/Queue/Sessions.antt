-- ===== src/Queue/Sessions.antt =====
-- A whole session with the queue of queue_bss.c, from `queue_bss_init` on.
use native.Mathlib.Nat.{pow-suc}
use blue_retro_forever.Prelude.{
  ◌==◌, if◌then◌else◌, Option, ◌*◌, ltb, leb, lt→ltb, ℕ, zero, suc, ◌+◌, ◌-◌, ◌^◌, ◌≤◌, ◌<◌, ◌≡◌,
  refl, ap, ◌∙◌, List, [], ◌∷◌, ◌++◌, map, none, some, arith, length, Bool, true, false, ◌&&◌, u32,
  get_elem?, negsuc,
}
use blue_retro_forever.Queue.Ring.{Slot, RingOps, RingLaws}
use blue_retro_forever.Queue.Bss.{Sizes, QueueBss, fill_free, queue_bss_init, queue_bss_return}
use blue_retro_forever.Queue.Slots.{length-remove, read}
use blue_retro_forever.Queue.Fifo.{
  Op, Seen, Fifo, fifo_step, Client, client_step, free, view, IsValid,
}
use blue_retro_forever.Queue.Moves.{client_step-Follows}
use blue_retro_forever.Queue.Start.{fill_free-Filled, started}

-- What a run of calls shows, on the abstract queue and on the code.
unfoldable pub fifo_run : ℕ → ℕ → List Op → Fifo → List Seen
fifo_run max places [] f = []
fifo_run max places (op ∷ ops) f =
    let r = fifo_step max places op f in r.1 ∷ fifo_run max places ops r.0

pow_positive : (p : ℕ) → 1 ≤ 2 ^ p
pow_positive zero = omega arith
pow_positive (suc p) = omega (arith, pow-suc 2 p, pow_positive p)

which : (k : ℕ) (g : ℕ → Bool) → k < 5 → g k ≡ false → (g 0 && (g 1 && g 2 && g 3 && g 4)) ≡ false
which zero g lt h = ground arith
which (suc zero) g lt h = ground arith
which (suc (suc zero)) g lt h = ground arith
which (suc (suc (suc zero))) g lt h = ground arith
which (suc (suc (suc (suc zero)))) g lt h = ground arith
which (suc (suc (suc (suc (suc k))))) g lt h = absurd (omega arith)

refused {ℓ} :
    {A : Type ℓ} {x : A} (y : Option A) (l g0 r g1 g2 g3 g4 : Bool)
    → r ≡ true
    → (g0 && (g1 && g2 && g3 && g4)) ≡ false
    → (if l && g0
        then (if r then (if g1 && g2 && g3 && g4 then y else some x) else none)
        else some x)
      ≡ some x
refused y false g0 r g1 g2 g3 g4 room h = refl
refused y true false r g1 g2 g3 g4 room h = refl
refused y true true true g1 g2 g3 g4 room h = rw h refl
refused y true true false g1 g2 g3 g4 room h = cc

module _ {S : Type 0} (ring : RingOps S) where
  -- The product of a power of two of items fits, and so do the blocks.
  init_some :
      (sizes : Sizes) (granted : ℕ → ℕ → Bool) (bytes lens : ℕ → ℕ) (num item_len n : ℕ)
      (r : S × (ℕ → ℕ))
      → ((k b : ℕ) → granted k b ≡ true)
      → num * item_len < 2 ^ 32
      → sizes.queue ≤ num * item_len
      → sizes.element * num < 2 ^ 32
      → 4 * num < 2 ^ 32
      → u32 (num + 2 ^ 32 - 1) ≡ n
      → fill_free ring item_len n 0 (ring.init num) lens ≡ some r
      → queue_bss_init ring sizes granted bytes lens num item_len
        ≡ some (
            some (record {
              item_queue_state = ring.init num;
              item_free_state = r.0;
              item = bytes;
              item_len = r.1;
              item_max_len = item_len;
              item_num = num;
            }))
  unfolding queue_bss_init
  init_some sizes granted bytes lens num item_len n r all product whole elements lengths rounds
        runs =
      let small : ltb (num * item_len) (2 ^ 32) ≡ true = lt→ltb (num * item_len) (2 ^ 32) product in
      let holds : leb sizes.queue (num * item_len) ≡ true = ground arith in
      let fits : leb (sizes.element * num) (u32 (sizes.element * num)) ≡ true = ground arith in
      let fits' : leb (4 * num) (u32 (4 * num)) ≡ true = ground arith in
      rw
        (
          small,
          all 0 (num * item_len),
          holds,
          all 1 (u32 (sizes.element * num)),
          all 2 (u32 (sizes.element * num)),
          all 3 (u32 (item_len * num)),
          all 4 (u32 (4 * num)),
          fits,
          fits',
          rounds,
          runs,
        )
        refl

  unfoldable pub client_run : List Op → Client S → List Seen
  client_run [] c = []
  client_run (op ∷ ops) c = let r = client_step ring op c in r.1 ∷ client_run ops r.0

  module _ (laws : RingLaws ring) where
    run_agrees :
        (ops : List Op) (c : Client S)
        → IsValid ring laws c
        → client_run ops c ≡ fifo_run c.q.item_max_len (c.q.item_num - 1) ops (view ring laws c)
    unfolding client_run fifo_run
    run_agrees [] c v = refl
    run_agrees (op ∷ ops) c v =
        let r = client_step ring op c in
        let f = client_step-Follows ring laws op c v in
        let later = run_agrees ops r.0 f.valid in
        rw f.agrees (
          ap (λ (l : List Seen). r.1 ∷ l)
            (later ∙ λ i. fifo_run (f.same_max i) (f.same_num i - 1) ops (view ring laws r.0)))

    -- When the allocator grants every request, the sizes of the blocks fit 32 bits and `item_num * item_len`
    -- bytes hold the structure of the queue, a queue of a power of two of items starts, and any run of
    -- calls then shows what a first-in-first-out queue with one place less shows: an item is accepted exactly when
    -- it is not too long and a place is left, counting the items that the reader holds, the items come
    -- out in order and whole, and an item keeps its bytes until it is given back.
    pub queue_bss_init-Fifo :
        (sizes : Sizes) (granted : ℕ → ℕ → Bool) (bytes lens : ℕ → ℕ) (p item_len : ℕ)
        (ops : List Op)
        → ((k b : ℕ) → granted k b ≡ true)
        → 2 ^ suc p * item_len < 2 ^ 32
        → sizes.queue ≤ 2 ^ suc p * item_len
        → sizes.element * 2 ^ suc p < 2 ^ 32
        → 4 * 2 ^ suc p < 2 ^ 32
        → (q : QueueBss S) × (queue_bss_init ring sizes granted bytes lens (2 ^ suc p) item_len
            ≡ some (some q))
          × (client_run ops (record { q = q; held = [] })
              ≡ fifo_run item_len (2 ^ suc p - 1) ops (record { waiting = []; held = [] }))
    queue_bss_init-Fifo sizes granted bytes lens p item_len ops all product whole elements lengths =
        let num : ℕ = 2 ^ suc p in
        let positive : 1 ≤ num = pow_positive (suc p) in
        let rounds : u32 (num + 2 ^ 32 - 1) ≡ num - 1 = omega arith in
        let empty = laws.contents-init p in
        let room = laws.room-init p in
        let (r, runs, f) =
          fill_free-Filled ring laws item_len (num - 1) 0 (ring.init num) lens
            (omega (arith, ap length empty, room)) in
        let valid = started ring laws item_len num bytes lens r positive empty room f in
        let c : Client S = record {
          q = record {
            item_queue_state = ring.init num;
            item_free_state = r.0;
            item = bytes;
            item_len = r.1;
            item_max_len = item_len;
            item_num = num;
          };
          held = [];
        } in
        (
          c.q,
          init_some sizes granted bytes lens num item_len (num - 1) r all product whole elements
              lengths rounds runs,
          run_agrees ops c valid
              ∙ ap
                  (λ (l : List Slot).
                    fifo_run item_len (num - 1) ops
                      (record { waiting = map (read bytes r.1) l; held = [] }))
                  empty,
        )

    -- Where the structure has room, a refused allocation gives a null pointer.
    pub queue_bss_init-refused :
        (sizes : Sizes) (granted : ℕ → ℕ → Bool) (bytes lens : ℕ → ℕ) (item_num item_len k : ℕ)
        → k < 5
        → ((b : ℕ) → granted k b ≡ false)
        → sizes.queue ≤ item_num * item_len
        → queue_bss_init ring sizes granted bytes lens item_num item_len ≡ some none
    unfolding queue_bss_init
    queue_bss_init-refused sizes granted bytes lens item_num item_len k lt no_block room =
        let holds : leb sizes.queue (item_num * item_len) ≡ true = ground arith in
        refused _ (ltb (item_num * item_len) (2 ^ 32)) (granted 0 (item_num * item_len))
          (leb sizes.queue (item_num * item_len)) (granted 1 (u32 (sizes.element * item_num)))
          (granted 2 (u32 (sizes.element * item_num))) (granted 3 (u32 (item_len * item_num)))
          (granted 4 (u32 (4 * item_num))) holds
          (which k (λ j. granted j (size j)) lt (no_block (size k)))
      where
        size : ℕ → ℕ
        size j =
            if j == 0
            then item_num * item_len
            else (if leb j 2
                then u32 (sizes.element * item_num)
                else (if j == 3 then u32 (item_len * item_num) else u32 (4 * item_num)))

    -- With fewer bytes than the structure of the queue has, `queue_bss_init` writes behind its block.
    pub queue_bss_init-overrun :
        (sizes : Sizes) (granted : ℕ → ℕ → Bool) (bytes lens : ℕ → ℕ) (item_num item_len : ℕ)
        → ((k b : ℕ) → granted k b ≡ true)
        → item_num * item_len < 2 ^ 32
        → item_num * item_len < sizes.queue
        → queue_bss_init ring sizes granted bytes lens item_num item_len ≡ none
    unfolding queue_bss_init
    queue_bss_init-overrun sizes granted bytes lens item_num item_len all product short =
        let small : ltb (item_num * item_len) (2 ^ 32) ≡ true =
          lt→ltb (item_num * item_len) (2 ^ 32) product in
        let over : leb sizes.queue (item_num * item_len) ≡ false = ground arith in
        rw (small, all 0 (item_num * item_len), over) refl

    -- A buffer that is given back is free again, and the call still reports a failure.
    pub queue_bss_return-inverted :
        (c : Client S) (i : ℕ) (e : Slot)
        → IsValid ring laws c
        → get_elem? c.held i ≡ some e
        → (t : S) × (queue_bss_return ring (some c.q) (some e.value) (some e.key)
            ≡ (some (record c.q { item_free_state = t }), negsuc 0))
          × (laws.contents t ≡ free ring laws c.q ++ e ∷ [])
    unfolding queue_bss_return
    queue_bss_return-inverted c i e v h =
        let (t, is, more, room) =
          laws.accepts c.q.item_free_state e
            (omega (arith, v.total, v.free_room, length-remove i c.held h)) in
        (t, ground arith, more)
