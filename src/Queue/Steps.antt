-- ===== src/Queue/Steps.antt =====
-- What a client of queue_bss.c gets from each call, on each branch that the rings can take.
use blue_retro_forever.Prelude.{
  ℕ, ◌≤◌, ◌<◌, ◌≡◌, [], ◌∷◌, ◌++◌, none, some, arith, get_elem?, true, false, update,
}
use blue_retro_forever.Queue.Ring.{Slot, RingOps}
use blue_retro_forever.Queue.Bss.{memcpy}
use blue_retro_forever.Queue.Slots.{read, remove}
use blue_retro_forever.Queue.Fifo.{
  put, get, give_back, accepted, got, returned, Client, client_step,
}

module _ {S : Type 0} (ring : RingOps S) where
  pub step_empty :
      (c : Client S)
      → ring.dequeue c.q.item_queue_state ≡ none
      → client_step ring get c ≡ (c, got none)
  unfolding client_step
  step_empty c h = ground arith

  pub step_get :
      (c : Client S) (e : Slot) (t : S)
      → ring.dequeue c.q.item_queue_state ≡ some (e, t)
      → client_step ring get c ≡ (
        record { q = record c.q { item_queue_state = t }; held = c.held ++ e ∷ [] },
        got (some (read c.q.item c.q.item_len e)),
      )
  unfolding client_step
  step_get c e t h = ground arith

  pub step_none :
      (c : Client S) (i : ℕ)
      → get_elem? c.held i ≡ none
      → client_step ring (give_back i) c ≡ (c, returned none)
  unfolding client_step
  step_none c i h = ground arith

  pub step_back :
      (c : Client S) (i : ℕ) (e : Slot) (t : S)
      → get_elem? c.held i ≡ some e
      → ring.enqueue c.q.item_free_state e ≡ some t
      → client_step ring (give_back i) c ≡ (
        record { q = record c.q { item_free_state = t }; held = remove i c.held },
        returned (some (read c.q.item c.q.item_len e)),
      )
  unfolding client_step
  step_back c i e t h g = ground arith

  pub step_long :
      (c : Client S) (item : ℕ → ℕ) (n : ℕ)
      → c.q.item_max_len < n
      → client_step ring (put item n) c ≡ (c, accepted false)
  unfolding client_step
  step_long c item n h = ground arith

  pub step_full :
      (c : Client S) (item : ℕ → ℕ) (n : ℕ)
      → ring.dequeue c.q.item_free_state ≡ none
      → client_step ring (put item n) c ≡ (c, accepted false)
  unfolding client_step
  step_full c item n h = ground arith

  pub step_put :
      (c : Client S) (item : ℕ → ℕ) (n : ℕ) (e : Slot) (t u : S)
      → n ≤ c.q.item_max_len
      → ring.dequeue c.q.item_free_state ≡ some (e, t)
      → ring.enqueue c.q.item_queue_state e ≡ some u
      → client_step ring (put item n) c ≡ (
        record c {
          q = record c.q {
            item_free_state = t;
            item_queue_state = u;
            item = memcpy c.q.item e.value item n;
            item_len = update c.q.item_len e.key n;
          };
        },
        accepted true,
      )
  unfolding client_step
  step_put c item n e t u le h g = ground arith
