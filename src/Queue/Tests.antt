-- ===== src/Queue/Tests.antt =====
-- The queue of queue_bss.c on a ring that is a list.
use blue_retro_forever.Prelude.{
  ◌+◌, ◌≡◌, refl, List, [], ◌∷◌, ◌++◌, some, arith, true, false, negsuc,
}
use blue_retro_forever.Queue.ListRing.{ListRing, list_ring, list_laws}
use blue_retro_forever.Queue.Bss.{Sizes, QueueBss, queue_bss_init, queue_bss_return}
use blue_retro_forever.Queue.Fifo.{
  put, get, give_back, Client, IsValid, Op, fifo_step, client_step, accepted, got, returned,
}
use blue_retro_forever.Queue.Slots.{slice}
use blue_retro_forever.Queue.Puts.{Follows}
use blue_retro_forever.Queue.Moves.{client_step-Follows}
use blue_retro_forever.Queue.Sessions.{
  queue_bss_init-Fifo, queue_bss_return-inverted, client_run, fifo_run,
}

-- Two items go through a queue of two buffers; a third finds no place.
abbrev calls : List Op
calls =
    put (λ j. j + 1) 2
    ∷ put (λ j. 9) 5
    ∷ get
    ∷ put (λ j. 8) 1
    ∷ give_back 0
    ∷ put (λ j. 7) 1
    ∷ get
    ∷ []

calls_seen :
    fifo_run 4 1 calls (record { waiting = []; held = [] })
    ≡ accepted true
      ∷ accepted false
      ∷ got (some (1 ∷ 2 ∷ []))
      ∷ accepted false
      ∷ returned (some (1 ∷ 2 ∷ []))
      ∷ accepted true
      ∷ got (some (7 ∷ []))
      ∷ []
unfolding fifo_run fifo_step slice
calls_seen = refl

-- A structure of 512 bytes, and ring elements of 12.
abbrev sizes : Sizes
sizes = record { queue = 512; element = 12 }

-- The queue of the keyboard monitor: 32 items of 16 bytes.
queue_bss_init-Fifo_example :
    (q : QueueBss ListRing) × (queue_bss_init list_ring sizes (λ k b. true) (λ j. 0) (λ j. 5) 32 16
      ≡ some (some q))
    × (client_run list_ring calls (record { q = q; held = [] })
        ≡ fifo_run 16 31 calls (record { waiting = []; held = [] }))
queue_bss_init-Fifo_example =
    queue_bss_init-Fifo list_ring list_laws sizes (λ k b. true) (λ j. 0) (λ j. 5) 4 16 calls
      (λ k b. refl) (omega arith) (omega arith) (omega arith) (omega arith)

-- One buffer of four bytes, held by the reader.
abbrev busy : Client ListRing
busy = record {
  q = record {
    item_queue_state = record { slots = []; limit = 1 };
    item_free_state = record { slots = []; limit = 1 };
    item = λ j. j;
    item_len = λ k. 3;
    item_max_len = 4;
    item_num = 2;
  };
  held = record { key = 0; value = 0 } ∷ [];
}

busy-IsValid : IsValid list_ring list_laws busy
busy-IsValid = record {
  once = λ k. ground arith;
  total = refl;
  free_fit = tt;
  queued_fit = tt;
  held_fit = (refl, omega arith, tt);
  free_room = refl;
  queue_room = refl;
}

client_step-Follows_example :
    Follows list_ring list_laws (give_back 0) busy (client_step list_ring (give_back 0) busy)
client_step-Follows_example =
    client_step-Follows list_ring list_laws (give_back 0) busy busy-IsValid

queue_bss_return-inverted_example :
    (t : ListRing) × (queue_bss_return list_ring (some busy.q) (some 0) (some 0)
      ≡ (some (record busy.q { item_free_state = t }), negsuc 0))
    × (t.slots ≡ [] ++ record { key = 0; value = 0 } ∷ [])
queue_bss_return-inverted_example =
    queue_bss_return-inverted list_ring list_laws busy 0 (record { key = 0; value = 0 })
      busy-IsValid refl
