-- ===== src/Queue/Fifo.antt =====
-- What queue_bss.c promises: a bounded first-in-first-out queue of byte strings, of which the reader
-- holds some for a while. A client calls the code with the pointers that it was given.
use blue_retro_forever.Prelude.{
  ℕ, zero, suc, ◌+◌, ◌-◌, ◌≡◌, Bool, true, false, ◌&&◌, List, [], ◌∷◌, ◌++◌, map, Option, none,
  some, ltb, leb, if◌then◌else◌, length, get_elem?, ℤ, pos, negsuc,
}
use blue_retro_forever.Queue.Ring.{Slot, RingOps, RingLaws}
use blue_retro_forever.Queue.Bss.{QueueBss, queue_bss_enqueue, queue_bss_dequeue, queue_bss_return}
use blue_retro_forever.Queue.Slots.{slice, read, remove, occurrences, AllFit}

pub data Op : Type 0 where
  put : (ℕ → ℕ) → ℕ → Op
  get : Op
  give_back : ℕ → Op

-- What the caller sees; an item that is given back is read once more.
pub data Seen : Type 0 where
  accepted : Bool → Seen
  got : Option (List ℕ) → Seen
  returned : Option (List ℕ) → Seen

pub record Fifo : Type 0 where
  pub waiting : List (List ℕ)
  pub held : List (List ℕ)

-- Items of at most `max` bytes, `places` of them at a time, those that are held included.
module _ (max places : ℕ) where
  pub take_first : Fifo → List (List ℕ) → Fifo × Seen
  take_first f [] = (f, got none)
  take_first f (x ∷ rest) = (record { waiting = rest; held = f.held ++ x ∷ [] }, got (some x))

  pub drop_held : Fifo → ℕ → Option (List ℕ) → Fifo × Seen
  drop_held f i none = (f, returned none)
  drop_held f i (some x) = (record f { held = remove i f.held }, returned (some x))

  unfoldable pub fifo_step : Op → Fifo → Fifo × Seen
  unfolding take_first drop_held
  fifo_step (put item n) f =
      if leb n max && ltb (length f.waiting + length f.held) places
      then (record f { waiting = f.waiting ++ slice item 0 n ∷ [] }, accepted true)
      else (f, accepted false)
  fifo_step get f = take_first f f.waiting
  fifo_step (give_back i) f = drop_held f i (get_elem? f.held i)

-- A queue with the slots that its reader holds.
pub record Client (S : Type 0) : Type 0 where
  pub q : QueueBss S
  pub held : List Slot

abbrev pub succeeded : ℤ → Bool
succeeded (pos zero) = true
succeeded (pos (suc n)) = false
succeeded (negsuc n) = false

module _ {S : Type 0} (ring : RingOps S) where
  -- The handle is the same after the call.
  abbrev pub store : Client S → Option (QueueBss S) → Client S
  store c none = c
  store c (some q) = record c { q = q }

  abbrev pub hold : Client S → Option Slot → Client S × Seen
  hold c none = (c, got none)
  hold c (some e) =
      (record c { held = c.held ++ e ∷ [] }, got (some (read c.q.item c.q.item_len e)))

  abbrev pub release : Client S → ℕ → Option Slot → Client S × Seen
  release c i none = (c, returned none)
  release c i (some e) =
      let r = queue_bss_return ring (some c.q) (some e.value) (some e.key) in
      (
        store (record c { held = remove i c.held }) r.0,
        returned (some (read c.q.item c.q.item_len e)),
      )

  unfoldable pub client_step : Op → Client S → Client S × Seen
  unfolding queue_bss_enqueue queue_bss_dequeue queue_bss_return
  client_step (put item n) c =
      let r = queue_bss_enqueue ring (some c.q) item n in (store c r.0, accepted (succeeded r.1))
  client_step get c = let r = queue_bss_dequeue ring (some c.q) true in hold (store c r.0) r.1
  client_step (give_back i) c = release c i (get_elem? c.held i)

  module _ (laws : RingLaws ring) where
    abbrev pub free : QueueBss S → List Slot
    free q = laws.contents q.item_free_state

    abbrev pub queued : QueueBss S → List Slot
    queued q = laws.contents q.item_queue_state

    -- The abstract queue that the code stands for.
    abbrev pub view : Client S → Fifo
    view c = record {
      waiting = map (read c.q.item c.q.item_len) (queued c.q);
      held = map (read c.q.item c.q.item_len) c.held;
    }

    -- Each of the `item_num - 1` buffers is free, queued or held, and in one of these once.
    pub record IsValid (c : Client S) : Type 0 where
      pub once :
          (k : ℕ)
          → occurrences k (free c.q) + occurrences k (queued c.q) + occurrences k c.held
            ≡ (if ltb k (c.q.item_num - 1) then 1 else 0)
      pub total : length (free c.q) + length (queued c.q) + length c.held ≡ c.q.item_num - 1
      pub free_fit : AllFit c.q.item_len c.q.item_max_len (free c.q)
      pub queued_fit : AllFit c.q.item_len c.q.item_max_len (queued c.q)
      pub held_fit : AllFit c.q.item_len c.q.item_max_len c.held
      pub free_room : laws.room c.q.item_free_state ≡ c.q.item_num - 1
      pub queue_room : laws.room c.q.item_queue_state ≡ c.q.item_num - 1
