-- ===== src/Queue/ListRing.antt =====
-- A ring that is a list: what is assumed of the ring can hold.
use blue_retro_forever.Prelude.{
  ℕ, ◌-◌, ◌≤◌, ◌<◌, ◌≡◌, refl, List, [], ◌∷◌, ◌++◌, Option, none, some, arith, ltb, if◌then◌else◌,
  length,
}
use blue_retro_forever.Queue.Ring.{Slot, RingOps, RingLaws}

pub record ListRing : Type 0 where
  pub slots : List Slot
  pub limit : ℕ

abbrev pub take_slot : ℕ → List Slot → Option (Slot × ListRing)
take_slot limit [] = none
take_slot limit (e ∷ rest) = some (e, record { slots = rest; limit = limit })

abbrev pub list_ring : RingOps ListRing
list_ring = record {
  init = λ n. record { slots = []; limit = n - 1 };
  enqueue = λ s e.
      if ltb (length s.slots) s.limit then some (record s { slots = s.slots ++ e ∷ [] }) else none;
  dequeue = λ s. take_slot s.limit s.slots;
}

pub appends :
    (s : ListRing) (e : Slot)
    → length s.slots < s.limit
    → list_ring.enqueue s e ≡ some (record s { slots = s.slots ++ e ∷ [] })
appends s e h = ground arith

pub turns_away : (s : ListRing) (e : Slot) → s.limit ≤ length s.slots → list_ring.enqueue s e ≡ none
turns_away s e h = ground arith

abbrev pub list_laws : RingLaws list_ring
list_laws = record {
  contents = λ s. s.slots;
  room = λ s. s.limit;
  contents-init = λ p. refl;
  room-init = λ p. refl;
  accepts = λ s e h. (record s { slots = s.slots ++ e ∷ [] }, appends s e h, refl, refl);
  refuses = turns_away;
  empty = λ s h. rw h refl;
  gives = λ s e rest h. (record s { slots = rest }, rw h refl, refl, refl);
}
