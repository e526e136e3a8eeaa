-- ===== src/Queue/Ring.antt =====
-- The ring of liblfds711, a library that queue_bss.c calls: its operations and what its manual says of
-- them. An element is a key and a value; here they are an index in `item_len` and an offset in `item`.
use blue_retro_forever.Prelude.{
  ℕ, suc, ◌-◌, ◌^◌, ◌<◌, ◌≤◌, ◌≡◌, List, [], ◌∷◌, ◌++◌, Option, none, some, length,
}

pub record Slot : Type 0 where
  pub key : ℕ
  pub value : ℕ

-- `lfds711_queue_bss_init_valid_on_current_logical_core`, `_enqueue` and `_dequeue`; 0 is `none`.
pub record RingOps (S : Type 0) : Type 0 where
  pub init : ℕ → S
  pub enqueue : S → Slot → Option S
  pub dequeue : S → Option (Slot × S)

-- A ring is made of a power of two of elements and holds one less; it is first in, first out; a full
-- one refuses.
pub record RingLaws {S : Type 0} (r : RingOps S) : Type 0 where
  pub contents : S → List Slot
  pub room : S → ℕ
  pub contents-init : (p : ℕ) → contents (r.init (2 ^ suc p)) ≡ []
  pub room-init : (p : ℕ) → room (r.init (2 ^ suc p)) ≡ 2 ^ suc p - 1
  pub accepts :
      (s : S) (e : Slot)
      → length (contents s) < room s
      → (t : S) × (r.enqueue s e ≡ some t) × (contents t ≡ contents s ++ e ∷ []) × (room t ≡ room s)
  pub refuses : (s : S) (e : Slot) → room s ≤ length (contents s) → r.enqueue s e ≡ none
  pub empty : (s : S) → contents s ≡ [] → r.dequeue s ≡ none
  pub gives :
      (s : S) (e : Slot) (rest : List Slot)
      → contents s ≡ e ∷ rest
      → (t : S) × (r.dequeue s ≡ some (e, t)) × (contents t ≡ rest) × (room t ≡ room s)
