-- ===== src/Queue/Start.antt =====
-- What `queue_bss_init` builds, and a whole session of a client with the queue.
use native.Mathlib.Decide.{dec_lt}
use mathlib.Core.List.{append-nil, append_assoc}
use blue_retro_forever.Prelude.{
  ℕ, zero, suc, ◌+◌, ◌-◌, ◌*◌, ◌≤◌, ◌<◌, ◌≡◌, refl, sym, ap, ◌∙◌, List, [], ◌∷◌, ◌++◌, some, arith,
  ltb, leb, if◌then◌else◌, length, length-append, ◌&&◌, update,
}
use blue_retro_forever.Queue.Ring.{Slot, RingOps, RingLaws}
use blue_retro_forever.Queue.Bss.{fill_free}
use blue_retro_forever.Queue.Slots.{AllFit, occurrences}
use blue_retro_forever.Queue.Fifo.{IsValid}

-- The slots of the buffers `i`, ..., `i + n - 1`.
pub slots : ℕ → ℕ → ℕ → List Slot
slots max i zero = []
slots max i (suc n) = record { key = i; value = i * max } ∷ slots max (i + 1) n

length-slots : (max i n : ℕ) → length (slots max i n) ≡ n
unfolding slots
length-slots max i zero = refl
length-slots max i (suc n) = ap suc (length-slots max (i + 1) n)

occurrences-slots :
    (max k i n : ℕ) → occurrences k (slots max i n) ≡ (if leb i k && ltb k (i + n) then 1 else 0)
unfolding slots
occurrences-slots max k i zero = ground arith
occurrences-slots max k i (suc n) = ground (arith, occurrences-slots max k (i + 1) n)

AllFit-slots :
    (lens : ℕ → ℕ) (max i n : ℕ)
    → ((k : ℕ) → i ≤ k → k < i + n → lens k ≤ max)
    → AllFit lens max (slots max i n)
unfolding slots
AllFit-slots lens max i zero h = tt
AllFit-slots lens max i (suc n) h = (
  refl,
  h i (omega arith) (omega arith),
  AllFit-slots lens max (i + 1) n (λ k from to. h k (omega arith) (omega arith)),
)

module _ {S : Type 0} (ring : RingOps S) (laws : RingLaws ring) where
  -- What the loop of `queue_bss_init` leaves.
  pub record Filled (max n i : ℕ) (s : S) (lens : ℕ → ℕ) (r : S × (ℕ → ℕ)) : Type 0 where
    pub more : laws.contents r.0 ≡ laws.contents s ++ slots max i n
    pub room : laws.room r.0 ≡ laws.room s
    pub below : (k : ℕ) → k < i → r.1 k ≡ lens k
    pub cleared : (k : ℕ) → i ≤ k → k < i + n → r.1 k ≡ 0

  fill_free_step :
      (max n i : ℕ) (s t : S) (lens : ℕ → ℕ)
      → ring.enqueue s (record { key = i; value = i * max }) ≡ some t
      → fill_free ring max (suc n) i s lens ≡ fill_free ring max n (i + 1) t (update lens i 0)
  unfolding fill_free
  fill_free_step max n i s t lens h = ground (arith)

  pub fill_free-Filled :
      (max n i : ℕ) (s : S) (lens : ℕ → ℕ)
      → length (laws.contents s) + n ≤ laws.room s
      → (r : S × (ℕ → ℕ)) × (fill_free ring max n i s lens ≡ some r) × Filled max n i s lens r
  unfolding fill_free slots
  fill_free-Filled max zero i s lens h = (
    (s, lens),
    refl,
    record {
      more = sym (append-nil (laws.contents s));
      room = refl;
      below = λ k lt. refl;
      cleared = λ k from to. absurd (omega arith);
    },
  )
  fill_free-Filled max (suc n) i s lens h =
      let e : Slot = record { key = i; value = i * max } in
      let (t, is, adds, room) = laws.accepts s e (omega arith) in
      let (r, runs, f) =
        fill_free-Filled max n (i + 1) t (update lens i 0)
          (omega (arith, h, ap length adds, length-append (laws.contents s) (e ∷ []), room)) in
      (
        r,
        fill_free_step max n i s t lens is ∙ runs,
        record {
          more =
              f.more
              ∙ ap (λ (l : List Slot). l ++ slots max (i + 1) n) adds
              ∙ append_assoc (laws.contents s) (e ∷ []) (slots max (i + 1) n);
          room = f.room ∙ room;
          below = λ k lt. f.below k (omega arith) ∙ ground arith;
          cleared = λ k from to. elim (dec_lt i k) [
            | yes above ↦ f.cleared k (omega arith) (omega arith)
            | no at ↦ f.below k (omega arith) ∙ ground arith
          ];
        },
      )

  -- All the buffers are free at the start.
  pub started :
      (max num : ℕ) (bytes lens : ℕ → ℕ) (r : S × (ℕ → ℕ))
      → 1 ≤ num
      → laws.contents (ring.init num) ≡ []
      → laws.room (ring.init num) ≡ num - 1
      → Filled max (num - 1) 0 (ring.init num) lens r
      → IsValid ring laws (record {
        q = record {
          item_queue_state = ring.init num;
          item_free_state = r.0;
          item = bytes;
          item_len = r.1;
          item_max_len = max;
          item_num = num;
        };
        held = [];
      })
  started max num bytes lens r some_there empty room f =
      let all : laws.contents r.0 ≡ slots max 0 (num - 1) =
        f.more ∙ ap (λ (l : List Slot). l ++ slots max 0 (num - 1)) empty in
      record {
        once = λ k. ground (
          arith,
          ap (occurrences k) all,
          ap (occurrences k) empty,
          occurrences-slots max k 0 (num - 1),
        );
        total = omega (arith, ap length all, ap length empty, length-slots max 0 (num - 1));
        free_fit =
            rw all
              (AllFit-slots r.1 max 0 (num - 1) (λ k from to. ground (arith, f.cleared k from to)));
        queued_fit = rw empty tt;
        held_fit = tt;
        free_room = f.room ∙ room;
        queue_room = room;
      }
