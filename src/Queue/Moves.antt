-- ===== src/Queue/Moves.antt =====
-- Each call of queue_bss.c does what the abstract queue does, and keeps each buffer in one place.
use blue_retro_forever.Prelude.{
  ℕ, ◌≡◌, refl, sym, ap, subst, List, [], ◌∷◌, arith, length, length-append, get_elem?, ◌∙◌,
  Option-cases, inl, inr,
}
use mathlib.Core.List.{map-append}
use blue_retro_forever.Queue.Ring.{Slot, RingOps, RingLaws}
use blue_retro_forever.Queue.Slots.{
  read, occurrences, AllFit, AllFit-append, AllFit-remove, AllFit-get, occurrences-append,
  occurrences-remove, length-remove, map-remove, get_elem?-map-some, get_elem?-map-none,
}
use blue_retro_forever.Queue.Fifo.{
  Op, put, get, give_back, fifo_step, Client, client_step, free, queued, IsValid,
}
use blue_retro_forever.Queue.Puts.{Follows, put-Follows}
use blue_retro_forever.Queue.Steps.{step_empty, step_get, step_none, step_back}

module _ {S : Type 0} (ring : RingOps S) (laws : RingLaws ring) where
  get_first :
      (c : Client S) (xs : List Slot)
      → IsValid ring laws c
      → queued ring laws c.q ≡ xs
      → Follows ring laws get c (client_step ring get c)
  unfolding fifo_step
  get_first c [] v e =
      let same = step_empty ring c (laws.empty c.q.item_queue_state e) in
      subst (λ r. Follows ring laws get c r) (sym same)
        (record { valid = v; same_num = refl; same_max = refl; agrees = rw e })
  get_first c (x ∷ rest) v e =
      let (t, is, left, room) = laws.gives c.q.item_queue_state x rest e in
      let fit : AllFit c.q.item_len c.q.item_max_len (x ∷ rest) = rw e at v.queued_fit in
      subst (λ r. Follows ring laws get c r) (sym (step_get ring c x t is))
        (record {
          valid = record {
            once = λ k. ground (
              arith,
              v.once k,
              ap (occurrences k) e,
              ap (occurrences k) left,
              occurrences-append k c.held (x ∷ []),
            );
            total =
                omega (arith, v.total, ap length e, ap length left, length-append c.held (x ∷ []));
            free_fit = v.free_fit;
            queued_fit = rw left fit.2;
            held_fit =
                AllFit-append c.q.item_len c.q.item_max_len c.held (x ∷ []) v.held_fit
                  (fit.0, fit.1, tt);
            free_room = v.free_room;
            queue_room = room ∙ v.queue_room;
          };
          same_num = refl;
          same_max = refl;
          agrees = rw (e, left, map-append) refl;
        })

  back-Follows :
      (c : Client S) (i : ℕ)
      → IsValid ring laws c
      → Follows ring laws (give_back i) c (client_step ring (give_back i) c)
  unfolding fifo_step
  back-Follows c i v = elim (Option-cases (get_elem? c.held i)) [
    | inl e ↦
        subst (λ r. Follows ring laws (give_back i) c r) (sym (step_none ring c i e))
          (record {
            valid = v;
            same_num = refl;
            same_max = refl;
            agrees = rw (get_elem?-map-none (read c.q.item c.q.item_len) i c.held e);
          })
    | inr (x, e) ↦
        let less = length-remove i c.held e in
        let (t, is, more, room) =
          laws.accepts c.q.item_free_state x (omega (arith, v.total, v.free_room, less)) in
        let fit = AllFit-get c.q.item_len c.q.item_max_len i c.held e v.held_fit in
        subst (λ r. Follows ring laws (give_back i) c r) (sym (step_back ring c i x t e is))
          (record {
            valid = record {
              once = λ k. ground (
                arith,
                v.once k,
                occurrences-remove k i c.held e,
                ap (occurrences k) more,
                occurrences-append k (free ring laws c.q) (x ∷ []),
              );
              total = omega (
                arith,
                v.total,
                less,
                ap length more,
                length-append (free ring laws c.q) (x ∷ []),
              );
              free_fit = rw more (
                  AllFit-append c.q.item_len c.q.item_max_len (free ring laws c.q) (x ∷ [])
                    v.free_fit (fit.0, fit.1, tt));
              queued_fit = v.queued_fit;
              held_fit = AllFit-remove c.q.item_len c.q.item_max_len i c.held v.held_fit;
              free_room = room ∙ v.free_room;
              queue_room = v.queue_room;
            };
            same_num = refl;
            same_max = refl;
            agrees =
                rw (get_elem?-map-some (read c.q.item c.q.item_len) i c.held e, map-remove) refl;
          })
  ]

  -- Each call of a client does what the bounded queue does, and keeps the buffers apart.
  pub client_step-Follows :
      (op : Op) (c : Client S)
      → IsValid ring laws c
      → Follows ring laws op c (client_step ring op c)
  client_step-Follows (put item n) c v = put-Follows ring laws c item n (free ring laws c.q) v refl
  client_step-Follows get c v = get_first c (queued ring laws c.q) v refl
  client_step-Follows (give_back i) c v = back-Follows c i v
