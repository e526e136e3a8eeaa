-- ===== src/Queue/Puts.antt =====
-- `queue_bss_enqueue` of queue_bss.c against the abstract queue.
use blue_retro_forever.Prelude.{
  ℕ, ◌*◌, ap₂, ◌+◌, ◌-◌, ◌≤◌, ◌≡◌, refl, sym, ap, subst, List, [], ◌∷◌, ◌++◌, map, arith, ltb, leb,
  length, length-append, length-map, true, false, ◌∙◌, ◌&&◌, update,
}
use native.Mathlib.Decide.{dec_lt}
use mathlib.Core.List.{map-append}
use blue_retro_forever.Queue.Ring.{Slot, RingOps, RingLaws}
use blue_retro_forever.Queue.Bss.{memcpy}
use blue_retro_forever.Queue.Slots.{
  slice, read, occurrences, AllFit, AllFit-append, AllFit-update, occurrences-append, reads-write,
  read-write,
}
use blue_retro_forever.Queue.Fifo.{
  Op, put, Seen, accepted, fifo_step, Client, client_step, free, queued, view, IsValid,
}
use blue_retro_forever.Queue.Steps.{step_long, step_full, step_put}

module _ {S : Type 0} (ring : RingOps S) (laws : RingLaws ring) where
  -- The result `r` of a call on `c` is valid, keeps the sizes, and is what the abstract queue gives.
  pub record Follows (op : Op) (c : Client S) (r : Client S × Seen) : Type 0 where
    pub valid : IsValid ring laws r.0
    pub same_num : r.0.q.item_num ≡ c.q.item_num
    pub same_max : r.0.q.item_max_len ≡ c.q.item_max_len
    pub agrees :
        fifo_step c.q.item_max_len (c.q.item_num - 1) op (view ring laws c)
        ≡ (view ring laws r.0, r.1)

  refused :
      (c : Client S) (item : ℕ → ℕ) (n : ℕ)
      → IsValid ring laws c
      → (leb n c.q.item_max_len
          && ltb (length (queued ring laws c.q) + length c.held) (c.q.item_num - 1))
        ≡ false
      → client_step ring (put item n) c ≡ (c, accepted false)
      → Follows (put item n) c (client_step ring (put item n) c)
  unfolding fifo_step
  refused c item n v no_room same =
      subst (λ r. Follows (put item n) c r) (sym same)
        (record {
          valid = v;
          same_num = refl;
          same_max = refl;
          agrees =
              rw
                (
                  length-map (queued ring laws c.q) (read c.q.item c.q.item_len),
                  length-map c.held (read c.q.item c.q.item_len),
                  no_room,
                )
                refl;
        })

  -- The buffer `e` was free: it is nowhere else.
  elsewhere :
      (c : Client S) (e : Slot) (rest : List Slot)
      → IsValid ring laws c
      → free ring laws c.q ≡ e ∷ rest
      → (occurrences e.key (queued ring laws c.q) ≡ 0) × (occurrences e.key c.held ≡ 0)
  elsewhere c e rest v h =
      let here = v.once e.key in
      let there = ap (occurrences e.key) h in (ground arith, ground arith)

  module _ (mem lens item : ℕ → ℕ) (max n : ℕ) (e : Slot) (starts : e.value ≡ e.key * max)
      (le : n ≤ max) where
    -- The items elsewhere are kept.
    kept_reads :
        (es : List Slot)
        → AllFit lens max es
        → occurrences e.key es ≡ 0
        → map (read (memcpy mem e.value item n) (update lens e.key n)) es ≡ map (read mem lens) es
    kept_reads es fit away = rw starts (reads-write mem item lens e.key max n es le fit away)

    -- The new item comes last.
    new_reads :
        (es : List Slot)
        → AllFit lens max es
        → occurrences e.key es ≡ 0
        → map (read (memcpy mem e.value item n) (update lens e.key n)) (es ++ e ∷ [])
          ≡ map (read mem lens) es ++ slice item 0 n ∷ []
    new_reads es fit away =
        map-append (read (memcpy mem e.value item n) (update lens e.key n)) es (e ∷ [])
        ∙ ap₂ ◌++◌ (kept_reads es fit away)
            (ap (λ (x : List ℕ). x ∷ []) (read-write mem item lens n e))

  put_accepted :
      (c : Client S) (item : ℕ → ℕ) (n : ℕ) (e : Slot) (rest : List Slot)
      → IsValid ring laws c
      → n ≤ c.q.item_max_len
      → free ring laws c.q ≡ e ∷ rest
      → Follows (put item n) c (client_step ring (put item n) c)
  unfolding fifo_step
  put_accepted c item n e rest v le h =
      let mem = c.q.item in
      let lens = c.q.item_len in
      let max = c.q.item_max_len in
      let (t, is, left, room) = laws.gives c.q.item_free_state e rest h in
      let (u, into, more, room') =
        laws.accepts c.q.item_queue_state e (omega (arith, v.total, v.queue_room, ap length h)) in
      let fit : AllFit lens max (e ∷ rest) = rw h at v.free_fit in
      let away = elsewhere c e rest v h in
      let kept =
        λ (es : List Slot) (p : AllFit lens max es). AllFit-update lens max e.key n es le p in
      let fits : (leb n max
            && ltb (length (queued ring laws c.q) + length c.held) (c.q.item_num - 1))
          ≡ true =
        ground (arith, v.total, ap length h) in
      let held_kept = kept_reads mem lens item max n e fit.0 le c.held v.held_fit away.1 in
      let later =
        ap (map (read (memcpy mem e.value item n) (update lens e.key n))) more
        ∙ new_reads mem lens item max n e fit.0 le (queued ring laws c.q) v.queued_fit away.0 in
      subst (λ r. Follows (put item n) c r) (sym (step_put ring c item n e t u le is into))
        (record {
          valid = record {
            once = λ k. ground (
              arith,
              v.once k,
              ap (occurrences k) h,
              ap (occurrences k) left,
              ap (occurrences k) more,
              occurrences-append k (queued ring laws c.q) (e ∷ []),
            );
            total = omega (
              arith,
              v.total,
              ap length h,
              ap length left,
              ap length more,
              length-append (queued ring laws c.q) (e ∷ []),
            );
            free_fit = rw left (kept rest fit.2);
            queued_fit = rw more (
                AllFit-append (update lens e.key n) max (queued ring laws c.q) (e ∷ [])
                  (kept (queued ring laws c.q) v.queued_fit) (fit.0, ground arith, tt));
            held_fit = kept c.held v.held_fit;
            free_room = room ∙ v.free_room;
            queue_room = room' ∙ v.queue_room;
          };
          same_num = refl;
          same_max = refl;
          agrees =
              rw
                (
                  length-map (queued ring laws c.q) (read mem lens),
                  length-map c.held (read mem lens),
                  fits,
                )
                (λ i. (record { waiting = sym later i; held = sym held_kept i }, accepted true));
        })

  put_fitting :
      (c : Client S) (item : ℕ → ℕ) (n : ℕ) (xs : List Slot)
      → IsValid ring laws c
      → free ring laws c.q ≡ xs
      → n ≤ c.q.item_max_len
      → Follows (put item n) c (client_step ring (put item n) c)
  put_fitting c item n [] v h le =
      refused c item n v (ground (arith, v.total, ap length h))
        (step_full ring c item n (laws.empty c.q.item_free_state h))
  put_fitting c item n (e ∷ rest) v h le = put_accepted c item n e rest v le h

  pub put-Follows :
      (c : Client S) (item : ℕ → ℕ) (n : ℕ) (xs : List Slot)
      → IsValid ring laws c
      → free ring laws c.q ≡ xs
      → Follows (put item n) c (client_step ring (put item n) c)
  put-Follows c item n xs v h = elim (dec_lt c.q.item_max_len n) [
    | yes long ↦ refused c item n v (ground arith) (step_long ring c item n long)
    | no fits ↦ put_fitting c item n xs v h (omega arith)
  ]
