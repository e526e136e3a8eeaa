-- ===== src/Adapter/KbMonitor/Codes.antt =====
-- The codes that the keyboard monitor keeps come out whole and in order.
use blue_retro_forever.Prelude.{
  ℕ, zero, suc, ◌+◌, ◌-◌, ◌≡◌, refl, sym, ap, ◌∙◌, Bool, true, false, List, [], ◌∷◌, ◌++◌, map,
  Option, none, some, arith, length, ltb, leb, ◌&&◌, if◌then◌else◌, subst, take, Bool-cases, inl,
  inr,
}
use blue_retro_forever.Queue.Ring.{Slot, RingOps, RingLaws}
use blue_retro_forever.Queue.Bss.{QueueBss, queue_bss_enqueue, queue_bss_dequeue, queue_bss_return}
use blue_retro_forever.Queue.Slots.{slice, read}
use blue_retro_forever.Queue.Fifo.{
  put, get, give_back, accepted, got, returned, Client, client_step, queued, IsValid, fifo_step,
  succeeded, Seen, Fifo,
}
use blue_retro_forever.Queue.Steps.{step_get, step_back}
use blue_retro_forever.Queue.Moves.{client_step-Follows}
use blue_retro_forever.Adapter.KbMonitor.Monitor.{KbMonitor, kbmon_set_code, kbmon_get_code}

module _ {S : Type 0} (ring : RingOps S) (laws : RingLaws ring) where
  -- A monitor with a queue of which nobody holds a buffer.
  pub record IsReady (q : QueueBss S) (m : KbMonitor S) : Type 0 where
    pub there : m.scq_hdl ≡ some q
    pub valid : IsValid ring laws (record { q = q; held = [] })

  -- The codes that wait in a queue.
  abbrev pub codes : QueueBss S → List (List ℕ)
  codes q = map (read q.item q.item_len) (queued ring laws q)

  get_code_empty :
      (m : KbMonitor S) (q : QueueBss S)
      → m.scq_hdl ≡ some q
      → ring.dequeue q.item_queue_state ≡ none
      → kbmon_get_code ring m ≡ (record m { scq_hdl = some q }, none)
  unfolding kbmon_get_code queue_bss_dequeue
  get_code_empty m q there h = rw there (ground arith)

  get_code_first :
      (m : KbMonitor S) (q : QueueBss S) (e : Slot) (t u : S)
      → m.scq_hdl ≡ some q
      → ring.dequeue q.item_queue_state ≡ some (e, t)
      → ring.enqueue q.item_free_state e ≡ some u
      → kbmon_get_code ring m ≡ (
        record m { scq_hdl = some (record q { item_queue_state = t; item_free_state = u }) },
        some (read q.item q.item_len e, q.item_len e.key),
      )
  unfolding kbmon_get_code queue_bss_dequeue queue_bss_return
  get_code_first m q e t u there h g = rw there (ground arith)

pub data CodeOp : Type 0 where
  set_code : (ℕ → ℕ) → ℕ → CodeOp
  get_code : CodeOp

pub data CodeSeen : Type 0 where
  stored : Bool → CodeSeen
  fetched : Option (List ℕ) → CodeSeen

-- What the monitor promises: codes of at most `max` bytes, `places` of them at a time, in order.
abbrev pub first_code : List (List ℕ) → List (List ℕ) × CodeSeen
first_code [] = ([], fetched none)
first_code (x ∷ rest) = (rest, fetched (some x))

unfoldable pub codes_step : ℕ → ℕ → CodeOp → List (List ℕ) → List (List ℕ) × CodeSeen
codes_step max places (set_code code n) w =
    if leb n max && ltb (length w) places
    then (w ++ slice code 0 n ∷ [], stored true)
    else (w, stored false)
codes_step max places get_code w = first_code w

unfoldable pub codes_run : ℕ → ℕ → List CodeOp → List (List ℕ) → List CodeSeen
codes_run max places [] w = []
codes_run max places (op ∷ ops) w =
    let r = codes_step max places op w in r.1 ∷ codes_run max places ops r.0

module _ {S : Type 0} (ring : RingOps S) where
  -- The bytes that were written, as many as the length says.
  abbrev pub taken : Option (List ℕ × ℕ) → Option (List ℕ)
  taken none = none
  taken (some (code, n)) = some (take n code)

  unfoldable pub monitor_step : CodeOp → KbMonitor S → KbMonitor S × CodeSeen
  monitor_step (set_code code n) m =
      let r = kbmon_set_code ring code n m in (r.0, stored (succeeded r.1))
  monitor_step get_code m = let r = kbmon_get_code ring m in (r.0, fetched (taken r.1))

  unfoldable pub monitor_run : List CodeOp → KbMonitor S → List CodeSeen
  monitor_run [] m = []
  monitor_run (op ∷ ops) m = let r = monitor_step op m in r.1 ∷ monitor_run ops r.0

-- What a writer of codes sees.
abbrev answer : Seen → CodeSeen
answer (accepted b) = stored b
answer (got o) = fetched o
answer (returned o) = fetched o

codes-fifo :
    (max places : ℕ) (code : ℕ → ℕ) (n : ℕ) (w : List (List ℕ))
    → codes_step max places (set_code code n) w ≡ (
      (fifo_step max places (put code n) (record { waiting = w; held = [] })).0.waiting,
      answer (fifo_step max places (put code n) (record { waiting = w; held = [] })).1,
    )
unfolding codes_step fifo_step
codes-fifo max places code n w = elim (Bool-cases (leb n max && ltb (length w) places)) [
  | inl fits ↦
      let fits' : (leb n max && ltb (length w + 0) places) ≡ true = ground arith in
      rw (fits, fits') refl
  | inr not_so ↦
      let not_so' : (leb n max && ltb (length w + 0) places) ≡ false = ground arith in
      rw (not_so, not_so') refl
]

take-slice : (mem : ℕ → ℕ) (off n : ℕ) → take n (slice mem off n) ≡ slice mem off n
unfolding slice
take-slice mem off zero = refl
take-slice mem off (suc n) = ap (λ (l : List ℕ). mem off ∷ l) (take-slice mem (off + 1) n)

module _ {S : Type 0} (ring : RingOps S) (laws : RingLaws ring) where
  -- One call on a ready monitor leaves a ready monitor, and shows what the list of codes shows.
  record Keeps (op : CodeOp) (q : QueueBss S) (r : KbMonitor S × CodeSeen) (q' : QueueBss S)
      : Type 0 where
    pub ready : IsReady ring laws q' r.0
    pub same_num : q'.item_num ≡ q.item_num
    pub same_max : q'.item_max_len ≡ q.item_max_len
    pub agrees :
        codes_step q.item_max_len (q.item_num - 1) op (codes ring laws q)
        ≡ (codes ring laws q', r.1)

  set_step :
      (code : ℕ → ℕ) (n : ℕ) (q : QueueBss S) (m : KbMonitor S)
      → IsReady ring laws q m
      → (q' : QueueBss S) × Keeps (set_code code n) q (monitor_step ring (set_code code n) m) q'
  unfolding monitor_step kbmon_set_code client_step queue_bss_enqueue codes_step fifo_step
  set_step code n q m h =
      let c : Client S = record { q = q; held = [] } in
      let f = client_step-Follows ring laws (put code n) c h.valid in
      let c' = (client_step ring (put code n) c).0 in
      let same : kbmon_set_code ring code n m
          ≡ (record m { scq_hdl = some c'.q }, (queue_bss_enqueue ring (some q) code n).1) =
        rw h.there refl in
      (
        c'.q,
        subst (λ y. Keeps (set_code code n) q (y.0, stored (succeeded y.1)) c'.q) (sym same)
            (record {
              ready = record { there = refl; valid = f.valid };
              same_num = f.same_num;
              same_max = f.same_max;
              agrees =
                  codes-fifo q.item_max_len (q.item_num - 1) code n (codes ring laws q)
                  ∙ ap (λ (y : Fifo × Seen). (y.0.waiting, answer y.1)) f.agrees;
            }),
      )

  get_step :
      (q : QueueBss S) (m : KbMonitor S) (xs : List Slot)
      → IsReady ring laws q m
      → queued ring laws q ≡ xs
      → (q' : QueueBss S) × Keeps get_code q (monitor_step ring get_code m) q'
  unfolding monitor_step codes_step
  get_step q m [] h e =
      let is = get_code_empty ring laws m q h.there (laws.empty q.item_queue_state e) in
      (
        q,
        subst (λ y. Keeps get_code q (y.0, fetched (taken ring y.1)) q) (sym is)
            (record {
              ready = record { there = refl; valid = h.valid };
              same_num = refl;
              same_max = refl;
              agrees = rw e refl;
            }),
      )
  get_step q m (x ∷ rest) h e =
      let c : Client S = record { q = q; held = [] } in
      let (t, is, left, room) = laws.gives q.item_queue_state x rest e in
      let c1 : Client S = record { q = record q { item_queue_state = t }; held = x ∷ [] } in
      let valid1 =
        subst (λ (r : Client S × Seen). IsValid ring laws r.0) (step_get ring c x t is)
          (client_step-Follows ring laws get c h.valid).valid in
      let (u, back, more, room') =
        laws.accepts q.item_free_state x (omega (arith, valid1.total, valid1.free_room)) in
      let valid2 =
        subst (λ (r : Client S × Seen). IsValid ring laws r.0) (step_back ring c1 0 x u refl back)
          (client_step-Follows ring laws (give_back 0) c1 valid1).valid in
      (
        record q { item_queue_state = t; item_free_state = u },
        subst
            (λ y.
              Keeps get_code q (y.0, fetched (taken ring y.1))
                (record q { item_queue_state = t; item_free_state = u }))
            (sym (get_code_first ring laws m q x t u h.there is back))
            (record {
              ready = record { there = refl; valid = valid2 };
              same_num = refl;
              same_max = refl;
              agrees = rw (e, left, take-slice q.item x.value (q.item_len x.key)) refl;
            }),
      )

  step-Keeps :
      (op : CodeOp) (q : QueueBss S) (m : KbMonitor S)
      → IsReady ring laws q m
      → (q' : QueueBss S) × Keeps op q (monitor_step ring op m) q'
  step-Keeps (set_code code n) q m h = set_step code n q m h
  step-Keeps get_code q m h = get_step q m (queued ring laws q) h refl

  -- A monitor with its queue stores and gives codes as a list of bounded length does, in any run of the
  -- two calls: a code is refused exactly when it is too long or no place is left, and the codes come out
  -- whole and in order.
  pub monitor_run_lem :
      (ops : List CodeOp) (q : QueueBss S) (m : KbMonitor S)
      → IsReady ring laws q m
      → monitor_run ring ops m ≡ codes_run q.item_max_len (q.item_num - 1) ops (codes ring laws q)
  unfolding monitor_run codes_run
  monitor_run_lem [] q m h = refl
  monitor_run_lem (op ∷ ops) q m h =
      let r = monitor_step ring op m in
      let (q', k) = step-Keeps op q m h in
      rw k.agrees (
        ap (λ (l : List CodeSeen). r.1 ∷ l)
          (monitor_run_lem ops q' r.0 k.ready ∙ λ i.
            codes_run (k.same_max i) (k.same_num i - 1) ops (codes ring laws q')))
