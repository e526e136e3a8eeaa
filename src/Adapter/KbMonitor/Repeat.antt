-- ===== src/Adapter/KbMonitor/Repeat.antt =====
-- The key that kb_monitor.c repeats is held.
use mathlib.Core.Bool.{xor}
use blue_retro_forever.Prelude.{
  ℕ, ◌+◌, ◌/◌, ◌<◌, ◌≤◌, ◌≡◌, ◌⊎◌, refl, sym, ap, subst, ◌∙◌, Bool, true, false, ◌&&◌, none, some,
  arith, for_range, for_range_inv, u8, bit_and, meets-bit, test_bit, test_bit-xor, if◌then◌else◌,
  ◌==◌, Bool-cases, ==_iff, inl, inr,
}
use blue_retro_forever.Adapter.Ids.{kbm_max}
use blue_retro_forever.Adapter.Mapping.Types.{WiredCtrl}
use blue_retro_forever.Adapter.KbMonitor.Monitor.{
  KbMonitor, key_round, change_round, kbmon_update, call, start_repeat, make, break,
}
use blue_retro_forever.Adapter.KbMonitor.Keys.{key_bit, reported, words_change, loop_keys}

same_bit :
    (map change new old : Bool)
    → map ≡ true
    → old ≡ true
    → change ≡ xor new old
    → (map && change) ≡ false
    → new ≡ true
unfolding xor
same_bit map change true old m o d idle = refl
same_bit map change false true m o d idle = ground arith
same_bit map change false false m o d idle = ground arith

-- What is known of the repeated key `x` before round `i`.
abbrev Known : (ℕ → ℕ) → (ℕ → ℕ) → ℕ → ℕ → ℕ → Type 0
Known old new key i x =
    (x < kbm_max) × ((key_bit new x ≡ true) ⊎ ((i ≤ x) × (x ≡ key) × (key_bit old x ≡ true)))

-- A round that does nothing has found the key as it was.
settle :
    (i key x : ℕ) (old new map change : ℕ → ℕ)
    → key_bit map key ≡ true
    → key_bit change i ≡ xor (key_bit new i) (key_bit old i)
    → (key_bit map i && key_bit change i) ≡ false
    → Known old new key i x
    → Known old new key (i + 1) x
settle i key x old new map change mapped differs idle (lt, inl up) = (lt, inl up)
settle i key x old new map change mapped differs idle (lt, inr (from, is, down)) =
    elim (Bool-cases (i == x)) [
      | inl same ↦ (lt, inl (kept ((==_iff i x).0 same)))
      | inr other ↦ (lt, inr (ground arith, is, down))
    ]
  where
    kept : i ≡ x → key_bit new x ≡ true
    kept e =
        let on : key_bit map i ≡ true = ap (key_bit map) (e ∙ is) ∙ mapped in
        let was : key_bit old i ≡ true = ap (key_bit old) e ∙ down in
        sym (ap (key_bit new) e)
        ∙ same_bit (key_bit map i) (key_bit change i) (key_bit new i) (key_bit old i) on was differs
            idle

fourth : (x : ℕ) → x < kbm_max → x / 32 < 4
fourth x h = omega arith

-- Behind the last key there is no key left to look at.
at_end : (x key : ℕ) (old new : ℕ → ℕ) → Known old new key kbm_max x → key_bit new x ≡ true
at_end x key old new (lt, inl up) = up
at_end x key old new (lt, inr (from, is, down)) = absurd (omega arith)

module _ {S : Type 0} where
  -- While the timer runs, the key that it repeats is down.
  abbrev pub IsRepeating : KbMonitor S → Type 0
  IsRepeating m =
      (d : ℕ)
      → m.timer ≡ some d
      → (m.tm_key_id < kbm_max) × (key_bit m.keys_state m.tm_key_id ≡ true)

  -- A round whose three tests have the answers `a`, `b` and `c`.
  abbrev answered : ℕ → ℕ → Bool → Bool → Bool → KbMonitor S → KbMonitor S
  answered dev i a b c t =
      if a
      then (if b
          then (if c
              then start_repeat i (call dev make i (record t { timer = none }))
              else call dev break i (record t { timer = none }))
          else t)
      else t

  round-answered :
      (dev i : ℕ) (ctrl : WiredCtrl) (change : ℕ → ℕ) (t : KbMonitor S)
      → key_round dev ctrl change i t
        ≡ answered dev i (key_bit ctrl.map_mask i) (key_bit change i) (key_bit (reported ctrl) i) t
  unfolding key_round
  round-answered dev i ctrl change t =
      let n = bit_and i 0x1f in
      rw
        (
          meets-bit n (ctrl.map_mask (i / 32)),
          meets-bit n (change (i / 32)),
          meets-bit n (ctrl.btns (i / 32)).value,
        )
        refl

  -- Where the timer runs after a round, the key of the round went down or the round did nothing.
  timer_after :
      (dev i d : ℕ) (a b c : Bool) (t : KbMonitor S)
      → (answered dev i a b c t).timer ≡ some d
      → ((c ≡ true) × ((answered dev i a b c t).tm_key_id ≡ u8 i))
        ⊎ (((a && b) ≡ false) × (answered dev i a b c t ≡ t))
  unfolding call start_repeat
  timer_after dev i d true true true t h = inl (refl, ground arith)
  timer_after dev i d true true false t h = absurd (ground arith)
  timer_after dev i d true false c t h = inr (refl, refl)
  timer_after dev i d false b c t h = inr (refl, refl)

  -- Keys below `i` have been looked at.
  abbrev Seen : (ℕ → ℕ) → (ℕ → ℕ) → ℕ → ℕ → KbMonitor S → Type 0
  Seen old new key i t = (d : ℕ) → t.timer ≡ some d → Known old new key i t.tm_key_id

  seen_next :
      (dev i key : ℕ) (ctrl : WiredCtrl) (change old : ℕ → ℕ) (t : KbMonitor S)
      → i < kbm_max
      → key_bit ctrl.map_mask key ≡ true
      → key_bit change i ≡ xor (key_bit (reported ctrl) i) (key_bit old i)
      → Seen old (reported ctrl) key i t
      → Seen old (reported ctrl) key (i + 1) (key_round dev ctrl change i t)
  seen_next dev i key ctrl change old t lt mapped differs h =
      subst (Seen old (reported ctrl) key (i + 1)) (sym (round-answered dev i ctrl change t))
        (λ d runs.
          elim (timer_after dev i d (key_bit ctrl.map_mask i) (key_bit change i)
            (key_bit (reported ctrl) i) t runs) [
              | inl (down, is) ↦
                  let e : u8 i ≡ i = omega arith in
                  subst (Known old (reported ctrl) key (i + 1)) (sym (is ∙ e)) (lt, inl down)
              | inr (idle, same) ↦
                  let before = h d (sym (ap (λ (r : KbMonitor S). r.timer) same) ∙ runs) in
                  subst (λ (r : KbMonitor S). Known old (reported ctrl) key (i + 1) r.tm_key_id)
                    (sym same)
                    (settle i key t.tm_key_id old (reported ctrl) ctrl.map_mask change mapped
                      differs idle before)
            ])

  -- If the key that the monitor repeats is down and the report maps it, then after the report the key
  -- that the monitor repeats, if it repeats one, is down.
  pub kbmon_update-IsRepeating :
      (stack : ℕ → ℕ) (dev : ℕ) (ctrl : WiredCtrl) (m : KbMonitor S)
      → key_bit ctrl.map_mask m.tm_key_id ≡ true
      → IsRepeating m
      → IsRepeating (kbmon_update stack dev ctrl m)
  unfolding kbmon_update
  kbmon_update-IsRepeating stack dev ctrl m mapped h =
      let r = for_range 4 0 (change_round ctrl) (stack, m.keys_state) in
      let start = record m { keys_state = r.1 } in
      let words = words_change stack m.keys_state ctrl in
      let seen =
        for_range_inv (λ i (t : KbMonitor S). Seen m.keys_state (reported ctrl) m.tm_key_id i t)
          (key_round dev ctrl r.0) kbm_max 0 kbm_max start refl
          (λ i t _ lt known.
            seen_next dev i m.tm_key_id ctrl r.0 m.keys_state t lt mapped
              (ap (λ x. test_bit x (bit_and i 0x1f)) (words (i / 32) (omega arith)).0
                ∙ test_bit-xor (reported ctrl (i / 32)) (m.keys_state (i / 32)) (bit_and i 0x1f))
              known)
          (λ d runs. let now = h d runs in (now.0, inr (omega arith, refl, now.1))) in
      λ d runs.
        let now = seen d runs in
        let x = (kbmon_update stack dev ctrl m).tm_key_id in
        (
          now.0,
          ap (λ (w : ℕ → ℕ). key_bit w x) (loop_keys dev ctrl r.0 start)
              ∙ ap (λ y. test_bit y (bit_and x 0x1f)) (words (x / 32) (fourth x now.0)).1
              ∙ at_end x m.tm_key_id m.keys_state (reported ctrl) now,
        )
