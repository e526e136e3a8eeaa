-- ===== src/Adapter/KbMonitor/Keys.antt =====
-- What the calls of kb_monitor.c tell of the keys.
use mathlib.Core.Bool.{xor}
use mathlib.Core.List.{append-nil}
use blue_retro_forever.Prelude.{
  ℕ, ◌+◌, ◌/◌, ◌<◌, ◌≡◌, ◌≢◌, refl, sym, ap, ◌∙◌, Bool, true, false, ◌&&◌, List, [], ◌∷◌, ◌++◌,
  arith, for_range, for_range_inv, u8, bit_and, bit_xor, meets-bit, test_bit, test_bit-xor,
  if◌then◌else◌, ◌==◌, ltb, ==_iff, Bool-cases, inl, inr,
}
use blue_retro_forever.Adapter.Ids.{kbm_max}
use blue_retro_forever.Adapter.Mapping.Types.{WiredCtrl}
use blue_retro_forever.Adapter.KbMonitor.Monitor.{
  KbMonitor, KeyCall, KeyType, make, break, key_round, change_round, kbmon_update,
}

-- The bit of the key `k` in the four words.
abbrev pub key_bit : (ℕ → ℕ) → ℕ → Bool
key_bit words k = test_bit (words (k / 32)) (bit_and k 0x1f)

abbrev pub reported : WiredCtrl → ℕ → ℕ
reported ctrl w = (ctrl.btns w).value

abbrev pub is_make : KeyType → Bool
is_make make = true
is_make break = false

-- Whether the key `k` is down for one who follows the calls, and `b` before them.
abbrev pub pressed : ℕ → Bool → List KeyCall → Bool
pressed k b [] = b
pressed k b (c ∷ cs) = pressed k (if c.id == k then is_make c.type else b) cs

pressed-append :
    (k : ℕ) (b : Bool) (xs ys : List KeyCall)
    → pressed k b (xs ++ ys) ≡ pressed k (pressed k b xs) ys
pressed-append k b [] ys = refl
pressed-append k b (x ∷ xs) ys = pressed-append k (if x.id == k then is_make x.type else b) xs ys

-- The call for the key `i`, if there is one.
key_calls : ℕ → WiredCtrl → (ℕ → ℕ) → ℕ → List KeyCall
key_calls dev ctrl change i =
    if key_bit ctrl.map_mask i && key_bit change i
    then record { dev = dev; type = (if key_bit (reported ctrl) i then make else break); id = u8 i }
      ∷ []
    else []

module _ {S : Type 0} where
  key_round-calls :
      (dev : ℕ) (ctrl : WiredCtrl) (change : ℕ → ℕ) (i : ℕ) (m : KbMonitor S)
      → (key_round dev ctrl change i m).calls ≡ m.calls ++ key_calls dev ctrl change i
  unfolding key_round key_calls
  key_round-calls dev ctrl change i m =
      let n = bit_and i 0x1f in
      rw
        (
          meets-bit n (ctrl.map_mask (i / 32)),
          meets-bit n (change (i / 32)),
          meets-bit n (ctrl.btns (i / 32)).value,
        )
        (ground (arith, append-nil m.calls))

  key_round-keys :
      (dev : ℕ) (ctrl : WiredCtrl) (change : ℕ → ℕ) (i : ℕ) (m : KbMonitor S)
      → (key_round dev ctrl change i m).keys_state ≡ m.keys_state
  unfolding key_round
  key_round-keys dev ctrl change i m = ground arith

-- What one call does to the key `k`.
pressed-own_call :
    (dev : ℕ) (ctrl : WiredCtrl) (change : ℕ → ℕ) (k : ℕ) (b : Bool)
    → k < kbm_max
    → key_bit ctrl.map_mask k ≡ true
    → pressed k b (key_calls dev ctrl change k)
      ≡ (if key_bit change k then key_bit (reported ctrl) k else b)
unfolding key_calls
pressed-own_call dev ctrl change k b lt mapped = rw mapped (elim (Bool-cases (key_bit change k)) [
  | inl new ↦ elim (Bool-cases (key_bit (reported ctrl) k)) [
    | inl down ↦ rw (new, down) (ground arith)
    | inr up ↦ rw (new, up) (ground arith)
  ]
  | inr old ↦ rw old refl
])

pressed-other_call :
    (dev : ℕ) (ctrl : WiredCtrl) (change : ℕ → ℕ) (i k : ℕ) (b : Bool)
    → i < kbm_max
    → i ≢ k
    → pressed k b (key_calls dev ctrl change i) ≡ b
unfolding key_calls
pressed-other_call dev ctrl change i k b lt ne =
    elim (Bool-cases (key_bit ctrl.map_mask i && key_bit change i)) [
      | inl new ↦ rw new (ground arith)
      | inr old ↦ rw old refl
    ]

pub words_change :
    (stack old : ℕ → ℕ) (ctrl : WiredCtrl) (w : ℕ)
    → w < 4
    → ((for_range 4 0 (change_round ctrl) (stack, old)).0 w ≡ bit_xor (reported ctrl w) (old w))
      × ((for_range 4 0 (change_round ctrl) (stack, old)).1 w ≡ reported ctrl w)
unfolding for_range change_round
words_change stack old ctrl w lt = (ground arith, ground arith)

one_round :
    (dev i k : ℕ) (ctrl : WiredCtrl) (change : ℕ → ℕ) (p start : Bool)
    → i < kbm_max
    → k < kbm_max
    → key_bit ctrl.map_mask k ≡ true
    → p
      ≡ (if ltb k i then (if key_bit change k then key_bit (reported ctrl) k else start) else start)
    → pressed k p (key_calls dev ctrl change i) ≡ (
        if ltb k (i + 1)
        then (if key_bit change k then key_bit (reported ctrl) k else start)
        else start)
one_round dev i k ctrl change p start below lt mapped h = elim (Bool-cases (i == k)) [
  | inl same ↦
      let e : i ≡ k = (==_iff i k).0 same in
      let p_start : p ≡ start = ground arith in
      ap (λ j. pressed k p (key_calls dev ctrl change j)) e
      ∙ pressed-own_call dev ctrl change k p lt mapped
      ∙ ground arith
  | inr other ↦ pressed-other_call dev ctrl change i k p below (ground arith) ∙ h ∙ ground arith
]

abbrev pub AllMap : ℕ → List WiredCtrl → Type 0
AllMap k [] = Unit
AllMap k (c ∷ cs) = (key_bit c.map_mask k ≡ true) × AllMap k cs

abbrev pub last_bit : ℕ → Bool → List WiredCtrl → Bool
last_bit k b [] = b
last_bit k b (c ∷ cs) = last_bit k (key_bit (reported c) k) cs

-- Only a key that differs needs a call.
pub follow :
    (differs new old told : Bool)
    → differs ≡ xor new old
    → told ≡ old
    → (if differs then new else told) ≡ new
unfolding xor
follow differs true true told e h = ground arith
follow differs true false told e h = ground arith
follow differs false true told e h = ground arith
follow differs false false told e h = ground arith

module _ {S : Type 0} where
  loop_keeps :
      (dev k : ℕ) (ctrl : WiredCtrl) (change : ℕ → ℕ) (m : KbMonitor S)
      → k < kbm_max
      → key_bit ctrl.map_mask k ≡ true
      → pressed k false (for_range kbm_max 0 (key_round dev ctrl change) m).calls
        ≡ (if key_bit change k then key_bit (reported ctrl) k else pressed k false m.calls)
  loop_keeps dev k ctrl change m lt mapped =
      let start = pressed k false m.calls in
      let final = if key_bit change k then key_bit (reported ctrl) k else start in
      for_range_inv
        (λ i (t : KbMonitor S). pressed k false t.calls ≡ (if ltb k i then final else start))
        (key_round dev ctrl change) kbm_max 0 kbm_max m refl
        (λ i t _ below h.
          ap (pressed k false) (key_round-calls dev ctrl change i t)
          ∙ pressed-append k false t.calls (key_calls dev ctrl change i)
          ∙ one_round dev i k ctrl change (pressed k false t.calls) start below lt mapped h)
        (ground arith)
      ∙ ground arith

  pub loop_keys :
      (dev : ℕ) (ctrl : WiredCtrl) (change : ℕ → ℕ) (m : KbMonitor S)
      → (for_range kbm_max 0 (key_round dev ctrl change) m).keys_state ≡ m.keys_state
  loop_keys dev ctrl change m =
      for_range_inv (λ i (t : KbMonitor S). t.keys_state ≡ m.keys_state) (key_round dev ctrl change)
        kbm_max 0 kbm_max m refl (λ i t _ _ h. key_round-keys dev ctrl change i t ∙ h) refl

  -- One who follows the calls knows each mapped key: if the calls so far tell that a key is down
  -- exactly when the last report had it down, then the calls after one more report tell what that report
  -- has, whatever the array on the stack held.
  pub kbmon_update-pressed :
      (stack : ℕ → ℕ) (dev k : ℕ) (ctrl : WiredCtrl) (m : KbMonitor S)
      → k < kbm_max
      → key_bit ctrl.map_mask k ≡ true
      → pressed k false m.calls ≡ key_bit m.keys_state k
      → (pressed k false (kbmon_update stack dev ctrl m).calls ≡ key_bit (reported ctrl) k)
        × (key_bit (kbmon_update stack dev ctrl m).keys_state k ≡ key_bit (reported ctrl) k)
  unfolding kbmon_update xor
  kbmon_update-pressed stack dev k ctrl m lt mapped h =
      let r = for_range 4 0 (change_round ctrl) (stack, m.keys_state) in
      let (changed, kept) = words_change stack m.keys_state ctrl (k / 32) (omega arith) in
      let n = bit_and k 0x1f in
      let differs : key_bit r.0 k ≡ xor (key_bit (reported ctrl) k) (key_bit m.keys_state k) =
        ap (λ x. test_bit x n) changed
        ∙ test_bit-xor (reported ctrl (k / 32)) (m.keys_state (k / 32)) n in
      (
        loop_keeps dev k ctrl r.0 (record m { keys_state = r.1 }) lt mapped
            ∙ follow (key_bit r.0 k) (key_bit (reported ctrl) k) (key_bit m.keys_state k)
                (pressed k false m.calls) differs h,
        ap (λ (w : ℕ → ℕ). key_bit w k) (loop_keys dev ctrl r.0 (record m { keys_state = r.1 }))
            ∙ ap (λ x. test_bit x n) kept,
      )

  -- The reports come one after the other.
  abbrev pub update_all : (ℕ → ℕ) → ℕ → List WiredCtrl → KbMonitor S → KbMonitor S
  update_all stack dev [] m = m
  update_all stack dev (c ∷ cs) m = update_all stack dev cs (kbmon_update stack dev c m)

  -- After any run of reports that all map a key, the calls tell of the key what the last report has, or
  -- what was there before if there is none.
  pub update_all-pressed :
      (stack : ℕ → ℕ) (dev k : ℕ) (cs : List WiredCtrl) (m : KbMonitor S)
      → k < kbm_max
      → AllMap k cs
      → pressed k false m.calls ≡ key_bit m.keys_state k
      → pressed k false (update_all stack dev cs m).calls ≡ last_bit k (key_bit m.keys_state k) cs
  update_all-pressed stack dev k [] m lt mapped h = h
  update_all-pressed stack dev k (c ∷ cs) m lt mapped h =
      let (told, kept) = kbmon_update-pressed stack dev k c m lt mapped.0 h in
      update_all-pressed stack dev k cs (kbmon_update stack dev c m) lt mapped.1 (told ∙ sym kept)
      ∙ ap (λ b. last_bit k b cs) kept
