-- ===== src/Adapter/KbMonitor/Monitor.antt =====
-- kb_monitor.c: a monitor turns the keys of each report into make and break calls of its callback, and
-- keeps the codes that the callback makes of them in a queue. The calls are a list, the oldest first.
use blue_retro_forever.Prelude.{
  ℕ, ◌/◌, Bool, true, List, [], ◌∷◌, ◌++◌, Option, none, some, update, for_range, u8, bit, bit_and,
  bit_xor, meets, if◌then◌else◌, ◌==◌, ltb, ℤ, negsuc,
}
use blue_retro_forever.Adapter.Ids.{kbm_max, bt_max_dev}
use blue_retro_forever.Adapter.Mapping.Types.{WiredCtrl}
use blue_retro_forever.Queue.Ring.{Slot, RingOps}
use blue_retro_forever.Queue.Bss.{
  Sizes, QueueBss, queue_bss_init, queue_bss_enqueue, queue_bss_dequeue, queue_bss_return,
}
use blue_retro_forever.Queue.Slots.{slice}

-- KBMON_TYPE_MAKE and KBMON_TYPE_BREAK
pub data KeyType : Type 0 where
  make break : KeyType

-- A call of the callback.
pub record KeyCall : Type 0 where
  pub dev : ℕ
  pub type : KeyType
  pub id : ℕ

-- `timer` is the time of the one-shot timer while it runs.
pub record KbMonitor (S : Type 0) : Type 0 where
  pub dev_id : ℕ
  pub scq_hdl : Option (QueueBss S)
  pub keys_state : ℕ → ℕ
  pub tm_delay : ℕ
  pub tm_rate : ℕ
  pub timer : Option ℕ
  pub tm_key_id : ℕ
  pub tm_state : ℕ
  pub calls : List KeyCall

-- The words that changed, and the words that the monitor keeps.
unfoldable pub change_round : WiredCtrl → ℕ → (ℕ → ℕ) × (ℕ → ℕ) → (ℕ → ℕ) × (ℕ → ℕ)
change_round ctrl i (keys_change, keys_state) = (
  update keys_change i (bit_xor (ctrl.btns i).value (keys_state i)),
  update keys_state i (ctrl.btns i).value,
)

module _ {S : Type 0} where
  unfoldable pub call : ℕ → KeyType → ℕ → KbMonitor S → KbMonitor S
  call dev type id m = record m {
    calls = m.calls ++ record { dev = dev; type = type; id = u8 id } ∷ [];
  }

  -- The timer has run out.
  unfoldable pub kbmon_typematic_cb : KbMonitor S → KbMonitor S
  unfolding call
  kbmon_typematic_cb m = record (call m.dev_id make m.tm_key_id m) { timer = some m.tm_rate }

  unfoldable pub start_repeat : ℕ → KbMonitor S → KbMonitor S
  start_repeat i m =
      if m.tm_state == 0 then m else record m { tm_key_id = u8 i; timer = some m.tm_delay }

  -- A mapped key that has changed.
  unfoldable pub key_changed : ℕ → WiredCtrl → ℕ → KbMonitor S → KbMonitor S
  unfolding call start_repeat
  key_changed dev_id ctrl i m =
      if meets (ctrl.btns (i / 32)).value (bit (bit_and i 0x1f))
      then start_repeat i (call dev_id make i (record m { timer = none }))
      else call dev_id break i (record m { timer = none })

  unfoldable pub key_round : ℕ → WiredCtrl → (ℕ → ℕ) → ℕ → KbMonitor S → KbMonitor S
  unfolding key_changed
  key_round dev_id ctrl keys_change i m =
      if meets (ctrl.map_mask (i / 32)) (bit (bit_and i 0x1f))
      then (if meets (keys_change (i / 32)) (bit (bit_and i 0x1f))
          then key_changed dev_id ctrl i m
          else m)
      else m

  -- The array of changes is not cleared before its four words are written.
  unfoldable pub kbmon_update : (ℕ → ℕ) → ℕ → WiredCtrl → KbMonitor S → KbMonitor S
  unfolding change_round key_round
  kbmon_update stack dev_id ctrl m =
      let r = for_range 4 0 (change_round ctrl) (stack, m.keys_state) in
      for_range kbm_max 0 (key_round dev_id ctrl r.0) (record m { keys_state = r.1 })

  unfoldable pub kbmon_set_typematic : ℕ → ℕ → ℕ → KbMonitor S → KbMonitor S
  kbmon_set_typematic state delay rate m = record m {
    tm_state = state;
    tm_delay = delay;
    tm_rate = rate;
  }

module _ {S : Type 0} (ring : RingOps S) where
  -- The arguments are those of `queue_bss_init`. The rest of the entry is kept; `none` is a write behind
  -- a block of the queue.
  unfoldable pub kbmon_init :
      Sizes → (ℕ → ℕ → Bool) → (ℕ → ℕ) → (ℕ → ℕ) → ℕ → (ℕ → KbMonitor S) → Option (ℕ → KbMonitor S)
  kbmon_init sizes granted bytes lens dev_id monitors =
      if ltb dev_id bt_max_dev
      then elim (queue_bss_init ring sizes granted bytes lens 32 16) [
        | none ↦ none
        | some q ↦ some (
            update monitors dev_id (record (monitors dev_id) {
              timer = none;
              tm_state = 0;
              dev_id = dev_id;
              scq_hdl = q;
            }))
      ]
      else some monitors

  pub set_code : KbMonitor S → Option (QueueBss S) → (ℕ → ℕ) → ℕ → KbMonitor S × ℤ
  set_code m none code len = (m, negsuc 0)
  set_code m (some q) code len =
      let r = queue_bss_enqueue ring (some q) code len in (record m { scq_hdl = r.0 }, r.1)

  unfoldable pub kbmon_set_code : (ℕ → ℕ) → ℕ → KbMonitor S → KbMonitor S × ℤ
  unfolding set_code
  kbmon_set_code code len m = set_code m m.scq_hdl code len

  -- The length of a buffer, as the pointer to it reads it.
  abbrev pub len_of : Option (QueueBss S) → ℕ → ℕ
  len_of none k = 0
  len_of (some q) k = q.item_len k

  abbrev pub bytes_of : Option (QueueBss S) → ℕ → ℕ → List ℕ
  bytes_of none off n = []
  bytes_of (some q) off n = slice q.item off n

  -- The copy is taken before the buffer goes back, the length is read after it.
  pub take_code :
      KbMonitor S → Option (QueueBss S) → Option Slot → KbMonitor S × Option (List ℕ × ℕ)
  take_code m q none = (record m { scq_hdl = q }, none)
  take_code m q (some e) =
      let code = bytes_of q e.value (len_of q e.key) in
      let r = queue_bss_return ring q (some e.value) (some e.key) in
      (record m { scq_hdl = r.0 }, some (code, len_of r.0 e.key))

  pub get_code : KbMonitor S → Option (QueueBss S) → KbMonitor S × Option (List ℕ × ℕ)
  unfolding take_code
  get_code m none = (m, none)
  get_code m (some q) = let r = queue_bss_dequeue ring (some q) true in take_code m r.0 r.1

  -- `none` is the result -1; else the code and its length are written.
  unfoldable pub kbmon_get_code : KbMonitor S → KbMonitor S × Option (List ℕ × ℕ)
  unfolding get_code
  kbmon_get_code m = get_code m m.scq_hdl
