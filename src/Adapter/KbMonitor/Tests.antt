-- ===== src/Adapter/KbMonitor/Tests.antt =====
-- The keyboard monitor of kb_monitor.c on a list as its ring.
use blue_retro_forever.Prelude.{
  ℕ, ◌+◌, ◌≡◌, refl, true, false, List, [], ◌∷◌, none, some, arith, if◌then◌else◌, ◌==◌, test_bit,
  for_range, pos,
}
use blue_retro_forever.Adapter.Mapping.Types.{WiredCtrl, CtrlAxisWired}
use blue_retro_forever.Adapter.KbMonitor.Monitor.{KbMonitor, make, break, kbmon_update}
use blue_retro_forever.Adapter.KbMonitor.Keys.{
  key_bit, pressed, update_all, update_all-pressed, last_bit,
}
use blue_retro_forever.Adapter.KbMonitor.Repeat.{IsRepeating, kbmon_update-IsRepeating}
use blue_retro_forever.Adapter.KbMonitor.Codes.{
  IsReady, monitor_run, monitor_run_lem, codes_run, codes_step, set_code, get_code, CodeOp, stored,
  fetched,
}
use blue_retro_forever.Queue.Slots.{slice}
use blue_retro_forever.Queue.Bss.{QueueBss}
use blue_retro_forever.Queue.ListRing.{ListRing, list_ring, list_laws}

abbrev no_axis : CtrlAxisWired
no_axis = record {
  value = pos 0;
  relative = pos 0;
  meta = record {
    neutral = pos 0;
    deadzone = pos 0;
    abs_max = pos 0;
    abs_min = pos 0;
    polarity = pos 0;
    size_min = pos 0;
    size_max = pos 0;
    relative = pos 0;
  };
  cnt_mask = 0;
}

-- A report whose first word is `keys`; all keys of the first word are mapped.
abbrev report : ℕ → WiredCtrl
report keys = record {
  index = 0;
  mask = λ w. 0xffff_ffff;
  desc = λ w. 0;
  map_mask = λ w. if w == 0 then 0xffff_ffff else 0;
  btns = λ w. record { value = (if w == 0 then keys else 0); cnt_mask = λ i. 0 };
  axes = λ i. no_axis;
}

-- A queue of two buffers, both places of the codes free but one.
abbrev queue : QueueBss ListRing
queue = record {
  item_queue_state = record { slots = []; limit = 1 };
  item_free_state = record { slots = record { key = 0; value = 0 } ∷ []; limit = 1 };
  item = λ j. 0;
  item_len = λ k. 0;
  item_max_len = 16;
  item_num = 2;
}

-- The key 4 is held and repeats.
abbrev monitor : KbMonitor ListRing
monitor = record {
  dev_id = 0;
  scq_hdl = some queue;
  keys_state = λ w. if w == 0 then 0x10 else 0;
  tm_delay = 500;
  tm_rate = 100;
  timer = some 500;
  tm_key_id = 4;
  tm_state = 1;
  calls = record { dev = 0; type = make; id = 4 } ∷ [];
}

-- The key 4 goes up and the keys 0 and 2 go down.
update_runs :
    (kbmon_update (λ w. 9) 0 (report 5) monitor).calls
    ≡ record { dev = 0; type = make; id = 4 }
      ∷ record { dev = 0; type = make; id = 0 }
      ∷ record { dev = 0; type = make; id = 2 }
      ∷ record { dev = 0; type = break; id = 4 }
      ∷ []
unfolding kbmon_update for_range
update_runs = refl

update_all-pressed_example :
    pressed 4 false (update_all (λ w. 9) 0 (report 5 ∷ report 0x30 ∷ []) monitor).calls
    ≡ last_bit 4 (key_bit monitor.keys_state 4) (report 5 ∷ report 0x30 ∷ [])
unfolding test_bit
update_all-pressed_example =
    update_all-pressed (λ w. 9) 0 4 (report 5 ∷ report 0x30 ∷ []) monitor (omega arith)
      (refl, (refl, tt)) refl

monitor-IsRepeating : IsRepeating monitor
unfolding test_bit
monitor-IsRepeating d h = (omega arith, refl)

kbmon_update-IsRepeating_example : IsRepeating (kbmon_update (λ w. 9) 0 (report 5) monitor)
unfolding test_bit
kbmon_update-IsRepeating_example =
    kbmon_update-IsRepeating (λ w. 9) 0 (report 5) monitor refl monitor-IsRepeating

monitor-IsReady : IsReady list_ring list_laws queue monitor
monitor-IsReady = record {
  there = refl;
  valid = record {
    once = λ k. ground arith;
    total = refl;
    free_fit = (refl, omega arith, tt);
    queued_fit = tt;
    held_fit = tt;
    free_room = refl;
    queue_room = refl;
  };
}

abbrev codes_calls : List CodeOp
codes_calls = get_code ∷ set_code (λ j. j + 7) 3 ∷ set_code (λ j. 1) 1 ∷ get_code ∷ []

codes_seen :
    codes_run 16 1 codes_calls []
    ≡ fetched none ∷ stored true ∷ stored false ∷ fetched (some (7 ∷ 8 ∷ 9 ∷ [])) ∷ []
unfolding codes_run codes_step slice
codes_seen = refl

monitor_run_lem_example : monitor_run list_ring codes_calls monitor ≡ codes_run 16 1 codes_calls []
monitor_run_lem_example =
    monitor_run_lem list_ring list_laws codes_calls queue monitor monitor-IsReady
