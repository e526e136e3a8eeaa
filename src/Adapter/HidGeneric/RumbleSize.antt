-- ===== src/Adapter/HidGeneric/RumbleSize.antt =====
-- How many bytes a rumble writes (main/adapter/wireless/hid_generic.c).
use blue_retro_forever.Prelude.{
  ℕ, zero, suc, ◌+◌, ◌-◌, ◌/◌, ◌^◌, ◌≤◌, ◌<◌, ◌≡◌, refl, Option, none, some, arith, u32, ◌==◌,
  if◌then◌else◌, for_range, for_range_inv, ℤ,
}
use native.Mathlib.Nat.{pow-suc}
use blue_retro_forever.Adapter.HidParser.Types.{HidUsage, HidReport}
use blue_retro_forever.Adapter.HidGeneric.Rumble.{
  Level, Written, put_byte, put_bytes, put_value, Filling, fill_level, fill_report, level,
  bytes_count,
}
use blue_retro_forever.Adapter.Wired.Types.{GenericFb}

-- How many of the bytes of a value are written.
unfoldable bytes_in : ℕ → ℕ → ℕ
bytes_in zero v = 0
bytes_in (suc n) v = let rest = 1 + bytes_in n (v / 2 ^ 8) in if v == 0 then 0 else rest

bytes_in_small : (k n v : ℕ) → v < 256 ^ n → bytes_in k v ≤ n
unfolding bytes_in
bytes_in_small zero n v h = omega arith
bytes_in_small (suc k) zero v h = ground arith
bytes_in_small (suc k) (suc n) v h =
    let less : v / 256 < 256 ^ n = omega (arith, pow-suc 256 n) in
    ground (arith, bytes_in_small k n (v / 256) less)

Moved : Written → ℕ → Written → Type 0
Moved w n t = (t.offset ≡ u32 (w.offset + n)) × (t.counter ≡ w.counter + n)

put_bytes-Moved :
    (k v : ℕ) (w : Written) → w.offset < 2 ^ 32 → Moved w (bytes_in k v) (put_bytes k v w)
unfolding put_bytes bytes_in Moved
put_bytes-Moved zero v w h = (omega arith, omega arith)
put_bytes-Moved (suc k) v w h =
    let (o, c) = put_bytes-Moved k (v / 2 ^ 8) (put_byte v w) (omega arith) in
    (ground (arith, o), ground (arith, c))

zeros-Moved :
    (n i : ℕ) (w : Written) → w.offset < 2 ^ 32 → Moved w n (for_range n i (λ j. put_byte 0) w)
unfolding for_range Moved
zeros-Moved zero i w h = (omega arith, omega arith)
zeros-Moved (suc n) i w h =
    let (o, c) = zeros-Moved n (i + 1) (put_byte 0 w) (omega arith) in
    (omega (arith, o), omega (arith, c))

put_value-offset :
    (v count : ℕ) (state : ℕ → ℕ) (offset : ℕ)
    → offset < 2 ^ 32
    → v < 256 ^ count
    → (put_value v count state offset).offset ≡ u32 (offset + count)
unfolding put_value Moved
put_value-offset v count state offset h small =
    let start : Written = record { state = state; offset = offset; counter = 0 } in
    let w = put_bytes 4 v start in
    let (o, c) = put_bytes-Moved 4 v start h in
    let few = bytes_in_small 4 count v small in
    let (o', _) = zeros-Moved (count - w.counter) w.counter w (omega (arith, o)) in
    omega (arith, o, c, few, o')

-- Every value of the report is small enough for its field.
abbrev pub AllSmall : (ℤ → ℕ → ℕ) → GenericFb → HidReport → Type 0
AllSmall scale fb report =
    (i p : ℕ) (l : Level)
    → i < report.usage_cnt
    → level scale fb (report.usages i) p ≡ some l
    → l.value < 256 ^ bytes_count (report.usages i)

fill_level-offset :
    (u : HidUsage) (o : Option Level) (s : Filling)
    → ((l : Level) → o ≡ some l → l.value < 256 ^ bytes_count u)
    → (s.offset < 2 ^ 32) × (s.offset ≡ s.report_size)
    → ((fill_level u o s).offset < 2 ^ 32)
      × ((fill_level u o s).offset ≡ (fill_level u o s).report_size)
unfolding fill_level
fill_level-offset u none s small h = h
fill_level-offset u (some l) s small (lt, e) =
    let moved = put_value-offset l.value (bytes_count u) s.state s.offset lt (small l refl) in
    (omega (arith, moved), omega (arith, moved, e))

-- When every value is small enough for its field, the loop over the usages of a rumble writes as many bytes
-- as the size of the report says.
pub fill_report-offset :
    (scale : ℤ → ℕ → ℕ) (fb : GenericFb) (report : HidReport) (state : ℕ → ℕ)
    → AllSmall scale fb report
    → (fill_report scale fb report state).offset ≡ (fill_report scale fb report state).report_size
unfolding fill_report
fill_report-offset scale fb report state small =
    (for_range_inv (λ i (s : Filling). (s.offset < 2 ^ 32) × (s.offset ≡ s.report_size))
      (λ i s. fill_level (report.usages i) (level scale fb (report.usages i) s.pwr_idx) s)
      report.usage_cnt 0 report.usage_cnt
      (record { state = state; report_size = 0; offset = 0; pwr_idx = 0 }) (omega arith)
      (λ i s _ lt h.
        fill_level-offset (report.usages i) (level scale fb (report.usages i) s.pwr_idx) s
          (λ l e. small i s.pwr_idx l lt e) h)
      (omega arith, refl)).1
