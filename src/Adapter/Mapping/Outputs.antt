-- ===== src/Adapter/Mapping/Outputs.antt =====
-- Which outputs `adapter_mapping` of main/adapter/adapter.c changes.
use blue_retro_forever.Prelude.{
  ◌+◌, ◌≢◌, ◌⊎◌, inl, inr, bit_or, test_bit-zero, ◌<◌, ◌^◌, ap, true, ltb, ltb→lt, all_below,
  all_below_sound, ℕ, ◌≡◌, refl, ◌∙◌, false, arith, bit, test_bit, test_bit-bit, test_bit-or,
  update, update_ne, for_range_inv,
}
use native.Mathlib.Decide.{ℕ_discrete}
use blue_retro_forever.Adapter.Ids.{wired_max_dev}
use blue_retro_forever.Adapter.Mapping.Types.{MapCfg, InCfg, Ctrls, Float}
use blue_retro_forever.Adapter.Mapping.Map.{
  out_bit, map_axis, flag_dst, map_entry, map_round, adapter_mapping,
}
use blue_retro_forever.Adapter.Mapping.Cases.{map_entry-P}

-- The mask of the result does not name the output `d`, which is as it was, or it names it, and `D` holds.
abbrev pub IsLocal : Type 0 → ℕ → Ctrls → Ctrls × ℕ → Type 0
IsLocal D d s r =
    ((test_bit r.1 d ≡ false) × (r.0.output d ≡ s.output d)) ⊎ ((test_bit r.1 d ≡ true) × D)

pow_table : all_below wired_max_dev (λ i. ltb (2 ^ i) (2 ^ 32)) ≡ true
unfolding all_below
pow_table = refl

pow_le : (i : ℕ) → i < wired_max_dev → 2 ^ i < 2 ^ 32
pow_le i lt =
    ltb→lt (2 ^ i) (2 ^ 32)
      (all_below_sound wired_max_dev (λ j. ltb (2 ^ j) (2 ^ 32)) i pow_table lt)

out_bit-is : (i : ℕ) → i < wired_max_dev → out_bit i ≡ bit i
out_bit-is i lt = omega (arith, pow_le i lt)

-- Only the output `i` may be written, and it is named.
named-IsLocal :
    (d i : ℕ) (s t : Ctrls)
    → i < wired_max_dev
    → (i ≢ d → t.output d ≡ s.output d)
    → IsLocal (i ≡ d) d s (t, out_bit i)
named-IsLocal d i s t lt same =
    let named = ap (λ x. test_bit x d) (out_bit-is i lt) ∙ test_bit-bit i d in
    elim (ℕ_discrete i d) [
      | yes e ↦ inr (ground (arith, named), e)
      | no other ↦ inl (ground (arith, named), same other)
    ]

map_entry-IsLocal :
    (d : ℕ) (float : Float) (m : MapCfg) (s : Ctrls)
    → m.dst_id < wired_max_dev
    → IsLocal (m.dst_id ≡ d) d s (map_entry float m s)
map_entry-IsLocal d float m s known = map_entry-P (IsLocal (m.dst_id ≡ d) d s) float m s (record {
  nothing = inl (test_bit-zero d, refl);
  no_dst = named-IsLocal d m.dst_id s s known (λ other. refl);
  axis = λ a _.
      let r = map_axis float m a s.input (s.output m.dst_id) in
      named-IsLocal d m.dst_id s (record { input = r.0; output = update s.output m.dst_id r.1 })
        known (update_ne s.output m.dst_id d r.1);
  btn = λ p out _ _.
      let out' = flag_dst m.dst_btn out in
      named-IsLocal d m.dst_id s (record s { output = update s.output m.dst_id out' }) known
        (update_ne s.output m.dst_id d out');
})

-- One of the first `n` entries has the destination `d`.
abbrev pub IsDst : InCfg → ℕ → ℕ → Type 0
IsDst cfg d n = (i : ℕ) × (i < n) × ((cfg.entry i).dst_id ≡ d)

both_rounds :
    (cfg : InCfg) (d n r q : ℕ) (s t u : Ctrls)
    → IsLocal (IsDst cfg d n) d s (t, r)
    → IsLocal ((cfg.entry n).dst_id ≡ d) d t (u, q)
    → IsLocal (IsDst cfg d (n + 1)) d s (u, bit_or r q)
both_rounds cfg d n r q s t u (inl (a, same)) (inl (b, same')) =
    inl (ground (arith, test_bit-or r q d), same' ∙ same)
both_rounds cfg d n r q s t u (inl h) (inr (b, e)) =
    inr (ground (arith, test_bit-or r q d), (n, omega arith, e))
both_rounds cfg d n r q s t u (inr (a, (i, lt, e))) g =
    inr (ground (arith, test_bit-or r q d), (i, omega arith, e))

map_round-IsLocal :
    (d : ℕ) (float : Float) (cfg : InCfg) (i : ℕ) (s t : Ctrls) (r : ℕ)
    → (cfg.entry i).dst_id < wired_max_dev
    → IsLocal (IsDst cfg d i) d s (t, r)
    → IsLocal (IsDst cfg d (i + 1)) d s (map_round float cfg i (t, r))
unfolding map_round
map_round-IsLocal d float cfg i s t r known h =
    let next = map_entry float (cfg.entry i) t in
    both_rounds cfg d i r next.1 s t next.0 h (map_entry-IsLocal d float (cfg.entry i) t known)

-- When the destinations of all its entries are among the twelve outputs, the mapping leaves an output
-- as it is and does not name it in the mask that it returns, or it names it and the output is the
-- destination of one of the entries.
pub adapter_mapping-IsLocal :
    (d : ℕ) (float : Float) (cfg : InCfg) (s : Ctrls)
    → ((i : ℕ) → i < cfg.size → (cfg.entry i).dst_id < wired_max_dev)
    → let r = adapter_mapping float cfg s in
      ((test_bit r.1 d ≡ false) × (r.0.output d ≡ s.output d))
      ⊎ ((test_bit r.1 d ≡ true) × IsDst cfg d cfg.size)
unfolding adapter_mapping
adapter_mapping-IsLocal d float cfg s known =
    for_range_inv (λ i t. IsLocal (IsDst cfg d i) d s t) (map_round float cfg) cfg.size 0 cfg.size
      (s, 0) (omega arith) (λ i (t, r) _ lt h. map_round-IsLocal d float cfg i s t r (known i lt) h)
      (inl (test_bit-zero d, refl))
