-- ===== src/Adapter/Config/Reset.antt =====
-- When a new configuration wants the wired side reset: `config_is_rst_required` of config.c.
use blue_retro_forever.Prelude.{
  ℕ, ◌+◌, ◌≤◌, ◌<◌, ◌≡◌, ◌≢◌, refl, ap, ◌∙◌, Bool, true, false, not, arith, update, for_range,
  for_range_inv, ◌==◌, if◌then◌else◌,
}
use native.Mathlib.Decide.{dec_lt}
use blue_retro_forever.Adapter.Ids.{wired_max_dev}
use blue_retro_forever.Adapter.Config.Layout.{Mem, magic, multitap_cfg, dev_mode}

-- The static variables: what the last call saw.
pub record Seen : Type 0 where
  pub magic : ℕ
  pub multitap_cfg : ℕ
  pub dev_mode : ℕ → ℕ

-- A round of the loop.
unfoldable pub see_device : Mem → ℕ → (ℕ → ℕ) × Bool → (ℕ → ℕ) × Bool
see_device m i (modes, ret) =
    (update modes i (m (dev_mode i)), (if modes i == m (dev_mode i) then ret else true))

-- The loop.
unfoldable pub see_devices : Mem → (ℕ → ℕ) → Bool → (ℕ → ℕ) × Bool
unfolding see_device for_range
see_devices m modes ret = for_range wired_max_dev 0 (see_device m) (modes, ret)

unfoldable pub config_is_rst_required : Mem → Seen → Seen × Bool
unfolding see_devices magic
config_is_rst_required m s =
    let (modes, ret) = see_devices m s.dev_mode (not (s.multitap_cfg == m multitap_cfg)) in
    (
      (record { magic = magic m; multitap_cfg = m multitap_cfg; dev_mode = modes }),
      (if s.magic == magic m then ret else false),
    )

-- What the static variables hold after a call.
abbrev pub IsSeen : Mem → Seen → Type 0
IsSeen m s =
    (s.magic ≡ magic m)
    × (s.multitap_cfg ≡ m multitap_cfg)
    × ((i : ℕ) → i < wired_max_dev → s.dev_mode i ≡ m (dev_mode i))

see_devices-modes :
    (m : Mem) (modes : ℕ → ℕ) (ret : Bool) (i : ℕ)
    → i < wired_max_dev
    → (see_devices m modes ret).0 i ≡ m (dev_mode i)
unfolding see_devices
see_devices-modes m modes ret i lt =
    for_range_inv (λ k t. i < k → t.0 i ≡ m (dev_mode i)) (see_device m) wired_max_dev 0
      wired_max_dev (modes, ret) refl (λ k (d, r) _ _ h lk. ground arith)
      (λ l. absurd (omega arith)) lt

-- Nothing has changed.
see_devices-same :
    (m : Mem) (modes : ℕ → ℕ)
    → ((i : ℕ) → i < wired_max_dev → modes i ≡ m (dev_mode i))
    → (see_devices m modes false).1 ≡ false
unfolding see_devices
see_devices-same m modes same =
    let (_, h) =
      for_range_inv
        (λ k (t : (ℕ → ℕ) × Bool).
          ((i : ℕ) → i < wired_max_dev → t.0 i ≡ m (dev_mode i)) × (t.1 ≡ false))
        (λ k t. see_device m k t) wired_max_dev 0 wired_max_dev (modes, false) refl
        (λ k (d, r) _ lt (g, e).
          let now = g k lt in ((λ i li. let old = g i li in ground arith), ground arith))
        (same, refl) in
    h

-- A reset that is wanted stays wanted.
see_devices-wanted : (m : Mem) (modes : ℕ → ℕ) → (see_devices m modes true).1 ≡ true
unfolding see_devices
see_devices-wanted m modes =
    for_range_inv (λ k (t : (ℕ → ℕ) × Bool). t.1 ≡ true) (λ k t. see_device m k t) wired_max_dev 0
      wired_max_dev (modes, true) refl (λ k (d, r) _ _ e. ground arith) refl

-- What the loop has seen of device `i`, which has changed.
abbrev ChangedBefore : ℕ → (ℕ → ℕ) → ℕ → (ℕ → ℕ) × Bool → Type 0
ChangedBefore i modes k t = (i < k → t.1 ≡ true) × (k ≤ i → t.0 i ≡ modes i)

see_device-ChangedBefore :
    (m : Mem) (modes : ℕ → ℕ) (i k : ℕ) (d : ℕ → ℕ) (r : Bool)
    → modes i ≢ m (dev_mode i)
    → ChangedBefore i modes k (d, r)
    → ChangedBefore i modes (k + 1) (see_device m k (d, r))
unfolding see_device
see_device-ChangedBefore m modes i k d r ne (g, e) = (
  (λ lt. elim (dec_lt i k) [
    | yes p ↦ let set = g p in ground arith
    | no p ↦ let same : k ≡ i = omega arith in let old = e (omega arith) in rw same (ground arith)
  ]),
  λ le. let old = e (omega arith) in ground arith,
)

see_devices-changed :
    (m : Mem) (modes : ℕ → ℕ) (ret : Bool) (i : ℕ)
    → i < wired_max_dev
    → modes i ≢ m (dev_mode i)
    → (see_devices m modes ret).1 ≡ true
unfolding see_devices
see_devices-changed m modes ret i lt ne =
    let (h, _) =
      for_range_inv (ChangedBefore i modes) (λ k t. see_device m k t) wired_max_dev 0 wired_max_dev
        (modes, ret) refl (λ k (d, r) _ _ c. see_device-ChangedBefore m modes i k d r ne c)
        ((λ l. absurd (omega arith)), λ l. refl) in
    h lt

config_is_rst_required-IsSeen : (m : Mem) (s : Seen) → IsSeen m (config_is_rst_required m s).0
unfolding config_is_rst_required
config_is_rst_required-IsSeen m s = (
  refl,
  refl,
  λ i lt. see_devices-modes m s.dev_mode (not (s.multitap_cfg == m multitap_cfg)) i lt,
)

reset-eq :
    (m : Mem) (s : Seen)
    → (config_is_rst_required m s).1 ≡ (
        if s.magic == magic m
        then (see_devices m s.dev_mode (not (s.multitap_cfg == m multitap_cfg))).1
        else false)
unfolding config_is_rst_required
reset-eq m s = refl

-- After a call, whatever the static variables were, they hold what was seen of the configuration. A
-- reset is not wanted when nothing has changed since the last call, nor when the magic number has; with
-- the same magic number it is wanted when the multitap setting or the mode of an output has changed.
pub config_is_rst_required_lem :
    (m : Mem) (s : Seen)
    → IsSeen m (config_is_rst_required m s).0
      × (IsSeen m s → (config_is_rst_required m s).1 ≡ false)
      × (s.magic ≢ magic m → (config_is_rst_required m s).1 ≡ false)
      × (s.magic ≡ magic m
          → s.multitap_cfg ≢ m multitap_cfg
          → (config_is_rst_required m s).1 ≡ true)
      × ((i : ℕ)
          → s.magic ≡ magic m
          → i < wired_max_dev
          → s.dev_mode i ≢ m (dev_mode i)
          → (config_is_rst_required m s).1 ≡ true)
config_is_rst_required_lem m s = (
  config_is_rst_required-IsSeen m s,
  (λ (e, tap, modes).
      let clear : not (s.multitap_cfg == m multitap_cfg) ≡ false = ground arith in
      let same =
        ap (λ b. (see_devices m s.dev_mode b).1) clear ∙ see_devices-same m s.dev_mode modes in
      reset-eq m s ∙ ground arith),
  (λ ne. reset-eq m s ∙ ground arith),
  (λ e ne.
      let set : not (s.multitap_cfg == m multitap_cfg) ≡ true = ground arith in
      let wanted = ap (λ b. (see_devices m s.dev_mode b).1) set ∙ see_devices-wanted m s.dev_mode in
      reset-eq m s ∙ ground arith),
  λ i e lt ne.
      let wanted =
        see_devices-changed m s.dev_mode (not (s.multitap_cfg == m multitap_cfg)) i lt ne in
      reset-eq m s ∙ ground arith,
)
