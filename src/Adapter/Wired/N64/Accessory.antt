-- ===== src/Adapter/Wired/N64/Accessory.antt =====
-- What a released button does to the accessory and to the bank of an N64 pad
-- (main/adapter/wired/n64.c).
use blue_retro_forever.Prelude.{
  ◌&&◌, not, clear_bit, set_bit, test_bit, zero, suc, ◌++◌, ◌≢◌, update_self, ℕ, ◌+◌, ◌≡◌, refl, ap,
  ◌∙◌, Bool, true, false, arith, List, [], ◌∷◌, if◌then◌else◌, ◌==◌, update,
}
use blue_retro_forever.Adapter.Mapping.Types.{WiredCtrl}
use blue_retro_forever.Adapter.Config.Layout.{acc_mode, banksel}
use blue_retro_forever.Adapter.Wired.Types.{WiredData, acc_mem, acc_rumble}
use blue_retro_forever.Adapter.Wired.N64.Pad.{
  mapped, held, on_release, Toggle, N64, toggle_fb, toggle_accessory, next_bank,
}

-- The accessory of the output `i` and the calls made so far.
abbrev pub accessory : ℕ → N64 → ℕ × List Toggle
accessory i s = (s.config (acc_mode i), s.toggles)

-- The accessory changes `n` times, from memory to rumble and else to memory, each time with a call that is
-- twice as long for the change to rumble.
unfoldable pub switched : ℕ → ℕ → ℕ × List Toggle → ℕ × List Toggle
switched i zero (mode, calls) = (mode, calls)
switched i (suc n) (mode, calls) = switched i n (
  if mode == acc_mem then acc_rumble else acc_mem,
  calls
      ++ record {
        wired_id = i;
        duration_us = if mode == acc_mem then 300_000 else 150_000;
        lf_pwr = 0xff;
        hf_pwr = 0xff;
      }
        ∷ [],
)

pub toggle_accessory-accessory :
    (i : ℕ) (s : N64) → accessory i (toggle_accessory i s) ≡ switched i 1 (accessory i s)
unfolding toggle_accessory switched
toggle_accessory-accessory i s = by_mode (s.config (acc_mode i) == acc_mem)
  where
    by_mode :
        (b : Bool)
        → accessory i (
            if b
            then toggle_fb i 300_000 (record s { config = update s.config (acc_mode i) acc_rumble })
            else toggle_fb i 150_000 (record s { config = update s.config (acc_mode i) acc_mem }))
          ≡ (
            if b then acc_rumble else acc_mem,
            s.toggles
                ++ record {
                  wired_id = i;
                  duration_us = if b then 300_000 else 150_000;
                  lf_pwr = 0xff;
                  hf_pwr = 0xff;
                }
                  ∷ [],
          )
    by_mode true =
        ap (λ m. (m, (toggle_fb i 300_000 s).toggles))
          (update_self s.config (acc_mode i) acc_rumble)
    by_mode false =
        ap (λ m. (m, (toggle_fb i 150_000 s).toggles)) (update_self s.config (acc_mode i) acc_mem)

pub toggle_accessory-others :
    (i a : ℕ) (s : N64) → a ≢ acc_mode i → (toggle_accessory i s).config a ≡ s.config a
unfolding toggle_accessory
toggle_accessory-others i a s other = ground arith

pub next_bank-others : (a : ℕ) (s : N64) → a ≢ banksel → (next_bank s).config a ≡ s.config a
unfolding next_bank
next_bank-others a s other = ground arith

pub next_bank-accessory : (i : ℕ) (s : N64) → accessory i (next_bank s) ≡ accessory i s
unfolding next_bank
next_bank-accessory i s = ap (λ m. (m, s.toggles)) (next_bank-others (acc_mode i) s (omega arith))

pub either {ℓ} : {A : Type ℓ} (b : Bool) {x y z : A} → x ≡ z → y ≡ z → (if b then x else y) ≡ z
either true h g = h
either false h g = g

pub count_one :
    (i : ℕ) (b : Bool) (x y : ℕ × List Toggle)
    → x ≡ switched i 1 y
    → (if b then x else y) ≡ switched i (if b then 1 else 0) y
unfolding switched
count_one i true x y h = h
count_one i false x y h = refl

pub switched-add :
    (i n m : ℕ) (x : ℕ × List Toggle) → switched i (n + m) x ≡ switched i m (switched i n x)
unfolding switched
switched-add i zero m x = let e : 0 + m ≡ m = omega arith in ap (λ k. switched i k x) e
switched-add i (suc n) m x =
    let e : suc n + m ≡ suc (n + m) = omega arith in
    ap (λ k. switched i k x) e ∙ switched-add i n m (switched i 1 x)

pub toggle_accessory-wired : (index : ℕ) (s : N64) → (toggle_accessory index s).wired ≡ s.wired
unfolding toggle_accessory
toggle_accessory-wired index s = ground arith

pub toggle_accessory-bank :
    (index : ℕ) (s : N64) → (toggle_accessory index s).config banksel ≡ s.config banksel
unfolding toggle_accessory
toggle_accessory-bank index s = ground arith

-- The state in which the action of a released button runs.
abbrev pub freed : ℕ → N64 → N64
freed flag s = record s { wired = record s.wired { flags = clear_bit s.wired.flags flag } }

-- What the button of `flag` does to a value of the state that the flags do not reach.
module _ {A : Type 0} (view : N64 → A)
    (blind : (w : WiredData) (s : N64) → view (record s { wired = w }) ≡ view s) where
  pub on_release-view :
      (flag : ℕ) (c : WiredCtrl) (i : ℕ) (action : N64 → N64) (s : N64)
      → view (on_release flag c i action s) ≡ (
          if mapped c i && not (held c i) && test_bit s.wired.flags flag
          then view (action (freed flag s))
          else view s)
  unfolding on_release
  on_release-view flag c i action s = branches (mapped c i) (held c i) (test_bit s.wired.flags flag)
    where
      marked : N64
      marked = record s { wired = record s.wired { flags = set_bit s.wired.flags flag } }

      branches :
          (m h d : Bool)
          → view (
              if m
              then (if h
                  then (if not d then marked else s)
                  else (if d then action (freed flag s) else s))
              else s)
            ≡ (if m && not h && d then view (action (freed flag s)) else view s)
      branches false h d = refl
      branches true true false = blind (record s.wired { flags = set_bit s.wired.flags flag }) s
      branches true true true = refl
      branches true false true = refl
      branches true false false = refl
