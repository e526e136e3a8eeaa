-- ===== src/Adapter/Wired/N64/KeyCodes.antt =====
-- The codes that an N64 keyboard sends (main/adapter/wired/n64.c).
use blue_retro_forever.Prelude.{
  ℕ, zero, suc, ◌+◌, ◌*◌, ◌^◌, ◌/◌, u8, ◌<◌, ◌≡◌, refl, sym, ap, ◌∙◌, Bool, true, false, not, ◌&&◌,
  arith, List, [], ◌∷◌, ◌++◌, get_or, length, length-append, ltb, ltb→lt, ◌≤◌, subst, ◌==◌,
  if◌then◌else◌, for_range_inv, update, all_below, all_below_sound,
}
use blue_retro_forever.Adapter.Ids.{kbm_max}
use blue_retro_forever.Adapter.KbIds.{kb_home}
use blue_retro_forever.Adapter.Mapping.Types.{WiredCtrl}
use blue_retro_forever.Adapter.Wired.Types.{load16, store16}
use blue_retro_forever.Adapter.Wired.N64.Tables.{n64_kb_scancode}
use blue_retro_forever.Adapter.Wired.N64.Others.{
  Codes, key_down, code_round, kb_codes, n64_kb_from_generic,
}

-- The key `i` is down and has a code.
abbrev pub sends : WiredCtrl → ℕ → Bool
sends ctrl i = key_down ctrl i && not (n64_kb_scancode i == 0)

-- The codes of the keys below `n` that are down, in the order of the keys.
unfoldable pub codes_below : WiredCtrl → ℕ → List ℕ
codes_below ctrl zero = []
codes_below ctrl (suc n) =
    codes_below ctrl n ++ (if sends ctrl n then n64_kb_scancode n ∷ [] else [])

get_or-append :
    (xs : List ℕ) (c j : ℕ)
    → get_or (xs ++ c ∷ []) j 0 ≡ (if j == length xs then c else get_or xs j 0)
get_or-append [] c zero = refl
get_or-append [] c (suc j) = ground arith
get_or-append (x ∷ xs) c zero = ground arith
get_or-append (x ∷ xs) c (suc j) = ground (arith, get_or-append xs c j)

append-nil : (xs : List ℕ) → xs ++ [] ≡ xs
append-nil [] = refl
append-nil (x ∷ xs) = ap (λ ys. x ∷ ys) (append-nil xs)

record Kept (xs : List ℕ) (s : Codes) : Type 0 where
  counted : s.code_idx ≡ (if ltb (length xs) 3 then length xs else 3)
  placed : (j : ℕ) → j < 3 → s.key_codes j ≡ get_or xs j 0

push :
    (xs : List ℕ) (c : ℕ) (s : Codes) (down : Bool)
    → Kept xs s
    → Kept (xs ++ (if down then c ∷ [] else [])) (
        if ltb s.code_idx 3 && down
        then record { key_codes = update s.key_codes s.code_idx c; code_idx = s.code_idx + 1 }
        else s)
push xs c s false k = record {
  counted = ground (arith, k.counted, ap length (append-nil xs));
  placed = λ j lt. ground (arith, k.placed j lt, ap (λ ys. get_or ys j 0) (append-nil xs));
}
push xs c s true k = record {
  counted = ground (arith, k.counted, length-append xs (c ∷ []));
  placed = λ j lt. ground (arith, k.counted, k.placed j lt, get_or-append xs c j);
}

round_is :
    (ctrl : WiredCtrl) (i : ℕ) (s : Codes)
    → code_round ctrl i s ≡ (
        if ltb s.code_idx 3 && sends ctrl i
        then record {
          key_codes = update s.key_codes s.code_idx (n64_kb_scancode i);
          code_idx = s.code_idx + 1;
        }
        else s)
unfolding code_round
round_is ctrl i s =
    let put : Codes = record {
      key_codes = update s.key_codes s.code_idx (n64_kb_scancode i);
      code_idx = s.code_idx + 1;
    } in
    ap (λ b. if b then put else s)
      (grouped (ltb s.code_idx 3) (key_down ctrl i) (not (n64_kb_scancode i == 0)))
  where
    grouped : (a b c : Bool) → ((a && b) && c) ≡ (a && (b && c))
    grouped a b c = ground arith

kb_codes-Kept : (ctrl : WiredCtrl) → Kept (codes_below ctrl kbm_max) (kb_codes ctrl)
unfolding kb_codes codes_below
kb_codes-Kept ctrl =
    for_range_inv (λ i s. Kept (codes_below ctrl i) s) (code_round ctrl) kbm_max 0 kbm_max
      (record { key_codes = λ i. 0; code_idx = 0 }) refl
      (λ i s _ _ k.
        let e : i + 1 ≡ suc i = omega arith in
        subst (λ n. Kept (codes_below ctrl n) (code_round ctrl i s)) (sym e)
          (subst
            (λ t.
              Kept (codes_below ctrl i ++ (if sends ctrl i then n64_kb_scancode i ∷ [] else [])) t)
            (sym (round_is ctrl i s))
            (push (codes_below ctrl i) (n64_kb_scancode i) s (sends ctrl i) k)))
      (record { counted = refl; placed = λ j lt. refl })

small_table : all_below kbm_max (λ i. ltb (n64_kb_scancode i) (2 ^ 16)) ≡ true
unfolding all_below n64_kb_scancode
small_table = refl

scancode_small : (i : ℕ) → i < kbm_max → n64_kb_scancode i < 2 ^ 16
scancode_small i lt =
    ltb→lt (n64_kb_scancode i) (2 ^ 16)
      (all_below_sound kbm_max (λ j. ltb (n64_kb_scancode j) (2 ^ 16)) i small_table lt)

small_push :
    (xs : List ℕ) (c j : ℕ)
    → c < 2 ^ 16
    → get_or xs j 0 < 2 ^ 16
    → get_or (xs ++ c ∷ []) j 0 < 2 ^ 16
small_push xs c j lt h = ground (arith, get_or-append xs c j)

small_if :
    (xs : List ℕ) (c j : ℕ) (down : Bool)
    → c < 2 ^ 16
    → get_or xs j 0 < 2 ^ 16
    → get_or (xs ++ (if down then c ∷ [] else [])) j 0 < 2 ^ 16
small_if xs c j true lt h = small_push xs c j lt h
small_if xs c j false lt h = omega (arith, ap (λ ys. get_or ys j 0) (append-nil xs))

codes_small : (ctrl : WiredCtrl) (n j : ℕ) → n ≤ kbm_max → get_or (codes_below ctrl n) j 0 < 2 ^ 16
unfolding codes_below
codes_small ctrl zero j le = omega arith
codes_small ctrl (suc n) j le =
    small_if (codes_below ctrl n) (n64_kb_scancode n) j (sends ctrl n)
      (scancode_small n (omega arith)) (codes_small ctrl n j (omega arith))

whole : (v : ℕ) → v < 2 ^ 16 → u8 v + 2 ^ 8 * u8 (v / 2 ^ 8) ≡ v
whole v h = omega arith

stored :
    (codes output : ℕ → ℕ) (home j : ℕ)
    → j < 3
    → codes j < 2 ^ 16
    → load16
        (update (store16 (store16 (store16 output 0 (codes 0)) 2 (codes 1)) 4 (codes 2)) 6 home)
        (2 * j)
      ≡ codes j
stored codes output home zero lt h = whole (codes 0) h
stored codes output home (suc zero) lt h = whole (codes 1) h
stored codes output home (suc (suc zero)) lt h = whole (codes 2) h
stored codes output home (suc (suc (suc j))) lt h = absurd (omega arith)

-- A report of a keyboard sends the codes of the first three keys that are down and have one, in the order of
-- the keys and then zeros, and the bit of the Home key.
pub n64_kb_from_generic_lem :
    (ctrl : WiredCtrl) (output : ℕ → ℕ) (j : ℕ)
    → j < 3
    → (load16 (n64_kb_from_generic ctrl output) (2 * j) ≡ get_or (codes_below ctrl kbm_max) j 0)
      × (n64_kb_from_generic ctrl output 6 ≡ (if key_down ctrl kb_home then 1 else 0))
unfolding n64_kb_from_generic
n64_kb_from_generic_lem ctrl output j lt =
    let k = kb_codes-Kept ctrl in
    let small = codes_small ctrl kbm_max j (omega arith) in
    (
      stored (kb_codes ctrl).key_codes output (if key_down ctrl kb_home then 1 else 0) j lt
            (omega (arith, k.placed j lt, small))
          ∙ k.placed j lt,
      refl,
    )
