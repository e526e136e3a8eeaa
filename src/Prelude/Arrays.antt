-- ===== src/Prelude/Arrays.antt =====
-- Memory as a function from addresses, and loops that fill it.
use Prim.Native.Nat.{ℕ, zero, suc, ◌+◌, ◌-◌, ◌≤◌, ◌<◌}
use mathlib.Core.Path.{◌≡◌, refl}
use mathlib.Core.Logic.{◌≢◌}
use native.Mathlib.Omega.{arith}
use blue_retro_forever.Prelude.Tests.{◌==◌, ltb, leb, if◌then◌else◌}
use mathlib.Core.Bool.{◌&&◌}

-- `f[i] = v`
abbrev pub update {ℓ} : {A : Type ℓ} → (ℕ → A) → ℕ → A → ℕ → A
update f i v j = if j == i then v else f j

pub update_self {ℓ} : {A : Type ℓ} (f : ℕ → A) (i : ℕ) (v : A) → update f i v i ≡ v
update_self f i v = ground arith

pub update_ne {ℓ} : {A : Type ℓ} (f : ℕ → A) (i j : ℕ) (v : A) → i ≢ j → update f i v j ≡ f j
update_ne f i j v h = ground arith

-- `memmove(m + dst, m + src, n)`: the source is read before anything is written.
unfoldable pub memmove {ℓ} : {A : Type ℓ} → (ℕ → A) → ℕ → ℕ → ℕ → ℕ → A
memmove m dst src n j = if leb dst j && ltb j (dst + n) then m (j - dst + src) else m j

-- `for (k = first; k < first + count; k++) state = round k state`
unfoldable pub for_range {ℓ} : {S : Type ℓ} → ℕ → ℕ → (ℕ → S → S) → S → S
for_range zero first round state = state
for_range (suc count) first round state = for_range count (first + 1) round (round first state)

-- An invariant that each round carries from `k` to `k + 1` holds at the end.
pub for_range_inv {ℓ κ} :
    {S : Type ℓ} (Inv : ℕ → S → Type κ) (round : ℕ → S → S) (count first last : ℕ) (state : S)
    → first + count ≡ last
    → ((k : ℕ) (t : S) → first ≤ k → k < last → Inv k t → Inv (k + 1) (round k t))
    → Inv first state
    → Inv last (for_range count first round state)
unfolding for_range
for_range_inv Inv round zero first last state ends carry start =
    let at_end : first ≡ last = omega arith in rw (← at_end) start
for_range_inv Inv round (suc count) first last state ends carry start =
    for_range_inv Inv round count (first + 1) last (round first state) (omega arith)
      (λ k t from to. carry k t (omega arith) to)
      (carry first state (omega arith) (omega arith) start)

pub for_range_first {ℓ} :
    {S : Type ℓ} (n i : ℕ) (body : ℕ → S → S) (s : S)
    → for_range (suc n) i body s ≡ for_range n (i + 1) body (body i s)
unfolding for_range
for_range_first n i body s = refl
