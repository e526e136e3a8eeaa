-- ===== src/Queue/Slots.antt =====
-- Which buffer is where: free, in the queue, or held by the reader. A buffer is in one place at a time,
-- so that a write into a free one changes no other.
use native.Mathlib.Nat.{mul-le-mul_right}
use native.Mathlib.Decide.{dec_lt}
use blue_retro_forever.Prelude.{
  ℕ, zero, suc, ap, update_self, update_ne, ◌+◌, ◌*◌, ◌≤◌, ◌<◌, ◌≡◌, ◌≢◌, refl, ap₂, List, [], ◌∷◌,
  ◌++◌, map, arith, ◌==◌, if◌then◌else◌, update, length, get_elem?, some, none,
}
use blue_retro_forever.Queue.Ring.{Slot}
use blue_retro_forever.Queue.Bss.{memcpy}

-- The `n` bytes from `off` on.
unfoldable pub slice : (ℕ → ℕ) → ℕ → ℕ → List ℕ
slice mem off zero = []
slice mem off (suc n) = mem off ∷ slice mem (off + 1) n

pub slice-cong :
    (m m' : ℕ → ℕ) (off off' n : ℕ)
    → ((j : ℕ) → j < n → m (off + j) ≡ m' (off' + j))
    → slice m off n ≡ slice m' off' n
unfolding slice
slice-cong m m' off off' zero h = refl
slice-cong m m' off off' (suc n) h =
    ap₂ ◌∷◌ (ground (arith, h 0))
      (slice-cong m m' (off + 1) (off' + 1) n (λ j lt. ground (arith, h (suc j))))

pub slice-memcpy :
    (mem item : ℕ → ℕ) (off n : ℕ) → slice (memcpy mem off item n) off n ≡ slice item 0 n
unfolding memcpy
slice-memcpy mem item off n = slice-cong (memcpy mem off item n) item off 0 n (λ j lt. ground arith)

-- Slots of `max` bytes each do not overlap.
slots_apart : (k k' max : ℕ) → k < k' → k * max + max ≤ k' * max
slots_apart k k' max lt = omega (arith, mul-le-mul_right max lt)

-- What the reader of a slot sees.
abbrev pub read : (ℕ → ℕ) → (ℕ → ℕ) → Slot → List ℕ
read mem lens e = slice mem e.value (lens e.key)

abbrev pub occurrences : ℕ → List Slot → ℕ
occurrences k [] = 0
occurrences k (e ∷ es) = (if e.key == k then 1 else 0) + occurrences k es

-- Each slot starts at its own place and says a length that it has room for.
abbrev pub AllFit : (ℕ → ℕ) → ℕ → List Slot → Type 0
AllFit lens max [] = Unit
AllFit lens max (e ∷ es) = (e.value ≡ e.key * max) × (lens e.key ≤ max) × AllFit lens max es

pub AllFit-append :
    (lens : ℕ → ℕ) (max : ℕ) (xs ys : List Slot)
    → AllFit lens max xs
    → AllFit lens max ys
    → AllFit lens max (xs ++ ys)
AllFit-append lens max [] ys p q = q
AllFit-append lens max (e ∷ xs) ys p q = (p.0, p.1, AllFit-append lens max xs ys p.2 q)

-- A length that fits may be written into any slot.
pub AllFit-update :
    (lens : ℕ → ℕ) (max : ℕ) (k n : ℕ) (es : List Slot)
    → n ≤ max
    → AllFit lens max es
    → AllFit (update lens k n) max es
AllFit-update lens max k n [] le p = tt
AllFit-update lens max k n (e ∷ es) le p = (p.0, ground arith, AllFit-update lens max k n es le p.2)

pub occurrences-append :
    (k : ℕ) (xs ys : List Slot) → occurrences k (xs ++ ys) ≡ occurrences k xs + occurrences k ys
occurrences-append k [] ys = omega arith
occurrences-append k (e ∷ xs) ys = omega (arith, occurrences-append k xs ys)

-- A write into one slot leaves the bytes of another.
slice-memcpy_apart :
    (mem item : ℕ → ℕ) (k k' max n n' : ℕ)
    → k ≢ k'
    → n ≤ max
    → n' ≤ max
    → slice (memcpy mem (k * max) item n) (k' * max) n' ≡ slice mem (k' * max) n'
unfolding memcpy
slice-memcpy_apart mem item k k' max n n' ne le le' =
    slice-cong (memcpy mem (k * max) item n) mem (k' * max) (k' * max) n' (λ j lt.
      elim (dec_lt k k') [
        | yes below ↦ ground (arith, slots_apart k k' max below)
        | no above ↦ ground (arith, slots_apart k' k max (omega arith))
      ])

-- The items of slots other than `k` outlast a write into the slot `k`.
pub reads-write :
    (mem item lens : ℕ → ℕ) (k max n : ℕ) (es : List Slot)
    → n ≤ max
    → AllFit lens max es
    → occurrences k es ≡ 0
    → map (read (memcpy mem (k * max) item n) (update lens k n)) es ≡ map (read mem lens) es
reads-write mem item lens k max n [] le fit none_here = refl
reads-write mem item lens k max n (e ∷ es) le fit none_here =
    ap₂ ◌∷◌ same (reads-write mem item lens k max n es le fit.2 (ground arith))
  where
    ne : k ≢ e.key
    ne = ground arith

    same : read (memcpy mem (k * max) item n) (update lens k n) e ≡ read mem lens e
    same =
        rw (fit.0, update_ne lens k e.key n ne)
          (slice-memcpy_apart mem item k e.key max n (lens e.key) ne le fit.1)

-- The slot itself then reads as what was written.
pub read-write :
    (mem item lens : ℕ → ℕ) (n : ℕ) (e : Slot)
    → read (memcpy mem e.value item n) (update lens e.key n) e ≡ slice item 0 n
read-write mem item lens n e = rw (update_self lens e.key n) (slice-memcpy mem item e.value n)

abbrev pub remove {ℓ} : {A : Type ℓ} → ℕ → List A → List A
remove i [] = []
remove zero (x ∷ xs) = xs
remove (suc i) (x ∷ xs) = x ∷ remove i xs

-- Taking an element out leaves the others.
pub occurrences-remove :
    (k i : ℕ) (es : List Slot) {e : Slot}
    → get_elem? es i ≡ some e
    → occurrences k es ≡ (if e.key == k then 1 else 0) + occurrences k (remove i es)
occurrences-remove k i [] h = cc
occurrences-remove k zero (x ∷ es) h = ground arith
occurrences-remove k (suc i) (x ∷ es) h = omega (arith, occurrences-remove k i es h)

pub length-remove {ℓ} :
    {A : Type ℓ} (i : ℕ) (xs : List A) {x : A}
    → get_elem? xs i ≡ some x
    → length xs ≡ suc (length (remove i xs))
length-remove i [] h = cc
length-remove zero (x ∷ xs) h = refl
length-remove (suc i) (x ∷ xs) h = ap suc (length-remove i xs h)

pub AllFit-remove :
    (lens : ℕ → ℕ) (max i : ℕ) (es : List Slot) → AllFit lens max es → AllFit lens max (remove i es)
AllFit-remove lens max i [] p = tt
AllFit-remove lens max zero (x ∷ es) p = p.2
AllFit-remove lens max (suc i) (x ∷ es) p = (p.0, p.1, AllFit-remove lens max i es p.2)

pub AllFit-get :
    (lens : ℕ → ℕ) (max i : ℕ) (es : List Slot) {e : Slot}
    → get_elem? es i ≡ some e
    → AllFit lens max es
    → (e.value ≡ e.key * max) × (lens e.key ≤ max)
AllFit-get lens max i [] h p = cc
AllFit-get lens max zero (x ∷ es) h p = ground arith
AllFit-get lens max (suc i) (x ∷ es) h p = AllFit-get lens max i es h p.2

module _ {ℓ κ} {A : Type ℓ} {B : Type κ} (f : A → B) where
  pub map-remove : (i : ℕ) (xs : List A) → map f (remove i xs) ≡ remove i (map f xs)
  map-remove i [] = refl
  map-remove zero (x ∷ xs) = refl
  map-remove (suc i) (x ∷ xs) = ap (λ (l : List B). f x ∷ l) (map-remove i xs)

  pub get_elem?-map-some :
      (i : ℕ) (xs : List A) {x : A} → get_elem? xs i ≡ some x → get_elem? (map f xs) i ≡ some (f x)
  get_elem?-map-some i [] h = cc
  get_elem?-map-some zero (x ∷ xs) h = cc
  get_elem?-map-some (suc i) (x ∷ xs) h = get_elem?-map-some i xs h

  pub get_elem?-map-none :
      (i : ℕ) (xs : List A) → get_elem? xs i ≡ none → get_elem? (map f xs) i ≡ none
  get_elem?-map-none i [] h = refl
  get_elem?-map-none zero (x ∷ xs) h = cc
  get_elem?-map-none (suc i) (x ∷ xs) h = get_elem?-map-none i xs h
