-- ===== src/Adapter/MemoryCard/Spread.antt =====
-- A round of the timer of memory_card.c stores one marked block.
use blue_retro_forever.Prelude.{
  ℕ, ◌+◌, ◌-◌, ◌≡◌, ◌≢◌, refl, sym, ap, ◌∙◌, inl, inr, Bool, true, false, Option, none, some, arith,
  test_bit, test_bit-clear_bit, clear_bit, if◌then◌else◌, Bool-cases,
}
use blue_retro_forever.Adapter.MemoryCard.Card.{
  Card, Env, absent, running, opened, mc_start_update_timer, ffs, write_block, store_block,
  store_found, store_open, mc_store_spread,
}
use blue_retro_forever.Adapter.MemoryCard.Dirty.{IsSynced, file_byte}

-- What storing the block `b` of a file does when the block can be written.
pub record IsStored (b : ℕ) (f : ℕ × (ℕ → ℕ → ℕ)) (c t : Card) : Type 0 where
  pub stored : t.file ≡ some (write_block b (c.buffer b) f)
  pub unmarked : t.state ≡ clear_bit c.state b
  pub same_buffer : t.buffer ≡ c.buffer
  pub balanced : t.handles ≡ c.handles - 1
  pub again : (c.timer ≢ absent) → clear_bit c.state b ≢ 0 → t.timer ≡ running 20000
  pub still : t.timer ≡ absent → c.timer ≡ absent

pub store_block-IsStored :
    (env : Env) (b : ℕ) (f : ℕ × (ℕ → ℕ → ℕ)) (c : Card)
    → env.writes b ≡ true
    → IsStored b f c (store_block env b f c).0
unfolding store_block mc_start_update_timer
store_block-IsStored env b f c w = record {
  stored = ground arith;
  unmarked = ground arith;
  same_buffer = ground arith;
  balanced = ground arith;
  again = λ h g. grind arith;
  still = λ h. grind arith;
}

write_block-byte :
    (b i j : ℕ) (block : ℕ → ℕ) (f : ℕ × (ℕ → ℕ → ℕ)) (v : ℕ)
    → (i ≢ b → file_byte (some f) i j ≡ some v)
    → (i ≡ b → v ≡ block j)
    → file_byte (some (write_block b block f)) i j ≡ some v
write_block-byte b i j block f v other self = grind arith

-- A block that is stored is in the file and is not marked any more, and no other block is touched.
stored-IsSynced :
    (b : ℕ) (f : ℕ × (ℕ → ℕ → ℕ)) (c t : Card)
    → c.file ≡ some f
    → IsStored b f c t
    → IsSynced c
    → IsSynced t
stored-IsSynced b f c t e h synced i j lt clear =
    ap (λ g. file_byte g i j) h.stored
    ∙ write_block-byte b i j (c.buffer b) f (c.buffer i j)
        (λ ne. ap (λ g. file_byte g i j) (sym e) ∙ synced i j lt (old ne))
        (λ same. ap (λ k. c.buffer k j) same)
    ∙ ap (λ (g : ℕ → ℕ → ℕ). some (g i j)) (sym h.same_buffer)
  where
    old : i ≢ b → test_bit c.state i ≡ false
    old ne =
        let now = ap (λ x. test_bit x i) (sym h.unmarked) ∙ clear in
        ground (arith, test_bit-clear_bit c.state b i (omega arith))

-- What the marks are about.
record IsSame (c t : Card) : Type 0 where
  pub file : t.file ≡ c.file
  pub state : t.state ≡ c.state
  pub buffer : t.buffer ≡ c.buffer

same-IsSynced : (c t : Card) → IsSame c t → IsSynced c → IsSynced t
same-IsSynced c t s h i j lt clear =
    ap (λ g. file_byte g i j) s.file
    ∙ h i j lt (ap (λ x. test_bit x i) (sym s.state) ∙ clear)
    ∙ ap (λ (g : ℕ → ℕ → ℕ). some (g i j)) (sym s.buffer)

-- A block that cannot be written stays marked, and the file stays as it is.
store_block-IsSame :
    (env : Env) (b : ℕ) (f : ℕ × (ℕ → ℕ → ℕ)) (c : Card)
    → env.writes b ≡ false
    → IsSame c (store_block env b f c).0
unfolding store_block mc_start_update_timer
store_block-IsSame env b f c w = record {
  file = ground arith;
  state = ground arith;
  buffer = ground arith;
}

store_found-IsSynced :
    (env : Env) (f : ℕ × (ℕ → ℕ → ℕ)) (o : Option ℕ) (c : Card)
    → c.file ≡ some f
    → IsSynced c
    → IsSynced (store_found env f o c).0
store_found-IsSynced env f none c e h = h
store_found-IsSynced env f (some b) c e h = elim (Bool-cases (env.writes b)) [
  | inl w ↦ stored-IsSynced b f c (store_block env b f c).0 e (store_block-IsStored env b f c w) h
  | inr w ↦ same-IsSynced c (store_block env b f c).0 (store_block-IsSame env b f c w) h
]

if-IsSynced :
    (b : Bool) (r t : Card × Bool) → IsSynced r.0 → IsSynced t.0 → IsSynced (if b then r else t).0
if-IsSynced true r t h g = h
if-IsSynced false r t h g = g

store_open-IsSynced :
    (env : Env) (o : Option (ℕ × (ℕ → ℕ → ℕ))) (c : Card)
    → c.file ≡ o
    → IsSynced c
    → IsSynced (store_open env o c).0
store_open-IsSynced env none c e h = h
store_open-IsSynced env (some f) c e h =
    if-IsSynced env.opens (store_found env f (ffs 32 0 c.state) (opened c)) (c, false)
      (store_found-IsSynced env f (ffs 32 0 c.state) (opened c) e h) h

mc_store_spread-eq : (env : Env) (c : Card) → mc_store_spread env c ≡ store_open env c.file c
unfolding mc_store_spread
mc_store_spread-eq env c = refl

-- If the file has every block that is not marked, it still does after a round of the timer, whether or
-- not the file opens and the block can be written.
pub mc_store_spread-IsSynced :
    (env : Env) (c : Card) → IsSynced c → IsSynced (mc_store_spread env c).0
mc_store_spread-IsSynced env c h =
    rw (mc_store_spread-eq env c) (store_open-IsSynced env c.file c refl h)

store_block-handles :
    (env : Env) (b : ℕ) (f : ℕ × (ℕ → ℕ → ℕ)) (c : Card)
    → (store_block env b f c).0.handles ≡ c.handles - 1
unfolding store_block mc_start_update_timer
store_block-handles env b f c = ground arith

-- One handle more where no block was found.
abbrev pub handles_after : Option ℕ → ℕ → ℕ
handles_after none n = n + 1
handles_after (some b) n = n

store_found-handles :
    (env : Env) (f : ℕ × (ℕ → ℕ → ℕ)) (o : Option ℕ) (c : Card)
    → (store_found env f o (opened c)).0.handles ≡ handles_after o c.handles
store_found-handles env f none c = refl
store_found-handles env f (some b) c = store_block-handles env b f (opened c) ∙ omega arith

-- The round where the file opens.
pub spread-found :
    (env : Env) (c : Card) (f : ℕ × (ℕ → ℕ → ℕ))
    → c.file ≡ some f
    → env.opens ≡ true
    → mc_store_spread env c ≡ store_found env f (ffs 32 0 c.state) (opened c)
spread-found env c f e o =
    mc_store_spread-eq env c
    ∙ ap (λ g. store_open env g c) e
    ∙ ap
        (λ b.
          if◌then◌else◌ {A = Card × Bool} b (store_found env f (ffs 32 0 c.state) (opened c))
            (c, false))
        o

-- A round of the timer with a file that opens leaves one more file handle open when no block is marked,
-- and otherwise as many as before.
pub mc_store_spread-handles :
    (env : Env) (c : Card) (f : ℕ × (ℕ → ℕ → ℕ))
    → c.file ≡ some f
    → env.opens ≡ true
    → (mc_store_spread env c).0.handles ≡ handles_after (ffs 32 0 c.state) c.handles
mc_store_spread-handles env c f e o =
    ap (λ (r : Card × Bool). r.0.handles) (spread-found env c f e o)
    ∙ store_found-handles env f (ffs 32 0 c.state) c
