-- ===== src/Adapter/HidParser/Disjoint.antt =====
-- The two tables of usages do not overlap.
use blue_retro_forever.Prelude.{ℕ, Bool, true, false, not, ◌≡◌, refl, ◌&&◌, List, [], ◌∷◌, arith}
use blue_retro_forever.Adapter.HidParser.Usage.{one_of, hid_usage_is_collection, hid_usage_is_used}

-- No entry of the first list stands in the second.
apart : List ℕ → List ℕ → Bool
apart [] ys = true
apart (x ∷ xs) ys = not (one_of ys x) && apart xs ys

one_of-apart :
    (xs ys : List ℕ) (n : ℕ) → apart xs ys ≡ true → one_of xs n ≡ true → one_of ys n ≡ false
unfolding apart one_of
one_of-apart [] ys n a h = cc
one_of-apart (x ∷ xs) ys n a h = ground (arith, one_of-apart xs ys n)

desktop :
    (n : ℕ)
    → one_of (0x01 ∷ 0x02 ∷ 0x04 ∷ 0x05 ∷ 0x06 ∷ 0x07 ∷ 0x08 ∷ 0x09 ∷ 0x3a ∷ 0x80 ∷ []) n ≡ true
    → one_of (0x30 ∷ 0x31 ∷ 0x32 ∷ 0x33 ∷ 0x34 ∷ 0x35 ∷ 0x36 ∷ 0x37 ∷ 0x38 ∷ 0x39 ∷ 0x85 ∷ []) n
      ≡ false
unfolding apart one_of
desktop n =
    one_of-apart (0x01 ∷ 0x02 ∷ 0x04 ∷ 0x05 ∷ 0x06 ∷ 0x07 ∷ 0x08 ∷ 0x09 ∷ 0x3a ∷ 0x80 ∷ [])
      (0x30 ∷ 0x31 ∷ 0x32 ∷ 0x33 ∷ 0x34 ∷ 0x35 ∷ 0x36 ∷ 0x37 ∷ 0x38 ∷ 0x39 ∷ 0x85 ∷ []) n refl

simulation :
    (n : ℕ)
    → one_of
        (0x01 ∷ 0x02 ∷ 0x03 ∷ 0x04 ∷ 0x05 ∷ 0x06 ∷ 0x07 ∷ 0x08 ∷ 0x09 ∷ 0x0a ∷ 0x0b ∷ 0x0c ∷ 0x20
          ∷ 0x21 ∷ 0x22 ∷ 0x23 ∷ 0x24 ∷ 0x25 ∷ [])
        n
      ≡ true
    → one_of (0xc4 ∷ 0xc5 ∷ []) n ≡ false
unfolding apart one_of
simulation n =
    one_of-apart
      (0x01 ∷ 0x02 ∷ 0x03 ∷ 0x04 ∷ 0x05 ∷ 0x06 ∷ 0x07 ∷ 0x08 ∷ 0x09 ∷ 0x0a ∷ 0x0b ∷ 0x0c ∷ 0x20
        ∷ 0x21 ∷ 0x22 ∷ 0x23 ∷ 0x24 ∷ 0x25 ∷ [])
      (0xc4 ∷ 0xc5 ∷ []) n refl

consumer :
    (n : ℕ)
    → one_of (0x01 ∷ 0x02 ∷ 0x03 ∷ 0x04 ∷ 0x05 ∷ 0x06 ∷ 0x36 ∷ 0x80 ∷ 0x87 ∷ 0xba ∷ 0xf1 ∷ []) n
      ≡ true
    → one_of (0x40 ∷ 0xb2 ∷ 0x223 ∷ 0x224 ∷ []) n ≡ false
unfolding apart one_of
consumer n =
    one_of-apart (0x01 ∷ 0x02 ∷ 0x03 ∷ 0x04 ∷ 0x05 ∷ 0x06 ∷ 0x36 ∷ 0x80 ∷ 0x87 ∷ 0xba ∷ 0xf1 ∷ [])
      (0x40 ∷ 0xb2 ∷ 0x223 ∷ 0x224 ∷ []) n refl

physical :
    (n : ℕ)
    → one_of
        (0x01 ∷ 0x21 ∷ 0x25 ∷ 0x57 ∷ 0x58 ∷ 0x59 ∷ 0x5a ∷ 0x5f ∷ 0x66 ∷ 0x68 ∷ 0x6b ∷ 0x6e ∷ 0x73
          ∷ 0x74 ∷ 0x77 ∷ 0x78 ∷ 0x7d ∷ 0x7f ∷ 0x85 ∷ 0x89 ∷ 0x8b ∷ 0x90 ∷ 0x91 ∷ 0x92 ∷ 0x95 ∷ 0x96
          ∷ 0xa8 ∷ 0xab ∷ [])
        n
      ≡ true
    → one_of (0x50 ∷ 0x97 ∷ 0x70 ∷ 0x7c ∷ 0xa7 ∷ []) n ≡ false
unfolding apart one_of
physical n =
    one_of-apart
      (0x01 ∷ 0x21 ∷ 0x25 ∷ 0x57 ∷ 0x58 ∷ 0x59 ∷ 0x5a ∷ 0x5f ∷ 0x66 ∷ 0x68 ∷ 0x6b ∷ 0x6e ∷ 0x73
        ∷ 0x74 ∷ 0x77 ∷ 0x78 ∷ 0x7d ∷ 0x7f ∷ 0x85 ∷ 0x89 ∷ 0x8b ∷ 0x90 ∷ 0x91 ∷ 0x92 ∷ 0x95 ∷ 0x96
        ∷ 0xa8 ∷ 0xab ∷ [])
      (0x50 ∷ 0x97 ∷ 0x70 ∷ 0x7c ∷ 0xa7 ∷ []) n refl

-- A usage that is dropped as the name of a collection is never one that the adapter reads.
pub is_collection-not_used :
    (page usage : ℕ)
    → hid_usage_is_collection page usage ≡ true
    → hid_usage_is_used page usage ≡ false
unfolding hid_usage_is_collection hid_usage_is_used
is_collection-not_used page usage h =
    ground (arith, desktop usage, simulation usage, consumer usage, physical usage)
