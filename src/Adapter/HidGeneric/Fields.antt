-- ===== src/Adapter/HidGeneric/Fields.antt =====
-- A field of a report: the word at its first byte, shifted and masked (main/adapter/wireless/hid_generic.c,
-- the same expression in each function).
use blue_retro_forever.Prelude.{ℕ, ◌+◌, ◌-◌, ◌*◌, ◌/◌, ◌%◌, ◌^◌, u32, bit_and}
use blue_retro_forever.Adapter.HidParser.Types.{HidUsage}

-- `*(uint32_t *)(input + o)`
unfoldable pub word_at : (ℕ → ℕ) → ℕ → ℕ
word_at input o = input o + 2 ^ 8 * input (o + 1) + 2 ^ 16 * input (o + 2) + 2 ^ 24 * input (o + 3)

-- `(1ULL << len) - 1`, as an `uint32_t`
unfoldable pub field_mask : ℕ → ℕ
field_mask len = u32 (2 ^ len - 1)

unfoldable pub field_bits : (ℕ → ℕ) → ℕ → ℕ → ℕ
unfolding word_at field_mask
field_bits input len offset =
    bit_and (word_at input (offset / 8) / 2 ^ (offset % 8)) (field_mask len)

unfoldable pub field : (ℕ → ℕ) → HidUsage → ℕ
unfolding field_bits
field input u = field_bits input u.bit_size u.bit_offset
