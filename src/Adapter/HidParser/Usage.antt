-- ===== src/Adapter/HidParser/Usage.antt =====
-- The tables of hid_parser.c: usages that only open a collection, and usages that the adapter reads.
use blue_retro_forever.Prelude.{ℕ, Bool, true, false, ◌||◌, List, [], ◌∷◌, leb, ◌==◌, if◌then◌else◌}

-- The labels of a `switch` that share a branch.
unfoldable pub one_of : List ℕ → ℕ → Bool
one_of [] n = false
one_of (x ∷ xs) n = n == x || one_of xs n

-- `hid_usage_is_collection`
unfoldable pub hid_usage_is_collection : ℕ → ℕ → Bool
hid_usage_is_collection page usage =
    if page == 0x01
    then one_of (0x01 ∷ 0x02 ∷ 0x04 ∷ 0x05 ∷ 0x06 ∷ 0x07 ∷ 0x08 ∷ 0x09 ∷ 0x3a ∷ 0x80 ∷ []) usage
    else (if page == 0x02
        then one_of
            (0x01 ∷ 0x02 ∷ 0x03 ∷ 0x04 ∷ 0x05 ∷ 0x06 ∷ 0x07 ∷ 0x08 ∷ 0x09 ∷ 0x0a ∷ 0x0b ∷ 0x0c
              ∷ 0x20 ∷ 0x21 ∷ 0x22 ∷ 0x23 ∷ 0x24 ∷ 0x25 ∷ [])
            usage
        else (if page == 0x03
            then one_of (0x01 ∷ 0x02 ∷ 0x03 ∷ 0x04 ∷ 0x05 ∷ 0x06 ∷ 0x07 ∷ 0x08 ∷ 0x09 ∷ 0x0a ∷ [])
                usage
            else (if page == 0x04
                then one_of (0x01 ∷ 0x02 ∷ 0x03 ∷ 0x04 ∷ 0x38 ∷ []) usage
                else (if page == 0x05
                    then one_of (0x01 ∷ 0x02 ∷ 0x03 ∷ 0x20 ∷ 0x32 ∷ 0x37 ∷ 0x39 ∷ []) usage
                    else (if page == 0x0c
                        then one_of
                            (0x01 ∷ 0x02 ∷ 0x03 ∷ 0x04 ∷ 0x05 ∷ 0x06 ∷ 0x36 ∷ 0x80 ∷ 0x87 ∷ 0xba
                              ∷ 0xf1 ∷ [])
                            usage
                        else (if page == 0x0f
                            then one_of
                                (0x01 ∷ 0x21 ∷ 0x25 ∷ 0x57 ∷ 0x58 ∷ 0x59 ∷ 0x5a ∷ 0x5f ∷ 0x66 ∷ 0x68
                                  ∷ 0x6b ∷ 0x6e ∷ 0x73 ∷ 0x74 ∷ 0x77 ∷ 0x78 ∷ 0x7d ∷ 0x7f ∷ 0x85
                                  ∷ 0x89 ∷ 0x8b ∷ 0x90 ∷ 0x91 ∷ 0x92 ∷ 0x95 ∷ 0x96 ∷ 0xa8 ∷ 0xab
                                  ∷ [])
                                usage
                            else (false)))))))

-- `hid_usage_is_used`
unfoldable pub hid_usage_is_used : ℕ → ℕ → Bool
hid_usage_is_used page usage =
    if page == 0x01
    then one_of (0x30 ∷ 0x31 ∷ 0x32 ∷ 0x33 ∷ 0x34 ∷ 0x35 ∷ 0x36 ∷ 0x37 ∷ 0x38 ∷ 0x39 ∷ 0x85 ∷ [])
        usage
    else (if page == 0x02
        then one_of (0xc4 ∷ 0xc5 ∷ []) usage
        else (if page == 0x07
            then true
            else (if page == 0x09
                then leb usage 20
                else (if page == 0x0c
                    then one_of (0x40 ∷ 0xb2 ∷ 0x223 ∷ 0x224 ∷ []) usage
                    else (if page == 0x0f
                        then one_of (0x50 ∷ 0x97 ∷ 0x70 ∷ 0x7c ∷ 0xa7 ∷ []) usage
                        else (false))))))
