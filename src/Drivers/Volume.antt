-- ===== src/Drivers/Volume.antt =====
-- tasxxxx_volume_table.c: the gains of the amplifiers in the binary format 9.23, four bytes each.
use mynd_firmware.Prelude.{ℕ, ◌+◌, ◌-◌, List, [], ◌∷◌, get_or, ltb, if◌then◌else◌}
use mynd_firmware.Prelude.Int.{ℤ, pos, negsuc}

abbrev pub tasxxxx_volume_table : List (List ℕ)
tasxxxx_volume_table =
    (0x00 ∷ 0x00 ∷ 0x00 ∷ 0x00 ∷ [])
    ∷ (0x00 ∷ 0x00 ∷ 0x01 ∷ 0x09 ∷ [])
    ∷ (0x00 ∷ 0x00 ∷ 0x01 ∷ 0x2a ∷ [])
    ∷ (0x00 ∷ 0x00 ∷ 0x01 ∷ 0x4e ∷ [])
    ∷ (0x00 ∷ 0x00 ∷ 0x01 ∷ 0x77 ∷ [])
    ∷ (0x00 ∷ 0x00 ∷ 0x01 ∷ 0xa4 ∷ [])
    ∷ (0x00 ∷ 0x00 ∷ 0x01 ∷ 0xd8 ∷ [])
    ∷ (0x00 ∷ 0x00 ∷ 0x02 ∷ 0x11 ∷ [])
    ∷ (0x00 ∷ 0x00 ∷ 0x02 ∷ 0x52 ∷ [])
    ∷ (0x00 ∷ 0x00 ∷ 0x02 ∷ 0x9a ∷ [])
    ∷ (0x00 ∷ 0x00 ∷ 0x02 ∷ 0xec ∷ [])
    ∷ (0x00 ∷ 0x00 ∷ 0x03 ∷ 0x47 ∷ [])
    ∷ (0x00 ∷ 0x00 ∷ 0x03 ∷ 0xad ∷ [])
    ∷ (0x00 ∷ 0x00 ∷ 0x04 ∷ 0x20 ∷ [])
    ∷ (0x00 ∷ 0x00 ∷ 0x04 ∷ 0xa1 ∷ [])
    ∷ (0x00 ∷ 0x00 ∷ 0x05 ∷ 0x32 ∷ [])
    ∷ (0x00 ∷ 0x00 ∷ 0x05 ∷ 0xd4 ∷ [])
    ∷ (0x00 ∷ 0x00 ∷ 0x06 ∷ 0x8a ∷ [])
    ∷ (0x00 ∷ 0x00 ∷ 0x07 ∷ 0x56 ∷ [])
    ∷ (0x00 ∷ 0x00 ∷ 0x08 ∷ 0x3b ∷ [])
    ∷ (0x00 ∷ 0x00 ∷ 0x09 ∷ 0x3c ∷ [])
    ∷ (0x00 ∷ 0x00 ∷ 0x0a ∷ 0x5d ∷ [])
    ∷ (0x00 ∷ 0x00 ∷ 0x0b ∷ 0xa0 ∷ [])
    ∷ (0x00 ∷ 0x00 ∷ 0x0d ∷ 0x0c ∷ [])
    ∷ (0x00 ∷ 0x00 ∷ 0x0e ∷ 0xa3 ∷ [])
    ∷ (0x00 ∷ 0x00 ∷ 0x10 ∷ 0x6c ∷ [])
    ∷ (0x00 ∷ 0x00 ∷ 0x12 ∷ 0x6d ∷ [])
    ∷ (0x00 ∷ 0x00 ∷ 0x14 ∷ 0xad ∷ [])
    ∷ (0x00 ∷ 0x00 ∷ 0x17 ∷ 0x33 ∷ [])
    ∷ (0x00 ∷ 0x00 ∷ 0x1a ∷ 0x07 ∷ [])
    ∷ (0x00 ∷ 0x00 ∷ 0x1d ∷ 0x34 ∷ [])
    ∷ (0x00 ∷ 0x00 ∷ 0x20 ∷ 0xc5 ∷ [])
    ∷ (0x00 ∷ 0x00 ∷ 0x24 ∷ 0xc4 ∷ [])
    ∷ (0x00 ∷ 0x00 ∷ 0x29 ∷ 0x41 ∷ [])
    ∷ (0x00 ∷ 0x00 ∷ 0x2e ∷ 0x49 ∷ [])
    ∷ (0x00 ∷ 0x00 ∷ 0x33 ∷ 0xef ∷ [])
    ∷ (0x00 ∷ 0x00 ∷ 0x3a ∷ 0x45 ∷ [])
    ∷ (0x00 ∷ 0x00 ∷ 0x41 ∷ 0x61 ∷ [])
    ∷ (0x00 ∷ 0x00 ∷ 0x49 ∷ 0x5c ∷ [])
    ∷ (0x00 ∷ 0x00 ∷ 0x52 ∷ 0x4f ∷ [])
    ∷ (0x00 ∷ 0x00 ∷ 0x5c ∷ 0x5a ∷ [])
    ∷ (0x00 ∷ 0x00 ∷ 0x67 ∷ 0x9f ∷ [])
    ∷ (0x00 ∷ 0x00 ∷ 0x74 ∷ 0x44 ∷ [])
    ∷ (0x00 ∷ 0x00 ∷ 0x82 ∷ 0x74 ∷ [])
    ∷ (0x00 ∷ 0x00 ∷ 0x92 ∷ 0x5f ∷ [])
    ∷ (0x00 ∷ 0x00 ∷ 0xa4 ∷ 0x3b ∷ [])
    ∷ (0x00 ∷ 0x00 ∷ 0xb8 ∷ 0x45 ∷ [])
    ∷ (0x00 ∷ 0x00 ∷ 0xce ∷ 0xc1 ∷ [])
    ∷ (0x00 ∷ 0x00 ∷ 0xe7 ∷ 0xfb ∷ [])
    ∷ (0x00 ∷ 0x01 ∷ 0x04 ∷ 0x49 ∷ [])
    ∷ (0x00 ∷ 0x01 ∷ 0x24 ∷ 0x0c ∷ [])
    ∷ (0x00 ∷ 0x01 ∷ 0x47 ∷ 0xae ∷ [])
    ∷ (0x00 ∷ 0x01 ∷ 0x6f ∷ 0xaa ∷ [])
    ∷ (0x00 ∷ 0x01 ∷ 0x9c ∷ 0x86 ∷ [])
    ∷ (0x00 ∷ 0x01 ∷ 0xce ∷ 0xdc ∷ [])
    ∷ (0x00 ∷ 0x02 ∷ 0x07 ∷ 0x56 ∷ [])
    ∷ (0x00 ∷ 0x02 ∷ 0x46 ∷ 0xb5 ∷ [])
    ∷ (0x00 ∷ 0x02 ∷ 0x8d ∷ 0xcf ∷ [])
    ∷ (0x00 ∷ 0x02 ∷ 0xdd ∷ 0x96 ∷ [])
    ∷ (0x00 ∷ 0x03 ∷ 0x37 ∷ 0x18 ∷ [])
    ∷ (0x00 ∷ 0x03 ∷ 0x9b ∷ 0x87 ∷ [])
    ∷ (0x00 ∷ 0x04 ∷ 0x0c ∷ 0x37 ∷ [])
    ∷ (0x00 ∷ 0x04 ∷ 0x8a ∷ 0xa7 ∷ [])
    ∷ (0x00 ∷ 0x05 ∷ 0x18 ∷ 0x84 ∷ [])
    ∷ (0x00 ∷ 0x05 ∷ 0xb7 ∷ 0xb1 ∷ [])
    ∷ (0x00 ∷ 0x06 ∷ 0x6a ∷ 0x4a ∷ [])
    ∷ (0x00 ∷ 0x07 ∷ 0x32 ∷ 0xae ∷ [])
    ∷ (0x00 ∷ 0x08 ∷ 0x13 ∷ 0x85 ∷ [])
    ∷ (0x00 ∷ 0x09 ∷ 0x0f ∷ 0xcc ∷ [])
    ∷ (0x00 ∷ 0x0a ∷ 0x2a ∷ 0xdb ∷ [])
    ∷ (0x00 ∷ 0x0b ∷ 0x68 ∷ 0x73 ∷ [])
    ∷ (0x00 ∷ 0x0c ∷ 0xcc ∷ 0xcd ∷ [])
    ∷ (0x00 ∷ 0x0e ∷ 0x5c ∷ 0xa1 ∷ [])
    ∷ (0x00 ∷ 0x10 ∷ 0x1d ∷ 0x3f ∷ [])
    ∷ (0x00 ∷ 0x12 ∷ 0x14 ∷ 0x9a ∷ [])
    ∷ (0x00 ∷ 0x14 ∷ 0x49 ∷ 0x61 ∷ [])
    ∷ (0x00 ∷ 0x16 ∷ 0xc3 ∷ 0x11 ∷ [])
    ∷ (0x00 ∷ 0x19 ∷ 0x8a ∷ 0x13 ∷ [])
    ∷ (0x00 ∷ 0x1c ∷ 0xa7 ∷ 0xd7 ∷ [])
    ∷ (0x00 ∷ 0x20 ∷ 0x26 ∷ 0xf3 ∷ [])
    ∷ (0x00 ∷ 0x24 ∷ 0x13 ∷ 0x47 ∷ [])
    ∷ (0x00 ∷ 0x28 ∷ 0x7a ∷ 0x27 ∷ [])
    ∷ (0x00 ∷ 0x2d ∷ 0x6a ∷ 0x86 ∷ [])
    ∷ (0x00 ∷ 0x32 ∷ 0xf5 ∷ 0x2d ∷ [])
    ∷ (0x00 ∷ 0x39 ∷ 0x2c ∷ 0xee ∷ [])
    ∷ (0x00 ∷ 0x40 ∷ 0x26 ∷ 0xe7 ∷ [])
    ∷ (0x00 ∷ 0x47 ∷ 0xfa ∷ 0xcd ∷ [])
    ∷ (0x00 ∷ 0x50 ∷ 0xc3 ∷ 0x36 ∷ [])
    ∷ (0x00 ∷ 0x5a ∷ 0x9d ∷ 0xf8 ∷ [])
    ∷ (0x00 ∷ 0x65 ∷ 0xac ∷ 0x8c ∷ [])
    ∷ (0x00 ∷ 0x72 ∷ 0x14 ∷ 0x83 ∷ [])
    ∷ (0x00 ∷ 0x80 ∷ 0x00 ∷ 0x00 ∷ [])
    ∷ (0x00 ∷ 0x8f ∷ 0x9e ∷ 0x4d ∷ [])
    ∷ (0x00 ∷ 0xa1 ∷ 0x24 ∷ 0x78 ∷ [])
    ∷ (0x00 ∷ 0xb4 ∷ 0xce ∷ 0x08 ∷ [])
    ∷ (0x00 ∷ 0xca ∷ 0xdd ∷ 0xc8 ∷ [])
    ∷ (0x00 ∷ 0xe3 ∷ 0x9e ∷ 0xa9 ∷ [])
    ∷ (0x00 ∷ 0xff ∷ 0x64 ∷ 0xc1 ∷ [])
    ∷ (0x01 ∷ 0x1e ∷ 0x8e ∷ 0x6a ∷ [])
    ∷ (0x01 ∷ 0x41 ∷ 0x85 ∷ 0x7f ∷ [])
    ∷ (0x01 ∷ 0x68 ∷ 0xc0 ∷ 0xc6 ∷ [])
    ∷ (0x01 ∷ 0x94 ∷ 0xc5 ∷ 0x84 ∷ [])
    ∷ (0x01 ∷ 0xc6 ∷ 0x29 ∷ 0x40 ∷ [])
    ∷ (0x01 ∷ 0xfd ∷ 0x93 ∷ 0xc1 ∷ [])
    ∷ (0x02 ∷ 0x3b ∷ 0xc1 ∷ 0x47 ∷ [])
    ∷ (0x02 ∷ 0x81 ∷ 0x85 ∷ 0x08 ∷ [])
    ∷ (0x02 ∷ 0xcf ∷ 0xcc ∷ 0x01 ∷ [])
    ∷ (0x03 ∷ 0x27 ∷ 0xa0 ∷ 0x1a ∷ [])
    ∷ (0x03 ∷ 0x8a ∷ 0x2b ∷ 0xac ∷ [])
    ∷ (0x03 ∷ 0xf8 ∷ 0xbd ∷ 0x79 ∷ [])
    ∷ (0x04 ∷ 0x74 ∷ 0xcd ∷ 0x1b ∷ [])
    ∷ (0x05 ∷ 0x00 ∷ 0x00 ∷ 0x00 ∷ [])
    ∷ []

-- The index into the table: `negsuc n` is -(n + 1), below -90 if n is more than 89.
unfoldable pub volume_index : ℤ → ℕ
volume_index (pos n) = if ltb 20 n then 111 else n + 90
volume_index (negsuc n) = if ltb 89 n then 0 else 90 - (n + 1)

unfoldable pub tasxxxx_volume_get_data_for_db : ℤ → List ℕ
tasxxxx_volume_get_data_for_db volume_db = get_or tasxxxx_volume_table (volume_index volume_db) []
