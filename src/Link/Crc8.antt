-- ===== src/Link/Crc8.antt =====
-- The CRC-8 of actionslink_bt_ll.c: the lookup table, the loop over it, and the polynomial
-- division that the comment above the table names (polynomial 0x07, initial value 0, no reflection).
use mynd_firmware.Prelude.{
  ℕ, zero, suc, ◌+◌, ◌*◌, ◌/◌, ◌%◌, bit_xor, ◌≡◌, ◌≢◌, refl, sym, ap, ◌∙◌, List, [], ◌∷◌, ◌++◌,
  true, ◌&&◌, arith, get_or, All, ◌==◌, ltb, leb, if◌then◌else◌, table, table_entry_of,
}
use mynd_firmware.Prelude.Words.{IsByte}

unfoldable pub crc8_table : List ℕ
crc8_table =
    0x00 ∷ 0x07 ∷ 0x0e ∷ 0x09 ∷ 0x1c ∷ 0x1b ∷ 0x12 ∷ 0x15 ∷ 0x38 ∷ 0x3f ∷ 0x36 ∷ 0x31 ∷ 0x24 ∷ 0x23
    ∷ 0x2a ∷ 0x2d ∷ 0x70 ∷ 0x77 ∷ 0x7e ∷ 0x79 ∷ 0x6c ∷ 0x6b ∷ 0x62 ∷ 0x65 ∷ 0x48 ∷ 0x4f ∷ 0x46
    ∷ 0x41 ∷ 0x54 ∷ 0x53 ∷ 0x5a ∷ 0x5d ∷ 0xe0 ∷ 0xe7 ∷ 0xee ∷ 0xe9 ∷ 0xfc ∷ 0xfb ∷ 0xf2 ∷ 0xf5
    ∷ 0xd8 ∷ 0xdf ∷ 0xd6 ∷ 0xd1 ∷ 0xc4 ∷ 0xc3 ∷ 0xca ∷ 0xcd ∷ 0x90 ∷ 0x97 ∷ 0x9e ∷ 0x99 ∷ 0x8c
    ∷ 0x8b ∷ 0x82 ∷ 0x85 ∷ 0xa8 ∷ 0xaf ∷ 0xa6 ∷ 0xa1 ∷ 0xb4 ∷ 0xb3 ∷ 0xba ∷ 0xbd ∷ 0xc7 ∷ 0xc0
    ∷ 0xc9 ∷ 0xce ∷ 0xdb ∷ 0xdc ∷ 0xd5 ∷ 0xd2 ∷ 0xff ∷ 0xf8 ∷ 0xf1 ∷ 0xf6 ∷ 0xe3 ∷ 0xe4 ∷ 0xed
    ∷ 0xea ∷ 0xb7 ∷ 0xb0 ∷ 0xb9 ∷ 0xbe ∷ 0xab ∷ 0xac ∷ 0xa5 ∷ 0xa2 ∷ 0x8f ∷ 0x88 ∷ 0x81 ∷ 0x86
    ∷ 0x93 ∷ 0x94 ∷ 0x9d ∷ 0x9a ∷ 0x27 ∷ 0x20 ∷ 0x29 ∷ 0x2e ∷ 0x3b ∷ 0x3c ∷ 0x35 ∷ 0x32 ∷ 0x1f
    ∷ 0x18 ∷ 0x11 ∷ 0x16 ∷ 0x03 ∷ 0x04 ∷ 0x0d ∷ 0x0a ∷ 0x57 ∷ 0x50 ∷ 0x59 ∷ 0x5e ∷ 0x4b ∷ 0x4c
    ∷ 0x45 ∷ 0x42 ∷ 0x6f ∷ 0x68 ∷ 0x61 ∷ 0x66 ∷ 0x73 ∷ 0x74 ∷ 0x7d ∷ 0x7a ∷ 0x89 ∷ 0x8e ∷ 0x87
    ∷ 0x80 ∷ 0x95 ∷ 0x92 ∷ 0x9b ∷ 0x9c ∷ 0xb1 ∷ 0xb6 ∷ 0xbf ∷ 0xb8 ∷ 0xad ∷ 0xaa ∷ 0xa3 ∷ 0xa4
    ∷ 0xf9 ∷ 0xfe ∷ 0xf7 ∷ 0xf0 ∷ 0xe5 ∷ 0xe2 ∷ 0xeb ∷ 0xec ∷ 0xc1 ∷ 0xc6 ∷ 0xcf ∷ 0xc8 ∷ 0xdd
    ∷ 0xda ∷ 0xd3 ∷ 0xd4 ∷ 0x69 ∷ 0x6e ∷ 0x67 ∷ 0x60 ∷ 0x75 ∷ 0x72 ∷ 0x7b ∷ 0x7c ∷ 0x51 ∷ 0x56
    ∷ 0x5f ∷ 0x58 ∷ 0x4d ∷ 0x4a ∷ 0x43 ∷ 0x44 ∷ 0x19 ∷ 0x1e ∷ 0x17 ∷ 0x10 ∷ 0x05 ∷ 0x02 ∷ 0x0b
    ∷ 0x0c ∷ 0x21 ∷ 0x26 ∷ 0x2f ∷ 0x28 ∷ 0x3d ∷ 0x3a ∷ 0x33 ∷ 0x34 ∷ 0x4e ∷ 0x49 ∷ 0x40 ∷ 0x47
    ∷ 0x52 ∷ 0x55 ∷ 0x5c ∷ 0x5b ∷ 0x76 ∷ 0x71 ∷ 0x78 ∷ 0x7f ∷ 0x6a ∷ 0x6d ∷ 0x64 ∷ 0x63 ∷ 0x3e
    ∷ 0x39 ∷ 0x30 ∷ 0x37 ∷ 0x22 ∷ 0x25 ∷ 0x2c ∷ 0x2b ∷ 0x06 ∷ 0x01 ∷ 0x08 ∷ 0x0f ∷ 0x1a ∷ 0x1d
    ∷ 0x14 ∷ 0x13 ∷ 0xae ∷ 0xa9 ∷ 0xa0 ∷ 0xa7 ∷ 0xb2 ∷ 0xb5 ∷ 0xbc ∷ 0xbb ∷ 0x96 ∷ 0x91 ∷ 0x98
    ∷ 0x9f ∷ 0x8a ∷ 0x8d ∷ 0x84 ∷ 0x83 ∷ 0xde ∷ 0xd9 ∷ 0xd0 ∷ 0xd7 ∷ 0xc2 ∷ 0xc5 ∷ 0xcc ∷ 0xcb
    ∷ 0xe6 ∷ 0xe1 ∷ 0xe8 ∷ 0xef ∷ 0xfa ∷ 0xfd ∷ 0xf4 ∷ 0xf3 ∷ []

-- `crc = crc8_table[crc ^ *p_buffer++]`
unfoldable pub crc8_step : ℕ → ℕ → ℕ
crc8_step crc b = get_or crc8_table (bit_xor crc b) 0

-- The list is the bytes that `p_buffer` and `length` delimit.
unfoldable pub calculate_crc8 : ℕ → List ℕ → ℕ
calculate_crc8 crc [] = crc
calculate_crc8 crc (b ∷ bs) = calculate_crc8 (crc8_step crc b) bs

-- One bit of the division by x^8 + x^2 + x + 1: shift left, and subtract on a carry.
unfoldable pub divide_bit : ℕ → ℕ
divide_bit c = if leb 128 c then bit_xor (c * 2 % 256) 0x07 else c * 2

unfoldable pub divide_bits : ℕ → ℕ → ℕ
divide_bits zero c = c
divide_bits (suc n) c = divide_bits n (divide_bit c)

-- The division of a whole message, a byte at a time.
unfoldable pub divide_message : ℕ → List ℕ → ℕ
divide_message crc [] = crc
divide_message crc (b ∷ bs) = divide_message (divide_bits 8 (bit_xor crc b)) bs

xor_table :
    table 256 (λ a. table 256 (λ b.
      ltb (bit_xor a b) 256 && (bit_xor a (bit_xor a b) == b) && (bit_xor (bit_xor a b) b == a)))
    ≡ true
unfolding table
xor_table = refl

pub bit_xor-IsByte : (a b : ℕ) → IsByte a → IsByte b → IsByte (bit_xor a b)
bit_xor-IsByte a b h k =
    ground (arith, table_entry_of _ 256 b k (table_entry_of _ 256 a h xor_table))

pub bit_xor_cancel : (a b : ℕ) → IsByte a → IsByte b → bit_xor a (bit_xor a b) ≡ b
bit_xor_cancel a b h k =
    ground (arith, table_entry_of _ 256 b k (table_entry_of _ 256 a h xor_table))

pub bit_xor_cancel_right : (a b : ℕ) → IsByte a → IsByte b → bit_xor (bit_xor a b) b ≡ a
bit_xor_cancel_right a b h k =
    ground (arith, table_entry_of _ 256 b k (table_entry_of _ 256 a h xor_table))

-- The bit division run backwards: the low bit tells whether the polynomial was subtracted.
unshift_bit : ℕ → ℕ
unshift_bit c = if c % 2 == 1 then bit_xor c 0x07 / 2 + 128 else c / 2

unshift_bits : ℕ → ℕ → ℕ
unshift_bits zero c = c
unshift_bits (suc n) c = unshift_bits n (unshift_bit c)

division_table :
    table 256 (λ x.
      (get_or crc8_table x 0 == divide_bits 8 x)
      && ltb (get_or crc8_table x 0) 256
      && (unshift_bits 8 (get_or crc8_table x 0) == x))
    ≡ true
unfolding table crc8_table divide_bits divide_bit unshift_bits unshift_bit
division_table = refl

table_entry :
    (x : ℕ)
    → IsByte x
    → (get_or crc8_table x 0 ≡ divide_bits 8 x)
      × IsByte (get_or crc8_table x 0)
      × (unshift_bits 8 (get_or crc8_table x 0) ≡ x)
table_entry x h = ground (arith, table_entry_of _ 256 x h division_table)

pub crc8_step-IsByte : (c b : ℕ) → IsByte c → IsByte b → IsByte (crc8_step c b)
unfolding crc8_step
crc8_step-IsByte c b h k = (table_entry (bit_xor c b) (bit_xor-IsByte c b h k)).1

pub calculate_crc8-IsByte :
    (c : ℕ) (bs : List ℕ) → IsByte c → All IsByte bs → IsByte (calculate_crc8 c bs)
unfolding calculate_crc8
calculate_crc8-IsByte c [] h k = h
calculate_crc8-IsByte c (b ∷ bs) h k =
    calculate_crc8-IsByte (crc8_step c b) bs (crc8_step-IsByte c b h k.0) k.1

-- The loop over the table computes the remainder of the polynomial division that the comment above
-- the table describes, for every message of bytes and every start value.
pub calculate_crc8-eq-divide_message :
    (c : ℕ) (bs : List ℕ) → IsByte c → All IsByte bs → calculate_crc8 c bs ≡ divide_message c bs
unfolding calculate_crc8 divide_message crc8_step
calculate_crc8-eq-divide_message c [] h k = refl
calculate_crc8-eq-divide_message c (b ∷ bs) h k =
    let e = table_entry (bit_xor c b) (bit_xor-IsByte c b h k.0) in
    calculate_crc8-eq-divide_message (get_or crc8_table (bit_xor c b) 0) bs e.1 k.1
    ∙ ap (λ d. divide_message d bs) e.0

crc8_step_injective :
    (c d a b : ℕ)
    → IsByte c
    → IsByte d
    → IsByte a
    → IsByte b
    → crc8_step c a ≡ crc8_step d b
    → bit_xor c a ≡ bit_xor d b
unfolding crc8_step
crc8_step_injective c d a b hc hd ha hb e =
    sym (table_entry (bit_xor c a) (bit_xor-IsByte c a hc ha)).2
    ∙ ap (unshift_bits 8) e
    ∙ (table_entry (bit_xor d b) (bit_xor-IsByte d b hd hb)).2

-- From one start value on, different values of one byte give different remainders.
crc8_step_cancel :
    (c a b : ℕ) → IsByte c → IsByte a → IsByte b → crc8_step c a ≡ crc8_step c b → a ≡ b
crc8_step_cancel c a b hc ha hb e =
    sym (bit_xor_cancel c a hc ha)
    ∙ ap (bit_xor c) (crc8_step_injective c c a b hc hc ha hb e)
    ∙ bit_xor_cancel c b hc hb

calculate_crc8_injective :
    (c d : ℕ) (bs : List ℕ)
    → IsByte c
    → IsByte d
    → All IsByte bs
    → calculate_crc8 c bs ≡ calculate_crc8 d bs
    → c ≡ d
unfolding calculate_crc8
calculate_crc8_injective c d [] hc hd h e = e
calculate_crc8_injective c d (b ∷ bs) hc hd h e =
    let steps =
      calculate_crc8_injective (crc8_step c b) (crc8_step d b) bs (crc8_step-IsByte c b hc h.0)
        (crc8_step-IsByte d b hd h.0) h.1 e in
    sym (bit_xor_cancel_right c b hc h.0)
    ∙ ap (λ x. bit_xor x b) (crc8_step_injective c d b b hc hd h.0 h.0 steps)
    ∙ bit_xor_cancel_right d b hd h.0

calculate_crc8_cancel :
    (c : ℕ) (xs : List ℕ) (a b : ℕ) (ys : List ℕ)
    → IsByte c
    → All IsByte xs
    → IsByte a
    → IsByte b
    → All IsByte ys
    → calculate_crc8 c (xs ++ a ∷ ys) ≡ calculate_crc8 c (xs ++ b ∷ ys)
    → a ≡ b
unfolding calculate_crc8
calculate_crc8_cancel c [] a b ys hc hx ha hb hy e = crc8_step_cancel c a b hc ha hb (
    calculate_crc8_injective (crc8_step c a) (crc8_step c b) ys (crc8_step-IsByte c a hc ha)
      (crc8_step-IsByte c b hc hb) hy e)
calculate_crc8_cancel c (x ∷ xs) a b ys hc hx ha hb hy e =
    calculate_crc8_cancel (crc8_step c x) xs a b ys (crc8_step-IsByte c x hc hx.0) hx.1 ha hb hy e

-- A message in which one byte is changed has another CRC: two messages of bytes that agree before and
-- behind one byte and differ in that byte have different CRCs from the same start value.
pub calculate_crc8_detects :
    (c : ℕ) (xs : List ℕ) (a b : ℕ) (ys : List ℕ)
    → IsByte c
    → All IsByte xs
    → IsByte a
    → IsByte b
    → All IsByte ys
    → a ≢ b
    → calculate_crc8 c (xs ++ a ∷ ys) ≢ calculate_crc8 c (xs ++ b ∷ ys)
calculate_crc8_detects c xs a b ys hc hx ha hb hy differ e =
    differ (calculate_crc8_cancel c xs a b ys hc hx ha hb hy e)
