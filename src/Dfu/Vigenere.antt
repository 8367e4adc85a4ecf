-- ===== src/Dfu/Vigenere.antt =====
-- t_boot_encryption.c: the in-place Vigenère decoder of firmware chunks.
use mynd_firmware.Prelude.{
  ℕ, suc, ◌+◌, ◌-◌, ◌%◌, ◌<◌, ◌≡◌, refl, ap, ap₂, ◌∙◌, inl, inr, Bool, true, false, ◌&&◌, ◌||◌,
  List, [], ◌∷◌, arith, leb, if◌then◌else◌, length, get_or, All, get_or-All, Bool-cases, table,
  table_entry_of, not, ◌==◌,
}

unfoldable pub is_alpha_upper : ℕ → Bool
is_alpha_upper c = leb 0x41 c && leb c 0x5a

unfoldable pub is_alpha_lower : ℕ → Bool
is_alpha_lower c = leb 0x61 c && leb c 0x7a

-- The loops skip what is neither.
unfoldable pub is_letter : ℕ → Bool
unfolding is_alpha_upper is_alpha_lower
is_letter c = is_alpha_upper c || is_alpha_lower c

-- `charcase`: 'A' or 'a'
unfoldable pub case_base : ℕ → ℕ
unfolding is_alpha_upper
case_base c = if is_alpha_upper c then 0x41 else 0x61

-- `shifts[i] = (p_key[i] - charcase) * sign` with sign = -1, as the bit pattern of the int8_t.
unfoldable pub key_shift : ℕ → ℕ
key_shift k = (case_base k + 256 - k) % 256

-- `(((uint8_t)(p_input[i] + shifts[j] - charcase + 26)) % 26) + charcase`: the cast makes the sum one
-- modulo 256, for which the bit pattern of the shift serves.
unfoldable pub decode_letter : ℕ → ℕ → ℕ
decode_letter c shift = (c + shift + 256 - case_base c + 26) % 256 % 26 + case_base c

module _ (key : List ℕ) where
  -- The second loop, from key index `j` on: what it leaves in the buffer.
  unfoldable pub decode_from : ℕ → List ℕ → List ℕ
  decode_from j [] = []
  decode_from j (c ∷ input) = elim (is_letter c) [
    | true ↦ decode_letter c (key_shift (get_or key j 0)) ∷ decode_from ((j + 1) % length key) input
    | false ↦ c ∷ decode_from j input
  ]

  pub length-decode_from : (j : ℕ) (input : List ℕ) → length (decode_from j input) ≡ length input
  unfolding decode_from
  length-decode_from j [] = refl
  length-decode_from j (c ∷ input) = elim (Bool-cases (is_letter c)) [
    | inl e ↦ rw (e, decode_from) (ap suc (length-decode_from ((j + 1) % length key) input))
    | inr e ↦ rw (e, decode_from) (ap suc (length-decode_from j input))
  ]

  unfoldable pub t_boot_encryption_decode_in_place : List ℕ → List ℕ
  t_boot_encryption_decode_in_place input = decode_from 0 input

-- Vigenère's cipher, described apart from the code: a letter moves forward in its own alphabet by the
-- place of the key's letter, and the key advances at letters only.
unfoldable pub encode_letter : ℕ → ℕ → ℕ
encode_letter c k = (c - case_base c + (k - case_base k)) % 26 + case_base c

module _ (key : List ℕ) where
  unfoldable pub encode_from : ℕ → List ℕ → List ℕ
  encode_from j [] = []
  encode_from j (c ∷ text) = elim (is_letter c) [
    | true ↦ encode_letter c (get_or key j 0) ∷ encode_from ((j + 1) % length key) text
    | false ↦ c ∷ encode_from j text
  ]

letter_table :
    table 128 (λ c. table 128 (λ k.
      not (is_letter c && is_letter k)
      || ((decode_letter (encode_letter c k) (key_shift k) == c) && is_letter (encode_letter c k))))
    ≡ true
unfolding table is_letter decode_letter encode_letter key_shift case_base
letter_table = refl

letter_bound : (c : ℕ) → is_letter c ≡ true → c < 128
unfolding is_letter
letter_bound c h = ground arith

decode_encode_letter :
    (c k : ℕ)
    → is_letter c ≡ true
    → is_letter k ≡ true
    → (decode_letter (encode_letter c k) (key_shift k) ≡ c) × (is_letter (encode_letter c k) ≡ true)
decode_encode_letter c k hc hk = ground (
  arith,
  table_entry_of _ 128 k (letter_bound k hk)
      (table_entry_of _ 128 c (letter_bound c hc) letter_table),
)

module _ (key : List ℕ) where
  encode_from-letter :
      (j c : ℕ) (text : List ℕ)
      → is_letter c ≡ true
      → encode_from key j (c ∷ text)
        ≡ encode_letter c (get_or key j 0) ∷ encode_from key ((j + 1) % length key) text
  unfolding encode_from
  encode_from-letter j c text h = rw (h, encode_from)

  decode_from-letter :
      (j c : ℕ) (text : List ℕ)
      → is_letter c ≡ true
      → decode_from key j (c ∷ text)
        ≡ decode_letter c (key_shift (get_or key j 0)) ∷ decode_from key ((j + 1) % length key) text
  unfolding decode_from
  decode_from-letter j c text h = rw (h, decode_from)

  decode_from-encode_from :
      (j : ℕ) (text : List ℕ)
      → All (λ k. is_letter k ≡ true) key
      → j < length key
      → decode_from key j (encode_from key j text) ≡ text
  unfolding decode_from encode_from
  decode_from-encode_from j [] letters h = refl
  decode_from-encode_from j (c ∷ text) letters h = elim (Bool-cases (is_letter c)) [
    | inl letter ↦
        let k = get_or key j 0 in
        let d = decode_encode_letter c k letter (get_or-All _ key j 0 letters h) in
        let next = (j + 1) % length key in
        ap (decode_from key j) (encode_from-letter j c text letter)
        ∙ decode_from-letter j (encode_letter c k) (encode_from key next text) d.1
        ∙ ap₂ ◌∷◌ d.0 (decode_from-encode_from next text letters (omega arith))
    | inr other ↦
        rw (other, encode_from)
          (rw (other, decode_from) (ap (λ l. c ∷ l) (decode_from-encode_from j text letters h)))
  ]

  -- With a key of letters, at least one, decoding in place undoes Vigenère's cipher on every buffer:
  -- letters of either case come back, and all other bytes are as they were.
  pub decode_in_place-encode :
      (text : List ℕ)
      → All (λ k. is_letter k ≡ true) key
      → 0 < length key
      → t_boot_encryption_decode_in_place key (encode_from key 0 text) ≡ text
  unfolding t_boot_encryption_decode_in_place
  decode_in_place-encode text letters h = decode_from-encode_from 0 text letters h

  pub length-decode_in_place :
      (input : List ℕ) → length (t_boot_encryption_decode_in_place key input) ≡ length input
  unfolding t_boot_encryption_decode_in_place
  length-decode_in_place input = length-decode_from key 0 input
