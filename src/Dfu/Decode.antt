-- ===== src/Dfu/Decode.antt =====
-- t_boot_encryption_decode of t_boot_encryption.c, which decodes into a second buffer and computes with
-- signed numbers where the decoder in place casts to a byte.
use mynd_firmware.Prelude.{
  ℕ, ◌+◌, ◌-◌, ◌%◌, ◌<◌, ◌≡◌, refl, ap₂, ap, inl, inr, Bool-cases, true, false, ◌||◌, ◌&&◌, not,
  List, [], ◌∷◌, arith, leb, ltb, ◌==◌, if◌then◌else◌, length, get_or, All, get_or-All, table,
  table_entry_of,
}
use mynd_firmware.Dfu.Vigenere.{
  is_alpha_upper, is_alpha_lower, is_letter, case_base, key_shift, decode_letter, decode_from,
  t_boot_encryption_decode_in_place,
}

-- `((p_input[i] + shifts[j] - charcase + 26) % 26) + charcase` in an int, stored in a byte. The shift is the
-- bit pattern of an int8_t; the remainder of a negative number is that of its amount, negated.
unfoldable pub decode_signed : ℕ → ℕ → ℕ
decode_signed c shift =
    let unshifted = c + 26 - case_base c in
    let down = 256 - shift in
    if ltb shift 128
    then ((unshifted + shift) % 26 + case_base c) % 256
    else if leb down unshifted
    then ((unshifted - down) % 26 + case_base c) % 256
    else (case_base c + 256 - (down - unshifted) % 26) % 256

module _ (key : List ℕ) where
  -- The second loop, from key index `j` on: what it stores in the output.
  unfoldable pub decode_to : ℕ → List ℕ → List ℕ
  decode_to j [] = []
  decode_to j (c ∷ input) = elim (is_letter c) [
    | true ↦ decode_signed c (key_shift (get_or key j 0)) ∷ decode_to ((j + 1) % length key) input
    | false ↦ c ∷ decode_to j input
  ]

  unfoldable pub t_boot_encryption_decode : List ℕ → List ℕ
  t_boot_encryption_decode input = decode_to 0 input

signed_table :
    table 128 (λ c. table 128 (λ k.
      not (is_letter c && is_letter k)
      || (decode_signed c (key_shift k) == decode_letter c (key_shift k))))
    ≡ true
unfolding table is_letter is_alpha_upper is_alpha_lower decode_signed decode_letter key_shift
    case_base
signed_table = refl

letter_bound : (c : ℕ) → is_letter c ≡ true → c < 128
unfolding is_letter is_alpha_upper is_alpha_lower
letter_bound c h = ground arith

decode_signed-eq :
    (c k : ℕ)
    → is_letter c ≡ true
    → is_letter k ≡ true
    → decode_signed c (key_shift k) ≡ decode_letter c (key_shift k)
decode_signed-eq c k hc hk = ground (
  arith,
  hc,
  hk,
  table_entry_of _ 128 k (letter_bound k hk)
      (table_entry_of _ 128 c (letter_bound c hc) signed_table),
)

module _ (key : List ℕ) where
  decode_to-eq :
      (j : ℕ) (input : List ℕ)
      → All (λ k. is_letter k ≡ true) key
      → j < length key
      → decode_to key j input ≡ decode_from key j input
  unfolding decode_to decode_from
  decode_to-eq j [] letters h = refl
  decode_to-eq j (c ∷ input) letters h = elim (Bool-cases (is_letter c)) [
    | inl e ↦
        rw (e, decode_to)
          (rw (e, decode_from)
            (ap₂ ◌∷◌ (decode_signed-eq c (get_or key j 0) e (get_or-All _ key j 0 letters h))
              (decode_to-eq ((j + 1) % length key) input letters (omega (arith, h)))))
    | inr e ↦
        rw (e, decode_to) (rw (e, decode_from) (ap (λ l. c ∷ l) (decode_to-eq j input letters h)))
  ]

  -- With a key of letters, at least one, both decoders give the same.
  pub decode-decode_in_place :
      (input : List ℕ)
      → All (λ k. is_letter k ≡ true) key
      → 0 < length key
      → t_boot_encryption_decode key input ≡ t_boot_encryption_decode_in_place key input
  unfolding t_boot_encryption_decode t_boot_encryption_decode_in_place
  decode-decode_in_place input letters h = decode_to-eq 0 input letters h
