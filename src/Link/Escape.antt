-- ===== src/Link/Escape.antt =====
-- HDLC byte stuffing: its description on lists, and the loop of the transmitter, which does it in
-- place in a buffer, against that description.
use mynd_firmware.Prelude.{
  ℕ, zero, suc, ◌+◌, ◌<◌, bit_xor, ◌≡◌, refl, ap, ◌∙◌, inl, inr, true, false, List, [], ◌∷◌, ◌++◌,
  append_assoc, arith, Bool-cases, if◌then◌else◌, length,
}
use mynd_firmware.Prelude.Words.{u32_mod, sub32}
use mynd_firmware.Prelude.Memory.{
  Memory, store, load_range, load_range-append, load_range-store_behind, load_range-store_before,
}
use mynd_firmware.Link.Tx.{
  is_escape_required, get_number_of_escaped_chars, escape_in_place, frame_delimiter,
  escape_character, escape_mask,
}

-- A delimiter or an escape character is sent as the escape character and the byte with bit 5 flipped.
unfoldable pub escape : List ℕ → List ℕ
escape [] = []
escape (b ∷ bs) =
    if is_escape_required b
    then escape_character ∷ bit_xor b escape_mask ∷ escape bs
    else b ∷ escape bs

unfoldable pub hdlc_frame : List ℕ → List ℕ
hdlc_frame bs = frame_delimiter ∷ (escape bs ++ (frame_delimiter ∷ []))

pub escape-append : (xs ys : List ℕ) → escape (xs ++ ys) ≡ escape xs ++ escape ys
unfolding escape
escape-append [] ys = refl
escape-append (x ∷ xs) ys = ground (arith, escape-append xs ys)

pub length-escape : (xs : List ℕ) → length (escape xs) ≡ length xs + get_number_of_escaped_chars xs
unfolding escape get_number_of_escaped_chars is_escape_required
length-escape [] = omega arith
length-escape (x ∷ xs) = ground (arith, length-escape xs)

pub count-append :
    (xs ys : List ℕ)
    → get_number_of_escaped_chars (xs ++ ys)
      ≡ get_number_of_escaped_chars xs + get_number_of_escaped_chars ys
unfolding get_number_of_escaped_chars
count-append [] ys = omega arith
count-append (x ∷ xs) ys = ground (arith, count-append xs ys)

pub load_range_snoc : (m : Memory) (k : ℕ) → load_range m 0 (suc k) ≡ load_range m 0 k ++ (m k ∷ [])
unfolding load_range
load_range_snoc m k =
    let e : (suc k ≡ k + 1) × (0 + k ≡ k) = omega arith in
    ap (load_range m 0) e.0
    ∙ load_range-append m 0 k 1
    ∙ ap (λ j. load_range m 0 k ++ (m j ∷ [])) e.1

-- the escaped length of the first `k` bytes
abbrev pub escaped_length : Memory → ℕ → ℕ
escaped_length m k = k + get_number_of_escaped_chars (load_range m 0 k)

escaped_length-suc :
    (m : Memory) (k : ℕ)
    → escaped_length m (suc k) ≡ (if is_escape_required (m k) then 2 else 1) + escaped_length m k
unfolding get_number_of_escaped_chars is_escape_required
escaped_length-suc m k =
    ground (arith, load_range_snoc m k, count-append (load_range m 0 k) (m k ∷ []))

escape-suc :
    (m : Memory) (k : ℕ)
    → escape (load_range m 0 (suc k))
      ≡ escape (load_range m 0 k)
        ++ (if is_escape_required (m k)
            then escape_character ∷ bit_xor (m k) escape_mask ∷ []
            else m k ∷ [])
unfolding escape
escape-suc m k =
    ap escape (load_range_snoc m k) ∙ escape-append (load_range m 0 k) (m k ∷ []) ∙ ground arith

-- The loop ends with the index at 0, and has put the escaped bytes behind it and before what stood
-- behind the index when it began.
pub record Escaped (m : Memory) (k n : ℕ) (out : Memory × ℕ) : Type 0 where
  pub ends_at_zero : out.1 ≡ 0
  pub moved :
      load_range out.0 1 (escaped_length m k + n)
      ≡ escape (load_range m 0 k) ++ load_range m (suc (escaped_length m k)) n

plain_step :
    (m : Memory) (k n index : ℕ) (out : Memory × ℕ)
    → is_escape_required (m k) ≡ false
    → index ≡ suc (escaped_length m k)
    → Escaped (store m index (m k)) k (suc n) out
    → Escaped m (suc k) n out
unfolding load_range
plain_step m k n index out plain e ih =
    let m₁ = store m index (m k) in
    let before : load_range m₁ 0 k ≡ load_range m 0 k =
      load_range-store_behind m index (m k) k (omega arith) in
    let len = ap get_number_of_escaped_chars before in
    let behind : load_range m₁ (suc index) n ≡ load_range m (suc index) n =
      load_range-store_before m index (m k) (suc index) n (omega arith) in
    record {
      ends_at_zero = ih.ends_at_zero;
      moved = ground (
        arith,
        ih.moved,
        before,
        len,
        behind,
        escaped_length-suc m k,
        escape-suc m k,
        append_assoc (escape (load_range m 0 k)) (m k ∷ []) (load_range m (suc index) n),
      );
    }

Escaped-step :
    (m : Memory) (k n index below : ℕ) (out : Memory × ℕ)
    → is_escape_required (m k) ≡ true
    → index ≡ suc (suc (escaped_length m k))
    → below ≡ suc (escaped_length m k)
    → Escaped
        (store (store m index (bit_xor (m k) escape_mask)) below escape_character)
        k
        (suc (suc n))
        out
    → Escaped m (suc k) n out
unfolding load_range
Escaped-step m k n index below out esc e f ih =
    let x = bit_xor (m k) escape_mask in
    let m₁ = store m index x in
    let m₂ = store m₁ below escape_character in
    let before : load_range m₂ 0 k ≡ load_range m 0 k =
      load_range-store_behind m₁ below escape_character k (omega arith)
      ∙ load_range-store_behind m index x k (omega arith) in
    let len = ap get_number_of_escaped_chars before in
    let behind : load_range m₂ (suc index) n ≡ load_range m (suc index) n =
      load_range-store_before m₁ below escape_character (suc index) n (omega arith)
      ∙ load_range-store_before m index x (suc index) n (omega arith) in
    record {
      ends_at_zero = ih.ends_at_zero;
      moved = ground (
        arith,
        ih.moved,
        before,
        len,
        behind,
        escaped_length-suc m k,
        escape-suc m k,
        append_assoc (escape (load_range m 0 k)) (escape_character ∷ x ∷ [])
            (load_range m (suc index) n),
      );
    }

escape_in_place_base :
    (m : Memory) (n index : ℕ) → index ≡ escaped_length m 0 → Escaped m 0 n (m, index)
unfolding load_range escape get_number_of_escaped_chars
escape_in_place_base m n index e =
    let base : (0 + 0 + n ≡ n) × (suc (0 + 0) ≡ 1) × (index ≡ 0) = omega arith in
    record { ends_at_zero = base.2; moved = rw (base.0, base.1) refl }

-- Started at the escaped length of the bytes to move, the loop moves them all: the index ends at 0.
pub escape_in_place-Escaped :
    (k : ℕ) (m : Memory) (n index : ℕ)
    → index ≡ escaped_length m k
    → index < u32_mod
    → Escaped m k n (escape_in_place k m index)
unfolding escape_in_place
escape_in_place-Escaped zero m n index e h = escape_in_place_base m n index e
escape_in_place-Escaped (suc k) m n index e h = elim (Bool-cases (is_escape_required (m k))) [
  | inl esc ↦
      let x = bit_xor (m k) escape_mask in
      let m₁ = store m index x in
      let m₂ = store m₁ (sub32 index 1) escape_character in
      let i : index ≡ suc (suc (escaped_length m k)) = ground (arith, escaped_length-suc m k) in
      let before : load_range m₂ 0 k ≡ load_range m 0 k =
        load_range-store_behind m₁ (sub32 index 1) escape_character k (omega arith)
        ∙ load_range-store_behind m index x k (omega arith) in
      let len = ap get_number_of_escaped_chars before in
      rw (esc, escape_in_place)
        (Escaped-step m k n index (sub32 index 1) _ esc i (omega arith) (
          escape_in_place-Escaped k m₂ (suc (suc n)) (sub32 (sub32 index 1) 1) (omega (arith, len))
            (omega arith)))
  | inr plain ↦
      let i : index ≡ suc (escaped_length m k) = ground (arith, escaped_length-suc m k) in
      let len =
        ap get_number_of_escaped_chars (load_range-store_behind m index (m k) k (omega arith)) in
      rw (plain, escape_in_place)
        (plain_step m k n index _ plain i (
          escape_in_place-Escaped k (store m index (m k)) (suc n) (sub32 index 1)
            (omega (arith, len)) (omega arith)))
]
