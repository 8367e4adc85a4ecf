-- ===== src/Link/RxLaws.antt =====
-- How the receiver takes in the bytes of a frame.
use mynd_firmware.Prelude.{
  ℕ, ◌+◌, ◌≤◌, ◌<◌, ◌≡◌, ◌⊎◌, refl, sym, ap, ◌∙◌, some, inl, inr, true, false, List, [], ◌∷◌, ◌++◌,
  arith, Bool-cases, length, bit_xor,
}
use mynd_firmware.Prelude.Words.{u16_mod}
use mynd_firmware.Prelude.Memory.{store_range}
use mynd_firmware.Prelude.Int.{pos}
use mynd_firmware.Link.Packet.{Codec, Config, LowLayer, RxPacket, data_state, escaped_data}
use mynd_firmware.Link.Tx.{is_escape_required, escape_character, escape_mask}
use mynd_firmware.Link.Rx.{
  complete, incomplete, process_received_byte, data_byte, actionslink_bt_ll_rx,
  reset_transport_state,
}
use mynd_firmware.Link.Escape.{escape}

abbrev pub bytes_of : List (ℕ × ℕ) → List ℕ
bytes_of [] = []
bytes_of (e ∷ input) = e.0 ∷ bytes_of input

-- The state behind `xs`, buffered in order behind what was there.
abbrev pub buffered : LowLayer → List ℕ → ℕ → LowLayer
buffered s xs tick = record s {
  state = data_state;
  received_data_length = s.received_data_length + length xs;
  buffered_data_length = s.buffered_data_length + length xs;
  last_rx_timestamp = tick;
  rx_buffer = store_range s.rx_buffer s.buffered_data_length xs;
}

pub bytes-cons :
    (input : List (ℕ × ℕ)) (b : ℕ) (bs : List ℕ)
    → bytes_of input ≡ b ∷ bs
    → (t : ℕ) × (left : List (ℕ × ℕ)) × (input ≡ (b, t) ∷ left) × (bytes_of left ≡ bs)
bytes-cons [] b bs h = cc
bytes-cons ((b', t) ∷ input) b bs h = (t, input, ground arith, ground arith)

escape-plain :
    (x : ℕ) (xs : List ℕ) → is_escape_required x ≡ false → escape (x ∷ xs) ≡ x ∷ escape xs
unfolding escape
escape-plain x xs h = ground arith

escape-escaped :
    (x : ℕ) (xs : List ℕ)
    → is_escape_required x ≡ true
    → escape (x ∷ xs) ≡ escape_character ∷ bit_xor x escape_mask ∷ escape xs
unfolding escape
escape-escaped x xs h = ground arith

unescape :
    (x : ℕ)
    → is_escape_required x ≡ true
    → (is_escape_required (bit_xor x escape_mask) ≡ false)
      × (bit_xor (bit_xor x escape_mask) escape_mask ≡ x)
unfolding is_escape_required
unescape x h = elim either [ inl e ↦ rw e (refl, refl) | inr e ↦ rw e (refl, refl) ]
  where
    either : (x ≡ 0x7e) ⊎ (x ≡ 0x7d)
    either = ground arith

module _ {FromMcu ToMcu : Type 0} (codec : Codec FromMcu ToMcu) (config : Config) where
  plain_byte :
      (s : LowLayer) (x : ℕ)
      → is_escape_required x ≡ false
      → process_received_byte codec config s x ≡ (incomplete, data_byte codec config s s.state x)
  unfolding is_escape_required process_received_byte
  plain_byte s x h = ground arith

  data_byte-data :
      (s : LowLayer) (x : ℕ)
      → s.buffered_data_length < config.rx_buffer_size
      → config.rx_buffer_size < u16_mod
      → s.received_data_length ≡ s.buffered_data_length
      → data_byte codec config s data_state x ≡ buffered s (x ∷ []) s.last_rx_timestamp
  unfolding data_byte store_range
  data_byte-data s x room small same = ground arith

  data_byte-escaped :
      (s : LowLayer) (x : ℕ)
      → s.buffered_data_length < config.rx_buffer_size
      → config.rx_buffer_size < u16_mod
      → s.received_data_length ≡ s.buffered_data_length
      → data_byte codec config s escaped_data x
        ≡ buffered s (bit_xor x escape_mask ∷ []) s.last_rx_timestamp
  unfolding data_byte store_range
  data_byte-escaped s x room small same = ground arith

  buffered-nil : (s : LowLayer) → s.state ≡ data_state → buffered s [] s.last_rx_timestamp ≡ s
  unfolding store_range
  buffered-nil s e = ground arith

  buffered-cons :
      (s : LowLayer) (x : ℕ) (xs : List ℕ) (t t' : ℕ)
      → buffered (buffered s (x ∷ []) t) xs t' ≡ buffered s (x ∷ xs) t'
  unfolding store_range
  buffered-cons s x xs t t' = ground arith

  pub rx_incomplete :
      (s : LowLayer) (b t : ℕ) (input : List (ℕ × ℕ)) (now : ℕ) (s' : LowLayer)
      → process_received_byte codec config (record s { last_rx_timestamp = t }) b ≡ (incomplete, s')
      → actionslink_bt_ll_rx codec config s ((b, t) ∷ input) now
        ≡ actionslink_bt_ll_rx codec config s' input now
  unfolding actionslink_bt_ll_rx
  rx_incomplete s b t input now s' h =
      rw (ap (λ r. r.0) h, actionslink_bt_ll_rx)
        (ap (λ r. actionslink_bt_ll_rx codec config r.1 input now) h)

  pub rx_complete :
      (s : LowLayer) (b t : ℕ) (input : List (ℕ × ℕ)) (now : ℕ) (p : RxPacket ToMcu) (s' : LowLayer)
      → process_received_byte codec config (record s { last_rx_timestamp = t }) b ≡ (complete p, s')
      → actionslink_bt_ll_rx codec config s ((b, t) ∷ input) now
        ≡ (pos 1, some p, reset_transport_state s', input)
  unfolding actionslink_bt_ll_rx
  rx_complete s b t input now p s' h =
      rw (ap (λ r. r.0) h, actionslink_bt_ll_rx)
        (ap (λ r. (pos 1, some p, reset_transport_state r.1, input)) h)

  -- One plain byte, and one escaped byte, of the input.
  rx_plain :
      (s : LowLayer) (x t : ℕ) (input : List (ℕ × ℕ)) (now : ℕ)
      → s.state ≡ data_state
      → s.buffered_data_length < config.rx_buffer_size
      → config.rx_buffer_size < u16_mod
      → s.received_data_length ≡ s.buffered_data_length
      → is_escape_required x ≡ false
      → actionslink_bt_ll_rx codec config s ((x, t) ∷ input) now
        ≡ actionslink_bt_ll_rx codec config (buffered s (x ∷ []) t) input now
  rx_plain s x t input now e room small same plain =
      let s' = record s { last_rx_timestamp = t } in
      rx_incomplete s x t input now (buffered s (x ∷ []) t) (
        plain_byte s' x plain
        ∙ ap (λ l. (incomplete, l))
            (ap (λ mode. data_byte codec config s' mode x) e ∙ data_byte-data s' x room small same))

  escape_byte :
      (s : LowLayer)
      → process_received_byte codec config s escape_character
        ≡ (incomplete, record s { state = escaped_data })
  unfolding process_received_byte
  escape_byte s = refl

  rx_escaped :
      (s : LowLayer) (x t t' : ℕ) (input : List (ℕ × ℕ)) (now : ℕ)
      → s.buffered_data_length < config.rx_buffer_size
      → config.rx_buffer_size < u16_mod
      → s.received_data_length ≡ s.buffered_data_length
      → is_escape_required x ≡ true
      → actionslink_bt_ll_rx codec config s
          ((escape_character, t) ∷ (bit_xor x escape_mask, t') ∷ input)
          now
        ≡ actionslink_bt_ll_rx codec config (buffered s (x ∷ []) t') input now
  rx_escaped s x t t' input now room small same esc =
      let y = bit_xor x escape_mask in
      let s₁ = record s { last_rx_timestamp = t; state = escaped_data } in
      let s₂ = record s { last_rx_timestamp = t'; state = escaped_data } in
      let u = unescape x esc in
      rx_incomplete s escape_character t ((y, t') ∷ input) now s₁
        (escape_byte (record s { last_rx_timestamp = t }))
      ∙ rx_incomplete s₁ y t' input now (buffered s (x ∷ []) t') (
          plain_byte s₂ y u.0
          ∙ ap (λ l. (incomplete, l))
              (data_byte-escaped s₂ y room small same ∙ ap (λ z. buffered s (z ∷ []) t') u.1))

  -- Escaped bytes are buffered unescaped, whatever follows them.
  pub rx_data :
      (xs : List ℕ) (s : LowLayer) (input : List (ℕ × ℕ)) (rest : List ℕ) (now : ℕ)
      → s.state ≡ data_state
      → s.buffered_data_length + length xs ≤ config.rx_buffer_size
      → config.rx_buffer_size < u16_mod
      → s.received_data_length ≡ s.buffered_data_length
      → bytes_of input ≡ escape xs ++ rest
      → (left : List (ℕ × ℕ)) × (t : ℕ) × (bytes_of left ≡ rest)
        × (actionslink_bt_ll_rx codec config s input now
            ≡ actionslink_bt_ll_rx codec config (buffered s xs t) left now)
  unfolding escape
  rx_data [] s input rest now e room small same h = (
    input,
    s.last_rx_timestamp,
    h,
    ap (λ l. actionslink_bt_ll_rx codec config l input now) (sym (buffered-nil s e)),
  )
  rx_data (x ∷ xs) s input rest now e room small same h = elim (Bool-cases (is_escape_required x)) [
    | inl esc ↦
        let a = bytes-cons input _ _ (h ∙ ap (λ l. l ++ rest) (escape-escaped x xs esc)) in
        let b = bytes-cons a.1 _ _ a.3 in
        let r =
          rx_data xs (buffered s (x ∷ []) b.0) b.1 rest now refl (omega arith) small (omega arith)
            b.3 in
        (
          r.0,
          r.1,
          r.2,
          ap (λ l. actionslink_bt_ll_rx codec config s l now)
                (a.2 ∙ ap (λ l. (escape_character, a.0) ∷ l) b.2)
              ∙ rx_escaped s x a.0 b.0 b.1 now (omega arith) small same esc
              ∙ r.3
              ∙ ap (λ l. actionslink_bt_ll_rx codec config l r.0 now)
                  (buffered-cons s x xs b.0 r.1),
        )
    | inr plain ↦
        let a = bytes-cons input _ _ (h ∙ ap (λ l. l ++ rest) (escape-plain x xs plain)) in
        let r =
          rx_data xs (buffered s (x ∷ []) a.0) a.1 rest now refl (omega arith) small (omega arith)
            a.3 in
        (
          r.0,
          r.1,
          r.2,
          ap (λ l. actionslink_bt_ll_rx codec config s l now) a.2
              ∙ rx_plain s x a.0 a.1 now e (omega arith) small same plain
              ∙ r.3
              ∙ ap (λ l. actionslink_bt_ll_rx codec config l r.0 now)
                  (buffered-cons s x xs a.0 r.1),
        )
  ]
