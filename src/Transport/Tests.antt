-- ===== src/Transport/Tests.antt =====
-- The upper layer of the link at concrete inputs.
use mynd_firmware.Prelude.{
  ℕ, ◌+◌, ◌%◌, ◌<◌, ◌≤◌, le→ltb, length-append, ◌≡◌, inl, inr, refl, ap, Bool, true, false, none,
  some, List, [], ◌∷◌, arith, ltb, if◌then◌else◌, length, All,
}
use mynd_firmware.Prelude.Words.{IsByte, u8_mod, get_ms_since}
use mynd_firmware.Prelude.Int.{pos, negsuc}
use mynd_firmware.Link.Packet.{
  data_state, Codec, IsCodec, Config, packet_bytes, header_bytes, protobuf,
}
use mynd_firmware.Link.Escape.{hdlc_frame, escape, length-escape}
use mynd_firmware.Link.Tx.{is_escape_required, get_number_of_escaped_chars}
use mynd_firmware.Link.Rx.{actionslink_bt_ll_rx}
use mynd_firmware.Link.TxLaws.{encoded_payload}
use mynd_firmware.Transport.Messages.{
  idle, ack, request_payload, response_payload, invalid, UpperLayer, Client, Poll,
}
use mynd_firmware.Transport.Upper.{actionslink_bt_ul_rx, actionslink_bt_ul_tx_rx}
use mynd_firmware.Transport.Protocol.{Answers, actionslink_bt_ul_rx-Answers}
use mynd_firmware.Transport.Silence.{Rests}
use mynd_firmware.Transport.Retry.{IsSendable, frame_of, silent_peer}

-- A message is one byte. The encodings are single bytes too.
abbrev codec : Codec Bool ℕ
codec = record {
  pb_get_encoded_size = λ m. some 1;
  pb_encode = λ m room. if ltb 0 room then some ((if m then 1 else 2) ∷ []) else none;
  pb_decode = λ bs. elim bs [ [] ↦ none | b ∷ rest ↦ some b ];
}

codec_size :
    (m : Bool) (room : ℕ) (bs : List ℕ)
    → codec.pb_encode m room ≡ some bs
    → (((if m then 1 else 2) ∷ []) ≡ bs) × (0 < room)
codec_size m room bs e = ground arith

codec_bytes : (m : Bool) (room : ℕ) (bs : List ℕ) → codec.pb_encode m room ≡ some bs → All IsByte bs
codec_bytes true room bs e = rw (← (codec_size true room bs e).0) (omega arith)
codec_bytes false room bs e = rw (← (codec_size false room bs e).0) (omega arith)

codec-IsCodec : IsCodec codec
codec-IsCodec = record {
  encoded_size = λ m room bs e. ap (λ l. some (length l)) (codec_size m room bs e).0;
  encoded_bytes = codec_bytes;
  encoded_fits = λ m room bs e. rw (← (codec_size m room bs e).0) (codec_size m room bs e).1;
}

abbrev config : Config
config = record {
  tx_buffer_size = 64;
  rx_buffer_size = 32;
  write_buffer_fn = λ frames frame. pos 0;
}

-- `true` is a request with tag 8, and `false` a message of an unknown type. The handlers do nothing.
abbrev client : Client Bool ℕ
client = record {
  which_from_mcu = λ m. if m then request_payload 8 else invalid;
  which_to_mcu = λ tag. response_payload tag;
  event_handler = λ m raw s. s;
  request_handler = λ m raw s. s;
}

abbrev fresh : UpperLayer
fresh = record {
  state = idle;
  tag = 0;
  transaction_id = 0;
  expect_response = false;
  timestamp = 0;
  tx_retries = 0;
  stop_requested = false;
  next_tx_transaction_id = 255;
  within_event_handler = false;
  lower = record {
    state = data_state;
    received_data_length = 0;
    buffered_data_length = 0;
    last_rx_timestamp = 0;
    rx_buffer = λ i. 0;
    tx_buffer = λ i. 0;
    written = [];
  };
  line = [];
}

-- The request has been acknowledged in part: half a frame is on the line.
abbrev waiting : UpperLayer
waiting = record fresh { state = ack; transaction_id = 4; expect_response = true }

abbrev half_frame : Poll
half_frame = record { arrived = (0x7e, 3) ∷ (0x55, 4) ∷ []; lower_tick = 5; tick = 5 }

actionslink_bt_ul_rx-Answers_example :
    let got = actionslink_bt_ll_rx codec config waiting.lower half_frame.arrived 5 in
    Answers codec config client waiting 5 got.0 got.1
      (actionslink_bt_ul_rx codec config client waiting half_frame)
actionslink_bt_ul_rx-Answers_example =
    actionslink_bt_ul_rx-Answers codec config client waiting half_frame refl (inr (inl refl))

-- Two polls of an empty line, the second 301 ms behind the sending at 10 and at 400.
abbrev silence : ℕ → List Poll
silence tick =
    record { arrived = []; lower_tick = tick + 1; tick = tick + 1 }
    ∷ record { arrived = []; lower_tick = tick + 301; tick = tick + 301 }
    ∷ []

count-le : (bs : List ℕ) → get_number_of_escaped_chars bs ≤ length bs
unfolding get_number_of_escaped_chars is_escape_required
count-le [] = omega arith
count-le (b ∷ bs) = ground (arith, count-le bs)

frame_fits : (id : ℕ) → ltb 64 (length (hdlc_frame (packet_bytes protobuf 0 id (1 ∷ [])))) ≡ false
unfolding hdlc_frame packet_bytes header_bytes
frame_fits id =
    let bs = packet_bytes protobuf 0 id (1 ∷ []) in
    le→ltb 64 (length (hdlc_frame bs))
      (omega (arith, length-append (escape bs) (0x7e ∷ []), length-escape bs, count-le bs))

request-IsSendable : IsSendable codec config client true (1 ∷ [])
unfolding encoded_payload
request-IsSendable = record {
  known = λ e. ground arith;
  small = omega arith;
  encodes = refl;
  fits = λ id. frame_fits id;
  taken = λ frames id. refl;
}

silent_peer_example :
    (s' : UpperLayer) × (actionslink_bt_ul_tx_rx codec config client fresh true
        ((10, silence 10) ∷ (400, silence 400) ∷ [])
      ≡ some (negsuc 0, s'))
    × Rests s' idle 2 ((255 + 2) % u8_mod) (
        frame_of codec config client true (1 ∷ []) 255
        ∷ frame_of codec config client true (1 ∷ []) ((255 + 1) % u8_mod)
        ∷ [])
unfolding get_ms_since
silent_peer_example =
    silent_peer codec config client true (1 ∷ []) codec-IsCodec fresh 0 255 [] (10, silence 10)
      (400, silence 400) request-IsSendable
      (record {
        state = refl;
        running = refl;
        no_input = refl;
        counted = refl;
        next_id = refl;
        frames = refl;
      })
      refl (refl, inr (refl, inl (omega arith))) (refl, inr (refl, inl (omega arith)))
