-- ===== src/Dfu/Sequential.antt =====
-- The sequential mode of t_boot_dfu.c: t_boot_dfu_sequential_process_chunk over the context `m_boot`,
-- built without signatures (T_BOOT_DFU_SKIP_SIGNATURE) and with the CRC check and the decryption.
use mynd_firmware.Prelude.{
  ℕ, ◌+◌, ◌*◌, ◌/◌, ◌%◌, Bool, true, false, ◌&&◌, ◌||◌, not, Option, none, some, List, [], ◌∷◌,
  ◌==◌, ltb, if◌then◌else◌,
}
use mynd_firmware.Prelude.Words.{u8_mod, u16_mod, u32_mod, add32}
use mynd_firmware.Prelude.Memory.{Memory, load_range}
use mynd_firmware.Prelude.Int.{pos, neg}
use mynd_firmware.Dfu.Code
use mynd_firmware.Dfu.Vigenere.{t_boot_encryption_decode_in_place}
use mynd_firmware.Dfu.Types.{
  target_init, target_prepare, target_write, target_verify, update_start, update_successful,
  update_error, update_progress, update_component_done, Log, Target, Config, notify, Outcome,
  returned, fault, chunk_size, header_length, packet_init, packet_fw_header, packet_data,
  packet_type, number_of_dfu_components, flags_encryption, header_product_type, header_product_id,
  header_component_id, fw_chunks, fw_size, fw_crc32, chunk_number, chunk_length, chunk_crc32,
  find_target,
}

-- `dfu_process_state_t`
pub data ProcessState : Type 0 where
  wait_init wait_fw_header wait_chunk finished failure : ProcessState

-- `t_boot_context_sequential_t`, with the calls made so far. `p_config` is set by t_boot_dfu_init and
-- never again: it is the parameter `config` below.
pub record Boot : Type 0 where
  pub p_current_dfu_target : Option Target
  pub fw_size : ℕ
  pub bytes_written : ℕ
  pub next_chunk : ℕ
  pub number_of_chunks : ℕ
  pub dfu_components_left : ℕ
  pub encryption_type : ℕ
  pub state : ProcessState
  pub log : Log

-- The loop of t_boot_dfu_init: it stops at a target without prepare or write.
unfoldable pub init_targets : List Target → Log → Bool × Log
init_targets [] log = (true, log)
init_targets (t ∷ targets) log = elim (not t.has_prepare || not t.has_write) [
  | true ↦ (false, log)
  | false ↦ init_targets targets (notify t.has_init (target_init t.component_id) log)
]

-- t_boot_dfu_init for a configuration that is not null; whether it returns 0, and the context.
unfoldable pub t_boot_dfu_init : Config → Boot → Bool × Boot
t_boot_dfu_init config s =
    let listed = init_targets config.targets s.log in
    elim config.targets [
      | [] ↦ (false, s)
      | t ∷ ts ↦
          if listed.0
          then (true, record s { state = wait_init; log = listed.1 })
          else (false, record s { log = listed.1 })
    ]

unfoldable pub t_boot_dfu_is_busy : Boot → Bool
t_boot_dfu_is_busy s = elim s.state [ wait_fw_header ↦ true | wait_chunk ↦ true | _ ↦ false ]

unfoldable pub t_boot_dfu_reset_state : Boot → Boot
t_boot_dfu_reset_state s = if t_boot_dfu_is_busy s then s else record s { state = wait_init }

-- `m_boot.p_current_dfu_target ? m_boot.p_current_dfu_target->component_id : 0`
unfoldable pub current_id : Option Target → ℕ
current_id none = 0
current_id (some t) = t.component_id

module _ (config : Config) where
  -- The label error_failed.
  unfoldable pub error_failed : Boot → ℕ → Outcome × Boot
  error_failed s code = (
    returned (neg code),
    record s {
      state = failure;
      log =
          notify config.has_update_error (update_error (current_id s.p_current_dfu_target) code)
            s.log;
    },
  )

  unfoldable pub receive_init : Boot → Memory → Outcome × Boot
  receive_init s m =
      if not (packet_type m == packet_init)
      then error_failed s Code.invalid_file
      else if not (header_product_type m == config.product_type)
          || not (header_product_id m == config.product_id)
      then error_failed s Code.product_id
      else (
        returned (pos 0),
        record s {
          state = wait_fw_header;
          encryption_type = flags_encryption m;
          dfu_components_left = number_of_dfu_components m;
          log = notify config.has_update_start (update_start (number_of_dfu_components m)) s.log;
        },
      )

  unfoldable pub receive_fw_header : Boot → Memory → Outcome × Boot
  receive_fw_header s m =
      if not (packet_type m == packet_fw_header)
      then error_failed s Code.state
      else elim (find_target config.targets (header_component_id m)) [
        | none ↦ error_failed (record s { p_current_dfu_target = none }) Code.unknown_dfu
        | some t ↦ (
          returned (pos 0),
          record s {
            p_current_dfu_target = some t;
            state = wait_chunk;
            next_chunk = 1;
            bytes_written = 0;
            number_of_chunks = fw_chunks m;
            fw_size = fw_size m;
            log =
                notify t.has_prepare (target_prepare t.component_id (fw_size m) (fw_crc32 m)) s.log;
          },
        )
      ]

  -- All chunks of a component have been written and it is verified.
  unfoldable pub component_done : Boot → Target → Outcome × Boot
  component_done s t =
      let left = (s.dfu_components_left + 255) % u8_mod in
      let log =
        notify config.has_update_component_done (update_component_done t.component_id) s.log in
      if left == 0
      then (
        returned (pos 1),
        record s {
          dfu_components_left = left;
          state = finished;
          log = notify config.has_update_successful update_successful log;
        },
      )
      else (
        returned (pos 0),
        record s { dfu_components_left = left; state = wait_fw_header; log = log },
      )

  unfoldable pub all_chunks_received : Boot → Target → Outcome × Boot
  all_chunks_received s t =
      if t.has_verify
      then (let verified = record s { log = target_verify t.component_id ∷ s.log } in
          if t.verifies s.log
          then component_done verified t
          else error_failed verified Code.verification)
      else component_done s t

  -- Behind a write: the counters, the progress (a division that faults for an empty firmware), and
  -- the end of the component.
  unfoldable pub chunk_written : Boot → Target → ℕ → Outcome × Boot
  chunk_written s t length =
      let bytes_written = add32 s.bytes_written length in
      let next_chunk = (s.next_chunk + 1) % u16_mod in
      let counted = record s { bytes_written = bytes_written; next_chunk = next_chunk } in
      let progress = update_progress t.component_id (bytes_written * 100 % u32_mod / s.fw_size) in
      let reported = record counted { log = notify config.has_update_progress progress s.log } in
      if config.has_update_progress && (s.fw_size == 0)
      then (fault, counted)
      else if ltb s.number_of_chunks next_chunk
      then all_chunks_received reported t
      else (returned (pos 0), reported)

  unfoldable pub write_chunk : Boot → Target → List ℕ → ℕ → Outcome × Boot
  write_chunk s t payload length =
      let called = record s { log = target_write t.component_id payload 0 ∷ s.log } in
      if t.writes s.log payload 0
      then chunk_written called t length
      else error_failed called Code.write

  -- The bytes that are written: as they came, or decrypted; `none` for an unknown encryption.
  unfoldable pub decrypt : ℕ → List ℕ → Option (List ℕ)
  decrypt encryption_type payload =
      if encryption_type == 1
      then some (t_boot_encryption_decode_in_place config.key payload)
      else if encryption_type == 0
      then some payload
      else none

  -- The length that the chunk announces is not compared with that of the packet, here as in the source: the payload
  -- is what the memory holds from the header on, behind the packet too. What a decoding in place changes behind the
  -- packet is not kept. The write of a target is never null.
  unfoldable pub receive_chunk : Boot → Memory → Outcome × Boot
  receive_chunk s m =
      let payload = load_range m header_length (chunk_length m) in
      if not (packet_type m == packet_data)
      then error_failed s Code.state
      else if not (config.crc_compute payload == chunk_crc32 m)
      then error_failed s Code.crc32
      else if not (s.next_chunk == chunk_number m)
      then error_failed s Code.chunk_num
      else elim (decrypt s.encryption_type payload) [
        | none ↦ error_failed s Code.unknown_encryption
        | some plain ↦ elim s.p_current_dfu_target [
          | none ↦ (fault, s)
          | some t ↦ write_chunk s t plain (chunk_length m)
        ]
      ]

  -- The switch over the state.
  unfoldable pub dispatch : ProcessState → Boot → Memory → Outcome × Boot
  dispatch wait_init s m = receive_init s m
  dispatch wait_fw_header s m = receive_fw_header s m
  dispatch wait_chunk s m = receive_chunk s m
  dispatch finished s m = (returned (pos 1), s)
  dispatch failure s m = (returned (pos 0), s)

  unfoldable pub t_boot_dfu_sequential_process_chunk : Boot → Memory → ℕ → Outcome × Boot
  t_boot_dfu_sequential_process_chunk s m length =
      if ltb chunk_size length then error_failed s Code.packet_len else dispatch s.state s m
