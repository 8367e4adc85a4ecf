-- ===== src/Dfu/NonSequential.antt =====
-- The non-sequential mode of t_boot_dfu.c: t_boot_dfu_non_sequential_process_chunk over the contexts
-- `m_boot` and `t_boot_ctx`, with the CRC check. Chunks come in any order, with their headers or without.
use mynd_firmware.Prelude.{
  ℕ, ◌*◌, ◌%◌, Bool, true, false, ◌&&◌, not, Option, none, some, List, [], ◌∷◌, ◌==◌, ltb,
  if◌then◌else◌,
}
use mynd_firmware.Prelude.Words.{u32_mod, add32, sub32}
use mynd_firmware.Prelude.Memory.{Memory, load_range, load_u32}
use mynd_firmware.Prelude.Int.{pos, neg}
use mynd_firmware.Dfu.Code
use mynd_firmware.Dfu.Types.{
  target_write, update_start, update_successful, update_error, update_component_done, Log, Target,
  Config, notify, Outcome, returned, fault, chunk_size, header_length, packet_init,
  packet_fw_header, packet_data, packet_type, number_of_dfu_components, header_component_id,
  fw_size, chunk_number, chunk_length, chunk_crc32, find_target,
}
use mynd_firmware.Dfu.Sequential.{current_id}

abbrev pub magic : Memory → ℕ
magic m = load_u32 m 0

abbrev pub magic_number : ℕ
magic_number = 0xbeefcafe

-- `t_boot_dfu_fw_status_t`, with the fields of the firmware header that are read back.
pub record FwStatus : Type 0 where
  pub header_magic : ℕ
  pub component_id : ℕ
  pub size : ℕ
  pub bytes_written : ℕ

-- What this mode uses of `m_boot`, `t_boot_ctx`, the static flag of the start callback, and the calls
-- made so far.
pub record Scattered : Type 0 where
  pub p_current_dfu_target : Option Target
  pub fw_status : List FwStatus
  pub bytes_in_chunk : ℕ
  pub number_of_components : ℕ
  pub update_start_callback_called : Bool
  pub log : Log

abbrev pub is_dfu_header : Memory → Bool
is_dfu_header m = (magic m == magic_number) && (packet_type m == packet_init)

abbrev pub is_fw_header : Memory → Bool
is_fw_header m = (magic m == magic_number) && (packet_type m == packet_fw_header)

-- The loop of the three lookups: the first status of the component.
unfoldable pub find_status : List FwStatus → ℕ → Option FwStatus
find_status [] id = none
find_status (st ∷ statuses) id = if st.component_id == id then some st else find_status statuses id

unfoldable pub is_fw_header_received : List FwStatus → ℕ → Bool
is_fw_header_received statuses id = elim (find_status statuses id) [
  | none ↦ false
  | some st ↦ st.header_magic == magic_number
]

unfoldable pub is_fw_complete : List FwStatus → ℕ → Bool
is_fw_complete statuses id = elim (find_status statuses id) [
  | none ↦ false
  | some st ↦ (st.header_magic == magic_number) && (st.bytes_written == st.size)
]

unfoldable pub set_fw_bytes_written : List FwStatus → ℕ → ℕ → List FwStatus
set_fw_bytes_written [] id length = []
set_fw_bytes_written (st ∷ statuses) id length =
    if st.component_id == id
    then record st { bytes_written = add32 st.bytes_written length } ∷ statuses
    else st ∷ set_fw_bytes_written statuses id length

-- This loop does not stop at the first.
unfoldable pub save_received_fw_header : List FwStatus → Memory → List FwStatus
save_received_fw_header [] m = []
save_received_fw_header (st ∷ statuses) m =
    (if st.component_id == header_component_id m
      then record st { header_magic = magic m; size = fw_size m }
      else st)
    ∷ save_received_fw_header statuses m

-- The statuses behind t_boot_dfu_init: zeroed but for the ids of the targets.
unfoldable pub initial_statuses : List Target → List FwStatus
initial_statuses [] = []
initial_statuses (t ∷ targets) =
    record { header_magic = 0; component_id = t.component_id; size = 0; bytes_written = 0 }
    ∷ initial_statuses targets

module _ (config : Config) where
  -- The label error_failed.
  unfoldable pub scattered_failed : Scattered → ℕ → Outcome × Scattered
  scattered_failed s code = (
    returned (neg code),
    record s {
      log =
          notify config.has_update_error (update_error (current_id s.p_current_dfu_target) code)
            s.log;
    },
  )

  -- The first call of all reports the start of the update, of 0 components.
  unfoldable pub report_start : Scattered → Scattered
  report_start s =
      if config.has_update_start && not s.update_start_callback_called
      then record s { update_start_callback_called = true; log = update_start 0 ∷ s.log }
      else s

  -- Behind a write: the bytes are counted, and a component whose header is known may be complete.
  unfoldable pub count_chunk : Scattered → Memory → Outcome × Scattered
  count_chunk s m =
      let id = header_component_id m in
      let statuses = set_fw_bytes_written s.fw_status id (chunk_length m) in
      let counted = record s { fw_status = statuses } in
      if is_fw_header_received statuses id && is_fw_complete statuses id
      then (
        returned (pos 1),
        record counted {
          log =
              notify config.has_update_successful update_successful
                (notify config.has_update_component_done (update_component_done id) s.log);
        },
      )
      else (returned (pos 0), counted)

  -- The lookup of the target keeps the current one if there is none for the component.
  unfoldable pub select_target : Scattered → ℕ → Scattered
  select_target s id = elim (find_target config.targets id) [
    | none ↦ s
    | some t ↦ record s { p_current_dfu_target = some t }
  ]

  unfoldable pub place_chunk : Scattered → Memory → Outcome × Scattered
  place_chunk s m =
      let payload = load_range m header_length (chunk_length m) in
      let sized =
        if s.bytes_in_chunk == 0 then record s { bytes_in_chunk = chunk_length m } else s in
      let offset = sized.bytes_in_chunk * sub32 (chunk_number m) 1 % u32_mod in
      elim s.p_current_dfu_target [
        | none ↦ (fault, sized)
        | some t ↦
            let called = record sized {
              log = target_write t.component_id payload offset ∷ sized.log;
            } in
            if t.writes s.log payload offset
            then count_chunk called m
            else scattered_failed called Code.write
      ]

  unfoldable pub receive_scattered : Scattered → Memory → Outcome × Scattered
  receive_scattered s m =
      let selected = select_target s (header_component_id m) in
      if not (packet_type m == packet_data)
      then scattered_failed s Code.state
      else if not
          (config.crc_compute (load_range m header_length (chunk_length m)) == chunk_crc32 m)
      then scattered_failed selected Code.crc32
      else place_chunk selected m

  unfoldable pub t_boot_dfu_non_sequential_process_chunk :
      Scattered → Memory → ℕ → Outcome × Scattered
  t_boot_dfu_non_sequential_process_chunk s m length =
      let started = report_start s in
      if ltb chunk_size length
      then scattered_failed s Code.packet_len
      else if is_dfu_header m
      then (returned (pos 0), record started { number_of_components = number_of_dfu_components m })
      else if is_fw_header m
      then (
        returned (pos 0),
        record started { fw_status = save_received_fw_header started.fw_status m },
      )
      else receive_scattered started m
