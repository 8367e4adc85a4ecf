-- ===== src/Dfu/Types.antt =====
-- The types of t_boot_dfu.c: targets, the configuration, the callbacks as a log of events, and the
-- packets, which are structs laid over the bytes of a buffer.
use mynd_firmware.Prelude.{ℕ, ◌/◌, ◌==◌, Bool, if◌then◌else◌, Option, none, some, List, [], ◌∷◌}
use mynd_firmware.Prelude.Memory.{Memory, load_u16, load_u32}
use mynd_firmware.Prelude.Int.{ℤ}

-- Every call that t-boot makes into its environment, with its arguments: the functions of a target
-- (by its component id) and the callbacks of the configuration. `update_error` carries the code whose
-- negative is passed.
pub data Event : Type 0 where
  target_init : ℕ → Event
  target_prepare : ℕ → ℕ → ℕ → Event
  target_write : ℕ → List ℕ → ℕ → Event
  target_verify : ℕ → Event
  update_start : ℕ → Event
  update_successful : Event
  update_error : ℕ → ℕ → Event
  update_progress : ℕ → ℕ → Event
  update_component_done : ℕ → Event

-- The calls made so far, newest first.
abbrev pub Log : Type 0
Log = List Event

-- `t_boot_dfu_target_t`. A Boolean says whether a function pointer is set; `writes` and `verifies` say
-- whether a call of write or verify returns 0, given what was called before.
pub record Target : Type 0 where
  pub component_id : ℕ
  pub has_prepare : Bool
  pub has_write : Bool
  pub has_init : Bool
  pub has_verify : Bool
  pub writes : Log → List ℕ → ℕ → Bool
  pub verifies : Log → Bool

-- `t_boot_config_t`, with the CRC unit of the device (t_boot_crc_compute, which a hardware driver or a
-- third-party routine implements) and the cipher key of t_boot_config.h.
pub record Config : Type 0 where
  pub targets : List Target
  pub has_update_start : Bool
  pub has_update_successful : Bool
  pub has_update_error : Bool
  pub has_update_progress : Bool
  pub has_update_component_done : Bool
  pub crc_compute : List ℕ → ℕ
  pub key : List ℕ
  pub product_type : ℕ
  pub product_id : ℕ

-- `if (callback) callback(...)`
abbrev pub notify : Bool → Event → Log → Log
notify present e log = if present then e ∷ log else log

-- How a call ends: with a return value, or in undefined behaviour (a null target, a division by 0).
pub data Outcome : Type 0 where
  returned : ℤ → Outcome
  fault : Outcome

abbrev pub chunk_size : ℕ
chunk_size = 512

abbrev pub header_length : ℕ
header_length = 16

-- DFU_PACKET_TYPE_…
abbrev pub packet_init : ℕ
packet_init = 0

abbrev pub packet_fw_header : ℕ
packet_fw_header = 1

abbrev pub packet_data : ℕ
packet_data = 2

-- The field common to the packets; the magic number in front of it is never read.
abbrev pub packet_type : Memory → ℕ
packet_type m = m 4

-- `t_boot_dfu_header_t`; the encryption is the upper half of the byte of flags.
abbrev pub number_of_dfu_components : Memory → ℕ
number_of_dfu_components m = m 5

abbrev pub flags_encryption : Memory → ℕ
flags_encryption m = m 7 / 16

abbrev pub header_product_type : Memory → ℕ
header_product_type m = load_u32 m 8

abbrev pub header_product_id : Memory → ℕ
header_product_id m = load_u32 m 12

-- `t_boot_dfu_fw_header_t` and `t_boot_dfu_chunk_header_t`
abbrev pub header_component_id : Memory → ℕ
header_component_id m = m 5

abbrev pub fw_chunks : Memory → ℕ
fw_chunks m = load_u16 m 6

abbrev pub fw_size : Memory → ℕ
fw_size m = load_u32 m 8

abbrev pub fw_crc32 : Memory → ℕ
fw_crc32 m = load_u32 m 12

abbrev pub chunk_number : Memory → ℕ
chunk_number m = load_u16 m 6

abbrev pub chunk_length : Memory → ℕ
chunk_length m = load_u32 m 8

abbrev pub chunk_crc32 : Memory → ℕ
chunk_crc32 m = load_u32 m 12

-- The loop over the target list: the first target with the component id.
unfoldable pub find_target : List Target → ℕ → Option Target
find_target [] id = none
find_target (t ∷ targets) id = if t.component_id == id then some t else find_target targets id
