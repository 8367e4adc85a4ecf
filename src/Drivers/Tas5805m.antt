-- ===== src/Drivers/Tas5805m.antt =====
-- The driver of the TAS5805M amplifier, tas5805m.c, for a handle that is not null.
use mynd_firmware.Prelude.{ℕ, Bool, if◌then◌else◌}
use mynd_firmware.Prelude.Int.{ℤ, is_zero}
use mynd_firmware.Drivers.Bus.{Bus}
use mynd_firmware.Drivers.Volume.{tasxxxx_volume_get_data_for_db}
use mynd_firmware.Drivers.Tas.{
  io_error, write_bytes, write_register, set_dsp_memory_to_book_and_page, modify_in,
}

-- TAS5805M_REG_…
abbrev pub reg_device_ctrl_2 : ℕ
reg_device_ctrl_2 = 0x03

abbrev pub reg_dsp_misc : ℕ
reg_dsp_misc = 0x66

abbrev pub reg_fault_clear : ℕ
reg_fault_clear = 0x78

-- `tas5805m_device_state_t`
pub data DeviceState : Type 0 where
  deep_sleep sleep hi_z play : DeviceState

abbrev pub state_bits : DeviceState → ℕ
state_bits deep_sleep = 0
state_bits sleep = 1
state_bits hi_z = 2
state_bits play = 3

module _ {S : Type 0} (bus : Bus S) where
  unfoldable pub tas5805m_enable_dsp : Bool → S → ℤ × S
  tas5805m_enable_dsp enable s =
      modify_in bus 0 0 reg_device_ctrl_2 0x10 (if enable then 0 else 0x10) s

  unfoldable pub tas5805m_enable_eq : Bool → S → ℤ × S
  tas5805m_enable_eq enable s = modify_in bus 0 0 reg_dsp_misc 0x01 (if enable then 0 else 0x01) s

  unfoldable pub tas5805m_enable_drc : Bool → S → ℤ × S
  tas5805m_enable_drc enable s = modify_in bus 0 0 reg_dsp_misc 0x02 (if enable then 0x02 else 0) s

  unfoldable pub tas5805m_mute : Bool → S → ℤ × S
  tas5805m_mute enable s = modify_in bus 0 0 reg_device_ctrl_2 0x08 (if enable then 0x08 else 0) s

  unfoldable pub tas5805m_set_state : DeviceState → S → ℤ × S
  tas5805m_set_state state s = modify_in bus 0 0 reg_device_ctrl_2 0x03 (state_bits state) s

  unfoldable pub tas5805m_set_volume : ℤ → S → ℤ × S
  tas5805m_set_volume volume_db s =
      let data_bytes = tasxxxx_volume_get_data_for_db volume_db in
      let selected = set_dsp_memory_to_book_and_page bus 0x8c 0x2a s in
      let left = write_bytes bus 0x24 data_bytes selected.1 in
      let right = write_bytes bus 0x28 data_bytes left.1 in
      if is_zero selected.0
      then (if is_zero left.0 then right else (io_error, left.1))
      else (io_error, selected.1)

  unfoldable pub tas5805m_clear_analog_fault : S → ℤ × S
  tas5805m_clear_analog_fault s =
      let selected = set_dsp_memory_to_book_and_page bus 0 0 s in
      if is_zero selected.0
      then write_register bus reg_fault_clear 0x80 selected.1
      else (io_error, selected.1)
