-- ===== src/Drivers/Tas5825p.antt =====
-- The driver of the TAS5825P amplifier, tas5825p.c, for a handle that is not null. GPIOs and their modes are numbers.
use mynd_firmware.Prelude.{ℕ, ◌+◌, ◌^◌, Bool, List, [], ◌∷◌, if◌then◌else◌}
use mathlib.Core.Option.{Option}
use mynd_firmware.Prelude.Memory.{Memory}
use mynd_firmware.Prelude.Int.{ℤ, pos, is_zero}
use mynd_firmware.Drivers.Bus.{Bus}
use mynd_firmware.Drivers.Volume.{tasxxxx_volume_get_data_for_db}
use mynd_firmware.Drivers.Tas.{
  io_error, write_bytes, write_register, set_dsp_memory_to_book_and_page, load_configuration,
  modify_in,
}
use mynd_firmware.Drivers.Tas5805m.{DeviceState, state_bits, reg_device_ctrl_2, reg_fault_clear}

-- TAS5825P_REG_GPIO_OUT and TAS5825P_REG_GPIO0_SEL
abbrev pub reg_gpio_out : ℕ
reg_gpio_out = 0x65

abbrev pub reg_gpio0_sel : ℕ
reg_gpio0_sel = 0x61

abbrev pub command_seq : List (ℕ × ℕ)
command_seq =
    (0x00, 0x00)
    ∷ (0x7f, 0x00)
    ∷ (0x7e, 0xff)
    ∷ (0x7d, 0x11)
    ∷ (0x00, 0x02)
    ∷ (0x16, 0x08)
    ∷ (0x00, 0x00)
    ∷ (0x7f, 0x00)
    ∷ (0x00, 0x00)
    ∷ (0x7e, 0x52)
    ∷ (0x7d, 0x00)
    ∷ []

module _ {S : Type 0} (bus : Bus S) where
  unfoldable pub tas5825p_load_configuration : (ℕ → S → S) → Memory → ℕ → S → Option (ℤ × S)
  tas5825p_load_configuration delay_fn config config_length s =
      load_configuration bus delay_fn config config_length s

  unfoldable pub tas5825p_enable_dsp : Bool → S → ℤ × S
  tas5825p_enable_dsp enable s =
      modify_in bus 0 0 reg_device_ctrl_2 0x10 (if enable then 0 else 0x10) s

  unfoldable pub tas5825p_mute : Bool → S → ℤ × S
  tas5825p_mute enable s = modify_in bus 0 0 reg_device_ctrl_2 0x08 (if enable then 0x08 else 0) s

  unfoldable pub tas5825p_set_state : DeviceState → S → ℤ × S
  tas5825p_set_state state s = modify_in bus 0 0 reg_device_ctrl_2 0x03 (state_bits state) s

  unfoldable pub tas5825p_enable_eq : Bool → S → ℤ × S
  tas5825p_enable_eq enable s =
      let selected = set_dsp_memory_to_book_and_page bus 0x8c 0x0b s in
      if is_zero selected.0
      then write_bytes bus 0x2c (0 ∷ 0 ∷ 0 ∷ (if enable then 0 else 1) ∷ []) selected.1
      else (io_error, selected.1)

  unfoldable pub tas5825p_set_volume : ℤ → S → ℤ × S
  tas5825p_set_volume volume_db s =
      let data_bytes = tasxxxx_volume_get_data_for_db volume_db in
      let selected = set_dsp_memory_to_book_and_page bus 0x8c 0x0b s in
      let left = write_bytes bus 0x0c data_bytes selected.1 in
      let right = write_bytes bus 0x10 data_bytes left.1 in
      if is_zero selected.0
      then (if is_zero left.0 then right else (io_error, left.1))
      else (io_error, selected.1)

  unfoldable pub tas5825p_set_gpio_mode : ℕ → ℕ → S → ℤ × S
  tas5825p_set_gpio_mode gpio mode s =
      let selected = set_dsp_memory_to_book_and_page bus 0 0 s in
      if is_zero selected.0
      then write_register bus (reg_gpio0_sel + gpio) mode selected.1
      else (io_error, selected.1)

  unfoldable pub tas5825p_set_gpio_output_level : ℕ → Bool → S → ℤ × S
  tas5825p_set_gpio_output_level gpio high s =
      modify_in bus 0 0 reg_gpio_out (2 ^ gpio) (if high then 2 ^ gpio else 0) s

  unfoldable pub tas5825p_clear_analog_fault : S → ℤ × S
  tas5825p_clear_analog_fault s =
      let selected = set_dsp_memory_to_book_and_page bus 0 0 s in
      if is_zero selected.0
      then write_register bus reg_fault_clear 0x80 selected.1
      else (io_error, selected.1)

  -- The loop over the commands.
  unfoldable pub write_sequence : List (ℕ × ℕ) → S → ℤ × S
  write_sequence [] s = (pos 0, s)
  write_sequence (c ∷ commands) s =
      let w = write_register bus c.0 c.1 s in
      let rest = write_sequence commands w.1 in if is_zero w.0 then rest else (io_error, w.1)

  unfoldable pub tas5825p_recover_dc_fake_fault : S → ℤ × S
  tas5825p_recover_dc_fake_fault s = write_sequence command_seq s
