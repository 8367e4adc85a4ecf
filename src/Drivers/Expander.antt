-- ===== src/Drivers/Expander.antt =====
-- The driver of the AW9523B port expander, aw9523b.c, for a handle that is not null. The optional mutex is
-- left out: the driver is called by one task at a time. Ports and pins are numbers.
use Prim.Native.Nat.{bit_and, bit_or}
use mynd_firmware.Prelude.{
  ℕ, ◌+◌, ◌-◌, ◌/◌, ◌%◌, ◌^◌, Bool, ◌||◌, not, List, [], ◌∷◌, ◌==◌, ltb, leb, get_or, if◌then◌else◌,
}
use mynd_firmware.Prelude.Bits.{complement, modified}
use mynd_firmware.Prelude.Int.{ℤ, pos, negsuc, is_nonneg}
use mynd_firmware.Drivers.Bus.{Bus}

-- REG_…, the register of port 0 and of port 1
abbrev pub reg_input_port : ℕ → ℕ
reg_input_port port = if port == 0 then 0x00 else 0x01

abbrev pub reg_output_port : ℕ → ℕ
reg_output_port port = if port == 0 then 0x02 else 0x03

abbrev pub reg_config_port : ℕ → ℕ
reg_config_port port = if port == 0 then 0x04 else 0x05

abbrev pub reg_int_port : ℕ → ℕ
reg_int_port port = if port == 0 then 0x06 else 0x07

abbrev pub reg_led_mode_switch : ℕ → ℕ
reg_led_mode_switch port = if port == 0 then 0x12 else 0x13

abbrev pub reg_gcr : ℕ
reg_gcr = 0x11

abbrev pub reg_software_reset : ℕ
reg_software_reset = 0x7f

-- -E_AW9523B_PARAM and -E_AW9523B_IO
abbrev pub param_error : ℤ
param_error = negsuc 0

abbrev pub io_error : ℤ
io_error = negsuc 1

-- The fields of `struct aw9523b_handler` that change.
pub record Handler : Type 0 where
  pub port0_cached : ℕ
  pub port1_cached : ℕ

abbrev pub is_valid_port : ℕ → Bool
is_valid_port port = (port == 0) || (port == 1)

-- `!is_valid_port(port) || pin > 7`
abbrev pub is_invalid_pin : ℕ → ℕ → Bool
is_invalid_pin port pin = not (is_valid_port port) || ltb 7 pin

-- The register that dims a pin.
unfoldable pub dimming_register : ℕ → ℕ → ℕ
dimming_register port pin =
    if port == 0 then 0x24 + pin else if leb pin 3 then 0x20 + pin else 0x2c + pin - 4

-- The handle of aw9523b_init, when the configuration is complete.
unfoldable pub aw9523b_init : Handler
aw9523b_init = record { port0_cached = 0; port1_cached = 0 }

-- `value ? cached | (1 << pin) : cached & ~(1 << pin)`
abbrev pub with_pin : ℕ → ℕ → Bool → ℕ
with_pin cached pin value =
    if value then bit_or cached (2 ^ pin) else bit_and cached (complement (2 ^ pin))

module _ {S : Type 0} (bus : Bus S) where
  -- A write whose failure is reported as an I/O error.
  unfoldable pub checked_write : ℕ → List ℕ → S → ℤ × S
  checked_write reg bytes s =
      let w = bus.i2c_write reg bytes s in (if is_nonneg w.0 then pos 0 else io_error, w.1)

  unfoldable pub rmw_reg : ℕ → ℕ → ℕ → S → ℤ × S
  rmw_reg reg mask value s =
      let r = bus.i2c_read reg 1 s in
      if is_nonneg r.0
      then checked_write reg (modified (get_or r.1 0 0) mask value ∷ []) r.2
      else (io_error, r.2)

  unfoldable pub aw9523b_software_reset : S → ℤ × S
  aw9523b_software_reset s = checked_write reg_software_reset (0 ∷ []) s

  unfoldable pub aw9523b_set_port0 : Bool → S → ℤ × S
  aw9523b_set_port0 push_pull s =
      if push_pull then checked_write reg_gcr (0x10 ∷ []) s else (pos 0, s)

  -- For a mode of the enumeration: LED, or GPIO.
  unfoldable pub aw9523b_config_port : ℕ → ℕ → Bool → S → ℤ × S
  aw9523b_config_port port pin_mask gpio s =
      if is_valid_port port
      then rmw_reg (reg_led_mode_switch port) pin_mask (if gpio then pin_mask else 0) s
      else (param_error, s)

  unfoldable pub aw9523b_set_direction : ℕ → ℕ → Bool → S → ℤ × S
  aw9523b_set_direction port pin_mask input s =
      if is_valid_port port
      then rmw_reg (reg_config_port port) pin_mask (if input then pin_mask else 0) s
      else (param_error, s)

  unfoldable pub aw9523b_port_interrupt_enable : ℕ → ℕ → S → ℤ × S
  aw9523b_port_interrupt_enable port pin_mask s =
      if is_valid_port port then rmw_reg (reg_int_port port) pin_mask 0 s else (param_error, s)

  unfoldable pub aw9523b_port_interrupt_disable : ℕ → ℕ → S → ℤ × S
  aw9523b_port_interrupt_disable port pin_mask s =
      if is_valid_port port then rmw_reg (reg_int_port port) pin_mask 0xff s else (param_error, s)

  unfoldable pub aw9523b_read_port : ℕ → S → ℤ × List ℕ × S
  aw9523b_read_port port s =
      if is_valid_port port then bus.i2c_read (reg_input_port port) 1 s else (param_error, [], s)

  unfoldable pub aw9523b_write_pin : ℕ → ℕ → Bool → S → ℤ × S
  aw9523b_write_pin port pin value s =
      if is_invalid_pin port pin
      then (param_error, s)
      else rmw_reg (reg_output_port port) (2 ^ pin) (if value then 2 ^ pin else 0) s

  unfoldable pub aw9523b_read_pin : ℕ → ℕ → S → ℤ × S
  aw9523b_read_pin port pin s =
      let r = bus.i2c_read (reg_input_port port) 1 s in
      if is_invalid_pin port pin
      then (param_error, s)
      else if is_nonneg r.0
      then (pos (get_or r.1 0 0 / 2 ^ pin % 2), r.2)
      else (io_error, r.2)

  unfoldable pub aw9523b_write_pin_cache : ℕ → ℕ → Bool → Handler → S → ℤ × Handler × S
  aw9523b_write_pin_cache port pin value h s =
      if is_invalid_pin port pin
      then (param_error, h, s)
      else if port == 0
      then (let cached = with_pin h.port0_cached pin value in
          let w = checked_write (reg_output_port 0) (cached ∷ []) s in
          (w.0, record h { port0_cached = cached }, w.1))
      else (let cached = with_pin h.port1_cached pin value in
          let w = checked_write (reg_output_port 1) (cached ∷ []) s in
          (w.0, record h { port1_cached = cached }, w.1))

  unfoldable pub aw9523b_set_dimming : ℕ → ℕ → ℕ → S → ℤ × S
  aw9523b_set_dimming port pin value s =
      if is_invalid_pin port pin
      then (param_error, s)
      else checked_write (dimming_register port pin) (value ∷ []) s

  unfoldable pub aw9523b_set_dimming_multi : ℕ → ℕ → List ℕ → S → ℤ × S
  aw9523b_set_dimming_multi port pin values s =
      if is_invalid_pin port pin
      then (param_error, s)
      else checked_write (dimming_register port pin) values s

  unfoldable pub aw9523b_set_current : ℕ → S → ℤ × S
  aw9523b_set_current value s = rmw_reg reg_gcr 3 value s

-- `(data >> pin) & 0x1` of the cache
unfoldable pub aw9523b_read_pin_cache : ℕ → ℕ → Handler → ℤ
aw9523b_read_pin_cache port pin h =
    if is_invalid_pin port pin
    then param_error
    else pos ((if port == 0 then h.port0_cached else h.port1_cached) / 2 ^ pin % 2)
