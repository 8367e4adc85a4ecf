-- ===== src/Drivers/Pins.antt =====
-- What the port expander's driver does to the digits of the registers, through a bus that keeps the promises of
-- IsRegisters, and to the cached pins.
use mynd_firmware.Prelude.{
  ℕ, ◌-◌, ◌^◌, ◌<◌, ◌≡◌, Bool, true, false, ◌&&◌, [], ◌∷◌, ◌==◌, Bool-cases, inl, inr, get_or,
  if◌then◌else◌, arith,
}
use Prim.Native.Nat.{min, max}
use mynd_firmware.Prelude.Bits.{bit, bit-zero, bit_le, modified, bit-modified}
use mynd_firmware.Prelude.Memory.{Memory, store, load_range, store_range}
use mynd_firmware.Prelude.Int.{ℤ, pos, is_nonneg}
use mynd_firmware.Drivers.Bus.{Bus, IsRegisters}
use mynd_firmware.Drivers.Expander.{
  Handler, checked_write, rmw_reg, is_invalid_pin, param_error, reg_output_port, aw9523b_write_pin,
  reg_led_mode_switch, reg_config_port, reg_int_port, aw9523b_config_port, aw9523b_set_direction,
  aw9523b_port_interrupt_enable, aw9523b_port_interrupt_disable, aw9523b_write_pin_cache,
  aw9523b_read_pin_cache, with_pin,
}
use mynd_firmware.Drivers.PinDigits.{bit-power, power_bound, with_pin_digit, ones}

module _ {S : Type 0} (bus : Bus S) (registers : S → Memory)
    (laws : IsRegisters bus registers) where
  checked_write_lem :
      (reg v : ℕ) (s : S)
      → let out = checked_write bus reg (v ∷ []) s in
        registers out.1 ≡ (if is_nonneg out.0 then store (registers s) reg v else registers s)
  unfolding checked_write store_range
  checked_write_lem reg v s =
      ground (arith, laws.write_stores reg (v ∷ []) s, laws.write_fails reg (v ∷ []) s)

  rmw_reg_lem :
      (reg mask value : ℕ) (s : S)
      → let out = rmw_reg bus reg mask value s in
        registers out.1 ≡ (
          if is_nonneg out.0
          then store (registers s) reg (modified (registers s reg) mask value)
          else registers s)
  unfolding rmw_reg load_range
  rmw_reg_lem reg mask value s =
      let r = bus.i2c_read reg 1 s in
      let v = modified (get_or r.1 0 0) mask value in
      ground (arith, laws.read_bytes reg 1 s, laws.read_keeps reg 1 s, checked_write_lem reg v r.2)

  rmw_reg_digit :
      (reg mask value : ℕ) (s : S) (r j : ℕ)
      → mask < 256
      → j < 8
      → let out = rmw_reg bus reg mask value s in
        bit j (registers out.1 r) ≡ (
          if is_nonneg out.0 && (reg == r)
          then max (min (bit j (registers s r)) (1 - bit j mask)) (bit j value)
          else bit j (registers s r))
  rmw_reg_digit reg mask value s r j h k =
      ground (arith, rmw_reg_lem reg mask value s, bit-modified j (registers s reg) mask value k h)

  -- A port and a pin that are not the chip's are refused without a transfer.
  pub write_pin_refused :
      (port pin : ℕ) (value : Bool) (s : S)
      → is_invalid_pin port pin ≡ true
      → aw9523b_write_pin bus port pin value s ≡ (param_error, s)
  unfolding aw9523b_write_pin
  write_pin_refused port pin value s h = ground (arith, h)

  -- A digit of any register after a pin was written: if the call succeeds, it is the value where it is
  -- the digit of the pin in the output register of the port; else it is as it was. A call that fails
  -- changes nothing.
  pub write_pin_digit :
      (port pin : ℕ) (value : Bool) (s : S) (r j : ℕ)
      → j < 8
      → let out = aw9523b_write_pin bus port pin value s in
        bit j (registers out.1 r) ≡ (
          if is_nonneg out.0 && (reg_output_port port == r) && (j == pin)
          then (if value then 1 else 0)
          else bit j (registers s r))
  unfolding aw9523b_write_pin
  write_pin_digit port pin true s r j h = elim (Bool-cases (is_invalid_pin port pin)) [
    | inl e ↦ ground (arith, e)
    | inr e ↦
        (let k : pin < 8 = ground (arith, e) in
          ground (
            arith,
            e,
            bit_le j (registers s r),
            bit-power j pin h k,
            rmw_reg_digit (reg_output_port port) (2 ^ pin) (2 ^ pin) s r j (power_bound pin k) h,
          ))
  ]
  write_pin_digit port pin false s r j h = elim (Bool-cases (is_invalid_pin port pin)) [
    | inl e ↦ ground (arith, e)
    | inr e ↦
        (let k : pin < 8 = ground (arith, e) in
          ground (
            arith,
            e,
            bit_le j (registers s r),
            bit-zero j,
            bit-power j pin h k,
            rmw_reg_digit (reg_output_port port) (2 ^ pin) 0 s r j (power_bound pin k) h,
          ))
  ]

  masked_digit :
      (reg mask : ℕ) (high : Bool) (s : S) (r j : ℕ)
      → mask < 256
      → j < 8
      → let out = rmw_reg bus reg mask (if high then mask else 0) s in
        bit j (registers out.1 r) ≡ (
          if is_nonneg out.0 && (reg == r) && (bit j mask == 1)
          then (if high then 1 else 0)
          else bit j (registers s r))
  masked_digit reg mask true s r j h k =
      ground (arith, bit_le j mask, bit_le j (registers s r), rmw_reg_digit reg mask mask s r j h k)
  masked_digit reg mask false s r j h k = ground (
    arith,
    bit_le j mask,
    bit_le j (registers s r),
    bit-zero j,
    rmw_reg_digit reg mask 0 s r j h k,
  )

  -- A digit of a register after a call that sets or clears the pins of a mask in one register.
  unfoldable pub SetsPins : ℕ → ℕ → Bool → S → ℤ × S → ℕ → ℕ → Type 0
  SetsPins reg mask high s out r j = bit j (registers out.1 r) ≡ (
      if is_nonneg out.0 && (reg == r) && (bit j mask == 1)
      then (if high then 1 else 0)
      else bit j (registers s r))

  -- A digit of any register after a call that sets the mode or the direction or enables the interrupts
  -- of the pins of a mask: if the call succeeds, it is set or cleared where the mask has it in the
  -- register of the port; else it is as it was. A call that fails changes nothing.
  pub masked_pins :
      (port mask : ℕ) (high : Bool) (s : S) (r j : ℕ)
      → mask < 256
      → j < 8
      → SetsPins
          (reg_led_mode_switch port)
          mask
          high
          s
          (aw9523b_config_port bus port mask high s)
          r
          j
        × SetsPins
            (reg_config_port port)
            mask
            high
            s
            (aw9523b_set_direction bus port mask high s)
            r
            j
        × SetsPins
            (reg_int_port port)
            mask
            false
            s
            (aw9523b_port_interrupt_enable bus port mask s)
            r
            j
  unfolding SetsPins aw9523b_config_port aw9523b_set_direction aw9523b_port_interrupt_enable
  masked_pins port mask high s r j h k = (
    ground (arith, masked_digit (reg_led_mode_switch port) mask high s r j h k),
    ground (arith, masked_digit (reg_config_port port) mask high s r j h k),
    ground (arith, masked_digit (reg_int_port port) mask false s r j h k),
  )

  -- Whatever the mask is, a call that disables interrupts sets all digits of the interrupt register of
  -- the port if it succeeds, and none if it fails.
  interrupts_disabled :
      (port mask : ℕ) (s : S) (j : ℕ)
      → mask < 256
      → j < 8
      → let out = aw9523b_port_interrupt_disable bus port mask s in
        bit j (registers out.1 (reg_int_port port))
        ≡ (if is_nonneg out.0 then 1 else bit j (registers s (reg_int_port port)))
  unfolding aw9523b_port_interrupt_disable
  interrupts_disabled port mask s j h k = ground (
    arith,
    bit_le j mask,
    bit_le j (registers s (reg_int_port port)),
    ones j k,
    rmw_reg_digit (reg_int_port port) mask 255 s (reg_int_port port) j h k,
  )

  -- For pins of the chip: after a write, the cache gives the value for that pin, and for any other
  -- what it gave before. The output register of the port then holds the cached byte if the transfer
  -- succeeds, and no register changes if it fails.
  pub write_pin_cache-read_pin_cache :
      (port pin : ℕ) (value : Bool) (h : Handler) (s : S) (port' pin' : ℕ)
      → is_invalid_pin port pin ≡ false
      → is_invalid_pin port' pin' ≡ false
      → let out = aw9523b_write_pin_cache bus port pin value h s in
        (aw9523b_read_pin_cache port' pin' out.1 ≡ (
          if (port == port') && (pin == pin')
          then pos (if value then 1 else 0)
          else aw9523b_read_pin_cache port' pin' h))
        × (registers out.2 ≡ (
            if is_nonneg out.0
            then store
                (registers s)
                (reg_output_port port)
                (if port == 0 then out.1.port0_cached else out.1.port1_cached)
            else registers s))
  unfolding aw9523b_write_pin_cache aw9523b_read_pin_cache
  write_pin_cache-read_pin_cache port pin value h s port' pin' k k' = (
    let a : pin < 8 = ground (arith, k) in
        let b : pin' < 8 = ground (arith, k') in
        ground (
          arith,
          k,
          k',
          with_pin_digit h.port0_cached pin value pin' a b,
          with_pin_digit h.port1_cached pin value pin' a b,
        ),
    ground (
      arith,
      k,
      checked_write_lem (reg_output_port port)
          (with_pin (if port == 0 then h.port0_cached else h.port1_cached) pin value) s,
    ),
  )
