-- ===== src/Drivers/Paged.antt =====
-- The amplifiers' registers in books and pages, and what the drivers make of them.
use mynd_firmware.Prelude.{
  ℕ, ◌+◌, ◌-◌, ◌≤◌, ◌<◌, ◌≡◌, ap, true, ◌&&◌, List, [], ◌∷◌, length, get_or, ◌==◌, if◌then◌else◌,
  arith,
}
use Prim.Native.Nat.{min, bit_and}
use mynd_firmware.Prelude.Bits.{
  bit, bit-zero, bit_le, complement, modified, bit-bit_and, bit-complement, bit-modified,
}
use mynd_firmware.Prelude.Memory.{Memory, store_range}
use mynd_firmware.Prelude.Int.{is_zero}
use mynd_firmware.Drivers.Bus.{Bus}
use mynd_firmware.Drivers.Tas
use mynd_firmware.Drivers.Tas.{
  write_bytes, write_register, modify_register, set_dsp_memory_to_book_and_page, modify_in,
}

-- What the comments of set_dsp_memory_to_book_and_page say of the chip: register 0 of every page is the
-- page, register 0x7f of page 0 of every book is the book. Transfers between the two reach the registers of
-- the book and page that are selected. A transfer has succeeded when its result is 0. `registers` is what was
-- written, also of registers that act on a write, such as the reset and the clearing of faults.
pub record IsPaged {S : Type 0} (bus : Bus S) (book page : S → ℕ) (registers : S → ℕ → ℕ → Memory)
    : Type 0 where
  pub write_page :
      (v : ℕ) (s : S)
      → is_zero (bus.i2c_write 0 (v ∷ []) s).0 ≡ true
      → let t = (bus.i2c_write 0 (v ∷ []) s).1 in
        (page t ≡ v) × (book t ≡ book s) × (registers t ≡ registers s)
  pub write_book :
      (v : ℕ) (s : S)
      → page s ≡ 0
      → is_zero (bus.i2c_write 0x7f (v ∷ []) s).0 ≡ true
      → let t = (bus.i2c_write 0x7f (v ∷ []) s).1 in
        (page t ≡ 0) × (book t ≡ v) × (registers t ≡ registers s)
  pub write_registers :
      (r : ℕ) (bytes : List ℕ) (s : S) (b p a : ℕ)
      → 0 < r
      → r < 0x7f
      → r + length bytes ≤ 0x7f
      → is_zero (bus.i2c_write r bytes s).0 ≡ true
      → let t = (bus.i2c_write r bytes s).1 in
        (page t ≡ page s)
        × (book t ≡ book s)
        × (registers t b p a ≡ (
            if (b == book s) && (p == page s)
            then store_range (registers s b p) r bytes a
            else registers s b p a))
  pub read_register :
      (r : ℕ) (s : S)
      → 0 < r
      → r < 0x7f
      → is_zero (bus.i2c_read r 1 s).0 ≡ true
      → let out = bus.i2c_read r 1 s in
        (out.1 ≡ registers s (book s) (page s) r ∷ [])
        × (page out.2 ≡ page s)
        × (book out.2 ≡ book s)
        × (registers out.2 ≡ registers s)

module _ {S : Type 0} (bus : Bus S) (book page : S → ℕ) (registers : S → ℕ → ℕ → Memory)
    (laws : IsPaged bus book page registers) where
  pub selects :
      (b p : ℕ) (s : S)
      → is_zero (set_dsp_memory_to_book_and_page bus b p s).0 ≡ true
      → let t = (set_dsp_memory_to_book_and_page bus b p s).1 in
        (page t ≡ p) × (book t ≡ b) × (registers t ≡ registers s)
  unfolding set_dsp_memory_to_book_and_page write_register write_bytes
  selects b p s h =
      let s1 = (bus.i2c_write 0 (0 ∷ []) s).1 in
      let s2 = (bus.i2c_write 0x7f (b ∷ []) s1).1 in
      ground (arith, h, laws.write_page 0 s, laws.write_book b s1, laws.write_page p s2)

  modifies :
      (reg mask value : ℕ) (s : S) (b p a : ℕ)
      → 0 < reg
      → reg < 0x7f
      → is_zero (modify_register bus reg mask value s).0 ≡ true
      → let t = (modify_register bus reg mask value s).1 in
        (bit_and (complement mask) value ≡ 0)
        × (registers t b p a ≡ (
            if (b == book s) && (p == page s) && (reg == a)
            then modified (registers s b p a) mask value
            else registers s b p a))
  unfolding modify_register Tas.read_register write_register write_bytes store_range
  modifies reg mask value s b p a low high h =
      let r = bus.i2c_read reg 1 s in
      let v = modified (get_or r.1 0 0) mask value in
      let small : reg + length (v ∷ []) ≤ 0x7f = omega (arith, high) in
      (
        ground (arith, h),
        grind (
          arith,
          h,
          laws.read_register reg s low high,
          laws.write_registers reg (v ∷ []) r.2 b p a low high small,
        ),
      )

  -- A digit of a register in a book and page after a change that succeeds.
  unfoldable pub ChangesDigits : ℕ → ℕ → ℕ → S → S → ℕ → ℕ → ℕ → ℕ → Type 0
  ChangesDigits reg mask value s t b p a j = bit j (registers t b p a) ≡ (
      if (b == 0) && (p == 0) && (reg == a) && (bit j mask == 1)
      then bit j value
      else bit j (registers s b p a))

  pub modify_in-ChangesDigits :
      (reg mask value : ℕ) (s : S) (b p a j : ℕ)
      → 0 < reg
      → reg < 0x7f
      → mask < 256
      → j < 8
      → is_zero (modify_in bus 0 0 reg mask value s).0 ≡ true
      → ChangesDigits reg mask value s (modify_in bus 0 0 reg mask value s).1 b p a j
  unfolding modify_in ChangesDigits
  modify_in-ChangesDigits reg mask value s b p a j low high small k h =
      let selected = set_dsp_memory_to_book_and_page bus 0 0 s in
      let ready : is_zero selected.0 ≡ true = ground (arith, h) in
      let changed : is_zero (modify_register bus reg mask value selected.1).0 ≡ true =
        ground (arith, h) in
      let at = selects 0 0 s ready in
      let m = modifies reg mask value selected.1 b p a low high changed in
      let within : min (1 - bit j mask) (bit j value) ≡ 0 = omega (
        arith,
        bit-bit_and j (complement mask) value,
        bit-complement j mask k small,
        ap (bit j) m.0,
        bit-zero j,
      ) in
      let old : registers selected.1 b p a ≡ registers s b p a = ap (λ f. f b p a) at.2 in
      let whole : (modify_in bus 0 0 reg mask value s).1
          ≡ (modify_register bus reg mask value selected.1).1 =
        ground (arith, ready) in
      grind (
        arith,
        m.1,
        old,
        whole,
        at.0,
        at.1,
        within,
        bit_le j mask,
        bit_le j value,
        bit_le j (registers s b p a),
        bit-modified j (registers s b p a) mask value k small,
      )
