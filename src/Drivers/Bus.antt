-- ===== src/Drivers/Bus.antt =====
-- The I2C functions that the drivers are configured with, and what is documented of them and of a chip
-- with byte registers at consecutive addresses. The bus address of the chip is fixed.
use mynd_firmware.Prelude.{ℕ, ◌≡◌, true, false, List}
use mynd_firmware.Prelude.Memory.{Memory, load_range, store_range}
use mynd_firmware.Prelude.Int.{ℤ, is_zero, is_nonneg}

-- `i2c_read` is given a register and a length, `i2c_write` a register and bytes; `S` is the state of the
-- bus with the chip.
pub record Bus (S : Type 0) : Type 0 where
  pub i2c_read : ℕ → ℕ → S → ℤ × List ℕ × S
  pub i2c_write : ℕ → List ℕ → S → ℤ × S

-- `registers` shows what was written to the chip. Both functions return 0 or a negative number; a read leaves the
-- registers as they are, and so does a write that fails. This is what a transfer does to plain registers, and
-- not what those do that reset the chip or report its state; of these a theorem says only what is written.
pub record IsRegisters {S : Type 0} (bus : Bus S) (registers : S → Memory) : Type 0 where
  pub read_result :
      (r n : ℕ) (s : S) → is_nonneg (bus.i2c_read r n s).0 ≡ is_zero (bus.i2c_read r n s).0
  pub write_result :
      (r : ℕ) (bs : List ℕ) (s : S)
      → is_nonneg (bus.i2c_write r bs s).0 ≡ is_zero (bus.i2c_write r bs s).0
  pub read_bytes :
      (r n : ℕ) (s : S)
      → is_nonneg (bus.i2c_read r n s).0 ≡ true
      → (bus.i2c_read r n s).1 ≡ load_range (registers s) r n
  pub read_keeps : (r n : ℕ) (s : S) → registers (bus.i2c_read r n s).2 ≡ registers s
  pub write_stores :
      (r : ℕ) (bs : List ℕ) (s : S)
      → is_nonneg (bus.i2c_write r bs s).0 ≡ true
      → registers (bus.i2c_write r bs s).1 ≡ store_range (registers s) r bs
  pub write_fails :
      (r : ℕ) (bs : List ℕ) (s : S)
      → is_nonneg (bus.i2c_write r bs s).0 ≡ false
      → registers (bus.i2c_write r bs s).1 ≡ registers s

-- Every transfer succeeds.
pub record NeverFails {S : Type 0} (bus : Bus S) : Type 0 where
  pub reads : (r n : ℕ) (s : S) → is_zero (bus.i2c_read r n s).0 ≡ true
  pub writes : (r : ℕ) (bytes : List ℕ) (s : S) → is_zero (bus.i2c_write r bytes s).0 ≡ true
