-- ===== src/Drivers/Variables.antt =====
-- What is read back from the virtual EEPROM.
use mynd_firmware.Prelude.{
  All, ℕ, zero, suc, ◌+◌, ◌%◌, ◌≤◌, ◌<◌, ◌≡◌, ◌≢◌, ◌⊎◌, refl, sym, ap, ap₂, ◌∙◌, true, Bool-cases,
  inl, inr, ◌&&◌, List, [], ◌∷◌, length, ◌==◌, arith,
}
use mathlib.Core.Path.{subst}
use mathlib.Core.List.{Memᴰ}
use mynd_firmware.Prelude.Words.{u16_mod}
use mynd_firmware.Prelude.Int.{ℤ, pos, negsuc, is_zero}
use mynd_firmware.Drivers.Eeprom.{
  Emulation, veeprom_address_write, write_from, veeprom_address_write_buffer,
  veeprom_address_read_buffer,
}

-- What the emulation promises of the virtual addresses that its table VirtAddVarTab lists, of which 0xFFFF is
-- none: a variable that was written without an error is read back, another variable that was found keeps its
-- value, and the lock of the flash does not touch them. Of other addresses it promises nothing: a transfer to the
-- other page of the flash drops them.
pub record KeepsVariables {S : Type 0} (ee : Emulation S) (table : List ℕ) : Type 0 where
  pub allowed : All (λ (a : ℕ). a < 0xffff) table
  pub locked : (a : ℕ) (s : S) → ee.ee_read a (ee.flash_lock s) ≡ ee.ee_read a s
  pub unlocked : (a : ℕ) (s : S) → ee.ee_read a (ee.flash_unlock s) ≡ ee.ee_read a s
  pub reads_back :
      (a v : ℕ) (s : S)
      → Memᴰ a table
      → is_zero (ee.ee_write a v s).0 ≡ true
      → ee.ee_read a (ee.ee_write a v s).1 ≡ (pos 0, v)
  pub keeps_others :
      (a b v w : ℕ) (s : S)
      → Memᴰ a table
      → Memᴰ b table
      → is_zero (ee.ee_write a v s).0 ≡ true
      → a ≢ b
      → ee.ee_read b s ≡ (pos 0, w)
      → ee.ee_read b (ee.ee_write a v s).1 ≡ (pos 0, w)

is_zero-pos : (x : ℤ) → is_zero x ≡ true → x ≡ pos 0
is_zero-pos (pos zero) h = refl
is_zero-pos (pos (suc n)) h = absurd (ground (arith, h))
is_zero-pos (negsuc n) h = absurd (ground (arith, h))

module _ {S : Type 0} (ee : Emulation S) (table : List ℕ) (laws : KeepsVariables ee table) where
  -- A call finds the value, or writes it.
  write_cases :
      (a v : ℕ) (s : S)
      → let written = ee.ee_write a v (ee.flash_unlock s) in
        ((ee.ee_read a s ≡ (pos 0, v)) × (veeprom_address_write ee a v s ≡ (pos 0, s)))
        ⊎ (veeprom_address_write ee a v s ≡ (written.0, ee.flash_lock written.1))
  unfolding veeprom_address_write
  write_cases a v s =
      let tmp = ee.ee_read a s in
      elim (Bool-cases (is_zero tmp.0 && tmp.1 == v)) [
        | inl e ↦
            (let both : (is_zero tmp.0 ≡ true) × (tmp.1 ≡ v) = ground (arith, e) in
              inl (ap₂ (λ x y. (x, y)) (is_zero-pos tmp.0 both.0) both.1, rw (e) refl))
        | inr e ↦ inr (rw (e) refl)
      ]

  write_reads_back :
      (a v : ℕ) (s : S)
      → Memᴰ a table
      → is_zero (veeprom_address_write ee a v s).0 ≡ true
      → ee.ee_read a (veeprom_address_write ee a v s).1 ≡ (pos 0, v)
  write_reads_back a v s listed h = elim (write_cases a v s) [
    | inl (there, e) ↦ ap (λ o. ee.ee_read a o.1) e ∙ there
    | inr e ↦
        (ap (λ o. ee.ee_read a o.1) e
          ∙ laws.locked a (ee.ee_write a v (ee.flash_unlock s)).1
          ∙ laws.reads_back a v (ee.flash_unlock s) listed (ap (λ o. is_zero o.0) (sym e) ∙ h))
  ]

  write_keeps_others :
      (a b v w : ℕ) (s : S)
      → Memᴰ a table
      → Memᴰ b table
      → is_zero (veeprom_address_write ee a v s).0 ≡ true
      → a ≢ b
      → ee.ee_read b s ≡ (pos 0, w)
      → ee.ee_read b (veeprom_address_write ee a v s).1 ≡ (pos 0, w)
  write_keeps_others a b v w s listed listed' h apart found = elim (write_cases a v s) [
    | inl (there, e) ↦ ap (λ o. ee.ee_read b o.1) e ∙ found
    | inr e ↦
        (ap (λ o. ee.ee_read b o.1) e
          ∙ laws.locked b (ee.ee_write a v (ee.flash_unlock s)).1
          ∙ laws.keeps_others a b v w (ee.flash_unlock s) listed listed'
              (ap (λ o. is_zero o.0) (sym e) ∙ h) apart (laws.unlocked b s ∙ found))
  ]

  -- A value that is there already is not written.
  write_again :
      (a v : ℕ) (s : S) → ee.ee_read a s ≡ (pos 0, v) → veeprom_address_write ee a v s ≡ (pos 0, s)
  unfolding veeprom_address_write
  write_again a v s h =
      let e : (is_zero (ee.ee_read a s).0 && (ee.ee_read a s).1 == v) ≡ true =
        rw (h) (ground arith) in
      rw (e) refl

  -- The addresses from one on are listed.
  abbrev pub AreListed : ℕ → List ℕ → Type 0
  AreListed addr [] = Unit
  AreListed addr (value ∷ values) = Memᴰ (addr % u16_mod) table × AreListed (addr + 1) values

  -- The variables from an address on.
  abbrev Holds : ℕ → List ℕ → S → Type 0
  Holds addr [] s = Unit
  Holds addr (value ∷ values) s =
      (ee.ee_read (addr % u16_mod) s ≡ (pos 0, value)) × Holds (addr + 1) values s

  write_from_succeeds :
      (addr value : ℕ) (values : List ℕ) (s : S)
      → is_zero (write_from ee addr (value ∷ values) s).0 ≡ true
      → let one = veeprom_address_write ee (addr % u16_mod) value s in
        (is_zero one.0 ≡ true)
        × (write_from ee addr (value ∷ values) s ≡ write_from ee (addr + 1) values one.1)
  unfolding write_from
  write_from_succeeds addr value values s h =
      let one = veeprom_address_write ee (addr % u16_mod) value s in
      elim (Bool-cases (is_zero one.0)) [
        | inl e ↦ (e, rw (e, write_from) refl)
        | inr e ↦ absurd (ground (arith, e, h))
      ]

  -- Writing keeps the variables below.
  write_from_keeps :
      (addr : ℕ) (values : List ℕ) (s : S) (b w : ℕ)
      → AreListed addr values
      → Memᴰ (b % u16_mod) table
      → is_zero (write_from ee addr values s).0 ≡ true
      → addr + length values ≤ u16_mod
      → b < addr
      → ee.ee_read (b % u16_mod) s ≡ (pos 0, w)
      → ee.ee_read (b % u16_mod) (write_from ee addr values s).1 ≡ (pos 0, w)
  unfolding write_from
  write_from_keeps addr [] s b w listed listed' h n k found = found
  write_from_keeps addr (value ∷ values) s b w listed listed' h n k found =
      let one = veeprom_address_write ee (addr % u16_mod) value s in
      let both = write_from_succeeds addr value values s h in
      let rest : is_zero (write_from ee (addr + 1) values one.1).0 ≡ true =
        ap (λ o. is_zero o.0) (sym both.1) ∙ h in
      ap (λ o. ee.ee_read (b % u16_mod) o.1) both.1
      ∙ write_from_keeps (addr + 1) values one.1 b w listed.1 listed' rest (omega (arith, n))
          (omega (arith, k))
          (write_keeps_others (addr % u16_mod) (b % u16_mod) value w s listed.0 listed' both.0
            (λ e. omega (arith, e, k, n)) found)

  write_from-Holds :
      (addr : ℕ) (values : List ℕ) (s : S)
      → AreListed addr values
      → is_zero (write_from ee addr values s).0 ≡ true
      → addr + length values ≤ u16_mod
      → Holds addr values (write_from ee addr values s).1
  unfolding write_from
  write_from-Holds addr [] s listed h n = tt
  write_from-Holds addr (value ∷ values) s listed h n =
      let one = veeprom_address_write ee (addr % u16_mod) value s in
      let both = write_from_succeeds addr value values s h in
      let rest : is_zero (write_from ee (addr + 1) values one.1).0 ≡ true =
        ap (λ o. is_zero o.0) (sym both.1) ∙ h in
      (
        ap (λ o. ee.ee_read (addr % u16_mod) o.1) both.1
            ∙ write_from_keeps (addr + 1) values one.1 addr value listed.1 listed.0 rest
                (omega (arith, n)) (omega arith)
                (write_reads_back (addr % u16_mod) value s listed.0 both.0),
        subst (λ o. Holds (addr + 1) values o.1) (sym both.1)
            (write_from-Holds (addr + 1) values one.1 listed.1 rest (omega (arith, n))),
      )

  read_buffer-Holds :
      (addr : ℕ) (values : List ℕ) (s : S)
      → Holds addr values s
      → veeprom_address_read_buffer ee addr (length values) s ≡ (pos 0, values)
  unfolding veeprom_address_read_buffer
  read_buffer-Holds addr [] s h = refl
  read_buffer-Holds addr (value ∷ values) s h =
      rw (h.0, read_buffer-Holds (addr + 1) values s h.1) refl

  write_from-again :
      (addr : ℕ) (values : List ℕ) (s : S)
      → Holds addr values s
      → write_from ee addr values s ≡ (pos 0, s)
  unfolding write_from
  write_from-again addr [] s h = refl
  write_from-again addr (value ∷ values) s h =
      rw (write_again (addr % u16_mod) value s h.0) (write_from-again (addr + 1) values s h.1)

  -- If values were written without an error to addresses that the table of the emulation lists, not past the last
  -- address, then reading as many variables gives them without an error, and writing them again returns 0 without
  -- touching the flash.
  pub write_buffer-read_buffer :
      (addr : ℕ) (values : List ℕ) (s : S)
      → AreListed addr values
      → addr + length values ≤ u16_mod
      → is_zero (veeprom_address_write_buffer ee addr values s).0 ≡ true
      → let t = (veeprom_address_write_buffer ee addr values s).1 in
        (veeprom_address_read_buffer ee addr (length values) t ≡ (pos 0, values))
        × (veeprom_address_write_buffer ee addr values t ≡ (pos 0, t))
  unfolding veeprom_address_write_buffer
  write_buffer-read_buffer addr values s listed n h =
      let t = (write_from ee addr values s).1 in
      let held = write_from-Holds addr values s listed h n in
      (read_buffer-Holds addr values t held, write_from-again addr values t held)
