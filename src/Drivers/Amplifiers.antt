-- ===== src/Drivers/Amplifiers.antt =====
-- What the functions of the two amplifiers' drivers leave in the registers.
use mynd_firmware.Prelude.{
  ℕ, ◌+◌, ◌-◌, ◌≤◌, ◌<◌, ◌≡◌, ◌⊎◌, sym, ap, ◌∙◌, true, inl, inr, ◌&&◌, List, ◌++◌, length, get_or,
  get_or-append_left, get_or-append_right, ◌==◌, leb, ltb, if◌then◌else◌, arith,
}
use mathlib.Core.Path.{subst}
use mynd_firmware.Prelude.Memory.{Memory, store_range-eq}
use mynd_firmware.Prelude.Int.{ℤ, pos, negsuc, is_zero}
use mynd_firmware.Drivers.Bus.{Bus, NeverFails}
use mynd_firmware.Drivers.Volume.{tasxxxx_volume_get_data_for_db}
use mynd_firmware.Drivers.Gains.{is_at_most, gain_monotone}
use mynd_firmware.Drivers.Tas.{modify_in, set_dsp_memory_to_book_and_page, write_bytes}
use mynd_firmware.Drivers.Tas5805m
use mynd_firmware.Drivers.Tas5825p
use mynd_firmware.Drivers.Paged.{IsPaged, selects, ChangesDigits, modify_in-ChangesDigits}
use mynd_firmware.Drivers.Controls.{
  Control, reg_of, mask_of, value_of, run_control, control_bounds, control_masked, run_control-eq,
  Amplifier, tas5805m, tas5825p, volume_page, volume_reg, set_volume, set_volume_succeeds,
  modify_in_succeeds,
}

doubled :
    (d : List ℕ) (k : ℕ)
    → length d ≡ 4
    → get_or (d ++ d) k 0 ≡ (if ltb k 4 then get_or d k 0 else get_or d (k - 4) 0)
doubled d k four = elim (split k) [
  | inl h ↦ ground (arith, h, four, get_or-append_left d d k 0)
  | inr h ↦
      (let e : k ≡ length d + (k - 4) = omega (arith, four, h) in
        ground (arith, h, ap (λ i. get_or (d ++ d) i 0) e, get_or-append_right d d (k - 4) 0))
]
  where
    split : (k : ℕ) → (k < 4) ⊎ (4 ≤ k)
    split k = omega arith

at_most_itself : (a : ℤ) → is_at_most a a ≡ true
at_most_itself (pos n) = ground arith
at_most_itself (negsuc n) = ground arith

module _ {S : Type 0} (bus : Bus S) (book page : S → ℕ) (registers : S → ℕ → ℕ → Memory)
    (laws : IsPaged bus book page registers) where
  control_changes :
      (c : Control) (s : S) (b p a j : ℕ)
      → j < 8
      → is_zero (run_control bus c s).0 ≡ true
      → ChangesDigits bus book page registers laws
          (reg_of c)
          (mask_of c)
          (value_of c)
          s
          (run_control bus c s).1
          b
          p
          a
          j
  control_changes c s b p a j k h =
      let e = run_control-eq bus c s in
      let h' : is_zero (modify_in bus 0 0 (reg_of c) (mask_of c) (value_of c) s).0 ≡ true =
        ap (λ o. is_zero o.0) (sym e) ∙ h in
      let r = control_bounds c in
      subst
        (λ o.
          ChangesDigits bus book page registers laws (reg_of c) (mask_of c) (value_of c) s o.1 b p a
            j)
        (sym e)
        (modify_in-ChangesDigits bus book page registers laws (reg_of c) (mask_of c) (value_of c) s
          b p a j r.0 r.1 r.2 k h')

  -- Two transfers of four bytes, one behind the other, into the book and page that are selected.
  stereo :
      (b p r : ℕ) (bytes : List ℕ) (s : S) (b' p' a : ℕ)
      → length bytes ≡ 4
      → 0 < r
      → r < 0x70
      → let selected = set_dsp_memory_to_book_and_page bus b p s in
        let left = write_bytes bus r bytes selected.1 in
        let right = write_bytes bus (r + 4) bytes left.1 in
        is_zero selected.0 ≡ true
        → is_zero left.0 ≡ true
        → is_zero right.0 ≡ true
        → registers right.1 b' p' a ≡ (
            if (b' == b) && (p' == p) && leb r a && ltb a (r + 8)
            then get_or (bytes ++ bytes) (a - r) 0
            else registers s b' p' a)
  unfolding write_bytes
  stereo b p r bytes s b' p' a four low high h0 h1 h2 =
      let selected = (set_dsp_memory_to_book_and_page bus b p s).1 in
      let left = (bus.i2c_write r bytes selected).1 in
      let at = selects bus book page registers laws b p s h0 in
      let l =
        laws.write_registers r bytes selected b' p' a low (omega (arith, high))
          (omega (arith, four, high)) (ground (arith, h1)) in
      let w =
        laws.write_registers (r + 4) bytes left b' p' a (omega arith) (omega (arith, high))
          (omega (arith, four, high)) (ground (arith, h2)) in
      let old : registers selected b' p' a ≡ registers s b' p' a = ap (λ f. f b' p' a) at.2 in
      ground (
        arith,
        four,
        at.0,
        at.1,
        old,
        l,
        w,
        store_range-eq (registers selected b' p') r bytes a,
        store_range-eq (registers left b' p') (r + 4) bytes a,
        doubled bytes (a - r) four,
      )

  data_length : (volume_db : ℤ) → length (tasxxxx_volume_get_data_for_db volume_db) ≡ 4
  data_length volume_db = (gain_monotone volume_db volume_db (at_most_itself volume_db)).1

  volume_written :
      (amp : Amplifier) (volume_db : ℤ) (s : S) (b p a : ℕ)
      → is_zero (set_volume bus amp volume_db s).0 ≡ true
      → let gains = tasxxxx_volume_get_data_for_db volume_db in
        registers (set_volume bus amp volume_db s).1 b p a ≡ (
          if (b == 0x8c)
            && (p == volume_page amp)
            && leb (volume_reg amp) a
            && ltb a (volume_reg amp + 8)
          then get_or (gains ++ gains) (a - volume_reg amp) 0
          else registers s b p a)
  unfolding Tas5805m.tas5805m_set_volume Tas5825p.tas5825p_set_volume
  volume_written tas5805m volume_db s b p a h =
      let gains = tasxxxx_volume_get_data_for_db volume_db in
      let selected = set_dsp_memory_to_book_and_page bus 0x8c 0x2a s in
      let left = write_bytes bus 0x24 gains selected.1 in
      let all : (is_zero selected.0 ≡ true)
          × (is_zero left.0 ≡ true)
          × (is_zero (write_bytes bus 0x28 gains left.1).0 ≡ true) =
        ground (arith, h) in
      ground (
        arith,
        all,
        stereo 0x8c 0x2a 0x24 gains s b p a (data_length volume_db) (omega arith) (omega arith)
            all.0 all.1 all.2,
      )
  volume_written tas5825p volume_db s b p a h =
      let gains = tasxxxx_volume_get_data_for_db volume_db in
      let selected = set_dsp_memory_to_book_and_page bus 0x8c 0x0b s in
      let left = write_bytes bus 0x0c gains selected.1 in
      let all : (is_zero selected.0 ≡ true)
          × (is_zero left.0 ≡ true)
          × (is_zero (write_bytes bus 0x10 gains left.1).0 ≡ true) =
        ground (arith, h) in
      ground (
        arith,
        all,
        stereo 0x8c 0x0b 0x0c gains s b p a (data_length volume_db) (omega arith) (omega arith)
            all.0 all.1 all.2,
      )

  -- On a bus on which every transfer succeeds, a switch of the TAS5805M returns 0, and a digit of any register
  -- in any book and page is then the value's where it is one of the switch in its register of the first page,
  -- and else as it was, whatever book and page were selected before.
  pub run_control-ChangesDigits :
      (c : Control) (s : S) (b p a j : ℕ)
      → NeverFails bus
      → j < 8
      → ((run_control bus c s).0 ≡ pos 0)
        × ChangesDigits bus book page registers laws
            (reg_of c)
            (mask_of c)
            (value_of c)
            s
            (run_control bus c s).1
            b
            p
            a
            j
  run_control-ChangesDigits c s b p a j never k =
      let done =
        ap (λ o. o.0) (run_control-eq bus c s)
        ∙ modify_in_succeeds bus never 0 0 (reg_of c) (mask_of c) (value_of c) s
            (control_masked c) in
      (done, control_changes c s b p a j k (ap is_zero done))

  -- On a bus on which every transfer succeeds, setting the volume of either amplifier returns 0. The eight
  -- registers of the two channels, in their book and page, then hold the gain of the volume twice, and every
  -- other register is as it was, whatever book and page were selected before.
  pub set_volume-registers :
      (amp : Amplifier) (volume_db : ℤ) (s : S) (b p a : ℕ)
      → NeverFails bus
      → let gains = tasxxxx_volume_get_data_for_db volume_db in
        ((set_volume bus amp volume_db s).0 ≡ pos 0)
        × (registers (set_volume bus amp volume_db s).1 b p a ≡ (
            if (b == 0x8c)
              && (p == volume_page amp)
              && leb (volume_reg amp) a
              && ltb a (volume_reg amp + 8)
            then get_or (gains ++ gains) (a - volume_reg amp) 0
            else registers s b p a))
  set_volume-registers amp volume_db s b p a never =
      let done = set_volume_succeeds bus never amp volume_db s in
      (done, volume_written amp volume_db s b p a (ap is_zero done))
