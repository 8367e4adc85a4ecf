-- ===== src/Drivers/Controls.antt =====
-- The functions of the two amplifiers' drivers by what they change, and that they succeed when the bus does.
use mynd_firmware.Prelude.{
  ℕ, ◌<◌, ◌≡◌, refl, Bool, true, false, List, [], ◌∷◌, get_or, if◌then◌else◌, arith,
}
use Prim.Native.Nat.{bit_and}
use mynd_firmware.Prelude.Bits.{complement, modified}
use mynd_firmware.Prelude.Int.{ℤ, pos}
use mynd_firmware.Drivers.Bus.{Bus, NeverFails}
use mynd_firmware.Drivers.Volume.{tasxxxx_volume_get_data_for_db}
use mynd_firmware.Drivers.Tas.{
  modify_in, modify_register, write_register, set_dsp_memory_to_book_and_page, write_bytes,
}
use mynd_firmware.Drivers.Tas
use mynd_firmware.Drivers.Tas5805m
use mynd_firmware.Drivers.Tas5825p

-- The functions that change some digits of a register of the first page.
pub data Control : Type 0 where
  enable_dsp enable_eq enable_drc mute : Bool → Control
  set_state : Tas5805m.DeviceState → Control

abbrev pub reg_of : Control → ℕ
reg_of (enable_dsp b) = 0x03
reg_of (enable_eq b) = 0x66
reg_of (enable_drc b) = 0x66
reg_of (mute b) = 0x03
reg_of (set_state st) = 0x03

abbrev pub mask_of : Control → ℕ
mask_of (enable_dsp b) = 0x10
mask_of (enable_eq b) = 0x01
mask_of (enable_drc b) = 0x02
mask_of (mute b) = 0x08
mask_of (set_state st) = 0x03

-- The equalizer and the processor are switched off by 1.
abbrev pub value_of : Control → ℕ
value_of (enable_dsp b) = if b then 0 else 0x10
value_of (enable_eq b) = if b then 0 else 0x01
value_of (enable_drc b) = if b then 0x02 else 0
value_of (mute b) = if b then 0x08 else 0
value_of (set_state st) = Tas5805m.state_bits st

module _ {S : Type 0} (bus : Bus S) where
  abbrev pub run_control : Control → S → ℤ × S
  run_control (enable_dsp b) s = Tas5805m.tas5805m_enable_dsp bus b s
  run_control (enable_eq b) s = Tas5805m.tas5805m_enable_eq bus b s
  run_control (enable_drc b) s = Tas5805m.tas5805m_enable_drc bus b s
  run_control (mute b) s = Tas5805m.tas5805m_mute bus b s
  run_control (set_state st) s = Tas5805m.tas5805m_set_state bus st s

pub control_bounds : (c : Control) → (0 < reg_of c) × (reg_of c < 0x7f) × (mask_of c < 256)
control_bounds (enable_dsp on) = omega arith
control_bounds (enable_eq on) = omega arith
control_bounds (enable_drc on) = omega arith
control_bounds (mute on) = omega arith
control_bounds (set_state st) = omega arith

-- The value is within the mask, as tas5805m_modify_register asks for.
pub control_masked : (c : Control) → bit_and (complement (mask_of c)) (value_of c) ≡ 0
control_masked (enable_dsp true) = refl
control_masked (enable_dsp false) = refl
control_masked (enable_eq true) = refl
control_masked (enable_eq false) = refl
control_masked (enable_drc true) = refl
control_masked (enable_drc false) = refl
control_masked (mute true) = refl
control_masked (mute false) = refl
control_masked (set_state Tas5805m.deep_sleep) = refl
control_masked (set_state Tas5805m.sleep) = refl
control_masked (set_state Tas5805m.hi_z) = refl
control_masked (set_state Tas5805m.play) = refl

pub run_control-eq :
    {S : Type 0} (bus : Bus S) (c : Control) (s : S)
    → run_control bus c s ≡ modify_in bus 0 0 (reg_of c) (mask_of c) (value_of c) s
unfolding Tas5805m.tas5805m_enable_dsp Tas5805m.tas5805m_enable_eq Tas5805m.tas5805m_enable_drc
    Tas5805m.tas5805m_mute Tas5805m.tas5805m_set_state
run_control-eq bus (enable_dsp on) s = refl
run_control-eq bus (enable_eq on) s = refl
run_control-eq bus (enable_drc on) s = refl
run_control-eq bus (mute on) s = refl
run_control-eq bus (set_state st) s = refl

module _ {S : Type 0} (bus : Bus S) (never : NeverFails bus) where
  write_bytes_succeeds :
      (reg : ℕ) (bytes : List ℕ) (s : S) → (write_bytes bus reg bytes s).0 ≡ pos 0
  unfolding write_bytes
  write_bytes_succeeds reg bytes s = ground (arith, never.writes reg bytes s)

  selecting_succeeds : (b p : ℕ) (s : S) → (set_dsp_memory_to_book_and_page bus b p s).0 ≡ pos 0
  unfolding set_dsp_memory_to_book_and_page write_register
  selecting_succeeds b p s =
      let s1 = (write_bytes bus 0 (0 ∷ []) s).1 in
      let s2 = (write_bytes bus 0x7f (b ∷ []) s1).1 in
      ground (
        arith,
        write_bytes_succeeds 0 (0 ∷ []) s,
        write_bytes_succeeds 0x7f (b ∷ []) s1,
        write_bytes_succeeds 0 (p ∷ []) s2,
      )

  pub modify_in_succeeds :
      (b p reg mask value : ℕ) (s : S)
      → bit_and (complement mask) value ≡ 0
      → (modify_in bus b p reg mask value s).0 ≡ pos 0
  unfolding modify_in modify_register Tas.read_register write_register
  modify_in_succeeds b p reg mask value s within =
      let t = (set_dsp_memory_to_book_and_page bus b p s).1 in
      let r = bus.i2c_read reg 1 t in
      ground (
        arith,
        within,
        selecting_succeeds b p s,
        never.reads reg 1 t,
        write_bytes_succeeds reg (modified (get_or r.1 0 0) mask value ∷ []) r.2,
      )

-- The two amplifiers, and where each keeps the gains of its channels.
pub data Amplifier : Type 0 where
  tas5805m tas5825p : Amplifier

abbrev pub volume_page : Amplifier → ℕ
volume_page tas5805m = 0x2a
volume_page tas5825p = 0x0b

abbrev pub volume_reg : Amplifier → ℕ
volume_reg tas5805m = 0x24
volume_reg tas5825p = 0x0c

module _ {S : Type 0} (bus : Bus S) where
  abbrev pub set_volume : Amplifier → ℤ → S → ℤ × S
  set_volume tas5805m volume_db s = Tas5805m.tas5805m_set_volume bus volume_db s
  set_volume tas5825p volume_db s = Tas5825p.tas5825p_set_volume bus volume_db s

pub set_volume_succeeds :
    {S : Type 0} (bus : Bus S) (never : NeverFails bus) (amp : Amplifier) (volume_db : ℤ) (s : S)
    → (set_volume bus amp volume_db s).0 ≡ pos 0
unfolding Tas5805m.tas5805m_set_volume Tas5825p.tas5825p_set_volume
set_volume_succeeds bus never tas5805m volume_db s =
    let gains = tasxxxx_volume_get_data_for_db volume_db in
    let selected = set_dsp_memory_to_book_and_page bus 0x8c 0x2a s in
    let left = write_bytes bus 0x24 gains selected.1 in
    ground (
      arith,
      selecting_succeeds bus never 0x8c 0x2a s,
      write_bytes_succeeds bus never 0x24 gains selected.1,
      write_bytes_succeeds bus never 0x28 gains left.1,
    )
set_volume_succeeds bus never tas5825p volume_db s =
    let gains = tasxxxx_volume_get_data_for_db volume_db in
    let selected = set_dsp_memory_to_book_and_page bus 0x8c 0x0b s in
    let left = write_bytes bus 0x0c gains selected.1 in
    ground (
      arith,
      selecting_succeeds bus never 0x8c 0x0b s,
      write_bytes_succeeds bus never 0x0c gains selected.1,
      write_bytes_succeeds bus never 0x10 gains left.1,
    )
