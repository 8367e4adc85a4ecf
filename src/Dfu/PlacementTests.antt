-- ===== src/Dfu/PlacementTests.antt =====
-- The non-sequential mode of the boot loader at concrete inputs: two chunks, the second one first.
use mynd_firmware.Prelude.{ℕ, refl, true, false, none, [], ◌∷◌, arith, length, All, get_or}
use mynd_firmware.Prelude.Memory.{Memory, load_range}
use mynd_firmware.Dfu.Types.{Target, Config, find_target}
use mynd_firmware.Dfu.Chunks.{Works}
use mynd_firmware.Dfu.NonSequential.{Scattered}
use mynd_firmware.Dfu.Placement.{Piece, run_scattered, IsCarried, IsPlaced, run_scattered-IsPlaced}

abbrev pub speaker : Target
speaker = record {
  component_id = 1;
  has_prepare = true;
  has_write = true;
  has_init = true;
  has_verify = true;
  writes = λ log bs offset. true;
  verifies = λ log. true;
}

pub speaker-Works : Works speaker
speaker-Works = record { write_succeeds = λ log bs offset. refl; verify_succeeds = λ log. refl }

-- The length stands in for the CRC.
abbrev pub config : Config
config = record {
  targets = speaker ∷ [];
  has_update_start = true;
  has_update_successful = true;
  has_update_error = true;
  has_update_progress = true;
  has_update_component_done = true;
  crc_compute = λ bs. length bs;
  key = [];
  product_type = 0;
  product_id = 0;
}

abbrev pub fresh : Scattered
fresh = record {
  p_current_dfu_target = none;
  fw_status = [];
  bytes_in_chunk = 0;
  number_of_components = 0;
  update_start_callback_called = false;
  log = [];
}

-- A chunk of two bytes.
abbrev pub chunk : ℕ → ℕ → ℕ → ℕ → Memory
chunk component number a b i =
    get_or
      (0xfe ∷ 0xca ∷ 0xef ∷ 0xbe ∷ 2 ∷ component ∷ number ∷ 0 ∷ 2 ∷ 0 ∷ 0 ∷ 0 ∷ 2 ∷ 0 ∷ 0 ∷ 0 ∷ a
        ∷ b ∷ [])
      i 0

abbrev pub front : Piece
front = record { index = 0; bytes = 5 ∷ 6 ∷ []; packet = (chunk 1 1 5 6, 18) }

abbrev pub back : Piece
back = record { index = 1; bytes = 7 ∷ 8 ∷ []; packet = (chunk 1 2 7 8, 18) }

pub front-IsCarried : IsCarried config speaker speaker-Works (λ i. 255) 2 front
unfolding find_target load_range
front-IsCarried = record {
  intact = record { small = omega arith; is_data = refl; crc = refl };
  targeted = refl;
  numbered = refl;
  carries = refl;
  fits = omega arith;
  reaches = omega arith;
  counted = omega arith;
}

pub back-IsCarried : IsCarried config speaker speaker-Works (λ i. 255) 2 back
unfolding find_target load_range
back-IsCarried = record {
  intact = record { small = omega arith; is_data = refl; crc = refl };
  targeted = refl;
  numbered = refl;
  carries = refl;
  fits = omega arith;
  reaches = omega arith;
  counted = omega arith;
}

run_scattered-IsPlaced_example :
    All
      (IsPlaced config speaker speaker-Works
        (λ i. 255)
        2
        (run_scattered config fresh (back ∷ front ∷ [])))
      (back ∷ front ∷ [])
run_scattered-IsPlaced_example =
    run_scattered-IsPlaced config speaker speaker-Works (λ i. 255) 2 back (front ∷ []) fresh
      (back-IsCarried, (front-IsCarried, tt)) (((λ e. omega (arith, e)), tt), (tt, tt))
      (omega arith) refl refl
