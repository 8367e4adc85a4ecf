-- ===== src/Dfu/Tests.antt =====
-- The sequential mode of the boot loader at concrete inputs: an image of one component in two chunks.
use mynd_firmware.Prelude.{
  ℕ, ◌+◌, ◌≡◌, ◌≢◌, inl, refl, true, none, some, List, [], ◌∷◌, ◌++◌, arith, All, get_or,
}
use mathlib.Core.List.{reverse}
use mynd_firmware.Prelude.Memory.{Memory, load_range}
use mynd_firmware.Dfu.Vigenere.{
  is_letter, t_boot_encryption_decode_in_place, encode_from, decode_in_place-encode,
}
use mynd_firmware.Dfu.Types.{Target, Config, find_target, fault}
use mynd_firmware.Dfu.Sequential.{
  Boot, wait_init, wait_chunk, finished, t_boot_dfu_sequential_process_chunk,
}
use mynd_firmware.Dfu.Safety.{flashed, FlashesChecked, process_chunk-FlashesChecked}
use mynd_firmware.Dfu.States.{Answers, process_chunk-Answers}
use mynd_firmware.Dfu.Faults.{Ready, process_chunk-Ready, run, run_never_finishes}
use mynd_firmware.Dfu.Chunks.{Works}
use mynd_firmware.Dfu.Image.{Part, IsPart, IsInit, packets_of, image_data, run_image}

-- Every write and verification succeeds.
abbrev speaker : Target
speaker = record {
  component_id = 1;
  has_prepare = true;
  has_write = true;
  has_init = true;
  has_verify = true;
  writes = λ log bs offset. true;
  verifies = λ log. true;
}

speaker-Works : Works speaker
speaker-Works = record { write_succeeds = λ log bs offset. refl; verify_succeeds = λ log. refl }

abbrev pub total : List ℕ → ℕ
total [] = 0
total (b ∷ bs) = b + total bs

-- The sum of the bytes stands in for the CRC unit.
abbrev pub config : Config
config = record {
  targets = speaker ∷ [];
  has_update_start = true;
  has_update_successful = true;
  has_update_error = true;
  has_update_progress = true;
  has_update_component_done = true;
  crc_compute = total;
  key = b'K' ∷ b'E' ∷ b'Y' ∷ [];
  product_type = 3;
  product_id = 5;
}

abbrev pub fresh : Boot
fresh = record {
  p_current_dfu_target = none;
  fw_size = 0;
  bytes_written = 0;
  next_chunk = 0;
  number_of_chunks = 0;
  dfu_components_left = 0;
  encryption_type = 0;
  state = wait_init;
  log = [];
}

abbrev pub memory : List ℕ → Memory
memory bs i = get_or bs i 0

abbrev pub init_packet : Memory
init_packet =
    memory (0xfe ∷ 0xca ∷ 0xef ∷ 0xbe ∷ 0 ∷ 1 ∷ 0 ∷ 0 ∷ 3 ∷ 0 ∷ 0 ∷ 0 ∷ 5 ∷ 0 ∷ 0 ∷ 0 ∷ [])

abbrev pub fw_header_packet : Memory
fw_header_packet =
    memory (0xfe ∷ 0xca ∷ 0xef ∷ 0xbe ∷ 1 ∷ 1 ∷ 2 ∷ 0 ∷ 3 ∷ 0 ∷ 0 ∷ 0 ∷ 0 ∷ 0 ∷ 0 ∷ 0 ∷ [])

abbrev pub first_chunk : Memory
first_chunk =
    memory (0xfe ∷ 0xca ∷ 0xef ∷ 0xbe ∷ 2 ∷ 0 ∷ 1 ∷ 0 ∷ 2 ∷ 0 ∷ 0 ∷ 0 ∷ 15 ∷ 0 ∷ 0 ∷ 0 ∷ 7 ∷ 8 ∷ [])

abbrev pub second_chunk : Memory
second_chunk =
    memory (0xfe ∷ 0xca ∷ 0xef ∷ 0xbe ∷ 2 ∷ 0 ∷ 2 ∷ 0 ∷ 1 ∷ 0 ∷ 0 ∷ 0 ∷ 9 ∷ 0 ∷ 0 ∷ 0 ∷ 9 ∷ [])

abbrev pub part : Part
part = record {
  target = speaker;
  first = 7 ∷ 8 ∷ [];
  more = (9 ∷ []) ∷ [];
  header = (fw_header_packet, 16);
  chunks = (first_chunk, 18) ∷ (second_chunk, 17) ∷ [];
}

pub part-IsPart : IsPart config 0 part
unfolding find_target load_range
part-IsPart = record {
  works = speaker-Works;
  small = omega arith;
  is_header = refl;
  named = refl;
  counted = refl;
  bounded = omega arith;
  sized = omega arith;
  carried = (
    record { small = omega arith; is_data = refl; number = refl; carries = refl; crc = refl },
    (record { small = omega arith; is_data = refl; number = refl; carries = refl; crc = refl }, tt),
  );
}

pub init_packet-IsInit : IsInit config 0 1 (init_packet, 16)
init_packet-IsInit = record {
  small = omega arith;
  is_init = refl;
  of_type = refl;
  of_product = refl;
  counts = refl;
  encrypts = refl;
}

run_image_example :
    let s' = run config fresh ((init_packet, 16) ∷ packets_of (part ∷ [])) in
    (s'.state ≡ finished)
    × (reverse (flashed s'.log) ≡ reverse (flashed fresh.log) ++ image_data config 0 (part ∷ []))
run_image_example =
    run_image config 0 fresh (init_packet, 16) part [] (omega arith) refl init_packet-IsInit
      (part-IsPart, tt) (omega arith)

abbrev receiving : Boot
receiving = record fresh {
  p_current_dfu_target = some speaker;
  fw_size = 3;
  next_chunk = 1;
  number_of_chunks = 2;
  dfu_components_left = 1;
  state = wait_chunk;
}

process_chunk-FlashesChecked_example :
    FlashesChecked config receiving first_chunk 18
      (t_boot_dfu_sequential_process_chunk config receiving first_chunk 18).1
process_chunk-FlashesChecked_example = process_chunk-FlashesChecked config receiving first_chunk 18

process_chunk-Answers_example :
    let out = t_boot_dfu_sequential_process_chunk config receiving first_chunk 18 in
    Answers config receiving out.0 out.1
process_chunk-Answers_example = process_chunk-Answers config receiving first_chunk 18

receiving-Ready : Ready config receiving
receiving-Ready e = ((speaker, refl), omega arith)

process_chunk-Ready_example :
    let out = t_boot_dfu_sequential_process_chunk config receiving first_chunk 18 in
    (out.0 ≢ fault) × Ready config out.1
process_chunk-Ready_example =
    process_chunk-Ready config receiving first_chunk 18 receiving-Ready (λ e. ground (arith, e))

-- A header announced 65535 chunks.
abbrev endless : Boot
endless = record receiving { number_of_chunks = 65535 }

run_never_finishes_example : (run config endless ((first_chunk, 18) ∷ [])).state ≢ finished
run_never_finishes_example =
    run_never_finishes config endless ((first_chunk, 18) ∷ []) (inl (refl, refl))

key_letters : All (λ k. is_letter k ≡ true) (b'K' ∷ b'e' ∷ b'Y' ∷ [])
unfolding is_letter
key_letters = (refl, (refl, (refl, tt)))

decode_in_place-encode_example :
    t_boot_encryption_decode_in_place
      (b'K' ∷ b'e' ∷ b'Y' ∷ [])
      (encode_from (b'K' ∷ b'e' ∷ b'Y' ∷ []) 0 (b'H' ∷ b'i' ∷ 0 ∷ b'z' ∷ []))
    ≡ b'H' ∷ b'i' ∷ 0 ∷ b'z' ∷ []
decode_in_place-encode_example =
    decode_in_place-encode (b'K' ∷ b'e' ∷ b'Y' ∷ []) (b'H' ∷ b'i' ∷ 0 ∷ b'z' ∷ []) key_letters
      (omega arith)
