-- ===== src/Dfu/Image.antt =====
-- A whole firmware update in the sequential mode of t_boot_dfu.c: the packets of a well-formed image,
-- from the first to the last, against the data that they carry.
use mathlib.Core.List.{reverse, reverse-cons}
use mynd_firmware.Prelude.{
  ℕ, suc, ◌≤◌, ◌<◌, ◌≡◌, refl, sym, ap, ◌∙◌, some, List, [], ◌∷◌, ◌++◌, append_assoc, append-nil,
  arith, length, map, All,
}
use mynd_firmware.Prelude.Memory.{Memory}
use mynd_firmware.Dfu.Types.{
  Target, Config, chunk_size, packet_type, packet_init, packet_fw_header, header_product_type,
  header_product_id, header_component_id, number_of_dfu_components, flags_encryption, fw_chunks,
  fw_size, find_target,
}
use mynd_firmware.Dfu.Sequential.{
  Boot, wait_init, finished, receive_init, receive_fw_header, dispatch,
  t_boot_dfu_sequential_process_chunk,
}
use mynd_firmware.Dfu.Safety.{flashed}
use mynd_firmware.Dfu.Faults.{run}
use mynd_firmware.Dfu.Chunks.{
  Works, plain_of, Receiving, Between, written_after, AreChunks, run_chunks,
}

-- One component of an image: its target, the payloads of its chunks, and the packets that carry them.
pub record Part : Type 0 where
  pub target : Target
  pub first : List ℕ
  pub more : List (List ℕ)
  pub header : Memory × ℕ
  pub chunks : List (Memory × ℕ)

abbrev pub payloads : Part → List (List ℕ)
payloads p = p.first ∷ p.more

abbrev pub packets_of : List Part → List (Memory × ℕ)
packets_of [] = []
packets_of (p ∷ parts) = p.header ∷ (p.chunks ++ packets_of parts)

module _ (config : Config) where
  run-append :
      (s : Boot) (xs ys : List (Memory × ℕ))
      → run config s (xs ++ ys) ≡ run config (run config s xs) ys
  unfolding run
  run-append s [] ys = refl
  run-append s (x ∷ xs) ys =
      run-append (t_boot_dfu_sequential_process_chunk config s x.0 x.1).1 xs ys

  module _ (encryption : ℕ) where
    -- The header names a target of the configuration, which works, and announces the number of the
    -- chunks that follow, below 65535, and a size that is not 0.
    pub record IsPart (p : Part) : Type 0 where
      pub works : Works p.target
      pub small : p.header.1 ≤ chunk_size
      pub is_header : packet_type p.header.0 ≡ packet_fw_header
      pub named : find_target config.targets (header_component_id p.header.0) ≡ some p.target
      pub counted : fw_chunks p.header.0 ≡ length (payloads p)
      pub bounded : length (payloads p) < 65535
      pub sized : 0 < fw_size p.header.0
      pub carried : AreChunks config 1 (payloads p) p.chunks

    fw_header-Receiving :
        (s : Boot) (p : Part) (left : ℕ) (fl : List (ℕ × List ℕ))
        → IsPart p
        → Between config encryption (suc left) fl s
        → Receiving config p.target encryption
            (suc left)
            (length (payloads p))
            1
            fl
            (t_boot_dfu_sequential_process_chunk config s p.header.0 p.header.1).1
    unfolding t_boot_dfu_sequential_process_chunk dispatch receive_fw_header
    fw_header-Receiving s p left fl h b =
        ground (arith, h.small, h.is_header, h.named, h.counted, h.sized, b)

    run_part :
        (known : encryption < 2) (s : Boot) (p : Part) (left : ℕ) (fl : List (ℕ × List ℕ))
        → (h : IsPart p) → left < 255
        → Between config encryption (suc left) fl s
        → Between config encryption left
            (written_after config p.target encryption (payloads p) fl)
            (run config s (p.header ∷ p.chunks))
    unfolding run
    run_part known s p left fl h l b =
        run_chunks config p.target h.works encryption known p.first p.more p.chunks
          (t_boot_dfu_sequential_process_chunk config s p.header.0 p.header.1).1 1 left
          (length (payloads p)) fl h.carried (fw_header-Receiving s p left fl h b) (omega arith)
          h.bounded l

    -- The data of an image in the order in which it is to be written, chunk by chunk, decrypted.
    abbrev pub image_data : List Part → List (ℕ × List ℕ)
    image_data [] = []
    image_data (p ∷ parts) =
        map (λ payload. (p.target.component_id, plain_of config encryption payload)) (payloads p)
        ++ image_data parts

    reverse-written_after :
        (t : Target) (ps : List (List ℕ)) (fl : List (ℕ × List ℕ))
        → reverse (written_after config t encryption ps fl)
          ≡ reverse fl ++ map (λ payload. (t.component_id, plain_of config encryption payload)) ps
    reverse-written_after t [] fl = sym (append-nil (reverse fl))
    reverse-written_after t (p ∷ ps) fl =
        let e : ℕ × List ℕ = (t.component_id, plain_of config encryption p) in
        reverse-written_after t ps (e ∷ fl)
        ∙ ap (λ l. l ++ map (λ payload. (t.component_id, plain_of config encryption payload)) ps)
            (reverse-cons e fl)
        ∙ append_assoc (reverse fl) (e ∷ [])
            (map (λ payload. (t.component_id, plain_of config encryption payload)) ps)

    run_parts :
        (known : encryption < 2) (parts : List Part) (s : Boot) (fl : List (ℕ × List ℕ))
        → All IsPart parts
        → length parts < 256
        → Between config encryption (length parts) fl s
        → ((run config s (packets_of parts)).state ≡ finished)
          × (reverse (flashed (run config s (packets_of parts)).log)
              ≡ reverse fl ++ image_data parts)
    unfolding run
    run_parts known [] s fl h n b = (b.state, ap reverse b.written ∙ sym (append-nil (reverse fl)))
    run_parts known (p ∷ parts) s fl h n b =
        let s' = run config s (p.header ∷ p.chunks) in
        let fl' = written_after config p.target encryption (payloads p) fl in
        let rest =
          run_parts known parts s' fl' h.1 (omega arith)
            (run_part known s p (length parts) fl h.0 (omega arith) b) in
        let e = run-append s (p.header ∷ p.chunks) (packets_of parts) in
        (
          ap (λ r. r.state) e ∙ rest.0,
          ap (λ r. reverse (flashed r.log)) e
              ∙ rest.1
              ∙ ap (λ l. l ++ image_data parts) (reverse-written_after p.target (payloads p) fl)
              ∙ append_assoc (reverse fl)
                  (map (λ payload. (p.target.component_id, plain_of config encryption payload))
                    (payloads p))
                  (image_data parts),
        )

    -- The first packet of an image: of the product, with this encryption, for `n` components.
    pub record IsInit (n : ℕ) (p : Memory × ℕ) : Type 0 where
      pub small : p.1 ≤ chunk_size
      pub is_init : packet_type p.0 ≡ packet_init
      pub of_type : header_product_type p.0 ≡ config.product_type
      pub of_product : header_product_id p.0 ≡ config.product_id
      pub counts : number_of_dfu_components p.0 ≡ n
      pub encrypts : flags_encryption p.0 ≡ encryption

    init-Between :
        (s : Boot) (p : Memory × ℕ) (n : ℕ)
        → s.state ≡ wait_init
        → IsInit (suc n) p
        → Between config encryption
            (suc n)
            (flashed s.log)
            (t_boot_dfu_sequential_process_chunk config s p.0 p.1).1
    unfolding t_boot_dfu_sequential_process_chunk dispatch receive_init
    init-Between s p n e h = ground (arith, h)

    -- A whole update. Take an image of one to 255 components for this product, unencrypted or in
    -- Vigenère's cipher, whose packets are well formed (at most 512 bytes each; every header names a
    -- target whose write and verify succeed, a size that is not 0 and its number of chunks, from 1 to
    -- 65534; the chunks are numbered from 1 and have their CRC). Processed in order in the initial
    -- state, its packets finish the update, and the targets have been handed exactly the decrypted data
    -- of all chunks, in the order of the image, behind what they had been handed before.
    pub run_image :
        (s : Boot) (init : Memory × ℕ) (part : Part) (parts : List Part)
        → encryption < 2
        → s.state ≡ wait_init
        → IsInit (length (part ∷ parts)) init
        → All IsPart (part ∷ parts)
        → length (part ∷ parts) < 256
        → let s' = run config s (init ∷ packets_of (part ∷ parts)) in
          (s'.state ≡ finished)
          × (reverse (flashed s'.log) ≡ reverse (flashed s.log) ++ image_data (part ∷ parts))
    unfolding run
    run_image s init part parts known e i h n =
        run_parts known (part ∷ parts)
          (t_boot_dfu_sequential_process_chunk config s init.0 init.1).1 (flashed s.log) h n
          (init-Between s init (length parts) e i)
