-- ===== src/Dfu/Code.antt =====
-- The error codes T_BOOT_DFU_ERROR_… of t_boot_dfu.h that t_boot_dfu.c raises.
use mynd_firmware.Prelude.{ℕ}

abbrev pub packet_len : ℕ
packet_len = 1

abbrev pub product_id : ℕ
product_id = 2

abbrev pub unknown_dfu : ℕ
unknown_dfu = 3

abbrev pub crc32 : ℕ
crc32 = 5

abbrev pub chunk_num : ℕ
chunk_num = 6

abbrev pub unknown_encryption : ℕ
unknown_encryption = 8

abbrev pub state : ℕ
state = 9

abbrev pub verification : ℕ
verification = 10

abbrev pub invalid_file : ℕ
invalid_file = 11

abbrev pub write : ℕ
write = 12
