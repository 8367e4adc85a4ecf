-- ===== src/Dfu.antt =====
-- The t-boot library of the boot loader: t_boot_dfu.c and t_boot_encryption.c. NonSequential to Placement are about its non-sequential mode.
pub mod Vigenere
pub mod Decode
pub mod Code
pub mod Types
pub mod Sequential
pub mod Safety
pub mod States
pub mod Faults
pub mod Chunks
pub mod Image
pub mod NonSequential
pub mod Offsets
pub mod Flash
pub mod Placement
pub mod PlacementTests
pub mod Tests
