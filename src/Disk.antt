-- ===== src/Disk.antt =====
-- The RAM disk of the boot loader, t_boot_ram_disk.c, which the USB host sees as a FAT volume. Volume holds
-- what the host reads and Host what it writes.
pub mod Volume
pub mod Host
pub mod Files
pub mod Contents
pub mod Reading
pub mod Writes
pub mod Updates
pub mod Tests
