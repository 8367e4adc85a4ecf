-- ===== src/Core.antt =====
-- The filters of libs/core_utils that the battery and audio tasks use, and its monitor.
pub mod Hysteresis
pub mod Ewma
pub mod Debouncer
pub mod Monitor
pub mod Tests
