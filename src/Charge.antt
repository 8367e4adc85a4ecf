-- ===== src/Charge.antt =====
-- The decision when the battery is charged: battery/charge_controller of the speaker's firmware.
pub mod Controller
pub mod Safety
pub mod Waiting
pub mod Tests
