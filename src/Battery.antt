-- ===== src/Battery.antt =====
-- The battery task of the speaker: src/battery.
pub mod Temperature
pub mod Indicator
pub mod Voltage
pub mod PollState
pub mod Poll
pub mod PollLaws
pub mod Charging
pub mod Tests
