-- ===== src/Power.antt =====
-- The power states of the speaker: libs/power/power.h and tasks/system/task_system.cpp.
pub mod State
pub mod System
pub mod Safety
pub mod Idle
pub mod Tests
