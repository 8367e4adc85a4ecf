-- ===== src/Led.antt =====
-- The light-emitting diodes of the speaker: libs/IEngine, whose engines leds.cpp runs.
pub mod Pattern
pub mod Engine
pub mod Shows
pub mod Rounds
pub mod Resets
pub mod Commands
pub mod Programs
pub mod Ending
pub mod Frames
pub mod RgbFrames
pub mod Calls
pub mod Tests
