-- ===== src/Button.antt =====
-- The button handler: button_handler.c, which turns the state of the buttons, polled, into press, release,
-- repeated-press and hold events. The modules are named for what they hold.
pub mod Types
pub mod Handler
pub mod Lengths
pub mod Tests
