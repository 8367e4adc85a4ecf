-- ===== src/Transport.antt =====
-- The upper layer of the link to the Bluetooth module: actionslink_bt_ul.c, which sends a message, waits
-- for its confirmation and its response, and retries. The modules are named for what they hold.
pub mod Messages
pub mod Upper
pub mod Protocol
pub mod Silence
pub mod Retry
pub mod Tests
