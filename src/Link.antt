-- ===== src/Link.antt =====
-- actionslink_bt_ll.c: the low layer of the link to the Bluetooth module.
pub mod Crc8
pub mod Packet
pub mod Tx
pub mod Rx
pub mod Escape
pub mod TxLaws
pub mod RxLaws
pub mod Checked
pub mod RoundTrip
pub mod RxSafety
pub mod Tests
