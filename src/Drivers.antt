-- ===== src/Drivers.antt =====
-- The drivers of the chips on the I2C bus. The modules are named for the chips, and Bus for what they share.
pub mod Bus
pub mod Expander
pub mod PinDigits
pub mod Pins
pub mod Volume
pub mod Tas
pub mod Tas5805m
pub mod Tas5825p
pub mod Gains
pub mod Commands
pub mod Loading
pub mod Paged
pub mod Controls
pub mod Amplifiers
pub mod Tests
pub mod AmplifierTests
pub mod Eeprom
pub mod Variables
pub mod Charger
pub mod Limits
pub mod MoreTests
