-- ===== src/Lib.antt =====
-- Verification library of the Mynd firmware: the speaker's link to its Bluetooth module, its buttons, the
-- drivers of its chips, its diodes, its battery, its power states, and the firmware update of its boot loader.
--
-- Parts, and where they are modelled:
-- - Link: the low layer of the link, Projects/Mynd/external/teufel/libs/actionslink/src/transport/
--   actionslink_bt_ll.c. Link/Packet has its types and its static state `m_bt_ll` (LowLayer), Link/Crc8 the
--   checksum, Link/Tx the transmission with its framing in place, and Link/Rx the reception, byte by byte.
--   Link/Escape, TxLaws, RxLaws, Checked, RoundTrip and RxSafety hold the proofs.
-- - Transport: the upper layer, actionslink_bt_ul.c in the same directory, over the low layer.
--   Transport/Messages has `m_bt_ul` and `m_message` (UpperLayer), Transport/Upper the functions;
--   Protocol, Silence and Retry hold the proofs. A call of the receiver takes what has arrived on the line
--   and the ticks that it reads (Poll).
-- - Button: Projects/Mynd/external/teufel/drivers/input_handlers/button/button_handler.c, in Button/Types
--   (the context of one button, Button) and Button/Handler; Lengths holds the proofs.
-- - Dfu: Projects/MyndBootloader/external/teufel/libs/t-boot/src/bootloader/dfu/t_boot_dfu.c, in its
--   sequential mode (Dfu/Types, Dfu/Code and Dfu/Sequential, with the context `m_boot` as Boot) and in its
--   non-sequential mode, which the speaker is built with (Dfu/NonSequential, with `t_boot_ctx` and the rest
--   as Scattered), and encryption/t_boot_encryption.c beside it (Dfu/Vigenere, and Dfu/Decode for
--   the decoder into a second buffer). Safety, States, Faults, Chunks and Image hold the proofs on the first
--   mode; Offsets, Flash and Placement those on the second.
-- - Disk: Projects/MyndBootloader/external/teufel/libs/t-boot/src/bootloader/ram_disk/t_boot_ram_disk.c, the
--   volume that the USB host reads (Disk/Volume, with its static data as Disk) and writes the firmware to
--   (Disk/Host, over the update as a parameter). Files, Contents and Reading hold the proofs on the files,
--   Writes those on the writes, and Updates puts the writes together with the two modes of the update.
-- - Drivers: the chips on the I2C bus and the virtual EEPROM, Projects/Mynd/external/teufel/drivers. Bus has
--   the functions that a driver is configured with; Expander is aw9523b/aw9523b.c, Volume
--   tasxxxx_volume_table/tasxxxx_volume_table.c, Tas, Tas5805m and Tas5825p the two amplifiers'
--   tas5805m/tas5805m.c and tas5825p/tas5825p.c, Charger bq25713/bq25713.c, and Eeprom
--   STM32_vEEPROM/virtual_eeprom.c. PinDigits, Pins, Gains, Commands, Loading, Paged, Controls, Amplifiers,
--   Limits and Variables hold the proofs.
-- - Charge: Projects/Mynd/src/battery/charge_controller/charge_controller.h and .cpp, the decision when the
--   battery is charged. Charge/Controller has ChargeController with its counters and the calls that it makes;
--   Safety and Waiting hold the proofs.
-- - Battery: the battery task around it, Projects/Mynd/src/battery. PollState and Poll are battery.cpp's `poll`
--   with everything that it calls, Voltage its buffer of samples, Temperature temperature/temperature.cpp, and
--   Indicator battery_indicator/battery_indicator.cpp. `poll` calls the controller of Charge and the filters of
--   Core. PollLaws and Charging hold the proofs on `poll`.
-- - Core: the filters of Projects/Mynd/external/teufel/libs/core_utils, with their proofs: Hysteresis, Ewma,
--   Debouncer and Monitor are the headers of these names.
-- - Led: the indication engine, Projects/Mynd/external/teufel/libs/IEngine. Pattern has the snippets and the
--   patterns (PatternSnippet.h, pattern/generic, pattern/dblink, and leds/pattern/generic_rgb of
--   Projects/Mynd/src), Engine the state machine of IndicationEngine.h over the patterns in memory. Shows says
--   what it is to show frames; Rounds, Resets, Commands, Programs, Ending, Frames, RgbFrames and Calls hold the
--   proofs.
-- - Power: Power/State is Projects/Mynd/external/teufel/libs/power/power.h, Power/System the handlers of the power
--   states, the idle timer and the messages of Projects/Mynd/src/tasks/system/task_system.cpp. Safety and Idle
--   hold the proofs.
-- - Prelude: the names the others share; buffers as functions from addresses to bytes (Memory), machine
--   words with their wrap-around (Words), binary digits (Bits), signed results (Int), lists and Boolean tests.
--
-- Functions keep their names. A function of C that reads static state takes it as an argument and returns
-- it changed; calls into the environment are recorded in it, as frames handed over (LowLayer.written),
-- callbacks (Button.calls) or events (Boot.log), actions (Battery.actions) or effects (System.effects).
-- Loops are structural recursion, over the bytes that arrive, the polls that are made, or the bytes of a
-- buffer. Only the loop over an amplifier's configuration is on fuel, one round more than it has entries, of
-- which every round uses one at least. The loops that wait for the peer take the polls as a list and give
-- `none` when it is used up.
--
-- Parameters stand for the code that a part calls and that is not modelled: nanopb's encoder and decoder
-- (Codec, with its documented promises in IsCodec), the functions of the configuration, the handlers of
-- messages, the update targets, the CRC unit of the boot loader, the I2C functions with the chip behind them
-- (Bus, with IsRegisters for plain registers and IsPaged for books and pages), and the copy of ST's emulation
-- of an EEPROM (Emulation, with KeepsVariables for the addresses that its table lists). Of these, the
-- application's I2C functions, its update targets, the glue of the CRC unit and ST's copy are in the tree.
-- What the battery task reads of the converter, of the driver and of the floating-point estimates is an
-- argument of a call (Reading), and so is what the system task reads of the other tasks (Surroundings).
--
-- Not modelled: signatures, which are not built; the requests, events and API above the link; the driver of
-- the USB-PD controller; the board links, leds.cpp, and the audio and Bluetooth tasks; whatever computes in floating
-- point (the state of charge, the current, ntc_voltage_to_temperature, PatternFade); the code of the engine for
-- a single diode; the initialisation of the battery and system tasks; null handles, mutexes and logging. In
-- Button and in `poll` the tick does not advance within one call. A read behind the end of a buffer gives what
-- the memory holds there, and is no fault of the model.
pub mod Prelude
pub mod Link
pub mod Transport
pub mod Button
pub mod Dfu
pub mod Disk
pub mod Drivers
pub mod Charge
pub mod Core
pub mod Battery
pub mod Led
pub mod Power
