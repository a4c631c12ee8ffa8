-- ===== src/Modbus.antt =====
-- svc/controller-modbus: the controller of Modbus devices. Registers and blocks of registers are
-- numbers below 2 ^ 16; texts are lists of character codes.
pub mod Types
pub mod Block
pub mod Client
pub mod Config
pub mod Register
pub mod Words
pub mod Bits
pub mod Retries
pub mod Attempts
pub mod Mapping
