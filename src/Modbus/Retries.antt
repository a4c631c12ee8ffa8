-- ===== src/Modbus/Retries.antt =====
-- svc/controller-modbus/src/modbus.rs: what the success of `set` means.
