-- ===== src/Modbus.antt =====
-- xedge/drivers/modbus: the in-house Modbus stack.
pub mod Codec
pub mod Datatypes
pub mod Planner
pub mod Rtu
pub mod Scheduler
