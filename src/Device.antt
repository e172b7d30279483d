-- ===== src/Device.antt =====
-- The device nodes of the target, as the firmware sees them.
pub mod Os
pub mod Sim
