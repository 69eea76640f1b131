-- ===== src/System.antt =====
-- The system contract, src_system/contracts/amax.system.
pub mod Pay
pub mod Elect
