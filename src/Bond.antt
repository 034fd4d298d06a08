-- ===== src/Bond.antt =====
-- SystemConfiguration/BondConfiguration.c: bonds, which are interfaces made of member interfaces.
pub mod State
pub mod Update
pub mod Members
pub mod Interface
mod Tests
