-- ===== src/Nwi.antt =====
-- The network state (`nwi_state`): libsystem_configuration/network_state_information_priv.c
-- and the inline functions of network_state_information_priv.h.
pub mod State
pub mod Flags
pub mod Lookup
pub mod Entries
pub mod New
pub mod Add
pub mod Diff
pub mod Generations
mod Tests
