-- ===== src/Net.antt =====
-- scutil/net.c: the parts of the commands on the network configuration.
pub mod Values
pub mod Options
pub mod Session
pub mod Keys
mod Tests
