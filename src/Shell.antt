-- ===== src/Shell.antt =====
-- scutil/: the interactive shell on the dynamic store.
pub mod Scan
pub mod State
pub mod Dictionary
pub mod Session
pub mod Cache
pub mod Line
pub mod Table
pub mod Stdin
pub mod Commands
pub mod Libraries
mod Tests
