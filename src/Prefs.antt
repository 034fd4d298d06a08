-- ===== src/Prefs.antt =====
-- scutil/prefs.c: the shell on preferences, `scutil --prefs`, and `--get`, `--set`, `--log`,
-- `--allow-new-interfaces` and `--disable-until-needed`; built without TARGET_OS_IPHONE.
pub mod State
pub mod Session
pub mod Paths
pub mod Table
pub mod Shared
pub mod Commands
pub mod Names
pub mod Disable
pub mod Libraries
mod Tests
