-- ===== src/Control.antt =====
-- Plugins/common/IPMonitorControlPrefs.c and InterfaceNamerControlPrefs.c: a setting of a plugin, in its
-- own preferences and, in a build for iOS, in the managed ones; and the commands of scutil/prefs.c for
-- them, `--log` and `--allow-new-interfaces`.
pub mod State
pub mod Verbose
pub mod AllowNew
pub mod Switches
mod Tests
