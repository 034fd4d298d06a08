-- ===== src/Prefs/Table.antt =====
-- scutil/commands.c, `commands_prefs`: the commands of the table that work on the preferences
-- and on the dictionary, by their functions. The table has `help` and `f.read` besides.
use configd_extra.Base.{ℕ}

pub data PrefsCommand : Type 0 where
  do_prefs_open : PrefsCommand
  do_prefs_lock : PrefsCommand
  do_prefs_commit : PrefsCommand
  do_prefs_apply : PrefsCommand
  do_prefs_unlock : PrefsCommand
  do_prefs_close : PrefsCommand
  do_prefs_quit : PrefsCommand
  do_prefs_synchronize : PrefsCommand
  do_prefs_list : PrefsCommand
  do_prefs_get : PrefsCommand
  do_prefs_set : PrefsCommand
  do_prefs_remove : PrefsCommand
  do_dict_init : PrefsCommand
  do_dict_show : PrefsCommand
  do_dict_set_key : PrefsCommand
  do_dict_remove_key : PrefsCommand

-- The column `minArgs`: with fewer arguments the command is refused.
unfoldable pub prefs_min_args : PrefsCommand → ℕ
prefs_min_args PrefsCommand.do_prefs_get = 1
prefs_min_args PrefsCommand.do_prefs_set = 1
prefs_min_args PrefsCommand.do_prefs_remove = 1
prefs_min_args PrefsCommand.do_dict_set_key = 2
prefs_min_args PrefsCommand.do_dict_remove_key = 1
prefs_min_args _ = 0
