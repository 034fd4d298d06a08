-- ===== src/Prefs/Commands.antt =====
-- scutil/commands.c, `commands_prefs`: the commands of the table that work on the preferences
-- and on the dictionary, each with its handler.
pub mod Pending
pub mod Kept
use configd_extra.Base.{List, [], ◌∷◌, Bytes}
use configd_extra.Prefs.State.{
  Plists, PrefsApi, Preferences, Ends, returned, exited, faulted, ◌>>=◌,
}
use configd_extra.Prefs.Session.{
  do_prefs_open, do_prefs_lock, do_prefs_commit, do_prefs_apply, do_prefs_unlock, do_prefs_close,
  do_prefs_quit, do_prefs_synchronize,
}
use configd_extra.Prefs.Shared.{dictionary_command}
use configd_extra.Shell.Dictionary.{do_dict_init, do_dict_show, do_dict_set_key, do_dict_remove_key}
use configd_extra.Prefs.Table.{PrefsCommand}
use configd_extra.Prefs.Paths.{do_prefs_list, do_prefs_get, do_prefs_set, do_prefs_remove}

module _ {Key P H W : Type 0} (lists : Plists Key P) (api : PrefsApi Key P H W) where
  unfoldable pub run_prefs :
      PrefsCommand → List Bytes → Preferences Key P H W → Ends (Preferences Key P H W)
  run_prefs PrefsCommand.do_prefs_open args s = returned (do_prefs_open lists api args s)
  run_prefs PrefsCommand.do_prefs_lock args s = returned (do_prefs_lock lists api args s)
  run_prefs PrefsCommand.do_prefs_commit args s = returned (do_prefs_commit lists api args s)
  run_prefs PrefsCommand.do_prefs_apply args s = returned (do_prefs_apply lists api args s)
  run_prefs PrefsCommand.do_prefs_unlock args s = returned (do_prefs_unlock lists api args s)
  run_prefs PrefsCommand.do_prefs_close args s = returned (do_prefs_close lists api args s)
  run_prefs PrefsCommand.do_prefs_quit args s = returned (do_prefs_quit lists api args s)
  run_prefs PrefsCommand.do_prefs_synchronize args s =
      returned (do_prefs_synchronize lists api args s)
  run_prefs PrefsCommand.do_prefs_list args s = do_prefs_list lists api args s
  run_prefs PrefsCommand.do_prefs_get args s = do_prefs_get lists api args s
  run_prefs PrefsCommand.do_prefs_set args s = do_prefs_set lists api args s
  run_prefs PrefsCommand.do_prefs_remove args s = do_prefs_remove lists api args s
  run_prefs PrefsCommand.do_dict_init args s = dictionary_command (do_dict_init lists.cf args) s
  run_prefs PrefsCommand.do_dict_show args s = dictionary_command (do_dict_show lists.cf args) s
  run_prefs PrefsCommand.do_dict_set_key args s =
      dictionary_command (do_dict_set_key lists.cf args) s
  run_prefs PrefsCommand.do_dict_remove_key args s =
      dictionary_command (do_dict_remove_key lists.cf args) s

  -- A sequence of commands, each with its arguments.
  unfoldable pub run_all :
      List (PrefsCommand × List Bytes) → Preferences Key P H W → Ends (Preferences Key P H W)
  run_all [] s = returned s
  run_all ((c, args) ∷ commands) s = do t ← run_prefs c args s; run_all commands t
