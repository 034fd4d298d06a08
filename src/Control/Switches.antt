-- ===== src/Control/Switches.antt =====
-- scutil/prefs.c, `do_ifnamer` and `do_log`. A fault is a read of a missing argument.
pub mod Printed
use configd_extra.Base.{
  Bool, true, false, ◌||◌, List, [], ◌∷◌, ◌++◌, Option, none, some, Bytes, codes, equal, length,
  if◌then◌else◌, ltb, ℕ,
}
use configd_extra.Shell.Scan.{equal_nocase}
use configd_extra.Control.State.{ControlApi, Control, Names}
use configd_extra.Control.Verbose.{is_verbose, set_verbose}
use configd_extra.Control.AllowNew.{allow_new_interfaces, set_allow_new_interfaces}

unfoldable pub on_off_str : Bool → Bytes
on_off_str on = if on then codes "on" else codes "off"

unfoldable pub means_off : Bytes → Bool
means_off a =
    equal_nocase a (codes "disable")
    || (equal_nocase a (codes "no") || (equal_nocase a (codes "off") || equal_nocase a (codes "0")))

unfoldable pub means_on : Bytes → Bool
means_on a =
    equal_nocase a (codes "enable")
    || (equal_nocase a (codes "yes") || (equal_nocase a (codes "on") || equal_nocase a (codes "1")))

-- The value that an argument of `--log` asks for.
unfoldable pub scan_verbose : Bytes → Option Bool
scan_verbose a = if means_off a then some false else if means_on a then some true else none

-- The value that an argument of `--allow-new-interfaces` asks for.
unfoldable pub scan_allow : Bytes → Option Bool
scan_allow a =
    if means_off a
    then some false
    else if means_on a
    then some true
    else if equal_nocase a (codes "default")
    then some false
    else none

-- How the program is left: its status, what it printed, and the state of the preferences.
pub record Left (H W : Type 0) : Type 0 where
  pub exit_status : ℕ
  pub printed : Bytes
  pub control : Control H W

abbrev pub left : {H W : Type 0} → ℕ → Bytes → Control H W → Left H W
left n out c = record { exit_status = n; printed = out; control = c }

module _ {Key P H W : Type 0} (api : ControlApi Key P H W) (names : Names Key)
    (target_iphone : Bool) where
  -- The end of both commands, by whether the value was set.
  unfoldable pub saved_or_failed : Bool × Control H W → Left H W
  saved_or_failed (ok, c) =
      if ok then left 0 [] c else left 2 (codes "failed to set preferences\n") c

  unfoldable pub do_log : Bytes → List Bytes → Control H W → Left H W
  do_log log [] c =
      let (verbose, t) = is_verbose api names target_iphone c in
      if equal log (codes "IPMonitor")
      then left 0 (codes "IPMonitor log is " ++ (on_off_str verbose ++ codes "\n")) t
      else left 0 [] c
  do_log log (a ∷ args) c =
      if equal log (codes "IPMonitor")
      then elim (scan_verbose a) [
        | none ↦ left 1 (codes "invalid value, must be 'on' or 'off'\n") c
        | some verbose ↦ saved_or_failed (set_verbose api names target_iphone verbose c)
      ]
      else left 0 [] c

  abbrev pub namer_usage : Bytes
  namer_usage = codes "usage: scutil --allow-new-interfaces [on|off|default]\n"

  unfoldable pub do_ifnamer : Bytes → List Bytes → Control H W → Left H W
  do_ifnamer pref [] c =
      let (allow, t) = allow_new_interfaces api names target_iphone c in
      if equal pref (codes "allow-new-interfaces")
      then left 0 (codes "AllowNewInterfaces is " ++ (on_off_str allow ++ codes "\n")) t
      else left 0 [] c
  do_ifnamer pref (a ∷ []) c =
      if equal pref (codes "allow-new-interfaces")
      then elim (scan_allow a) [
        | none ↦ left 1 namer_usage c
        | some allow ↦ saved_or_failed (set_allow_new_interfaces api names target_iphone allow c)
      ]
      else left 0 [] c
  do_ifnamer pref (a ∷ b ∷ args) c = left 1 namer_usage c
