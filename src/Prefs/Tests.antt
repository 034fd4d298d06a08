-- ===== src/Prefs/Tests.antt =====
-- The shell on preferences on concrete libraries, and instances of its theorems.
use configd_extra.Base.{
  ℕ, ◌≡◌, refl, subst, Bool, true, false, List, [], ◌∷◌, none, some, Bytes, codes, arith, equal,
}
use mathlib.Core.Option.{some-injective}
use configd_extra.Shell.State.{created, Converts}
use configd_extra.Shell.Libraries.{Plist, empty, entry}
use configd_extra.Prefs.State.{Preferences, returned}
use configd_extra.Prefs.Table.{PrefsCommand, prefs_min_args}
use configd_extra.Prefs.Session.{is_bang}
use configd_extra.Prefs.Commands.{run_all}
use configd_extra.Prefs.Commands.Pending.{IsPending}
use configd_extra.Prefs.Commands.Kept.{DictionaryPaths, commits, IsHarmless, run_all-Pending}
use configd_extra.Prefs.Paths.{do_prefs_get, do_prefs_set, changed}
use configd_extra.Prefs.Paths.RoundTrip.{PathLaws, do_prefs_set-do_prefs_get}
use configd_extra.Prefs.Names.{Pref, set_pref}
use configd_extra.Prefs.Names.Exits.{Leaves, all_succeed, set_pref-Leaves}
use configd_extra.Prefs.Disable.{Service, find_interface}
use configd_extra.Prefs.Disable.Found.{IsFirst, find_interface-IsFirst}
use configd_extra.Prefs.Libraries.{lists, laws, api, store_api, names, stored, get}

abbrev session : Preferences Bytes Plist ℕ ℕ
session = record {
  prefs = some 2;
  ni_prefs = none;
  prefs_path = none;
  authorization = none;
  prefs_changed = true;
  value = some empty;
  term_requested = false;
  interactive = true;
  world = 0;
  out = [];
}

abbrev commands : List (PrefsCommand × List Bytes)
commands =
    (PrefsCommand.do_prefs_set, codes "/a" ∷ [])
    ∷ (PrefsCommand.do_prefs_quit, [])
    ∷ (PrefsCommand.do_prefs_open, codes "b" ∷ [])
    ∷ (PrefsCommand.do_dict_set_key, codes "k" ∷ codes "v" ∷ [])
    ∷ []

api-DictionaryPaths : DictionaryPaths lists api
api-DictionaryPaths w o k v e =
    subst (λ d. lists.cf.is_dictionary d ≡ true) (some-injective _ _ e) refl

run_all-Pending_example :
    (t : Preferences Bytes Plist ℕ ℕ) × (run_all lists api commands session ≡ returned t)
    × IsPending 2 t
unfolding IsPending IsHarmless Converts prefs_min_args is_bang commits equal
run_all-Pending_example =
    run_all-Pending lists api api-DictionaryPaths 2 commands session
      (
        (omega arith, refl, refl, refl, (refl, tt)),
        (
          (omega arith, refl, refl, refl, tt),
          (
            (omega arith, refl, refl, refl, (refl, tt)),
            ((omega arith, refl, refl, refl, (refl, (refl, tt))), tt),
          ),
        ),
      )
      (refl, refl, refl, refl, (empty, refl))

-- A session on preferences that store what is set.
abbrev filled : Preferences Bytes Plist ℕ Plist
filled = record {
  prefs = some 2;
  ni_prefs = none;
  prefs_path = none;
  authorization = none;
  prefs_changed = false;
  value = none;
  term_requested = false;
  interactive = true;
  world = entry (codes "/a") stored empty;
  out = [];
}

store_api-PathLaws : PathLaws lists store_api
store_api-PathLaws = record { get_link = λ w o j k. refl; get_value = λ w o j k. refl }

do_prefs_set-do_prefs_get_example :
    (t : Preferences Bytes Plist ℕ Plist) × (do_prefs_get lists store_api (codes "/a" ∷ []) filled
      ≡ returned t)
    × ((w : Plist) × (d : Plist) × (do_prefs_set lists store_api (codes "/a" ∷ []) t
          ≡ returned (
              changed lists store_api
                (store_api.path_set_value w t.prefs (codes "/a") d)
                (record t { world = w })))
        × ((j : Bytes) → get d j ≡ get stored j))
unfolding equal Converts
do_prefs_set-do_prefs_get_example =
    do_prefs_set-do_prefs_get lists store_api laws store_api-PathLaws (codes "/a") stored filled
      refl refl refl

set_pref-Leaves_example :
    Leaves
      (all_succeed lists api names Pref.host_name (some (codes "new")) session)
      (set_pref lists api names Pref.host_name (codes "new" ∷ []) session)
unfolding created
set_pref-Leaves_example =
    set_pref-Leaves lists api names Pref.host_name 110 (codes "ew") [] session refl

abbrev service : Bool → Bytes → Service Bytes Bytes
service on name = record { enabled = on; interface = some name; bsd_name = λ i. some i }

abbrev services : List (Service Bytes Bytes)
services =
    service false (codes "en0") ∷ service true (codes "en1") ∷ service true (codes "en0") ∷ []

find_interface-IsFirst_example :
    IsFirst equal (codes "en0") services (find_interface equal services (codes "en0"))
find_interface-IsFirst_example = find_interface-IsFirst equal (codes "en0") services
