-- ===== src/Prefs/Names.antt =====
-- scutil/prefs.c: `scutil --get` and `scutil --set` for the names of the host, and the extended
-- `--get` of a key in a file.
pub mod Exits
use configd_extra.Base.{
  Bool, true, false, ◌&&◌, List, [], ◌∷◌, ◌++◌, Option, none, some, Bytes, codes, equal,
  if◌then◌else◌, ◌==◌,
}
use configd_extra.Shell.State.{created}
use configd_extra.Shell.Stdin.{copy_string_from_stdin}
use configd_extra.Prefs.State.{
  Plists, PrefsApi, Stream, stdout, stderr, text, status, named, about_name, shown, Preferences,
  say, Ends, with_string, returned, exited, faulted, ◌>>=◌, status_ok, no_key,
}
use configd_extra.Prefs.Session.{prefs_open, prefs_save, prefs_close, do_prefs_open}
use configd_extra.Prefs.Paths.{do_prefs_get}

-- The functions of SCDynamicStore and SCPreferences for names, and the terminal: `is_user_prompt` is
-- whether both ends are one, and `read_input` gives what is on stdin, `none` at its end: the program reads
-- it once.
pub record NamesApi (Key H W : Type 0) : Type 0 where
  pub copy_computer_name : W → W × Option Key
  pub copy_local_host_name : W → W × Option Key
  pub prefs_get_host_name : W → Option H → W × Option Key
  pub prefs_set_computer_name : W → Option H → Option Key → W × Bool
  pub prefs_set_host_name : W → Option H → Option Key → W × Bool
  pub prefs_set_local_host_name : W → Option H → Option Key → W × Bool
  pub is_user_prompt : W → Bool
  pub read_input : W → W × Option Bytes

-- A row of `pref_keys`, by its functions.
pub data Pref : Type 0 where
  computer_name : Pref
  host_name : Pref
  local_host_name : Pref

abbrev pub pref_keys : List (Bytes × Pref)
pref_keys =
    (codes "ComputerName", computer_name)
    ∷ (codes "HostName", host_name)
    ∷ (codes "LocalHostName", local_host_name)
    ∷ []

unfoldable pub find_from : List (Bytes × Pref) → Bytes → Option Pref
find_from [] pref = none
find_from ((name, p) ∷ keys) pref =
    let rest = find_from keys pref in if equal pref name then some p else rest

-- `none` is -1.
unfoldable pub find_pref : Bytes → Option Pref
find_pref pref = find_from pref_keys pref

abbrev pub rest_of : List Bytes → List Bytes
rest_of [] = []
rest_of (a ∷ args) = args

abbrev pub is_given : {A : Type 0} → Option A → Bool
is_given none = false
is_given (some a) = true

module _ {Key P H W : Type 0} (lists : Plists Key P) (api : PrefsApi Key P H W)
    (names : NamesApi Key H W) where
  -- A name that was looked up is printed, or why there is none.
  unfoldable pub print_name :
      Bytes → Bytes → W × Option Key → Preferences Key P H W → Ends (Preferences Key P H W)
  print_name not_set failed (w, name) s =
      let t = record s { world = w } in
      elim name [
        | none ↦ exited 1 (
            say stderr
              (if api.sc_error w == no_key then text not_set else status failed (api.sc_error w)) t)
        | some k ↦ exited 0 (say stdout (named (codes "%@\n") k) t)
      ]

  -- The session is closed before the program is left.
  unfoldable pub close_first : Ends (Preferences Key P H W) → Ends (Preferences Key P H W)
  close_first (returned s) = returned s
  close_first (exited n s) = exited n (prefs_close lists api s)
  close_first faulted = faulted

  abbrev pub open_failed : Bytes → Preferences Key P H W → Ends (Preferences Key P H W)
  open_failed failed s = exited 1 (say stdout (status failed (api.sc_error s.world)) s)

  unfoldable pub get_computer_name : Preferences Key P H W → Ends (Preferences Key P H W)
  get_computer_name s =
      print_name (codes "ComputerName: not set\n")
        (codes "SCDynamicStoreCopyComputerName() failed: %s\n") (names.copy_computer_name s.world) s

  unfoldable pub get_host_name : Preferences Key P H W → Ends (Preferences Key P H W)
  get_host_name s =
      let (ok, t) = prefs_open lists api (codes "scutil --get HostName") none s in
      if ok
      then close_first (
          print_name (codes "HostName: not set\n") (codes "SCPreferencesGetHostName() failed: %s\n")
            (names.prefs_get_host_name t.world t.prefs) t)
      else open_failed (codes "SCPreferencesCreate() failed: %s\n") t

  unfoldable pub get_local_host_name : Preferences Key P H W → Ends (Preferences Key P H W)
  get_local_host_name s =
      print_name (codes "LocalHostName: not set\n")
        (codes "SCDynamicStoreCopyLocalHostName() failed: %s\n")
        (names.copy_local_host_name s.world) s

  unfoldable pub get_pref : Pref → Preferences Key P H W → Ends (Preferences Key P H W)
  get_pref computer_name = get_computer_name
  get_pref host_name = get_host_name
  get_pref local_host_name = get_local_host_name

  -- `_copyStringFromSTDIN`: the prompt, the line, and the string for it.
  unfoldable pub prompted : Bytes → Option Key → Preferences Key P H W → Preferences Key P H W
  prompted prompt none s = say stdout (about_name (codes "%@: ") prompt) s
  prompted prompt (some k) s = say stdout (named (prompt ++ codes " [%@]: ") k) s

  unfoldable pub ask :
      Bytes → Option Key → Preferences Key P H W → Option (Preferences Key P H W × Option Key)
  ask prompt old s =
      let user = names.is_user_prompt s.world in
      let t = if user then prompted prompt old s else s in
      let (w, line) = names.read_input t.world in
      let u = record t { world = w } in
      elim line [
        | none ↦ some (u, none)
        | some l ↦ elim (copy_string_from_stdin (user && is_given old) l) [
          | none ↦ none
          | some none ↦ some (u, old)
          | some (some utf8) ↦ some (u, created lists.cf utf8)
        ]
      ]

  -- The name that is there now.
  unfoldable pub old_name : Pref → Preferences Key P H W → W × Option Key
  old_name computer_name s = names.copy_computer_name s.world
  old_name host_name s = names.prefs_get_host_name s.world s.prefs
  old_name local_host_name s = names.copy_local_host_name s.world

  abbrev pub pref_name : Pref → Bytes
  pref_name computer_name = codes "ComputerName"
  pref_name host_name = codes "HostName"
  pref_name local_host_name = codes "LocalHostName"

  -- The new name: the argument, `NULL` for an empty one, or what the terminal gives.
  unfoldable pub choose_name :
      Pref → List Bytes → Preferences Key P H W → Option (Preferences Key P H W × Option Key)
  choose_name p [] s = let (w, old) = old_name p s in ask (pref_name p) old (record s { world = w })
  choose_name p ([] ∷ args) s = some (s, none)
  choose_name p ((c ∷ a) ∷ args) s = some (s, created lists.cf (c ∷ a))

  unfoldable pub set_host_pref : Pref → W → Option H → Option Key → W × Bool
  set_host_pref computer_name = names.prefs_set_computer_name
  set_host_pref host_name = names.prefs_set_host_name
  set_host_pref local_host_name = names.prefs_set_local_host_name

  -- The message when the name is not set.
  unfoldable pub refuse_name : Pref → Preferences Key P H W → Preferences Key P H W
  refuse_name host_name s =
      say stderr (status (codes "SCPreferencesSetHostName() failed: %s\n") (api.sc_error s.world)) s
  refuse_name computer_name s =
      say stdout (status (codes "Could not open prefs: %s\n") (api.sc_error s.world)) s
  refuse_name local_host_name s =
      say stdout (status (codes "Could not open prefs: %s\n") (api.sc_error s.world)) s

  unfoldable pub save_name : Preferences Key P H W → Ends (Preferences Key P H W)
  save_name s = do t ← prefs_save lists api s; exited 0 (prefs_close lists api t)

  unfoldable pub write_name :
      Pref → Option Key → Preferences Key P H W → Ends (Preferences Key P H W)
  write_name p k s =
      let (w, ok) = set_host_pref p s.world s.prefs k in
      let t = record s { world = w } in
      if ok then save_name t else exited 1 (prefs_close lists api (refuse_name p t))

  -- The three functions for setting a name, by the row of the name.
  unfoldable pub set_pref : Pref → List Bytes → Preferences Key P H W → Ends (Preferences Key P H W)
  set_pref p args s =
      let (ok, t) = prefs_open lists api (codes "scutil --set " ++ pref_name p) none s in
      if ok
      then elim (choose_name p args t) [
        | none ↦ faulted
        | some chosen ↦ let (u, k) = chosen in write_name p k u
      ]
      else open_failed (codes "Could not open prefs: %s\n") t

  unfoldable pub set_computer_name :
      List Bytes → Preferences Key P H W → Ends (Preferences Key P H W)
  set_computer_name args s = set_pref computer_name args s

  unfoldable pub set_host_name : List Bytes → Preferences Key P H W → Ends (Preferences Key P H W)
  set_host_name args s = set_pref host_name args s

  unfoldable pub set_local_host_name :
      List Bytes → Preferences Key P H W → Ends (Preferences Key P H W)
  set_local_host_name args s = set_pref local_host_name args s

  unfoldable pub set_key_of :
      Pref → List Bytes → Preferences Key P H W → Ends (Preferences Key P H W)
  set_key_of computer_name = set_computer_name
  set_key_of host_name = set_host_name
  set_key_of local_host_name = set_local_host_name

  unfoldable pub do_set_pref :
      Bytes → List Bytes → Preferences Key P H W → Ends (Preferences Key P H W)
  do_set_pref pref args s = elim (find_pref pref) [
    | none ↦ returned s
    | some p ↦ set_key_of p args s
  ]

  unfoldable pub print_key : Option P → Preferences Key P H W → Ends (Preferences Key P H W)
  print_key none s = exited 1 (prefs_close lists api s)
  print_key (some v) s = exited 0 (prefs_close lists api (say stdout (shown v) s))

  -- The key is an argument, so that a missing one is a fault if it is read.
  unfoldable pub print_found : List Bytes → Preferences Key P H W → Ends (Preferences Key P H W)
  print_found keys s = elim s.value [
    | none ↦ exited 1 (prefs_close lists api s)
    | some d ↦ elim keys [
      | [] ↦ faulted
      | a ∷ rest ↦ with_string lists a λ k. print_key (lists.get_value d k) s
    ]
  ]

  unfoldable pub get_extended :
      List Bytes → List Bytes → Preferences Key P H W → Ends (Preferences Key P H W)
  get_extended args paths s =
      let t = do_prefs_open lists api args s in
      let e = api.sc_error t.world in
      if e == status_ok
      then do_prefs_get lists api paths t >>= print_found (rest_of paths)
      else exited 1 (prefs_close lists api (say stderr (status (codes "%s\n") e) t))

  unfoldable pub do_get_pref :
      Bytes → List Bytes → Preferences Key P H W → Ends (Preferences Key P H W)
  do_get_pref pref [] s = elim (find_pref pref) [ none ↦ returned s | some p ↦ get_pref p s ]
  do_get_pref pref (file ∷ paths) s = get_extended (file ∷ paths) paths s
