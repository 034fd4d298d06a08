-- ===== src/Prefs/Session.antt =====
-- scutil/prefs.c: the session of preferences, from `_prefs_AuthorizationCreate` to
-- `do_prefs_synchronize`.
use configd_extra.Base.{
  Bool, true, false, not, ◌&&◌, inl, inr, List, [], ◌∷◌, ◌++◌, Option, none, some, Bytes, codes,
  equal, if◌then◌else◌, ◌==◌,
}
use configd_extra.Shell.State.{created}
use configd_extra.Prefs.State.{
  Authorization, use_entitlement, reference, Plists, PrefsApi, stdout, stderr, text, status,
  numbered, Preferences, say, Ends, returned, exited, ◌>>=◌, access_error,
}

-- `argv[0]` is there and is "!".
unfoldable pub is_bang : List Bytes → Bool
is_bang [] = false
is_bang (a ∷ args) = equal a (codes "!")

unfoldable pub abandon_hint : Option Bytes → Bytes
abandon_hint none = []
abandon_hint (some command) = codes " or \"" ++ (command ++ codes " !\" to abandon changes")

module _ {Key P H W : Type 0} where
  -- Whether the command must be refused.
  unfoldable pub prefs_commit_required :
      List Bytes → Option Bytes → Preferences Key P H W → Bool × Preferences Key P H W
  prefs_commit_required args command s =
      if s.prefs_changed
      then (if s.interactive && not (is_bang args)
          then (
            true,
            say stdout (text (codes "\n")) (
                say stdout (text (abandon_hint command)) (
                  say stdout
                    (text (
                      codes
                        "preference changes have not been committed\nuse \"commit\" to save changes"))
                    s)),
          )
          else (false, say stdout (text (codes "preference changes abandoned\n")) s))
      else (false, s)

module _ {Key P H W : Type 0} (lists : Plists Key P) (api : PrefsApi Key P H W) where
  unfoldable pub prefs_authorization_create :
      Preferences Key P H W → Preferences Key P H W × Option Authorization
  prefs_authorization_create s =
      elim (api.get_env s.world (codes "SCPREFERENCES_USE_ENTITLEMENTS")) [
        | some v ↦ (s, some use_entitlement)
        | none ↦
            let (w, r) = api.create_authorization s.world in
            elim r [
              | inl failed ↦ (
                say stdout (numbered (codes "AuthorizationCreate() failed: status = %d\n") failed)
                    (record s { world = w }),
                none,
              )
              | inr a ↦ (record s { world = w }, some (reference a))
            ]
      ]

  unfoldable pub prefs_authorization_free : W → Authorization → W
  prefs_authorization_free w use_entitlement = w
  prefs_authorization_free w (reference a) = api.free_authorization w a

  -- The options of the session, `NULL` if the environment asks for none. Its texts are ASCII, so that
  -- there are strings for them.
  unfoldable pub removal_option : W → Option P
  removal_option w = elim (api.get_env w (codes "SCPREFERENCES_REMOVE_WHEN_EMPTY")) [
    | none ↦ none
    | some v ↦ some (
        lists.cf.set_value lists.cf.empty_dictionary api.remove_when_empty
          (lists.cf.of_boolean true))
  ]

  abbrev pub or_empty : Option P → P
  or_empty none = lists.cf.empty_dictionary
  or_empty (some d) = d

  unfoldable pub session_options : W → Option P
  session_options w = elim (api.get_env w (codes "SCPREFERENCES_PROTECTION_CLASS")) [
    | none ↦ removal_option w
    | some env ↦ some (
        lists.cf.set_value (or_empty (removal_option w)) api.protection_class
          (lists.cf.of_string (lists.cf.create_string env)))
  ]

  abbrev pub prefs_id : Option Bytes → Option Key
  prefs_id none = none
  prefs_id (some path) = created lists.cf path

  -- Which of the three functions opens the preferences.
  unfoldable pub create_prefs :
      Bool → Option P → Key → Option Key → Option Authorization → W → W × Option H
  create_prefs use_helper none name id a w =
      if use_helper then api.create_with_authorization w name id a else api.create w name id
  create_prefs use_helper (some options) name id a w = api.create_with_options w name id a options

  unfoldable pub opened_prefs : Preferences Key P H W → Bool × Preferences Key P H W
  opened_prefs s = elim s.prefs [
    | none ↦ (false, record s { prefs_path = none })
    | some h ↦ (true, record s { prefs_changed = false })
  ]

  -- The authorization, if the process is not the superuser's.
  unfoldable pub authorize : Preferences Key P H W → Preferences Key P H W
  authorize s =
      if api.is_root s.world
      then record s { authorization = none }
      else (let (s', a) = prefs_authorization_create (record s { authorization = none }) in
          record s' { authorization = a })

  -- `prefsPath` is set if a path is given.
  unfoldable pub with_path : Option Bytes → Preferences Key P H W → Preferences Key P H W
  with_path none s = s
  with_path (some path) s = record s { prefs_path = some path }

  unfoldable pub prefs_open :
      Bytes → Option Bytes → Preferences Key P H W → Bool × Preferences Key P H W
  prefs_open name path s =
      let t = authorize s in
      let u = with_path path t in
      let (w, h) =
        create_prefs (not (api.is_root s.world)) (session_options t.world)
          (lists.cf.create_string name) (prefs_id path) t.authorization t.world in
      opened_prefs (record u { prefs = h; world = w })

  -- A commit of `_prefs_save`; `failed` is the text for an error other than the access.
  unfoldable pub commit_or_exit :
      Option H → Bytes → Preferences Key P H W → Ends (Preferences Key P H W)
  commit_or_exit h failed s =
      let (w, ok) = api.commit_changes s.world h in
      let t = record s { world = w } in
      if ok
      then returned t
      else exited 1 (
          if api.sc_error w == access_error
          then say stderr (text (codes "Permission denied.\n")) t
          else say stdout (status failed (api.sc_error w)) t)

  unfoldable pub apply_or_exit :
      Option H → Bytes → Preferences Key P H W → Ends (Preferences Key P H W)
  apply_or_exit h failed s =
      let (w, ok) = api.apply_changes s.world h in
      let t = record s { world = w } in
      if ok then returned t else exited 1 (say stdout (status failed (api.sc_error w)) t)

  -- The part of `_prefs_save` for the file of the interfaces.
  unfoldable pub save_interfaces : Preferences Key P H W → Ends (Preferences Key P H W)
  save_interfaces s = elim s.ni_prefs [
    | none ↦ returned s
    | some h ↦ do
      t ←
          commit_or_exit (some h)
            (codes "SCPreferencesCommitChanges( <NetworkInterfaces.plist> ) failed: %s\n") s
      apply_or_exit (some h)
          (codes "SCPreferencesApplyChanges( <NetworkInterfaces.plist> ) failed: %s\n") t
  ]

  unfoldable pub prefs_save : Preferences Key P H W → Ends (Preferences Key P H W)
  prefs_save s = do
    t ← commit_or_exit s.prefs (codes "SCPreferencesCommitChanges() failed: %s\n") s
    u ← apply_or_exit t.prefs (codes "SCPreferencesApplyChanges() failed: %s\n") t
    save_interfaces (record u { prefs_changed = false })

  unfoldable pub release_prefs : Preferences Key P H W → Preferences Key P H W
  release_prefs s = elim s.prefs [
    | none ↦ s
    | some h ↦ record s { prefs = none; prefs_changed = false; world = api.release s.world h }
  ]

  unfoldable pub release_interfaces : Preferences Key P H W → Preferences Key P H W
  release_interfaces s = elim s.ni_prefs [
    | none ↦ s
    | some h ↦ record s { ni_prefs = none; world = api.release s.world h }
  ]

  unfoldable pub release_authorization : Preferences Key P H W → Preferences Key P H W
  release_authorization s = elim s.authorization [
    | none ↦ s
    | some a ↦ record s { authorization = none; world = prefs_authorization_free s.world a }
  ]

  unfoldable pub prefs_close : Preferences Key P H W → Preferences Key P H W
  prefs_close s =
      release_authorization (release_interfaces (release_prefs (record s { prefs_path = none })))

  unfoldable pub do_prefs_close : List Bytes → Preferences Key P H W → Preferences Key P H W
  do_prefs_close args s =
      let (required, t) = prefs_commit_required args (some (codes "close")) s in
      if required then t else prefs_close t

  unfoldable pub do_prefs_quit : List Bytes → Preferences Key P H W → Preferences Key P H W
  do_prefs_quit args s =
      let (required, t) = prefs_commit_required args (some (codes "quit")) s in
      if required then t else record (prefs_close t) { term_requested = true }

  abbrev pub first_argument : List Bytes → Option Bytes
  first_argument [] = none
  first_argument (a ∷ args) = some a

  -- `do_prefs_open` behind its test of an open session.
  unfoldable pub open_path : List Bytes → Preferences Key P H W → Preferences Key P H W
  open_path args s =
      let (ok, t) = prefs_open (codes "scutil --prefs") (first_argument args) s in
      if ok
      then t
      else say stdout (status (codes "Could not open prefs: %s\n") (api.sc_error t.world)) t

  unfoldable pub do_prefs_open : List Bytes → Preferences Key P H W → Preferences Key P H W
  do_prefs_open args s = elim s.prefs [
    | none ↦ open_path args s
    | some h ↦
        let (required, t) = prefs_commit_required args (some (codes "close")) s in
        if required then t else open_path args (do_prefs_close [] t)
  ]

  -- `SCErrorString(SCError())` on a line, if the call before has failed.
  unfoldable pub report_error : W × Bool → Preferences Key P H W → Preferences Key P H W
  report_error (w, ok) s =
      let t = record s { world = w } in
      if ok then t else say stdout (status (codes "%s\n") (api.sc_error w)) t

  unfoldable pub do_prefs_lock : List Bytes → Preferences Key P H W → Preferences Key P H W
  do_prefs_lock args s =
      report_error
        (api.lock s.world s.prefs (elim (first_argument args) [ none ↦ false | some a ↦ true ])) s

  unfoldable pub do_prefs_unlock : List Bytes → Preferences Key P H W → Preferences Key P H W
  do_prefs_unlock args s = report_error (api.unlock s.world s.prefs) s

  unfoldable pub do_prefs_commit : List Bytes → Preferences Key P H W → Preferences Key P H W
  do_prefs_commit args s =
      let (w, ok) = api.commit_changes s.world s.prefs in
      let t = report_error (w, ok) s in if ok then record t { prefs_changed = false } else t

  unfoldable pub do_prefs_apply : List Bytes → Preferences Key P H W → Preferences Key P H W
  do_prefs_apply args s = report_error (api.apply_changes s.world s.prefs) s

  unfoldable pub do_prefs_synchronize : List Bytes → Preferences Key P H W → Preferences Key P H W
  do_prefs_synchronize args s =
      let w = api.synchronize s.world s.prefs in
      record s { world = elim s.ni_prefs [ none ↦ w | some h ↦ api.synchronize w (some h) ] }
