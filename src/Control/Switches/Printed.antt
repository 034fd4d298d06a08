-- ===== src/Control/Switches/Printed.antt =====
-- scutil/prefs.c, `do_log`: what `scutil --log IPMonitor` prints after a value was set.
use configd_extra.Base.{
  ◌≡◌, refl, sym, ◌∙◌, Bool, true, false, List, [], ◌∷◌, ◌++◌, Option, none, some, if◌then◌else◌,
  Bytes, codes, equal, arith, ap,
}
use configd_extra.Control.State.{
  ControlApi, Control, Names, boolean_value, set_boolean, save, refresh, or_false,
}
use configd_extra.Control.Verbose.{
  is_verbose, set_verbose, managed_boolean, prefs_get, prefs_init, prefs_get_boolean,
  managed_prefs_get,
}
use configd_extra.Control.Verbose.RoundTrip.{
  ControlLaws, Holds, set_boolean-Holds, set_boolean-own, save-own,
}
use configd_extra.Control.Switches.{scan_verbose, on_off_str, saved_or_failed, do_log}

-- What SCPreferences documents of the files: a session has the values of the file of its identifier
-- when it is opened, opening one changes no file, and a commit that succeeds puts the session's
-- values into its file. `file` is a value in the file of an identifier.
pub record FileLaws {Key P H W : Type 0} (api : ControlApi Key P H W) : Type 0 where
  pub id_of : H → Key
  pub file : W → Key → Key → Option P
  pub create_id : (w : W) (p i : Key) (h : H) → (api.create w p i).1 ≡ some h → id_of h ≡ i
  pub get_created :
      (w : W) (p i : Key) (h : H) (k : Key)
      → (api.create w p i).1 ≡ some h
      → api.get_value (api.create w p i).0 (some h) k ≡ file w i k
  pub file_create : (w : W) (p i j k : Key) → file (api.create w p i).0 j k ≡ file w j k
  pub file_commit :
      (w : W) (h : H) (k : Key)
      → (api.commit_changes w h).1 ≡ true
      → file (api.synchronize (api.commit_changes w h).0 h) (id_of h) k ≡ api.get_value w (some h) k

-- A process that has just been started.
abbrev pub fresh : {H W : Type 0} → W → Control H W
fresh w = record { own = none; managed = none; world = w }

module _ {Key P H W : Type 0} (api : ControlApi Key P H W) (names : Names Key)
    (target_iphone : Bool) where
  -- A value through `isA_CFBoolean`.
  abbrev in_file : Option P → Option Bool
  in_file o = elim o [ none ↦ none | some v ↦ api.as_boolean v ]

  save-committed :
      (c : Control H W) (h : H)
      → c.own ≡ some h
      → (save api c).0 ≡ true
      → ((api.commit_changes c.world h).1 ≡ true)
        × ((save api c).1.world ≡ api.synchronize (api.commit_changes c.world h).0 h)
  unfolding save
  save-committed c h e ok = ground arith

  -- The setting in the file, after it was set.
  set_verbose-file :
      ControlLaws api
      → (files : FileLaws api) (b : Bool) (w : W)
      → (set_verbose api names target_iphone b (fresh w)).0 ≡ true
      → or_false (
          in_file (
            files.file
              (set_verbose api names target_iphone b (fresh w)).1.world
              names.own_id
              names.setting))
        ≡ b
  unfolding set_verbose prefs_get prefs_init Holds
  set_verbose-file laws files b w ok =
      let u = prefs_get api names target_iphone (fresh w) in
      let t = set_boolean api names.setting (if b then some true else none) u in
      let (h, e) = save-own api names target_iphone t.own t refl ok in
      let own = sym (set_boolean-own api names target_iphone names.setting _ u) ∙ e in
      let (_, held) = set_boolean-Holds api names target_iphone laws b u h own in
      let (committed, at) = save-committed t h e ok in
      ap (λ x. or_false (in_file (files.file x names.own_id names.setting))) at
      ∙ ap
          (λ i. or_false (
            in_file
              (files.file (api.synchronize (api.commit_changes t.world h).0 h) i names.setting)))
          (sym (files.create_id w names.process names.own_id h own))
      ∙ ap (λ v. or_false (in_file v)) (files.file_commit t.world h names.setting committed)
      ∙ held

  prefs_get-none :
      (c : Control H W)
      → c.own ≡ none
      → prefs_get api names target_iphone c ≡ prefs_init api names target_iphone c
  unfolding prefs_get
  prefs_get-none c e = rw e refl

  created_boolean :
      (files : FileLaws api) (c : Control H W) (h : H)
      → (prefs_init api names target_iphone c).own ≡ some h
      → let u = prefs_init api names target_iphone c in
        boolean_value api u.world u.own names.setting
        ≡ in_file (files.file c.world names.own_id names.setting)
  unfolding prefs_init
  created_boolean files c h e =
      ap (λ o. boolean_value api (api.create c.world names.process names.own_id).0 o names.setting)
        e
      ∙ ap in_file (files.get_created c.world names.process names.own_id h names.setting e)

  not_managed :
      (m : Option Bool) (t : Control H W) (x : Option Bool × Control H W)
      → m ≡ none
      → elim m as (λ _. Option Bool × Control H W) [ some v ↦ (some v, t) | none ↦ x ] ≡ x
  not_managed m t x e = rw e refl

  is_verbose-unmanaged :
      (c : Control H W)
      → (managed_boolean api names target_iphone c).0 ≡ none
      → let u = prefs_get api names target_iphone (managed_boolean api names target_iphone c).1 in
        is_verbose api names target_iphone c
        ≡ (or_false (boolean_value api u.world u.own names.setting), refresh api target_iphone u)
  unfolding is_verbose prefs_get_boolean
  is_verbose-unmanaged c e =
      ap (λ r. (or_false r.0, refresh api target_iphone r.1))
        (not_managed (managed_boolean api names target_iphone c).0 _ _ e)

  saved-status :
      (r : Bool × Control H W)
      → (saved_or_failed api names target_iphone r).exit_status ≡ 0
      → (r.0 ≡ true) × ((saved_or_failed api names target_iphone r).control ≡ r.1)
  unfolding saved_or_failed
  saved-status (true, c) e = (refl, refl)
  saved-status (false, c) e = absurd (ground arith)

  set-left :
      (a : Bytes) (b : Bool) (args : List Bytes) (c : Control H W)
      → scan_verbose a ≡ some b
      → do_log api names target_iphone (codes "IPMonitor") (a ∷ args) c
        ≡ saved_or_failed api names target_iphone (set_verbose api names target_iphone b c)
  unfolding do_log equal
  set-left a b args c e = rw e refl

  shown-value :
      (b : Bool) (c : Control H W)
      → (is_verbose api names target_iphone c).0 ≡ b
      → let t = do_log api names target_iphone (codes "IPMonitor") [] c in
        (t.exit_status ≡ 0)
        × (t.printed ≡ codes "IPMonitor log is " ++ (on_off_str b ++ codes "\n"))
  unfolding do_log equal
  shown-value b c e = (refl, ap (λ v. codes "IPMonitor log is " ++ (on_off_str v ++ codes "\n")) e)

module _ {Key P H W : Type 0} (api : ControlApi Key P H W) (names : Names Key) where
  refresh-own : (ti : Bool) (c : Control H W) → (refresh api ti c).own ≡ c.own
  unfolding refresh
  refresh-own true c = refl
  refresh-own false c = refl

  managed_kept :
      (ti : Bool) (files : FileLaws api) (w : W)
      → let t = (managed_boolean api names ti (fresh w)).1 in
        (t.own ≡ none)
        × (files.file t.world names.own_id names.setting ≡ files.file w names.own_id names.setting)
  unfolding managed_boolean managed_prefs_get
  managed_kept true files w = (refl, files.file_create w _ _ _ _)
  managed_kept false files w = (refl, refl)

  -- What a new process reads is the file's.
  is_verbose-file :
      (ti : Bool) (files : FileLaws api) (w : W) (h : H)
      → (managed_boolean api names ti (fresh w)).0 ≡ none
      → (is_verbose api names ti (fresh w)).1.own ≡ some h
      → (is_verbose api names ti (fresh w)).0
        ≡ or_false (in_file api names ti (files.file w names.own_id names.setting))
  is_verbose-file ti files w h unmanaged opened =
      let t = (managed_boolean api names ti (fresh w)).1 in
      let (shut, kept) = managed_kept ti files w in
      let inits = prefs_get-none api names ti t shut in
      let whole = is_verbose-unmanaged api names ti (fresh w) unmanaged in
      let own =
        sym (ap (λ c. c.own) inits)
        ∙ sym (refresh-own ti (prefs_get api names ti t))
        ∙ sym (ap (λ r. r.1.own) whole)
        ∙ opened in
      ap (λ r. r.0) whole
      ∙ ap (λ u. or_false (boolean_value api u.world u.own names.setting)) inits
      ∙ ap or_false (created_boolean api names ti files t h own ∙ ap (in_file api names ti) kept)

  -- SCPreferences does what it documents, in one process and for its files. Let `scutil --log
  -- IPMonitor` with an argument that asks for `b` leave with status 0, and let the same command then
  -- run without an argument, in a new process that has no preferences open, can open them, and finds
  -- no managed value. It leaves with status 0 and prints whether `b` is on or off.
  pub do_log-do_log :
      ControlLaws api
      → FileLaws api
      → (ti : Bool) (a : Bytes) (b : Bool) (args : List Bytes) (w : W) (h : H)
      → scan_verbose a ≡ some b
      → (do_log api names ti (codes "IPMonitor") (a ∷ args) (fresh w)).exit_status ≡ 0
      → let next =
          fresh {H = H}
            (do_log api names ti (codes "IPMonitor") (a ∷ args) (fresh w)).control.world in
        (managed_boolean api names ti next).0 ≡ none
        → (is_verbose api names ti next).1.own ≡ some h
        → let t = do_log api names ti (codes "IPMonitor") [] next in
          (t.exit_status ≡ 0)
          × (t.printed ≡ codes "IPMonitor log is " ++ (on_off_str b ++ codes "\n"))
  do_log-do_log laws files ti a b args w h e ok unmanaged opened =
      let first = set-left api names ti a b args (fresh w) e in
      let (saved, same) = saved-status api names ti _ (ap (λ t. t.exit_status) (sym first) ∙ ok) in
      let state = ap (λ t. t.control.world) first ∙ ap (λ c. c.world) same in
      shown-value api names ti b _ (
        is_verbose-file ti files _ h unmanaged opened
        ∙ ap (λ x. or_false (in_file api names ti (files.file x names.own_id names.setting))) state
        ∙ set_verbose-file api names ti laws files b w saved)
