-- ===== src/Prefs/Names/Exits.antt =====
-- scutil/prefs.c: how `scutil --set` ends.
use configd_extra.Base.{
  ◌≡◌, refl, ◌∙◌, Bool, true, false, ◌&&◌, List, ◌∷◌, ◌++◌, Option, none, Bytes, codes,
  if◌then◌else◌, ℕ, arith,
}
use configd_extra.Shell.State.{created}
use configd_extra.Prefs.State.{
  Plists, PrefsApi, Preferences, say, Ends, returned, exited, faulted, ◌>>=◌,
}
use configd_extra.Prefs.Session.{
  prefs_authorization_create, authorize, with_path, opened_prefs, prefs_open, commit_or_exit,
  apply_or_exit, save_interfaces, prefs_save, release_prefs, release_interfaces,
  release_authorization, prefs_close,
}
use configd_extra.Prefs.Names.{
  NamesApi, Pref, pref_name, set_host_pref, choose_name, save_name, write_name, set_pref,
}

module _ {Key P H W : Type 0} where
  -- Nothing of the session is left.
  unfoldable pub IsClosed : Preferences Key P H W → Type 0
  IsClosed s =
      (s.prefs_path ≡ none) × (s.prefs ≡ none) × (s.ni_prefs ≡ none) × (s.authorization ≡ none)

  -- How the program is left, by whether all has gone well.
  unfoldable pub Leaves : Bool → Ends (Preferences Key P H W) → Type 0
  Leaves true (exited n s) = (n ≡ 0) × IsClosed s
  Leaves false (exited n s) = n ≡ 1
  Leaves b (returned s) = ⊥
  Leaves b faulted = ⊥

  -- A part returns exactly if it has gone well.
  unfoldable pub Goes : Bool → Ends (Preferences Key P H W) → Type 0
  Goes true (returned s) = Unit
  Goes false (exited n s) = n ≡ 1
  Goes true (exited n s) = ⊥
  Goes false (returned s) = ⊥
  Goes b faulted = ⊥

  step-Goes :
      (b c : Bool) (s t : Preferences Key P H W)
      (f : Preferences Key P H W → Ends (Preferences Key P H W))
      → Goes c (f s)
      → Goes (b && c) ((if b then returned s else exited 1 t) >>= f)
  unfolding Goes
  step-Goes true c s t f g = g
  step-Goes false c s t f g = refl

  last-Goes :
      (b : Bool) (s t : Preferences Key P H W)
      (f : Preferences Key P H W → Ends (Preferences Key P H W))
      → Goes true (f s)
      → Goes b ((if b then returned s else exited 1 t) >>= f)
  unfolding Goes
  last-Goes true s t f g = g
  last-Goes false s t f g = refl

  if-Leaves :
      (b c : Bool) (r : Ends (Preferences Key P H W)) (s : Preferences Key P H W)
      → Leaves c r
      → Leaves (b && c) (if b then r else exited 1 s)
  unfolding Leaves
  if-Leaves true c r s l = l
  if-Leaves false c r s l = refl

  bind-Leaves :
      (b : Bool) (r : Ends (Preferences Key P H W))
      (f : Preferences Key P H W → Preferences Key P H W)
      → Goes b r
      → ((s : Preferences Key P H W) → IsClosed (f s))
      → Leaves b (r >>= λ s. exited 0 (f s))
  unfolding Leaves Goes
  bind-Leaves true (returned s) f g c = (refl, c s)
  bind-Leaves true (exited n s) f g c = absurd g
  bind-Leaves true faulted f g c = absurd g
  bind-Leaves false (returned s) f g c = absurd g
  bind-Leaves false (exited n s) f g c = g
  bind-Leaves false faulted f g c = absurd g

module _ {Key P H W : Type 0} (lists : Plists Key P) (api : PrefsApi Key P H W) where
  prefs_close-Closed : (s : Preferences Key P H W) → IsClosed (prefs_close lists api s)
  unfolding prefs_close release_prefs release_interfaces release_authorization IsClosed
  prefs_close-Closed s = ground arith

  authorize-ni_prefs : (s : Preferences Key P H W) → (authorize lists api s).ni_prefs ≡ s.ni_prefs
  unfolding authorize prefs_authorization_create say
  authorize-ni_prefs s = ground arith

  prefs_open-ni_prefs :
      (name : Bytes) (s : Preferences Key P H W)
      → (prefs_open lists api name none s).1.ni_prefs ≡ s.ni_prefs
  unfolding prefs_open with_path opened_prefs
  prefs_open-ni_prefs name s = ground (arith, authorize-ni_prefs s)

  -- Whether both calls of a save succeed.
  unfoldable pub saves : Option H → W → Bool
  saves o w = let (w', ok) = api.commit_changes w o in ok && (api.apply_changes w' o).1

  save_interfaces-Goes :
      (s : Preferences Key P H W) → s.ni_prefs ≡ none → Goes true (save_interfaces lists api s)
  unfolding save_interfaces Goes
  save_interfaces-Goes s e = rw e tt

  commit-Goes :
      (o : Option H) (failed : Bytes) (c : Bool) (s : Preferences Key P H W)
      (f : Preferences Key P H W → Ends (Preferences Key P H W))
      → Goes c (f (record s { world = (api.commit_changes s.world o).0 }))
      → Goes ((api.commit_changes s.world o).1 && c) (commit_or_exit lists api o failed s >>= f)
  unfolding commit_or_exit
  commit-Goes o failed c s f g = step-Goes (api.commit_changes s.world o).1 c _ _ f g

  apply-Goes :
      (o : Option H) (failed : Bytes) (s : Preferences Key P H W)
      (f : Preferences Key P H W → Ends (Preferences Key P H W))
      → Goes true (f (record s { world = (api.apply_changes s.world o).0 }))
      → Goes (api.apply_changes s.world o).1 (apply_or_exit lists api o failed s >>= f)
  unfolding apply_or_exit
  apply-Goes o failed s f g = last-Goes (api.apply_changes s.world o).1 _ _ f g

  prefs_save-Goes :
      (s : Preferences Key P H W)
      → s.ni_prefs ≡ none
      → Goes (saves s.prefs s.world) (prefs_save lists api s)
  unfolding prefs_save saves
  prefs_save-Goes s e = commit-Goes s.prefs _ _ s _ (
      apply-Goes s.prefs _ _ (λ u. save_interfaces lists api (record u { prefs_changed = false }))
        (save_interfaces-Goes _ e))

  save_name-Leaves :
      (names : NamesApi Key H W) (s : Preferences Key P H W)
      → s.ni_prefs ≡ none
      → Leaves (saves s.prefs s.world) (save_name lists api names s)
  unfolding save_name
  save_name-Leaves names s e =
      bind-Leaves _ _ (prefs_close lists api) (prefs_save-Goes s e) prefs_close-Closed

module _ {Key P H W : Type 0} (lists : Plists Key P) (api : PrefsApi Key P H W)
    (names : NamesApi Key H W) where
  -- Whether every call of `scutil --set` for the name succeeds: open, set, commit, apply.
  unfoldable pub all_succeed : Pref → Option Key → Preferences Key P H W → Bool
  all_succeed p k s =
      let (ok, t) =
        prefs_open lists api (codes "scutil --set " ++ pref_name lists api names p) none s in
      ok
      && (let (w, was_set) = set_host_pref lists api names p t.world t.prefs k in
          was_set && saves lists api t.prefs w)

  write_name-Leaves :
      (p : Pref) (k : Option Key) (s : Preferences Key P H W)
      → s.ni_prefs ≡ none
      → Leaves
          (let (w, was_set) = set_host_pref lists api names p s.world s.prefs k in
            was_set && saves lists api s.prefs w)
          (write_name lists api names p k s)
  unfolding write_name
  write_name-Leaves p k s e = if-Leaves _ _ _ _ (save_name-Leaves lists api names _ e)

  -- The file of the interfaces is not open. Then `scutil --set` of a name, with an argument that is not
  -- empty, always leaves the program: with status 0 if the preferences could be opened, the name set and
  -- the changes committed and applied, with nothing of the session left open; and with status 1 if one
  -- of these has failed.
  pub set_pref-Leaves :
      (p : Pref) (c : ℕ) (a : Bytes) (args : List Bytes) (s : Preferences Key P H W)
      → s.ni_prefs ≡ none
      → Leaves
          (all_succeed p (created lists.cf (c ∷ a)) s)
          (set_pref lists api names p ((c ∷ a) ∷ args) s)
  unfolding set_pref choose_name all_succeed
  set_pref-Leaves p c a args s e =
      if-Leaves _ _ _ _ (write_name-Leaves p _ _ (prefs_open-ni_prefs lists api _ s ∙ e))
