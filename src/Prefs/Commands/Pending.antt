-- ===== src/Prefs/Commands/Pending.antt =====
-- scutil/prefs.c: what becomes of changes that are not committed.
use configd_extra.Base.{
  ℕ, ◌+◌, ◌≡◌, refl, Bool, true, false, ◌⊎◌, inl, inr, List, [], ◌∷◌, Option, none, some, Bytes,
  if◌then◌else◌, sym, subst, All, ◌==◌,
}
use configd_extra.Shell.State.{Converts}
use configd_extra.Prefs.State.{
  Plists, PrefsApi, Stream, stdout, Message, Preferences, say, Ends, returned, exited, faulted,
  with_string, with_string-Converts, invalid_argument, no_key,
}
use configd_extra.Prefs.Session.{is_bang, prefs_commit_required, report_error}
use configd_extra.Prefs.Paths.{
  first_path, say_error, list_paths, print_paths, do_prefs_list, show_link, do_prefs_get, changed,
  set_path, set_over, retain_children,
}

module _ {Key P H W : Type 0} where
  -- The session `h` is open on a terminal, has changes to commit and a dictionary, and goes on.
  unfoldable pub IsPending : H → Preferences Key P H W → Type 0
  IsPending h s =
      (s.prefs ≡ some h)
      × (s.prefs_changed ≡ true)
      × (s.interactive ≡ true)
      × (s.term_requested ≡ false)
      × ((v : P) × (s.value ≡ some v))

  unfoldable pub Pends : H → Ends (Preferences Key P H W) → Type 0
  Pends h (returned s) = IsPending h s
  Pends h (exited n s) = ⊥
  Pends h faulted = ⊥

  pub say-Pending :
      (h : H) (to : Stream) (m : Message Key P) (s : Preferences Key P H W)
      → IsPending h s
      → IsPending h (say to m s)
  unfolding IsPending say
  say-Pending h to m s p = p

  pub world-Pending :
      (h : H) (w : W) (s : Preferences Key P H W)
      → IsPending h s
      → IsPending h (record s { world = w })
  unfolding IsPending
  world-Pending h w s p = p

  pub if-Pending :
      (h : H) (b : Bool) (s t : Preferences Key P H W)
      → IsPending h s
      → IsPending h t
      → IsPending h (if b then s else t)
  if-Pending h true s t p q = p
  if-Pending h false s t p q = q

  -- The command is refused.
  pub refused-Pending :
      (h : H) (args : List Bytes) (command : Bytes) (s x : Preferences Key P H W)
      → is_bang args ≡ false
      → IsPending h s
      → IsPending h (
          let (required, u) = prefs_commit_required args (some command) s in
          if required then u else x)
  unfolding prefs_commit_required IsPending say
  refused-Pending h args command s x e (p, c, i, r, v) = rw (c, i, e) (p, refl, refl, r, v)

  pub handled-Pending :
      (h : H) (s : Preferences Key P H W) (o : Option H) (f : H → Preferences Key P H W)
      (g : Preferences Key P H W)
      → o ≡ some h
      → IsPending h (f h)
      → IsPending h (elim o [ none ↦ g | some k ↦ f k ])
  handled-Pending h s o f g e p = rw e p

module _ {Key P H W : Type 0} (lists : Plists Key P) (api : PrefsApi Key P H W) where
  pub report_error-Pending :
      (h : H) (r : W × Bool) (s : Preferences Key P H W)
      → IsPending h s
      → IsPending h (report_error lists api r s)
  unfolding report_error
  report_error-Pending h (w, ok) s p =
      let q = world-Pending h w s p in if-Pending h ok _ _ q (say-Pending h _ _ _ q)

  pub say_error-Pending :
      (h : H) (s : Preferences Key P H W) → IsPending h s → IsPending h (say_error lists api s)
  unfolding say_error
  say_error-Pending h s p = say-Pending h _ _ s p

  pub changed-Pending :
      (h : H) (r : W × Bool) (s : Preferences Key P H W)
      → IsPending h s
      → IsPending h (changed lists api r s)
  unfolding changed IsPending
  changed-Pending h (w, ok) s (p, c, i, r, v) =
      if-Pending h ok _ _ (p, refl, i, r, v) (say_error-Pending h _ (p, c, i, r, v))

  pub list_paths-Pending :
      (h : H) (i : ℕ) (prefix : Key) (paths : List Key) (s : Preferences Key P H W)
      → IsPending h s
      → IsPending h (list_paths lists api i prefix paths s)
  unfolding list_paths
  list_paths-Pending h i prefix [] s p = p
  list_paths-Pending h i prefix (k ∷ paths) s p =
      list_paths-Pending h (i + 1) prefix paths _ (say-Pending h _ _ s p)

  pub print_paths-Pending :
      (h : H) (prefix : Key) (paths : List Key) (s : Preferences Key P H W)
      → IsPending h s
      → IsPending h (print_paths lists api prefix paths s)
  unfolding print_paths
  print_paths-Pending h prefix [] s p = say-Pending h _ _ s p
  print_paths-Pending h prefix (k ∷ paths) s p = list_paths-Pending h 0 prefix (k ∷ paths) s p

  -- There is a string for the text.
  pub with_string-Pends :
      (h : H) (a : Bytes) (f : Key → Ends (Preferences Key P H W))
      → Converts lists.cf a
      → ((k : Key) → Pends h (f k))
      → Pends h (with_string lists a f)
  with_string-Pends h a f c p = subst (Pends h) (sym (with_string-Converts lists a f c)) (p _)

  pub listed-Pends :
      (h : H) (o : Option P) (f : P → List Key) (prefix : Key) (s : Preferences Key P H W)
      → IsPending h s
      → Pends h (elim o [
        | none ↦ returned (say_error lists api s)
        | some v ↦ returned (print_paths lists api prefix (f v) s)
      ])
  unfolding Pends
  listed-Pends h none f prefix s p = say_error-Pending h s p
  listed-Pends h (some v) f prefix s p = print_paths-Pending h prefix (f v) s p

  pub do_prefs_list-Pends :
      (h : H) (args : List Bytes) (s : Preferences Key P H W)
      → Converts lists.cf (first_path args)
      → IsPending h s
      → Pends h (do_prefs_list lists api args s)
  unfolding do_prefs_list
  do_prefs_list-Pends h args s c p =
      with_string-Pends h _ _ c (λ k. listed-Pends h _ _ _ _ (world-Pending h _ s p))

  pub show_link-Pending :
      (h : H) (o : Option Key) (s : Preferences Key P H W)
      → IsPending h s
      → IsPending h (show_link lists api o s)
  unfolding show_link
  show_link-Pending h none s p = p
  show_link-Pending h (some k) s p = say-Pending h _ _ s p

  pub got-Pends :
      (h : H) (o : Option P) (f : P → P) (s : Preferences Key P H W)
      → IsPending h s
      → Pends h (elim o [
        | none ↦ returned (say_error lists api s)
        | some v ↦ returned (record s { value = some (f v) })
      ])
  unfolding Pends IsPending
  got-Pends h none f s p = say_error-Pending h s p
  got-Pends h (some v) f s (p, c, i, r, _) = (p, c, i, r, (f v, refl))

  pub do_prefs_get-Pends :
      (h : H) (a : Bytes) (args : List Bytes) (s : Preferences Key P H W)
      → Converts lists.cf a
      → IsPending h s
      → Pends h (do_prefs_get lists api (a ∷ args) s)
  unfolding do_prefs_get
  do_prefs_get-Pends h a args s c p = with_string-Pends h a _ c (λ k.
      got-Pends h _ _ _ (world-Pending h _ _ (show_link-Pending h _ _ (world-Pending h _ s p))))

  pub set_path-Pends :
      (h : H) (path : Key) (args : List Bytes) (d : P) (s : Preferences Key P H W)
      → All (Converts lists.cf) args
      → IsPending h s
      → Pends h (set_path lists api path args d s)
  unfolding set_path Pends
  set_path-Pends h path [] d s c p = changed-Pending h _ s p
  set_path-Pends h path (a ∷ args) d s (c, _) p =
      with_string-Pends h a _ c (λ k. changed-Pending h _ s p)

  pub retained-Pends :
      (h : H) (path : Key) (args : List Bytes) (r : Key ⊎ P) (m : Key → Message Key P)
      (s : Preferences Key P H W)
      → All (Converts lists.cf) args
      → IsPending h s
      → Pends h (elim r [
        | inl k ↦ returned (say stdout (m k) s)
        | inr d ↦ set_path lists api path args d s
      ])
  unfolding Pends
  retained-Pends h path args (inl k) m s c p = say-Pending h _ _ s p
  retained-Pends h path args (inr d) m s c p = set_path-Pends h path args d s c p

  if-Pends :
      (h : H) (b : Bool) (r r' : Ends (Preferences Key P H W))
      → Pends h r
      → Pends h r'
      → Pends h (if b then r else r')
  if-Pends h true r r' p q = p
  if-Pends h false r r' p q = q

  returned-Pends : (h : H) (s : Preferences Key P H W) → IsPending h s → Pends h (returned s)
  unfolding Pends
  returned-Pends h s p = p

  pub set_over-Pends :
      (h : H) (path : Key) (args : List Bytes) (d : P) (old : Option P) (s : Preferences Key P H W)
      → All (Converts lists.cf) args
      → ((v : P) → old ≡ some v → lists.cf.is_dictionary v ≡ true)
      → IsPending h s
      → Pends h (set_over lists api path args d old s)
  unfolding set_over
  set_over-Pends h path args d none s c dict p =
      if-Pends h (api.sc_error s.world == invalid_argument) _ _
        (returned-Pends h _ (say-Pending h _ _ s p))
        (if-Pends h (api.sc_error s.world == no_key) _ _ (set_path-Pends h path args d s c p)
          (returned-Pends h _ (say_error-Pending h s p)))
  set_over-Pends h path args d (some old) s c dict p =
      rw (dict old refl)
        (retained-Pends h path args (retain_children lists (lists.entries old) d) _ s c p)

  pub value-Pends :
      (h : H) (o : Option P) (f : P → Ends (Preferences Key P H W))
      → ((v : P) × (o ≡ some v))
      → ((v : P) → Pends h (f v))
      → Pends h (elim o [ none ↦ faulted | some d ↦ f d ])
  value-Pends h o f (v, e) p = rw e (p v)
