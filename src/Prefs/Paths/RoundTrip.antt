-- ===== src/Prefs/Paths/RoundTrip.antt =====
-- scutil/prefs.c: what `get` takes out of a dictionary and `set` puts back.
use configd_extra.Base.{◌≡◌, refl, ap₂, ◌∙◌, true, [], ◌∷◌, inr, Option, none, some, Bytes}
use configd_extra.Prefs.State.{
  Plists, PrefsApi, Preferences, Ends, returned, say, with_string-Converts,
}
use configd_extra.Shell.State.{Converts}
use configd_extra.Prefs.Paths.{
  entries_of, without_children, retain_children, do_prefs_get, do_prefs_set, changed, set_path,
  set_over, show_link,
}
use configd_extra.Prefs.Paths.Parts.{PlistLaws, retain_children-without_children}

module _ {Key P H W : Type 0} (lists : Plists Key P) (api : PrefsApi Key P H W) where
  show_link-prefs :
      (o : Option Key) (s : Preferences Key P H W) → (show_link lists api o s).prefs ≡ s.prefs
  unfolding show_link say
  show_link-prefs none s = refl
  show_link-prefs (some k) s = refl

  show_link-world :
      (o : Option Key) (s : Preferences Key P H W) → (show_link lists api o s).world ≡ s.world
  unfolding show_link say
  show_link-world none s = refl
  show_link-world (some k) s = refl

  present :
      (o : Option P) (v : P) (f : P → Ends (Preferences Key P H W))
      (x : Ends (Preferences Key P H W))
      → o ≡ some v
      → elim o [ none ↦ x | some d ↦ f d ] ≡ f v
  present o v f x e = rw e refl

  set_over-retained :
      (path : Key) (d d' v : P) (o : Option P) (s : Preferences Key P H W)
      → o ≡ some v
      → lists.cf.is_dictionary v ≡ true
      → retain_children lists (lists.entries v) d ≡ inr d'
      → set_over lists api path [] d o s
        ≡ returned (changed lists api (api.path_set_value s.world s.prefs path d') s)
  unfolding set_over set_path
  set_over-retained path d d' v o s e dict r = rw (e, dict, r) refl

  -- What SCPreferences documents: a read of a path, or of the link at it, changes no value.
  pub record PathLaws : Type 0 where
    pub get_link :
        (w : W) (o : Option H) (j k : Key)
        → (api.path_get_value (api.path_get_link w o j).0 o k).1 ≡ (api.path_get_value w o k).1
    pub get_value :
        (w : W) (o : Option H) (j k : Key)
        → (api.path_get_value (api.path_get_value w o j).0 o k).1 ≡ (api.path_get_value w o k).1

  -- CoreFoundation does what it documents of dictionaries, and a read of the preferences changes none
  -- of their values. The preferences have the dictionary `v` at the path of the argument. Then `get`
  -- of the path returns, and `set` of it right after hands SCPreferences a dictionary with exactly
  -- the entries of `v`: those that `get` took for `value`, and the children that `set` retains. There
  -- must be a string for the argument.
  pub do_prefs_set-do_prefs_get :
      PlistLaws lists
      → PathLaws
      → (a : Bytes) (v : P) (s : Preferences Key P H W) → Converts lists.cf a
      → lists.cf.is_dictionary v ≡ true
      → (api.path_get_value s.world s.prefs (lists.cf.create_string a)).1 ≡ some v
      → (t : Preferences Key P H W) × (do_prefs_get lists api (a ∷ []) s ≡ returned t)
        × ((w : W) × (d : P) × (do_prefs_set lists api (a ∷ []) t
              ≡ returned (
                  changed lists api
                    (api.path_set_value w t.prefs (lists.cf.create_string a) d)
                    (record t { world = w })))
            × ((j : Key) → lists.get_value d j ≡ lists.get_value v j))
  unfolding do_prefs_get do_prefs_set entries_of
  do_prefs_set-do_prefs_get laws reads a v s c dict held =
      let path = lists.cf.create_string a in
      let (w, link) = api.path_get_link s.world s.prefs path in
      let u = show_link lists api link (record s { world = w }) in
      let same : u.prefs ≡ s.prefs = show_link-prefs link (record s { world = w }) in
      let here : u.world ≡ w = show_link-world link (record s { world = w }) in
      let (d', e, g) = retain_children-without_children lists laws v in
      let first : (api.path_get_value u.world u.prefs path).1 ≡ some v =
        ap₂ (λ x o. (api.path_get_value x o path).1) here same
        ∙ reads.get_link s.world s.prefs path path
        ∙ held in
      let d = without_children lists (lists.entries v) lists.cf.empty_dictionary in
      let t = record u { world = (api.path_get_value u.world u.prefs path).0; value = some d } in
      (
        t,
        with_string-Converts lists a _ c ∙ present _ v _ _ first ∙ rw dict refl,
        (
          (api.path_get_value t.world t.prefs path).0,
          d',
          with_string-Converts lists a _ c
              ∙ set_over-retained path d d' v _ _
                  (reads.get_value u.world u.prefs path path ∙ first) dict e,
          g,
        ),
      )
