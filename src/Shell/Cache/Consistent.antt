-- ===== src/Shell/Cache/Consistent.antt =====
-- scutil/cache.c and scutil/dictionary.c: the handlers keep the lists of watched keys of an open
-- session.
use configd_extra.Base.{
  ◌==◌, Bool, true, false, List, [], ◌∷◌, Option, none, some, Bytes, codes, All,
}
use configd_extra.Shell.Cache.{
  is_active, begin_block, end_block, close_block, set_block, do_block, list_keys, has_changes,
  list_cached, list_noted, list_pattern, listed, do_list, do_add, fetched, do_get, do_set,
  show_value, show_collected, show_pattern, do_show, do_remove, do_notify,
}
use configd_extra.Shell.Session.Consistent.{print_numbered-Consistent}
use configd_extra.Shell.Session.Safe.{
  IsConsistent, Safe, HasNoCache, active-Safe, created-Safe, if-Safe, print-Safe, if-Consistent,
  print-Consistent, print_error-Consistent, report-Consistent, return-Safe, world-Consistent,
}
use configd_extra.Shell.State.{Cf, Converts, StoreApi, Shell, Message, print}

module _ {Key P H W : Type 0} (cf : Cf Key P) (api : StoreApi Key P H W) where
  begin_block-Consistent :
      (s : Shell Key P H W) → IsConsistent s → IsConsistent (begin_block cf api s)
  unfolding begin_block
  begin_block-Consistent s c =
      if-Consistent _ _ _ (print-Consistent _ s c) (print-Consistent _ _ (world-Consistent _ s c))

  end_block-Safe :
      HasNoCache cf api → (s : Shell Key P H W) → IsConsistent s → Safe (end_block cf api s)
  unfolding end_block close_block is_active
  end_block-Safe law s c =
      active-Safe cf api s.world s.store _ _ law (λ h. print-Safe _ _ (world-Consistent _ s c))
        (print-Safe _ s c)

  set_block-Safe :
      HasNoCache cf api
      → (o : Option Bool) (s : Shell Key P H W) → IsConsistent s
      → Safe (set_block cf api s o)
  unfolding set_block
  set_block-Safe law none s c = print-Safe _ s c
  set_block-Safe law (some true) s c = return-Safe _ (begin_block-Consistent s c)
  set_block-Safe law (some false) s c = end_block-Safe law s c

  pub do_block-Safe :
      HasNoCache cf api
      → (args : List Bytes) (s : Shell Key P H W) → IsConsistent s
      → Safe (do_block cf api args s)
  unfolding do_block
  do_block-Safe law args s c = set_block-Safe law _ s c

  list_keys-Consistent :
      (ks : List Key) (s : Shell Key P H W) → IsConsistent s → IsConsistent (list_keys cf api ks s)
  unfolding list_keys
  list_keys-Consistent [] s c = print-Consistent _ s c
  list_keys-Consistent (k ∷ ks) s c = print_numbered-Consistent cf api _ 0 _ s c

  set_listed-Consistent :
      (o : Option (List Key)) (m : Message Key P) (s : Shell Key P H W)
      → IsConsistent s
      → IsConsistent (elim o [ none ↦ print m s | some ks ↦ list_keys cf api ks s ])
  set_listed-Consistent none m s c = print-Consistent _ s c
  set_listed-Consistent (some ks) m s c = list_keys-Consistent ks s c

  list_noted-Consistent :
      (h : H) (ks : List Key) (s : Shell Key P H W)
      → IsConsistent s
      → IsConsistent (list_noted cf api h ks s)
  unfolding list_noted
  list_noted-Consistent h ks s c =
      if-Consistent _ _ _ (list_keys-Consistent ks _ (print-Consistent _ _ c))
        (list_keys-Consistent ks s c)

  list_cached-Consistent :
      (h : H) (s : Shell Key P H W) → IsConsistent s → IsConsistent (list_cached cf api h s)
  unfolding list_cached
  list_cached-Consistent h s c = set_listed-Consistent (api.cached_set s.world h) _ s c

  listed-Safe :
      HasNoCache cf api
      → (s : Shell Key P H W) (r : W × Option (List Key)) → IsConsistent s
      → Safe (listed cf api s r)
  unfolding listed is_active
  listed-Safe law s (w, none) c =
      let c' = world-Consistent w s c in
      if-Safe (api.sc_error w == 0) _ _
        (active-Safe cf api w s.store _ _ law (λ h. return-Safe _ (list_cached-Consistent h _ c'))
          (print-Safe _ _ c'))
        (return-Safe _ (print_error-Consistent api _ c'))
  listed-Safe law s (w, some ks) c =
      let c' = world-Consistent w s c in
      active-Safe cf api w s.store _ _ law (λ h. return-Safe _ (list_noted-Consistent h ks _ c'))
        (return-Safe _ (list_keys-Consistent ks _ c'))

  pub do_list-Safe :
      HasNoCache cf api
      → Converts cf (codes ".*")
      → (args : List Bytes) (s : Shell Key P H W) → All (Converts cf) args
      → IsConsistent s
      → Safe (do_list cf api args s)
  unfolding do_list list_pattern
  do_list-Safe law any [] s h c = created-Safe cf api _ _ any (λ k. listed-Safe law s _ c)
  do_list-Safe law any (a ∷ args) s h c = created-Safe cf api _ _ h.0 (λ k. listed-Safe law s _ c)

  pub do_add-Safe :
      (a : Bytes) (args : List Bytes) (s : Shell Key P H W)
      → Converts cf a
      → IsConsistent s
      → Safe (do_add cf api (a ∷ args) s)
  unfolding do_add
  do_add-Safe a [] s k c = created-Safe cf api a _ k (λ _.
      return-Safe _ (if-Consistent _ _ _ (print-Consistent _ s c) (report-Consistent api s _ c)))
  do_add-Safe a (b ∷ args) s k c = created-Safe cf api a _ k (λ _.
      return-Safe _ (if-Consistent _ _ _ (print-Consistent _ s c) (report-Consistent api s _ c)))

  fetched-Consistent :
      (s : Shell Key P H W) (r : W × Option P) → IsConsistent s → IsConsistent (fetched cf api s r)
  unfolding fetched IsConsistent
  fetched-Consistent s (w, none) c = print_error-Consistent api _ (world-Consistent w s c)
  fetched-Consistent s (w, some v) c = c

  pub do_get-Safe :
      (a : Bytes) (args : List Bytes) (s : Shell Key P H W)
      → Converts cf a
      → IsConsistent s
      → Safe (do_get cf api (a ∷ args) s)
  unfolding do_get
  do_get-Safe a args s k c =
      created-Safe cf api a _ k (λ _. return-Safe _ (fetched-Consistent s _ c))

  pub do_set-Safe :
      (a : Bytes) (args : List Bytes) (s : Shell Key P H W)
      → Converts cf a
      → IsConsistent s
      → Safe (do_set cf api (a ∷ args) s)
  unfolding do_set
  do_set-Safe a args s k c =
      created-Safe cf api a _ k (λ _. return-Safe _ (report-Consistent api s _ c))

  show_value-Consistent :
      (s : Shell Key P H W) (r : W × Option P)
      → IsConsistent s
      → IsConsistent (show_value cf api s r)
  unfolding show_value
  show_value-Consistent s (w, none) c = print_error-Consistent api _ (world-Consistent w s c)
  show_value-Consistent s (w, some v) c = print-Consistent _ _ (world-Consistent w s c)

  show_collected-Consistent :
      (h : H) (s : Shell Key P H W) (r : W × P)
      → IsConsistent s
      → IsConsistent (show_collected cf api h s r)
  unfolding show_collected
  show_collected-Consistent h s (w, d) c =
      let c' = world-Consistent w s c in
      if-Consistent (has_changes cf api h (record s { world = w })) _ _
        (print-Consistent _ _ (print-Consistent _ _ c')) (print-Consistent _ _ c')

  pub do_show-Safe :
      HasNoCache cf api
      → (a : Bytes) (args : List Bytes) (s : Shell Key P H W) → Converts cf a
      → IsConsistent s
      → Safe (do_show cf api (a ∷ args) s)
  unfolding do_show show_pattern is_active
  do_show-Safe law a [] s k c =
      created-Safe cf api a _ k (λ _. return-Safe _ (show_value-Consistent s _ c))
  do_show-Safe law a (b ∷ args) s k c = created-Safe cf api a _ k (λ _.
      active-Safe cf api s.world s.store _ _ law
        (λ h. return-Safe _ (show_collected-Consistent h s _ c))
        (return-Safe _ (show_value-Consistent s _ c)))

  pub do_remove-Safe :
      (a : Bytes) (args : List Bytes) (s : Shell Key P H W)
      → Converts cf a
      → IsConsistent s
      → Safe (do_remove cf api (a ∷ args) s)
  unfolding do_remove
  do_remove-Safe a args s k c =
      created-Safe cf api a _ k (λ _. return-Safe _ (report-Consistent api s _ c))

  pub do_notify-Safe :
      (a : Bytes) (args : List Bytes) (s : Shell Key P H W)
      → Converts cf a
      → IsConsistent s
      → Safe (do_notify cf api (a ∷ args) s)
  unfolding do_notify
  do_notify-Safe a args s k c =
      created-Safe cf api a _ k (λ _. return-Safe _ (report-Consistent api s _ c))
