-- ===== src/Shell/Session/Consistent.antt =====
-- scutil/: while a session is open there are both lists of watched keys, and every handler keeps it
-- so.
use configd_extra.Base.{
  ℕ, ◌+◌, Bool, true, false, List, [], ◌∷◌, Option, none, some, Bytes, if◌then◌else◌, ◌≡◌, refl,
  arith,
}
use configd_extra.Shell.Session.{
  print_error, opened, do_open, close_store, cancel_source, stop_loop, do_close, print_numbered,
  post_watched, watched, set_watched, add_watched, remove_found, remove_watched, with_key,
  do_notify_add, do_notify_remove, print_watched, do_notify_list, changes_listed, do_notify_changes,
}
use configd_extra.Shell.State.{Cf, Converts, StoreApi, Shell, print}
use configd_extra.Shell.Session.Safe.{
  Linked, Linked-of, IsConsistent, Safe, bind-Safe, created-Safe, Consistent-lists,
  print-Consistent, if-Safe, return-Safe, print-Safe, world-Consistent, print_error-Consistent,
  report-Consistent,
}

module _ {Key P H W : Type 0} (cf : Cf Key P) (api : StoreApi Key P H W) where
  opened-Consistent : (t : Shell Key P H W) (r : W × Option H) → IsConsistent (opened cf api t r)
  unfolding opened IsConsistent print_error print Linked
  opened-Consistent t (w, none) = tt
  opened-Consistent t (w, some h) = tt

  pub do_open-Safe : (args : List Bytes) (s : Shell Key P H W) → Safe (do_open cf api args s)
  unfolding do_open Safe
  do_open-Safe args s = opened-Consistent _ _

  close_store-Consistent :
      (s : Shell Key P H W) → IsConsistent s → IsConsistent (close_store cf api s)
  unfolding close_store IsConsistent Linked
  close_store-Consistent s h = ground arith

  cancel-Consistent : (s : Shell Key P H W) → IsConsistent s → IsConsistent (cancel_source cf api s)
  unfolding cancel_source IsConsistent
  cancel-Consistent s h = ground arith

  stop-Consistent : (s : Shell Key P H W) → IsConsistent s → IsConsistent (stop_loop cf api s)
  unfolding stop_loop IsConsistent
  stop-Consistent s h = ground arith

  pub print_numbered-Consistent :
      (l : Bytes) (i : ℕ) (ks : List Key) (s : Shell Key P H W)
      → IsConsistent s
      → IsConsistent (print_numbered cf l i ks s)
  unfolding print_numbered
  print_numbered-Consistent l i [] s h = h
  print_numbered-Consistent l i (k ∷ ks) s h =
      print_numbered-Consistent l (i + 1) ks _ (print-Consistent _ s h)

  post-Safe :
      (s : Shell Key P H W) (a b : List Key)
      → s.watched_keys ≡ some a
      → s.watched_patterns ≡ some b
      → Safe (post_watched cf api s)
  unfolding post_watched Safe IsConsistent
  post-Safe s a b ea eb = bind-Safe _ _ a ea (
      bind-Safe _ _ b eb
        (report-Consistent api s _ (Linked-of s.store s.watched_keys s.watched_patterns a b ea eb)))

  set_watched-Safe :
      (r : Bool) (x : List Key) (s : Shell Key P H W) (a b : List Key)
      → s.watched_keys ≡ some a
      → s.watched_patterns ≡ some b
      → Safe (post_watched cf api (set_watched cf api r x s))
  unfolding set_watched
  set_watched-Safe true x s a b ea eb = post-Safe _ a x ea refl
  set_watched-Safe false x s a b ea eb = post-Safe _ x b refl eb

  watched-some :
      (r : Bool) (s : Shell Key P H W) (a b : List Key)
      → s.watched_keys ≡ some a
      → s.watched_patterns ≡ some b
      → watched cf api r s ≡ some (if r then b else a)
  unfolding watched
  watched-some true s a b ea eb = eb
  watched-some false s a b ea eb = ea

  add_watched-Safe :
      (r : Bool) (k : Key) (s : Shell Key P H W) (h : H)
      → s.store ≡ some h
      → IsConsistent s
      → Safe (add_watched cf api r k s)
  unfolding add_watched
  add_watched-Safe r k s h open_ c =
      let (a, b, ea, eb) = Consistent-lists s h open_ c in
      bind-Safe _ _ _ (watched-some r s a b ea eb)
        (if-Safe _ _ _ (print-Safe _ s c) (set_watched-Safe r _ s a b ea eb))

  remove_found-Safe :
      (r : Bool) (o : Option (List Key)) (s : Shell Key P H W) (a b : List Key)
      → s.watched_keys ≡ some a
      → s.watched_patterns ≡ some b
      → IsConsistent s
      → Safe (remove_found cf api r o s)
  unfolding remove_found
  remove_found-Safe r none s a b ea eb c = print-Safe _ s c
  remove_found-Safe r (some l) s a b ea eb c = set_watched-Safe r l s a b ea eb

  remove_watched-Safe :
      (r : Bool) (k : Key) (s : Shell Key P H W) (h : H)
      → s.store ≡ some h
      → IsConsistent s
      → Safe (remove_watched cf api r k s)
  unfolding remove_watched
  remove_watched-Safe r k s h open_ c =
      let (a, b, ea, eb) = Consistent-lists s h open_ c in
      bind-Safe _ _ _ (watched-some r s a b ea eb) (remove_found-Safe r _ s a b ea eb c)

  -- A handler that starts with a test of `store`.
  session-Safe :
      (o : Option H) (f : H → Option (Shell Key P H W)) (t : Option (Shell Key P H W))
      → Safe t
      → ((h : H) → o ≡ some h → Safe (f h))
      → Safe (elim o [ none ↦ t | some h ↦ f h ])
  session-Safe none f t ht hf = ht
  session-Safe (some h) f t ht hf = hf h refl

  pub do_notify_add-Safe :
      (a : Bytes) (args : List Bytes) (s : Shell Key P H W)
      → Converts cf a
      → IsConsistent s
      → Safe (do_notify_add cf api (a ∷ args) s)
  unfolding do_notify_add with_key
  do_notify_add-Safe a args s k c =
      session-Safe s.store _ _ (print-Safe _ s c)
        (λ h e. created-Safe cf api a _ k (λ _. add_watched-Safe _ _ s h e c))

  pub do_notify_remove-Safe :
      (a : Bytes) (args : List Bytes) (s : Shell Key P H W)
      → Converts cf a
      → IsConsistent s
      → Safe (do_notify_remove cf api (a ∷ args) s)
  unfolding do_notify_remove with_key
  do_notify_remove-Safe a args s k c =
      session-Safe s.store _ _ (print-Safe _ s c)
        (λ h e. created-Safe cf api a _ k (λ _. remove_watched-Safe _ _ s h e c))

  print_watched-Consistent :
      (r : Bool) (o : Option (List Key)) (s : Shell Key P H W)
      → IsConsistent s
      → IsConsistent (print_watched cf api r o s)
  unfolding print_watched
  print_watched-Consistent r none s c = print-Consistent _ s c
  print_watched-Consistent r (some []) s c = print-Consistent _ s c
  print_watched-Consistent r (some (k ∷ ks)) s c = print_numbered-Consistent _ 0 _ s c

  pub do_notify_list-Safe :
      (args : List Bytes) (s : Shell Key P H W)
      → IsConsistent s
      → Safe (do_notify_list cf api args s)
  unfolding do_notify_list
  do_notify_list-Safe args s c =
      session-Safe s.store _ _ (print-Safe _ s c)
        (λ h e. return-Safe _ (print_watched-Consistent _ _ s c))

  changes_listed-Consistent :
      (s : Shell Key P H W) (r : W × Option (List Key))
      → IsConsistent s
      → IsConsistent (changes_listed cf api s r)
  unfolding changes_listed
  changes_listed-Consistent s (w, none) c = print_error-Consistent api _ (world-Consistent w s c)
  changes_listed-Consistent s (w, some []) c = print-Consistent _ _ (world-Consistent w s c)
  changes_listed-Consistent s (w, some (k ∷ ks)) c =
      print_numbered-Consistent _ 0 _ _ (world-Consistent w s c)

  pub do_notify_changes-Safe :
      (args : List Bytes) (s : Shell Key P H W)
      → IsConsistent s
      → Safe (do_notify_changes cf api args s)
  unfolding do_notify_changes
  do_notify_changes-Safe args s c = return-Safe _ (changes_listed-Consistent s _ c)

  pub do_close-Safe :
      (args : List Bytes) (s : Shell Key P H W) → IsConsistent s → Safe (do_close cf api args s)
  unfolding do_close
  do_close-Safe args s c =
      return-Safe _ (
        world-Consistent _ _ (close_store-Consistent _ (stop-Consistent _ (cancel-Consistent s c))))
