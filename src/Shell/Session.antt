-- ===== src/Shell/Session.antt =====
-- scutil/session.c and the watched keys of scutil/notifications.c. `watchedKeys` and
-- `watchedPatterns` are `none` while no session is open; the functions of CoreFoundation fault on
-- `NULL` for an array or a key, and so does a read of a missing argument: `none`.
pub mod Watched
pub mod Safe
pub mod Consistent
use configd_extra.Base.{
  ℕ, suc, ◌+◌, Bool, true, false, List, [], ◌∷◌, ◌++◌, Option, none, some, Bytes, codes, equal,
  if◌then◌else◌, ◌>>=◌, length, ◌==◌,
}
use configd_extra.Shell.State.{
  Cf, created, StoreApi, Shell, Message, text, status, numbered, print, no_store_session, no_key,
  key_exists,
}

module _ {Key P : Type 0} (cf : Cf Key P) where
  -- `CFArrayContainsValue`
  unfoldable pub contains : List Key → Key → Bool
  contains [] k = false
  contains (x ∷ xs) k = if cf.key_equal x k then true else contains xs k

  -- `CFArrayGetFirstIndexOfValue` and `CFArrayRemoveValueAtIndex`; `none` is `kCFNotFound`.
  unfoldable pub remove_first : List Key → Key → Option (List Key)
  remove_first [] k = none
  remove_first (x ∷ xs) k =
      let rest = remove_first xs k in
      if cf.key_equal x k then some xs else do ys ← rest; some (x ∷ ys)

  -- The loop that prints the elements of a sorted array, each with its index.
  unfoldable pub print_numbered :
      {H W : Type 0} → Bytes → ℕ → List Key → Shell Key P H W → Shell Key P H W
  print_numbered label i [] s = s
  print_numbered label i (k ∷ ks) s = print_numbered label (i + 1) ks (print (numbered label i k) s)

module _ {Key P H W : Type 0} (api : StoreApi Key P H W) where
  -- What is printed when a call into the library failed.
  unfoldable pub print_error : Shell Key P H W → Shell Key P H W
  print_error s = print (status (api.sc_error s.world)) s

  -- The result of a call that says whether it worked.
  unfoldable pub report : Shell Key P H W → W × Bool → Shell Key P H W
  report s (w, true) = record s { world = w }
  report s (w, false) = print_error (record s { world = w })

module _ {Key P H W : Type 0} (cf : Cf Key P) (api : StoreApi Key P H W) where
  unfoldable pub release_store : Shell Key P H W → Shell Key P H W
  release_store s = elim s.store [ none ↦ s | some h ↦ record s { world = api.release s.world h } ]

  unfoldable pub create_session : List Bytes → W → W × Option H
  create_session [] w = api.create w
  create_session (a ∷ args) w = api.create_with_session_keys w

  -- A failure leaves `store` at `NULL` and the two arrays as they were, though released.
  unfoldable pub opened : Shell Key P H W → W × Option H → Shell Key P H W
  opened s (w, none) = print_error api (record s { store = none; world = w })
  opened s (w, some h) = record s {
    store = some h;
    watched_keys = some [];
    watched_patterns = some [];
    world = api.cache_close (api.set_disconnect_callback w h) (some h);
  }

  unfoldable pub do_open : List Bytes → Shell Key P H W → Option (Shell Key P H W)
  do_open args s = let s' = release_store s in some (opened s' (create_session args s'.world))

  unfoldable pub cancel_source : Shell Key P H W → Shell Key P H W
  cancel_source s =
      if s.notify_source
      then record s {
        notify_source = false;
        world =
            if s.do_dispatch
            then api.unset_dispatch_queue s.world s.store
            else api.invalidate_source s.world;
      }
      else s

  unfoldable pub stop_loop : Shell Key P H W → Shell Key P H W
  stop_loop s =
      if s.notify_loop
      then record s { notify_loop = false; world = api.stop_run_loop s.world }
      else s

  unfoldable pub close_store : Shell Key P H W → Shell Key P H W
  close_store s = elim s.store [
    | none ↦ s
    | some h ↦ record s {
      store = none;
      watched_keys = none;
      watched_patterns = none;
      world = api.release s.world h;
    }
  ]

  unfoldable pub do_close : List Bytes → Shell Key P H W → Option (Shell Key P H W)
  do_close args s =
      let s' = close_store (stop_loop (cancel_source s)) in
      some (record s' { world = api.cache_close s'.world s'.store })

  -- `keys = isRegex ? watchedPatterns : watchedKeys`
  unfoldable pub watched : Bool → Shell Key P H W → Option (List Key)
  watched is_regex s = if is_regex then s.watched_patterns else s.watched_keys

  unfoldable pub set_watched : Bool → List Key → Shell Key P H W → Shell Key P H W
  set_watched is_regex ks s =
      if is_regex
      then record s { watched_patterns = some ks }
      else record s { watched_keys = some ks }

  -- The call that both handlers end with.
  unfoldable pub post_watched : Shell Key P H W → Option (Shell Key P H W)
  post_watched s = do
    keys ← s.watched_keys
    patterns ← s.watched_patterns
    some (report api s (api.set_notification_keys s.world s.store keys patterns))

  unfoldable pub add_watched : Bool → Key → Shell Key P H W → Option (Shell Key P H W)
  add_watched is_regex k s = do
    ks ← watched is_regex s
    if contains cf ks k
        then some (print (status key_exists) s)
        else post_watched (set_watched is_regex (ks ++ (k ∷ [])) s)

  unfoldable pub remove_found :
      Bool → Option (List Key) → Shell Key P H W → Option (Shell Key P H W)
  remove_found is_regex none s = some (print (status no_key) s)
  remove_found is_regex (some rest) s = post_watched (set_watched is_regex rest s)

  unfoldable pub remove_watched : Bool → Key → Shell Key P H W → Option (Shell Key P H W)
  remove_watched is_regex k s = do
    ks ← watched is_regex s
    remove_found is_regex (remove_first cf ks k) s

  -- A handler that needs a session and a key; a second argument asks for a pattern.
  unfoldable pub with_key :
      (Bool → Key → Shell Key P H W → Option (Shell Key P H W))
      → List Bytes
      → Shell Key P H W
      → Option (Shell Key P H W)
  with_key act [] s = none
  with_key act (name ∷ args) s = do key ← created cf name; act (length args == 1) key s

  unfoldable pub do_notify_add : List Bytes → Shell Key P H W → Option (Shell Key P H W)
  do_notify_add args s = elim s.store [
    | none ↦ some (print (status no_store_session) s)
    | some h ↦ with_key add_watched args s
  ]

  unfoldable pub do_notify_remove : List Bytes → Shell Key P H W → Option (Shell Key P H W)
  do_notify_remove args s = elim s.store [
    | none ↦ some (print (status no_store_session) s)
    | some h ↦ with_key remove_watched args s
  ]

  unfoldable pub print_watched : Bool → Option (List Key) → Shell Key P H W → Shell Key P H W
  print_watched is_regex none s =
      print
        (text
          (if is_regex then codes "  no notifier patterns.\n" else codes "  no notifier keys.\n"))
        s
  print_watched is_regex (some []) s =
      print
        (text
          (if is_regex then codes "  no notifier patterns.\n" else codes "  no notifier keys.\n"))
        s
  print_watched is_regex (some (k ∷ ks)) s =
      print_numbered cf (if is_regex then codes "notifier pattern" else codes "notifier key") 0
        (cf.sort_values (k ∷ ks)) s

  unfoldable pub do_notify_list : List Bytes → Shell Key P H W → Option (Shell Key P H W)
  do_notify_list args s = elim s.store [
    | none ↦ some (print (status no_store_session) s)
    | some h ↦
        let is_regex = length args == 1 in some (print_watched is_regex (watched is_regex s) s)
  ]

  unfoldable pub changes_listed : Shell Key P H W → W × Option (List Key) → Shell Key P H W
  changes_listed s (w, none) = print_error api (record s { world = w })
  changes_listed s (w, some []) =
      print (text (codes "  no changedKey's.\n")) (record s { world = w })
  changes_listed s (w, some (k ∷ ks)) =
      print_numbered cf (codes "changedKey") 0 (k ∷ ks) (record s { world = w })

  unfoldable pub do_notify_changes : List Bytes → Shell Key P H W → Option (Shell Key P H W)
  do_notify_changes args s = some (changes_listed s (api.copy_notified_keys s.world s.store))
