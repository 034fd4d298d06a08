-- ===== src/Shell/Cache.antt =====
-- scutil/cache.c: the operations on the dynamic store, and blocks of them, which the library caches.
-- Handlers get the arguments that follow the command's name; `none` is a fault: a read of a missing
-- one, of a field through a `store` that is `NULL`, or the release of a key that is `NULL`.
pub mod Block
pub mod Consistent
use configd_extra.Base.{
  ℕ, zero, suc, ◌+◌, Bool, true, false, not, ◌||◌, List, [], ◌∷◌, Option, none, some, Bytes, codes,
  if◌then◌else◌, ◌>>=◌, length, ltb, ◌==◌,
}
use configd_extra.Shell.Scan.{equal_nocase}
use configd_extra.Shell.Session.{print_numbered, print_error, report}
use configd_extra.Shell.State.{
  Cf, created, StoreApi, Shell, Message, text, status, shown, print, locked, need_lock,
}

-- `begin` or `end`, in the spellings that `block` takes.
unfoldable pub scan_block : Bytes → Option Bool
scan_block a =
    if equal_nocase a (codes "begin")
      || (equal_nocase a (codes "start")
          || (equal_nocase a (codes "on") || equal_nocase a (codes "1")))
    then some true
    else if equal_nocase a (codes "end")
        || (equal_nocase a (codes "stop")
            || (equal_nocase a (codes "off") || equal_nocase a (codes "0")))
    then some false
    else none

module _ {Key P H W : Type 0} (cf : Cf Key P) (api : StoreApi Key P H W) where
  unfoldable pub is_active : Shell Key P H W → Bool
  is_active s = api.cache_is_active s.world s.store

  unfoldable pub cached_count : H → Shell Key P H W → ℕ
  cached_count h s = elim (api.cached_set s.world h) [ none ↦ 0 | some ks ↦ length ks ]

  unfoldable pub count_or_zero : Option ℕ → ℕ
  count_or_zero none = 0
  count_or_zero (some n) = n

  unfoldable pub removal_count : H → Shell Key P H W → ℕ
  removal_count h s = count_or_zero (api.cached_removals s.world h)

  -- The changes that the end of a block posts.
  unfoldable pub pending : H → Shell Key P H W → ℕ
  pending h s = cached_count h s + removal_count h s + count_or_zero (api.cached_notifys s.world h)

  unfoldable pub begin_block : Shell Key P H W → Shell Key P H W
  begin_block s =
      if is_active s
      then print (status locked) s
      else print (text (codes "Begin block of SCDynamicStore operations\n"))
          (record s { world = api.cache_open s.world s.store })

  unfoldable pub commit_changes : H → Shell Key P H W → W
  commit_changes h s =
      if ltb 0 (pending h s) then api.cache_commit_changes s.world s.store else s.world

  -- The end of a block, with the session that `storePrivate` is.
  unfoldable pub close_block : H → Shell Key P H W → Shell Key P H W
  close_block h s =
      print
        (text (
          if ltb 0 (pending h s)
          then codes "End block of SCDynamicStore operations, posting changes\n"
          else codes "End block of SCDynamicStore operations\n"))
        (record s { world = api.cache_close (commit_changes h s) s.store })

  unfoldable pub end_block : Shell Key P H W → Option (Shell Key P H W)
  end_block s =
      if is_active s
      then (do h ← s.store; some (close_block h s))
      else some (print (status need_lock) s)

  unfoldable pub set_block : Shell Key P H W → Option Bool → Option (Shell Key P H W)
  set_block s none = some (print (text (codes "invalid value\n")) s)
  set_block s (some true) = some (begin_block s)
  set_block s (some false) = end_block s

  -- With no argument the state is toggled.
  unfoldable pub wanted_block : List Bytes → Shell Key P H W → Option Bool
  wanted_block [] s = some (not (is_active s))
  wanted_block (a ∷ args) s = scan_block a

  unfoldable pub do_block : List Bytes → Shell Key P H W → Option (Shell Key P H W)
  do_block args s = set_block s (wanted_block args s)

  unfoldable pub list_keys : List Key → Shell Key P H W → Shell Key P H W
  list_keys [] s = print (text (codes "  no keys.\n")) s
  list_keys (k ∷ ks) s = print_numbered cf (codes "subKey") 0 (cf.sort_values (k ∷ ks)) s

  -- Whether a block has changed keys that the store does not know yet.
  unfoldable pub has_changes : H → Shell Key P H W → Bool
  has_changes h s = ltb 0 (cached_count h s) || ltb 0 (removal_count h s)

  unfoldable pub list_cached : H → Shell Key P H W → Shell Key P H W
  list_cached h s = elim (api.cached_set s.world h) [
    | none ↦ print (text (codes "  no keys.\n")) s
    | some ks ↦ list_keys ks s
  ]

  unfoldable pub list_noted : H → List Key → Shell Key P H W → Shell Key P H W
  list_noted h ks s =
      if has_changes h s
      then list_keys ks (
          print
            (text (
              codes
                "  Note: SCDynamicStore transactions in progress, key list (below) may be out of date.\n\n"))
            s)
      else list_keys ks s

  -- `kSCStatusOK` is 0. With no key in the store, a block lists the keys that it sets.
  unfoldable pub listed : Shell Key P H W → W × Option (List Key) → Option (Shell Key P H W)
  listed s0 (w, none) =
      let s = record s0 { world = w } in
      if api.sc_error w == 0
      then (if is_active s
          then (do h ← s.store; some (list_cached h s))
          else some (print (text (codes "  no keys.\n")) s))
      else some (print_error api s)
  listed s0 (w, some ks) =
      let s = record s0 { world = w } in
      if is_active s then (do h ← s.store; some (list_noted h ks s)) else some (list_keys ks s)

  unfoldable pub list_pattern : List Bytes → Bytes
  list_pattern [] = codes ".*"
  list_pattern (a ∷ args) = a

  unfoldable pub do_list : List Bytes → Shell Key P H W → Option (Shell Key P H W)
  do_list args s = do
    pattern ← created cf (list_pattern args)
    listed s (api.copy_key_list s.world s.store pattern)

  unfoldable pub do_add : List Bytes → Shell Key P H W → Option (Shell Key P H W)
  do_add [] s = none
  do_add (name ∷ []) s = do
    key ← created cf name
    some (
        if is_active s
        then print (text (codes "  Cannot \"add\" with block\n")) s
        else report api s (api.add_value s.world s.store key s.value))
  do_add (name ∷ a ∷ args) s = do
    key ← created cf name
    some (
        if is_active s
        then print (text (codes "  Cannot \"add temporary\" with block\n")) s
        else report api s (api.add_temporary_value s.world s.store key s.value))

  -- The value that was fetched replaces the old one; a failure keeps it.
  unfoldable pub fetched : Shell Key P H W → W × Option P → Shell Key P H W
  fetched s (w, none) = print_error api (record s { world = w })
  fetched s (w, some v) = record s { value = some v; world = w }

  unfoldable pub do_get : List Bytes → Shell Key P H W → Option (Shell Key P H W)
  do_get [] s = none
  do_get (name ∷ args) s = do
    key ← created cf name
    some (fetched s (api.copy_value s.world s.store key))

  unfoldable pub do_set : List Bytes → Shell Key P H W → Option (Shell Key P H W)
  do_set [] s = none
  do_set (name ∷ args) s = do
    key ← created cf name
    some (report api s (api.set_store_value s.world s.store key s.value))

  -- The loop that collects the values of some keys; a key without a value is left out.
  unfoldable pub collect_values : W → Option H → List Key → P → W × P
  collect_values w h [] d = (w, d)
  collect_values w h (k ∷ ks) d =
      let (w', found) = api.copy_value w h k in
      elim found [
        | none ↦ collect_values w' h ks d
        | some v ↦ collect_values w' h ks (cf.set_value d k v)
      ]

  unfoldable pub collect_listed : Option H → W × Option (List Key) → W × P
  collect_listed h (w, none) = (w, cf.empty_dictionary)
  collect_listed h (w, some ks) = collect_values w h ks cf.empty_dictionary

  unfoldable pub show_value : Shell Key P H W → W × Option P → Shell Key P H W
  show_value s (w, none) = print_error api (record s { world = w })
  show_value s (w, some v) = print (shown v) (record s { world = w })

  unfoldable pub show_collected : H → Shell Key P H W → W × P → Shell Key P H W
  show_collected h s0 (w, d) =
      let s = record s0 { world = w } in
      if has_changes h s
      then print (shown d) (
          print
            (text (
              codes "  Note: SCDynamicStore locked, keys included (below) may be out of date.\n\n"))
            s)
      else print (shown d) s

  unfoldable pub show_pattern : Key → Shell Key P H W → Option (Shell Key P H W)
  show_pattern k s =
      if is_active s
      then (do
        h ← s.store
        some (show_collected h s (collect_listed s.store (api.copy_key_list s.world s.store k))))
      else some (show_value s (api.copy_multiple s.world s.store (k ∷ [])))

  unfoldable pub do_show : List Bytes → Shell Key P H W → Option (Shell Key P H W)
  do_show [] s = none
  do_show (name ∷ []) s = do
    key ← created cf name
    some (show_value s (api.copy_value s.world s.store key))
  do_show (name ∷ a ∷ args) s = do key ← created cf name; show_pattern key s

  unfoldable pub do_remove : List Bytes → Shell Key P H W → Option (Shell Key P H W)
  do_remove [] s = none
  do_remove (name ∷ args) s = do
    key ← created cf name
    some (report api s (api.remove_store_value s.world s.store key))

  unfoldable pub do_notify : List Bytes → Shell Key P H W → Option (Shell Key P H W)
  do_notify [] s = none
  do_notify (name ∷ args) s = do
    key ← created cf name
    some (report api s (api.notify_value s.world s.store key))
