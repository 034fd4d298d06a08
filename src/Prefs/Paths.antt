-- ===== src/Prefs/Paths.antt =====
-- scutil/prefs.c: the commands on the paths of the preferences, from `do_prefs_list` to
-- `do_prefs_remove`. A fault is a missing argument, no dictionary to set, or a count of a value that
-- is not a dictionary.
pub mod Parts
pub mod RoundTrip
use configd_extra.Base.{
  ℕ, ◌+◌, Bool, true, false, ◌⊎◌, inl, inr, List, [], ◌∷◌, ◌++◌, Option, none, some, Bytes, codes,
  if◌then◌else◌, ◌==◌,
}
use configd_extra.Prefs.State.{
  Plists, PrefsApi, stdout, text, status, named, path_at, Preferences, say, Ends, with_string,
  returned, faulted, no_key, invalid_argument,
}

abbrev pub first_path : List Bytes → Bytes
first_path [] = codes "/"
first_path (a ∷ args) = a

module _ {Key P : Type 0} (lists : Plists Key P) where
  -- The entries of a value, none if it is not a dictionary.
  unfoldable pub entries_of : P → List (Key × P)
  entries_of v = if lists.cf.is_dictionary v then lists.entries v else []

  -- The keys whose values are dictionaries.
  unfoldable pub child_paths : List (Key × P) → List Key
  child_paths [] = []
  child_paths ((k, v) ∷ l) =
      let rest = child_paths l in if lists.cf.is_dictionary v then k ∷ rest else rest

  -- The loop of `do_prefs_get`: the values that are not dictionaries are added to `newDict`.
  unfoldable pub without_children : List (Key × P) → P → P
  without_children [] d = d
  without_children ((k, v) ∷ l) d =
      without_children l (if lists.cf.is_dictionary v then d else lists.add_value d k v)

  -- The loop of `do_prefs_set`: the children are added, unless one of them is a key already.
  unfoldable pub retain_children : List (Key × P) → P → Key ⊎ P
  retain_children [] d = inr d
  retain_children ((k, v) ∷ l) d =
      if lists.cf.is_dictionary v
      then (if lists.contains_key d k then inl k else retain_children l (lists.add_value d k v))
      else retain_children l d

module _ {Key P H W : Type 0} (lists : Plists Key P) (api : PrefsApi Key P H W) where
  -- `SCErrorString(SCError())` on an indented line.
  unfoldable pub say_error : Preferences Key P H W → Preferences Key P H W
  say_error s = say stdout (status (codes "  %s\n") (api.sc_error s.world)) s

  abbrev pub shown_prefix : Key → Option Key
  shown_prefix prefix =
      if lists.cf.key_equal prefix (lists.cf.create_string (codes "/")) then none else some prefix

  unfoldable pub list_paths : ℕ → Key → List Key → Preferences Key P H W → Preferences Key P H W
  list_paths i prefix [] s = s
  list_paths i prefix (k ∷ paths) s =
      list_paths (i + 1) prefix paths (say stdout (path_at i (shown_prefix prefix) k) s)

  unfoldable pub print_paths : Key → List Key → Preferences Key P H W → Preferences Key P H W
  print_paths prefix [] s = say stdout (text (codes "  no paths.\n")) s
  print_paths prefix (k ∷ paths) s = list_paths 0 prefix (k ∷ paths) s

  unfoldable pub do_prefs_list : List Bytes → Preferences Key P H W → Ends (Preferences Key P H W)
  do_prefs_list args s = with_string lists (first_path args) λ prefix.
      let (w, entity) = api.path_get_value s.world s.prefs prefix in
      let t = record s { world = w } in
      elim entity [
        | none ↦ returned (say_error t)
        | some v ↦
            returned
              (print_paths prefix (lists.cf.sort_values (child_paths lists (entries_of lists v))) t)
      ]

  unfoldable pub show_link : Option Key → Preferences Key P H W → Preferences Key P H W
  show_link none s = s
  show_link (some link) s = say stdout (named (codes "  --> %@\n") link) s

  unfoldable pub do_prefs_get : List Bytes → Preferences Key P H W → Ends (Preferences Key P H W)
  do_prefs_get [] s = faulted
  do_prefs_get (a ∷ args) s = with_string lists a λ path.
      let (w, link) = api.path_get_link s.world s.prefs path in
      let t = show_link link (record s { world = w }) in
      let (w', dict) = api.path_get_value t.world t.prefs path in
      let u = record t { world = w' } in
      elim dict [
        | none ↦ returned (say_error u)
        | some v ↦ returned (record u {
          value = some (without_children lists (entries_of lists v) lists.cf.empty_dictionary);
        })
      ]

  -- A change of the preferences: what the call gave, and the mark that there are changes.
  unfoldable pub changed : W × Bool → Preferences Key P H W → Preferences Key P H W
  changed (w, ok) s =
      let t = record s { world = w } in
      if ok then record t { prefs_changed = true } else say_error t

  -- A link for a second argument, or else the dictionary.
  unfoldable pub set_path :
      Key → List Bytes → P → Preferences Key P H W → Ends (Preferences Key P H W)
  set_path path [] d s = returned (changed (api.path_set_value s.world s.prefs path d) s)
  set_path path (a ∷ args) d s =
      with_string lists a λ link. returned (changed (api.path_set_link s.world s.prefs path link) s)

  -- What `do_prefs_set` does by the value that the path has.
  unfoldable pub set_over :
      Key → List Bytes → P → Option P → Preferences Key P H W → Ends (Preferences Key P H W)
  set_over path args d none s =
      let e = api.sc_error s.world in
      if e == invalid_argument
      then returned (say stdout (text (codes "  a path component is not a dictionary\n")) s)
      else if e == no_key
      then set_path path args d s
      else returned (say_error s)
  set_over path args d (some old) s =
      if lists.cf.is_dictionary old
      then elim (retain_children lists (lists.entries old) d) [
        | inl k ↦ returned (
            say stdout
              (named (codes "  key %@ is already a path component and cannot be replaced\n") k) s)
        | inr d' ↦ set_path path args d' s
      ]
      else faulted

  unfoldable pub do_prefs_set : List Bytes → Preferences Key P H W → Ends (Preferences Key P H W)
  do_prefs_set [] s = faulted
  do_prefs_set (a ∷ args) s = elim s.value [
    | none ↦ faulted
    | some d ↦ with_string lists a λ path.
        let (w, old) = api.path_get_value s.world s.prefs path in
        set_over path args d old (record s { world = w })
  ]

  unfoldable pub do_prefs_remove : List Bytes → Preferences Key P H W → Ends (Preferences Key P H W)
  do_prefs_remove [] s = faulted
  do_prefs_remove (a ∷ args) s =
      with_string lists a λ path. returned (changed (api.path_remove_value s.world s.prefs path) s)
