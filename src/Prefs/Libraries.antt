-- ===== src/Prefs/Libraries.antt =====
-- Small concrete libraries for the tests of the shell on preferences.
use configd_extra.Base.{
  ℕ, ◌≡◌, refl, sym, subst, ◌∙◌, Bool, true, false, inl, inr, List, [], ◌∷◌, Option, none, some,
  Bytes, codes, or_else, equal, equal_refl, equal_iff, if◌then◌else◌, arith, Bool-cases,
}
use configd_extra.Shell.Libraries.{Plist, string, boolean, data_of, number, array, empty, entry, cf}
use configd_extra.Prefs.State.{Plists, PrefsApi}
use configd_extra.Prefs.Names.{NamesApi}
use configd_extra.Prefs.Paths.Parts.{PlistLaws, assoc, HasUniqueKeys}

abbrev pub get : Plist → Bytes → Option Plist
get (entry k v d) j = let rest = get d j in if equal k j then some v else rest
get (string s) j = none
get (boolean b) j = none
get (data_of d) j = none
get (number n) j = none
get (array l) j = none
get empty j = none

abbrev pub has : Plist → Bytes → Bool
has d k = elim (get d k) [ none ↦ false | some v ↦ true ]

abbrev pub without : Bytes → List (Bytes × Plist) → List (Bytes × Plist)
without k [] = []
without k ((j, v) ∷ l) = let rest = without k l in if equal j k then rest else (j, v) ∷ rest

-- The first entry of each key.
abbrev pub entries : Plist → List (Bytes × Plist)
entries (entry k v d) = (k, v) ∷ without k (entries d)
entries (string s) = []
entries (boolean b) = []
entries (data_of d) = []
entries (number n) = []
entries (array l) = []
entries empty = []

abbrev pub add : Plist → Bytes → Plist → Plist
add d k v = if has d k then d else entry k v d

abbrev pub lists : Plists Bytes Plist
lists = record { cf = cf; entries = entries; get_value = get; contains_key = has; add_value = add }

assoc-without :
    (k j : Bytes) (l : List (Bytes × Plist))
    → equal k j ≡ false
    → assoc lists (without k l) j ≡ assoc lists l j
unfolding assoc
assoc-without k j [] e = refl
assoc-without k j ((i, v) ∷ l) e = elim (Bool-cases (equal i k)) [
  | inl same ↦ ground (
    arith,
    assoc-without k j l e,
    subst (λ x. equal x j ≡ false) (sym ((equal_iff i k).0 same)) e,
  )
  | inr other ↦ ground (arith, assoc-without k j l e)
]

assoc-without_self : (k : Bytes) (l : List (Bytes × Plist)) → assoc lists (without k l) k ≡ none
unfolding assoc
assoc-without_self k [] = refl
assoc-without_self k ((i, v) ∷ l) = ground (arith, assoc-without_self k l)

assoc-without-none :
    (k j : Bytes) (l : List (Bytes × Plist))
    → assoc lists l j ≡ none
    → assoc lists (without k l) j ≡ none
unfolding assoc
assoc-without-none k j [] e = refl
assoc-without-none k j ((i, v) ∷ l) e = ground (arith, assoc-without-none k j l)

without-HasUniqueKeys :
    (k : Bytes) (l : List (Bytes × Plist))
    → HasUniqueKeys lists l
    → HasUniqueKeys lists (without k l)
unfolding HasUniqueKeys
without-HasUniqueKeys k [] u = tt
without-HasUniqueKeys k ((i, v) ∷ l) (n, u) = elim (Bool-cases (equal i k)) [
  | inl same ↦ rw same (without-HasUniqueKeys k l u)
  | inr other ↦ rw other (assoc-without-none k i l n, without-HasUniqueKeys k l u)
]

entries-HasUniqueKeys : (d : Plist) → HasUniqueKeys lists (entries d)
unfolding HasUniqueKeys
entries-HasUniqueKeys (entry k v d) = (
  assoc-without_self k (entries d),
  without-HasUniqueKeys k (entries d) (entries-HasUniqueKeys d),
)
entries-HasUniqueKeys (string s) = tt
entries-HasUniqueKeys (boolean b) = tt
entries-HasUniqueKeys (data_of d) = tt
entries-HasUniqueKeys (number n) = tt
entries-HasUniqueKeys (array l) = tt
entries-HasUniqueKeys empty = tt

get-assoc : (d : Plist) (j : Bytes) → get d j ≡ assoc lists (entries d) j
unfolding assoc
get-assoc (entry k v d) j = elim (Bool-cases (equal k j)) [
  | inl same ↦ rw same refl
  | inr other ↦ rw other (get-assoc d j ∙ sym (assoc-without k j (entries d) other))
]
get-assoc (string s) j = refl
get-assoc (boolean b) j = refl
get-assoc (data_of d) j = refl
get-assoc (number n) j = refl
get-assoc (array l) j = refl
get-assoc empty j = refl

get-add :
    (d : Plist) (k : Bytes) (v : Plist) (j : Bytes)
    → get (add d k v) j ≡ or_else (get d j) (if equal k j then some v else none)
get-add d k v j = elim (Bool-cases (equal k j)) [
  | inl same ↦
      subst (λ i. get (add d k v) i ≡ or_else (get d i) (if equal k i then some v else none))
        ((equal_iff k j).0 same) (ground (arith, equal_refl k))
  | inr other ↦ ground arith
]

has-get : (d : Plist) (k : Bytes) → get d k ≡ none → has d k ≡ false
has-get d k e = rw (e, has) refl

pub laws : PlistLaws lists
laws = record {
  key_equal_iff = equal_iff;
  get_empty = λ j. refl;
  get_add = get-add;
  contains_get = has-get;
  get_entries = get-assoc;
  entries_unique = entries-HasUniqueKeys;
}

-- A dictionary with one child.
abbrev pub stored : Plist
stored = entry (codes "Name") (string (codes "a")) (entry (codes "Child") empty empty)

-- A library whose state is the status of the last call; all calls succeed, and each path has `stored`.
abbrev pub api : PrefsApi Bytes Plist ℕ ℕ
api = record {
  sc_error = λ w. w;
  is_root = λ w. false;
  get_env = λ w name. none;
  create_authorization = λ w. (w, inr 7);
  free_authorization = λ w a. w;
  remove_when_empty = codes "RemoveWhenEmpty";
  protection_class = codes "ProtectionClass";
  create = λ w name id. (w, some 1);
  create_with_authorization = λ w name id a. (w, some 2);
  create_with_options = λ w name id a o. (w, some 3);
  release = λ w h. w;
  lock = λ w h wait. (w, true);
  unlock = λ w h. (w, true);
  commit_changes = λ w h. (w, true);
  apply_changes = λ w h. (w, true);
  synchronize = λ w h. w;
  path_get_value = λ w h k. (w, some stored);
  path_get_link = λ w h k. (w, none);
  path_set_value = λ w h k v. (w, true);
  path_set_link = λ w h k l. (w, true);
  path_remove_value = λ w h k. (w, true);
}

-- The same library, but for its state: the dictionary of the values that the paths have.
abbrev pub store_api : PrefsApi Bytes Plist ℕ Plist
store_api = record {
  sc_error = λ w. 1004;
  is_root = λ w. false;
  get_env = λ w name. none;
  create_authorization = λ w. (w, inr 7);
  free_authorization = λ w a. w;
  remove_when_empty = codes "RemoveWhenEmpty";
  protection_class = codes "ProtectionClass";
  create = λ w name id. (w, some 1);
  create_with_authorization = λ w name id a. (w, some 2);
  create_with_options = λ w name id a o. (w, some 3);
  release = λ w h. w;
  lock = λ w h wait. (w, true);
  unlock = λ w h. (w, true);
  commit_changes = λ w h. (w, true);
  apply_changes = λ w h. (w, true);
  synchronize = λ w h. w;
  path_get_value = λ w h k. (w, get w k);
  path_get_link = λ w h k. (w, none);
  path_set_value = λ w h k v. (entry k v w, true);
  path_set_link = λ w h k l. (entry k (string l) w, true);
  path_remove_value = λ w h k. (w, true);
}

abbrev pub names : NamesApi Bytes ℕ ℕ
names = record {
  copy_computer_name = λ w. (w, some (codes "mac"));
  copy_local_host_name = λ w. (w, some (codes "mac"));
  prefs_get_host_name = λ w h. (w, none);
  prefs_set_computer_name = λ w h k. (w, true);
  prefs_set_host_name = λ w h k. (w, true);
  prefs_set_local_host_name = λ w h k. (w, true);
  is_user_prompt = λ w. true;
  read_input = λ w. (w, some (codes "new\n"));
}
