-- ===== src/Shell/Libraries.antt =====
-- Small concrete libraries for the tests of the shell.
use configd_extra.Base.{
  ℕ, Bool, true, false, List, [], ◌∷◌, none, some, Bytes, equal, if◌then◌else◌,
}
use configd_extra.Base.Int.{ℤ}
use configd_extra.Shell.State.{Cf, StoreApi}

-- Property lists.
pub data Plist : Type 0 where
  string : Bytes → Plist
  boolean : Bool → Plist
  data_of : Bytes → Plist
  number : ℤ → Plist
  array : List Bytes → Plist
  empty : Plist
  entry : Bytes → Plist → Plist → Plist

abbrev pub is_dictionary : Plist → Bool
is_dictionary empty = true
is_dictionary (entry k v d) = true
is_dictionary (string s) = false
is_dictionary (boolean b) = false
is_dictionary (data_of d) = false
is_dictionary (number n) = false
is_dictionary (array l) = false

abbrev pub remove : Plist → Bytes → Plist
remove (entry k v d) k' = let rest = remove d k' in if equal k k' then rest else entry k v rest
remove (string s) k' = string s
remove (boolean b) k' = boolean b
remove (data_of d) k' = data_of d
remove (number n) k' = number n
remove (array l) k' = array l
remove empty k' = empty

-- Arrays are kept by their strings.
abbrev pub strings : List Plist → List Bytes
strings [] = []
strings (string s ∷ l) = s ∷ strings l
strings (boolean b ∷ l) = strings l
strings (data_of d ∷ l) = strings l
strings (number n ∷ l) = strings l
strings (array a ∷ l) = strings l
strings (empty ∷ l) = strings l
strings (entry k v d ∷ l) = strings l

abbrev pub cf : Cf Bytes Plist
cf = record {
  create_string = λ s. s;
  is_null = λ k. false;
  key_equal = equal;
  sort_values = λ l. l;
  is_dictionary = is_dictionary;
  empty_dictionary = empty;
  set_value = λ d k v. entry k v (remove d k);
  remove_value = remove;
  of_string = string;
  of_boolean = boolean;
  of_data = data_of;
  of_number = number;
  of_array = λ l. array (strings l);
}

-- A library whose state is whether the cache is active, with no key in the store; every call fails
-- that needs one.
abbrev pub api : StoreApi Bytes Plist ℕ Bool
api = record {
  sc_error = λ w. 1004;
  create = λ w. (w, some 1);
  create_with_session_keys = λ w. (w, some 2);
  release = λ w h. w;
  set_disconnect_callback = λ w h. w;
  unset_dispatch_queue = λ w o. w;
  invalidate_source = λ w. w;
  stop_run_loop = λ w. w;
  cache_is_active = λ w o. elim o [ none ↦ false | some h ↦ w ];
  cache_open = λ w o. true;
  cache_close = λ w o. false;
  cache_commit_changes = λ w o. w;
  cached_set = λ w o. none;
  cached_removals = λ w o. none;
  cached_notifys = λ w o. none;
  copy_key_list = λ w o k. (w, none);
  copy_value = λ w o k. (w, none);
  copy_multiple = λ w o ks. (w, none);
  add_value = λ w o k v. (w, true);
  add_temporary_value = λ w o k v. (w, true);
  set_store_value = λ w o k v. (w, true);
  remove_store_value = λ w o k. (w, false);
  notify_value = λ w o k. (w, false);
  set_notification_keys = λ w o a b. (w, true);
  copy_notified_keys = λ w o. (w, none);
}
