-- ===== src/Bond/Interface/Libraries.antt =====
-- Property lists and a store of preferences for the tests.
use configd_extra.Base.{
  ℕ, ◌+◌, ◌==◌, ◌≡◌, refl, ap, Bool, true, false, not, inl, inr, List, [], ◌∷◌, Option, none, some,
  if◌then◌else◌, arith, Bool-cases,
}
use configd_extra.Base.Int.{ℤ}
use configd_extra.Bond.State.{Interfaces}
use configd_extra.Bond.Interface.{Property, Values, BondPrefs}
use configd_extra.Bond.Interface.InSync.{same_property, PrefsLaws}

-- Property lists; a dictionary is a list of entries.
pub data Plist : Type 0 where
  text : ℕ → Plist
  number : ℤ → Plist
  no_elements : Plist
  element : Plist → Plist → Plist
  no_entries : Plist
  entry : Property → Plist → Plist → Plist

unfoldable pub find : Plist → Property → Option Plist
find (entry k v rest) j = let found = find rest j in if same_property k j then some v else found
find (text n) j = none
find (number z) j = none
find no_elements j = none
find (element v rest) j = none
find no_entries j = none

unfoldable pub drop_key : Plist → Property → Plist
drop_key (entry k v rest) j =
    let l = drop_key rest j in if same_property k j then l else entry k v l
drop_key (text n) j = text n
drop_key (number z) j = number z
drop_key no_elements j = no_elements
drop_key (element v rest) j = element v rest
drop_key no_entries j = no_entries

unfoldable pub is_dict : Plist → Bool
is_dict (entry k v rest) = is_dict rest
is_dict no_entries = true
is_dict (text n) = false
is_dict (number z) = false
is_dict no_elements = false
is_dict (element v rest) = false

unfoldable pub array : List Plist → Plist
array [] = no_elements
array (v ∷ l) = element v (array l)

abbrev pub push : Plist → Option (List Plist) → Option (List Plist)
push v none = none
push v (some l) = some (v ∷ l)

unfoldable pub elements_of : Plist → Option (List Plist)
elements_of no_elements = some []
elements_of (element v rest) = push v (elements_of rest)
elements_of (entry k v rest) = none
elements_of no_entries = none
elements_of (text n) = none
elements_of (number z) = none

abbrev pub text_of : Plist → Option ℕ
text_of (text n) = some n
text_of (number z) = none
text_of no_elements = none
text_of (element v rest) = none
text_of no_entries = none
text_of (entry k v rest) = none

abbrev pub int_of : Plist → Option ℤ
int_of (number z) = some z
int_of (text n) = none
int_of no_elements = none
int_of (element v rest) = none
int_of no_entries = none
int_of (entry k v rest) = none

abbrev pub is_int : Option ℤ → Bool
is_int none = false
is_int (some z) = true

-- No two dictionaries are found equal here: each change is written.
abbrev pub values : Values ℕ Plist
values = record {
  get_value = find;
  set_value = λ d k v. entry k v d;
  remove_value = drop_key;
  empty_dictionary = no_entries;
  is_dictionary = is_dict;
  equal = λ d e. false;
  string_of = text_of;
  elements = elements_of;
  is_number = λ v. is_int (int_of v);
  int_value = int_of;
  of_string = text;
  of_number = number;
  of_array = array;
  entries = λ v. [];
}

abbrev pub Files : Type 0
Files = ℕ → Option Plist

abbrev pub ifs : Interfaces ℕ ℕ
ifs = record {
  bsd_name = λ i. i;
  supports_bond = λ i. true;
  same = λ i j. i == j;
  name_equal = λ i j. i == j;
}

abbrev pub at : Files → ℕ → Plist → Files
at w p d q = if q == p then some d else w q

abbrev pub prefs : BondPrefs ℕ Plist ℕ Files
prefs = record {
  set_error = λ w n. w;
  all_path = 0;
  bond_path = λ n. n + 1;
  bond_name = λ n. n;
  path_get_value = λ w p. (w, w p);
  path_set_value = λ w p d. (if p == 0 then w else at w p d, not (p == 0));
  path_remove_value = λ w p. ((λ q. if q == p then none else w q), true);
  copy_interface = λ i. i;
  create_with_bsd_name = λ n. if n == 9 then none else some n;
}

pub find-drop_key :
    (d : Plist) (k j : Property)
    → find (drop_key d k) j ≡ (if same_property k j then none else find d j)
unfolding find drop_key same_property
find-drop_key (entry m v rest) k j = ground (arith, find-drop_key rest k j)
find-drop_key (text n) k j = elim (Bool-cases (same_property k j)) [
  | inl e ↦ rw e refl
  | inr e ↦ rw e refl
]
find-drop_key (number n) k j = elim (Bool-cases (same_property k j)) [
  | inl e ↦ rw e refl
  | inr e ↦ rw e refl
]
find-drop_key no_elements k j = elim (Bool-cases (same_property k j)) [
  | inl e ↦ rw e refl
  | inr e ↦ rw e refl
]
find-drop_key (element v rest) k j = elim (Bool-cases (same_property k j)) [
  | inl e ↦ rw e refl
  | inr e ↦ rw e refl
]
find-drop_key no_entries k j = elim (Bool-cases (same_property k j)) [
  | inl e ↦ rw e refl
  | inr e ↦ rw e refl
]

pub is_dict-drop_key : (d : Plist) (k : Property) → is_dict d ≡ true → is_dict (drop_key d k) ≡ true
unfolding is_dict drop_key
is_dict-drop_key (entry m v rest) k e = ground (arith, is_dict-drop_key rest k e)
is_dict-drop_key (text n) k e = e
is_dict-drop_key (number n) k e = e
is_dict-drop_key no_elements k e = e
is_dict-drop_key (element v rest) k e = e
is_dict-drop_key no_entries k e = e

pub elements_of-array : (l : List Plist) → elements_of (array l) ≡ some l
unfolding elements_of array
elements_of-array [] = refl
elements_of-array (v ∷ l) = ap (push v) (elements_of-array l)

pub at_self : (w : Files) (p : ℕ) (d : Plist) → at w p d p ≡ some d
at_self w p d = ground arith

pub written :
    (w : Files) (p : ℕ) (d : Plist)
    → (prefs.path_set_value w p d).1 ≡ true
    → (prefs.path_set_value w p d).0 p ≡ some d
written w p d e = ground (arith, at_self w p d, e)

pub failed :
    (w : Files) (p : ℕ) (d : Plist)
    → (prefs.path_set_value w p d).1 ≡ false
    → (prefs.path_set_value w p d).0 p ≡ w p
failed w p d e = ground (arith, e)

pub find-entry :
    (d v : Plist) (k j : Property)
    → find (entry k v d) j ≡ (if same_property k j then some v else find d j)
unfolding find
find-entry d v k j = refl

pub is_dict-entry : (d v : Plist) (k : Property) → is_dict d ≡ true → is_dict (entry k v d) ≡ true
unfolding is_dict
is_dict-entry d v k e = e

pub find-no_entries : (k : Property) → find no_entries k ≡ none
unfolding find
find-no_entries k = refl

pub is_dict-no_entries : is_dict no_entries ≡ true
unfolding is_dict
is_dict-no_entries = refl

pub not_equal : (d e : Plist) → false ≡ true → d ≡ e
not_equal d e q = absurd (cc)

abbrev pub laws : PrefsLaws ifs values prefs none
laws = record {
  stored = λ w p. w p;
  get_stored = λ w p. refl;
  get_keeps = λ w p q. refl;
  set_stores = written;
  set_fails = failed;
  error_keeps = λ w n p. refl;
  get_set = λ d v k j e. find-entry d v k j;
  get_remove = λ d k j e. find-drop_key d k j;
  get_empty = find-no_entries;
  empty_dictionary = is_dict-no_entries;
  set_dictionary = λ d v k e. is_dict-entry d v k e;
  remove_dictionary = is_dict-drop_key;
  equal_values = not_equal;
  string_back = λ k. refl;
  array_back = elements_of-array;
  number_back = λ z. refl;
  copy_name = λ i. refl;
}
