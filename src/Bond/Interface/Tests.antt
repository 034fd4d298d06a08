-- ===== src/Bond/Interface/Tests.antt =====
-- Setters on a small store of preferences, and an instance of their theorem.
use configd_extra.Base.{
  ◌<◌, suc, zero, ℕ, ◌==◌, ◌≡◌, refl, true, false, List, [], ◌∷◌, Option, none, some, if◌then◌else◌,
  arith,
}
use configd_extra.Base.Int.{pos}
use configd_extra.Bond.State.{equal_ℤ, is_among}
use configd_extra.Bond.Members.{check_members}
use configd_extra.Bond.Interface.{
  bond_interfaces, user_defined_name, bond_mode, BondInterface, with_entry, is_cf_string, isa,
  is_refused, strings_of, member_names, change_dictionary, store_change, finish, refuse,
  stored_names, change_interfaces, set_member_interfaces, set_localized_display_name, set_options,
  mode_or_lacp, change_mode, is_mode, set_mode,
}
use configd_extra.Bond.Interface.Read.{
  find_member, add_interfaces, given_name, given_options, read_bond, create_bond,
}
use configd_extra.Bond.Interface.InSync.{
  same_property, Setter, to_members, to_name, to_options, to_mode, apply, apply_all, Known, KnownIn,
  InSync,
}
use configd_extra.Bond.Interface.Fresh.{Created, create_bond-Created}
use configd_extra.Bond.Interface.Setters.{apply_all-InSync}
use configd_extra.Bond.Interface.Libraries.{
  Plist, text, number, no_elements, element, no_entries, entry, find, drop_key, is_dict, array,
  elements_of, values, Files, ifs, prefs, laws,
}

abbrev stored_bond : Plist
stored_bond = entry bond_mode (number (pos 1)) (
    entry user_defined_name (text 3)
      (entry bond_interfaces (element (text 5) (element (text 6) no_elements)) no_entries))

abbrev bond : BondInterface ℕ Plist ℕ
bond = record {
  is_bond = true;
  has_prefs = true;
  entity_device = 1;
  localized_name = some (text 3);
  interfaces = 5 ∷ 6 ∷ [];
  options = none;
  mode = some (number (pos 1));
}

abbrev files : Files
files p = if p == 2 then some stored_bond else none

abbrev two_bonds : Files
two_bonds p = if p == 1 then some stored_bond else if p == 2 then some stored_bond else none

abbrev calls : List (Setter Plist ℕ)
calls =
    to_members (7 ∷ []) (λ i. false) (5 ∷ 7 ∷ [])
    ∷ to_members (7 ∷ []) (λ i. false) (8 ∷ [])
    ∷ to_name none
    ∷ to_options (some no_entries)
    ∷ to_mode (some (number (pos 7)))
    ∷ to_mode (some (number (pos 0)))
    ∷ []

apply_all-InSync_example :
    InSync ifs values prefs none laws
      (apply_all ifs values prefs none calls bond files).1
      (apply_all ifs values prefs none calls bond files).0
unfolding InSync KnownIn Known find is_dict same_property read_bond change_interfaces finish
    store_change change_mode given_name given_options set_options set_localized_display_name isa
    is_refused is_cf_string member_names elements_of strings_of add_interfaces find_member
    mode_or_lacp
apply_all-InSync_example =
    apply_all-InSync ifs values prefs none laws calls bond files
      (
        ((5, refl, refl), ((7, refl, refl), tt)),
        (((8, refl, refl), tt), (tt, (tt, (tt, (tt, tt))))),
      )
      (refl, refl, (stored_bond, refl, refl, (refl, refl, refl, refl)))

-- What is kept after them: the members and the mode that were accepted, no name, and the options.
kept : (apply_all ifs values prefs none calls bond files).1 ≡ record {
  is_bond = true;
  has_prefs = true;
  entity_device = 1;
  localized_name = none;
  interfaces = 5 ∷ 7 ∷ [];
  options = some no_entries;
  mode = some (number (pos 0));
}
unfolding apply_all apply set_member_interfaces set_localized_display_name set_options set_mode
    change_mode change_interfaces finish store_change change_dictionary with_entry is_refused
    is_cf_string stored_names refuse is_mode equal_ℤ mode_or_lacp check_members is_among is_dict
    drop_key find same_property array
kept = refl

taken : (j : ℕ) → j < 2 → two_bonds (prefs.bond_path (prefs.bond_name j)) ≡ none → ⊥
taken zero l e = cc
taken (suc zero) l e = cc
taken (suc (suc j)) l e = absurd (omega arith)

-- "bond0" and "bond1" are taken.
create_bond-Created_example :
    (r : Files × Option (BondInterface ℕ Plist ℕ)) × (create_bond ifs values prefs 5 true two_bonds
      ≡ some r)
    × Created ifs values prefs none laws 2 r
create_bond-Created_example =
    create_bond-Created ifs values prefs none laws 2 5 two_bonds (omega arith) taken refl
