-- ===== src/Bond/Interface.antt =====
-- SystemConfiguration/BondConfiguration.c: a bond that is kept in the preferences, and its setters.
pub mod Read
pub mod InSync
pub mod Kept
mod Members
pub mod Setters
pub mod Fresh
mod Libraries
mod Tests
use configd_extra.Base.{
  ◌==◌, ℕ, zero, suc, ◌+◌, Bool, true, false, not, ◌&&◌, ◌||◌, List, [], ◌∷◌, ◌++◌, map, Option,
  none, some, if◌then◌else◌, or_else,
}
use configd_extra.Base.Int.{ℤ, pos, negsuc}
use configd_extra.Bond.State.{status_ok, invalid_argument, mode_lacp, equal_ℤ, Interfaces}
use configd_extra.Bond.Members.{check_members}

-- The keys of a stored bond: `kSCPropVirtualNetworkInterfacesBondInterfaces`, `kSCPropUserDefinedName`,
-- and so on.
pub data Property : Type 0 where
  bond_interfaces : Property
  user_defined_name : Property
  bond_options : Property
  bond_mode : Property

-- CoreFoundation's values; equal values (`CFEqual`) are one value.
pub record Values (Key P : Type 0) : Type 0 where
  pub get_value : P → Property → Option P
  pub set_value : P → Property → P → P
  pub remove_value : P → Property → P
  pub empty_dictionary : P
  pub is_dictionary : P → Bool
  pub equal : P → P → Bool
  pub string_of : P → Option Key
  pub elements : P → Option (List P)
  pub is_number : P → Bool
  pub int_value : P → Option ℤ
  pub of_string : Key → P
  pub of_number : ℤ → P
  pub of_array : List P → P
  pub entries : P → List (Key × P)

-- SCPreferences, the paths "/VirtualNetworkInterfaces/Bond" and those behind it, the names "bond%ld",
-- and the interfaces by their names.
pub record BondPrefs (Key P I W : Type 0) : Type 0 where
  pub set_error : W → ℕ → W
  pub all_path : Key
  pub bond_path : Key → Key
  pub bond_name : ℕ → Key
  pub path_get_value : W → Key → W × Option P
  pub path_set_value : W → Key → P → W × Bool
  pub path_remove_value : W → Key → W × Bool
  pub copy_interface : I → I
  pub create_with_bsd_name : Key → Option I

-- A bond, which is not `NULL`: `isA_SCBondInterface`, `prefs != NULL`, and its other fields.
pub record BondInterface (Key P I : Type 0) : Type 0 where
  pub is_bond : Bool
  pub has_prefs : Bool
  pub entity_device : Key
  pub localized_name : Option P
  pub interfaces : List I
  pub options : Option P
  pub mode : Option P

pub record Outcome (Key P I W : Type 0) : Type 0 where
  pub world : W
  pub bond : BondInterface Key P I
  pub ok : Bool

abbrev pub status_failed : ℕ
status_failed = 1001

-- IF_BOND_MODE_STATIC
abbrev pub mode_static : ℤ
mode_static = pos 1

unfoldable pub is_mode : Option ℤ → Bool
is_mode none = false
is_mode (some z) = equal_ℤ z mode_lacp || equal_ℤ z mode_static

module _ {Key P : Type 0} (cf : Values Key P) where
  -- The value is set, or for `NULL` removed.
  unfoldable pub with_entry : Property → Option P → P → P
  with_entry k (some v) d = cf.set_value d k v
  with_entry k none d = cf.remove_value d k

  -- `isA_CFString` and `isA_CFDictionary`, with `NULL` for any other value.
  unfoldable pub is_cf_string : P → Bool
  is_cf_string v = elim (cf.string_of v) [ none ↦ false | some k ↦ true ]

  unfoldable pub isa : (P → Bool) → Option P → Option P
  isa test none = none
  isa test (some v) = if test v then some v else none

  -- The value is there and has another type.
  unfoldable pub is_refused : (P → Bool) → Option P → Bool
  is_refused test none = false
  is_refused test (some v) = not (test v)

  -- The elements that are strings.
  unfoldable pub strings_of : List P → List Key
  strings_of [] = []
  strings_of (v ∷ l) =
      let rest = strings_of l in elim (cf.string_of v) [ none ↦ rest | some k ↦ k ∷ rest ]

  unfoldable pub member_names : Option P → List Key
  member_names none = []
  member_names (some v) = elim (cf.elements v) [ none ↦ [] | some l ↦ strings_of l ]

  unfoldable pub mode_or_lacp : Option P → P
  mode_or_lacp none = cf.of_number mode_lacp
  mode_or_lacp (some m) = m

module _ {Key P I W : Type 0} (ifs : Interfaces I Key) (cf : Values Key P)
    (prefs : BondPrefs Key P I W) where
  unfoldable pub change_dictionary : (P → P) → Key → W → Option P → W × Bool
  change_dictionary change device w none = (prefs.set_error w status_failed, false)
  change_dictionary change device w (some dict) =
      if not (cf.is_dictionary dict)
      then (prefs.set_error w status_failed, false)
      else if cf.equal dict (change dict)
      then (w, true)
      else prefs.path_set_value w (prefs.bond_path device) (change dict)

  -- What the setters do first: the change in the stored preferences.
  unfoldable pub store_change : (P → P) → BondInterface Key P I → W → W × Bool
  store_change change b w =
      if b.has_prefs
      then (let (w', dict) = prefs.path_get_value w (prefs.bond_path b.entity_device) in
          change_dictionary change b.entity_device w' dict)
      else (w, true)

  -- The change in the object.
  unfoldable pub finish :
      BondInterface Key P I → BondInterface Key P I → W × Bool → Outcome Key P I W
  finish b changed (w, ok) = record { world = w; bond = if ok then changed else b; ok = ok }

  unfoldable pub refuse : BondInterface Key P I → W → Outcome Key P I W
  refuse b w = record { world = prefs.set_error w invalid_argument; bond = b; ok = false }

  unfoldable pub stored_names : List I → P
  stored_names members = cf.of_array (map (λ i. cf.of_string (ifs.bsd_name i)) members)

  -- `__SCBondInterfaceSetMemberInterfaces`; `[]` for `NULL`.
  unfoldable pub change_interfaces : List I → BondInterface Key P I → W → Outcome Key P I W
  change_interfaces members b w =
      finish b (record b { interfaces = map prefs.copy_interface members })
        (store_change (with_entry cf bond_interfaces (some (stored_names members))) b w)

  -- `available` and `in_use` are what `SCBondInterfaceCopyAvailableMemberInterfaces` and the enabled
  -- services give.
  unfoldable pub set_member_interfaces :
      List I → (I → Bool) → List I → BondInterface Key P I → W → Outcome Key P I W
  set_member_interfaces available in_use members b w =
      if not b.is_bond
      then refuse b w
      else (let code =
            (if b.has_prefs
              then check_members ifs b.interfaces available in_use members
              else status_ok) in
          if code == status_ok
          then change_interfaces members b w
          else record { world = prefs.set_error w code; bond = b; ok = false })

  unfoldable pub set_localized_display_name :
      Option P → BondInterface Key P I → W → Outcome Key P I W
  set_localized_display_name new_name b w =
      if not b.is_bond || is_refused cf (is_cf_string cf) new_name
      then refuse b w
      else finish b (record b { localized_name = new_name })
          (store_change (with_entry cf user_defined_name new_name) b w)

  unfoldable pub set_options : Option P → BondInterface Key P I → W → Outcome Key P I W
  set_options new_options b w =
      if not b.is_bond || is_refused cf cf.is_dictionary new_options
      then refuse b w
      else finish b (record b { options = new_options })
          (store_change (with_entry cf bond_options new_options) b w)

  -- `_SCBondInterfaceSetMode`
  unfoldable pub change_mode : Option P → BondInterface Key P I → W → Outcome Key P I W
  change_mode m b w =
      finish b (record b { mode = some (mode_or_lacp cf m) })
        (store_change (with_entry cf bond_mode (some (mode_or_lacp cf m))) b w)

  unfoldable pub set_mode : Option P → BondInterface Key P I → W → Outcome Key P I W
  set_mode none b w = refuse b w
  set_mode (some m) b w =
      if b.is_bond && cf.is_number m && is_mode (cf.int_value m)
      then change_mode (some m) b w
      else refuse b w

  -- `_SCBondInterfaceCreatePrivate`
  abbrev pub new_interface : Key → BondInterface Key P I
  new_interface device = record {
    is_bond = true;
    has_prefs = false;
    entity_device = device;
    localized_name = none;
    interfaces = [];
    options = none;
    mode = none;
  }
