-- ===== src/Bond/Interface/Read.antt =====
-- SystemConfiguration/BondConfiguration.c: how a bond is read from the preferences by
-- `add_configured_interface` and `SCBondInterfaceCopyAll`, and how it is made and removed.
use configd_extra.Base.{
  ℕ, zero, suc, Bool, true, false, not, ◌||◌, List, [], ◌∷◌, Option, none, some, if◌then◌else◌,
  or_else,
}
use configd_extra.Bond.State.{invalid_argument, Interfaces}
use configd_extra.Bond.Interface.{
  bond_interfaces, user_defined_name, bond_options, bond_mode, Values, BondPrefs, BondInterface,
  Outcome, is_cf_string, isa, member_names, change_interfaces, set_localized_display_name,
  set_options, change_mode, new_interface,
}

module _ {Key P I W : Type 0} (prefs : BondPrefs Key P I W) where
  -- `add_interface`; `ni_prefs` finds an interface in the companion preferences, if there are any.
  unfoldable pub find_member : Option (Key → Option I) → Key → Option I
  find_member none name = prefs.create_with_bsd_name name
  find_member (some ni_prefs) name = or_else (ni_prefs name) (prefs.create_with_bsd_name name)

  abbrev pub with_found : Option I → List I → List I
  with_found none l = l
  with_found (some i) l = i ∷ l

  unfoldable pub add_interfaces : Option (Key → Option I) → List Key → List I
  add_interfaces ni_prefs [] = []
  add_interfaces ni_prefs (name ∷ l) =
      with_found (find_member ni_prefs name) (add_interfaces ni_prefs l)

module _ {Key P I W : Type 0} (ifs : Interfaces I Key) (cf : Values Key P)
    (prefs : BondPrefs Key P I W) where
  -- The calls on the new bond, each for a value of the right type.
  unfoldable pub given_name : Option P → BondInterface Key P I → W → Outcome Key P I W
  given_name none b w = record { world = w; bond = b; ok = true }
  given_name (some v) b w = set_localized_display_name ifs cf prefs (some v) b w

  unfoldable pub given_options : Option P → BondInterface Key P I → W → Outcome Key P I W
  given_options none b w = record { world = w; bond = b; ok = true }
  given_options (some v) b w = set_options ifs cf prefs (some v) b w

  -- `add_configured_interface`. Without members there is no call that sets them; it would change nothing.
  unfoldable pub read_bond : Option (Key → Option I) → Key → P → W → W × BondInterface Key P I
  read_bond ni_prefs bond_if bond_info w =
      let members =
        add_interfaces prefs ni_prefs (member_names cf (cf.get_value bond_info bond_interfaces)) in
      let a = change_interfaces ifs cf prefs members (new_interface ifs cf prefs bond_if) w in
      let b =
        given_name (isa cf (is_cf_string cf) (cf.get_value bond_info user_defined_name)) a.bond
          a.world in
      let c =
        given_options (isa cf cf.is_dictionary (cf.get_value bond_info bond_options)) b.bond
          b.world in
      let d =
        change_mode ifs cf prefs (isa cf cf.is_number (cf.get_value bond_info bond_mode)) c.bond
          c.world in
      (d.world, record (d.bond) { has_prefs = true })

  unfoldable pub add_configured :
      Option (Key → Option I) → List (Key × P) → W → W × List (BondInterface Key P I)
  add_configured ni_prefs [] w = (w, [])
  add_configured ni_prefs ((key, value) ∷ l) w =
      let (w', b) = read_bond ni_prefs key value w in
      let (w'', bonds) = add_configured ni_prefs l w' in (w'', b ∷ bonds)

  unfoldable pub copy_all : Option (Key → Option I) → W → W × List (BondInterface Key P I)
  copy_all ni_prefs w =
      let (w', dict) = prefs.path_get_value w prefs.all_path in
      elim (isa cf cf.is_dictionary dict) [
        | none ↦ (w', [])
        | some d ↦ add_configured ni_prefs (cf.entries d) w'
      ]

  -- The name is free: a bond without members is stored.
  unfoldable pub store_new : Key → W → W × Option (BondInterface Key P I)
  store_new bond_if w =
      let (w', ok) =
        prefs.path_set_value w (prefs.bond_path bond_if)
          (cf.set_value cf.empty_dictionary bond_interfaces (cf.of_array [])) in
      (
        w',
        if ok
            then some (record (new_interface ifs cf prefs bond_if) { has_prefs = true })
            else none,
      )

  -- The loop of `SCBondInterfaceCreate` on fuel, with `none` when the fuel is used up.
  unfoldable pub create_from : ℕ → ℕ → W → Option (W × Option (BondInterface Key P I))
  create_from zero i w = none
  create_from (suc fuel) i w =
      let (w', dict) = prefs.path_get_value w (prefs.bond_path (prefs.bond_name i)) in
      elim dict [
        | some d ↦ create_from fuel (suc i) w'
        | none ↦ some (store_new (prefs.bond_name i) w')
      ]

  -- `has_prefs` is whether the argument is not `NULL`.
  unfoldable pub create_bond : ℕ → Bool → W → Option (W × Option (BondInterface Key P I))
  create_bond fuel false w = some (prefs.set_error w invalid_argument, none)
  create_bond fuel true w = create_from fuel 0 w

  unfoldable pub remove_bond : BondInterface Key P I → W → W × Bool
  remove_bond b w =
      if not b.is_bond || not b.has_prefs
      then (prefs.set_error w invalid_argument, false)
      else prefs.path_remove_value w (prefs.bond_path b.entity_device)
