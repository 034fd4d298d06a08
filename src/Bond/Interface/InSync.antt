-- ===== src/Bond/Interface/InSync.antt =====
-- SystemConfiguration/BondConfiguration.c: a bond and what the preferences hold of it stay in line.
use configd_extra.Base.{
  ℕ, ◌≡◌, refl, ap₂, Bool, true, false, inl, inr, List, [], ◌∷◌, map, Option, none, some,
  if◌then◌else◌, Bool-cases, ◌==◌,
}
use configd_extra.Base.Int.{ℤ}
use configd_extra.Bond.State.{Interfaces}
use configd_extra.Bond.Interface.{
  Property, bond_interfaces, user_defined_name, bond_options, bond_mode, Values, BondPrefs,
  BondInterface, Outcome, is_cf_string, isa, is_refused, member_names, store_change, finish,
  change_interfaces, set_member_interfaces, set_localized_display_name, set_options, mode_or_lacp,
  change_mode, set_mode,
}
use configd_extra.Bond.Interface.Read.{
  find_member, add_interfaces, given_name, given_options, read_bond,
}

abbrev pub place : Property → ℕ
place bond_interfaces = 0
place user_defined_name = 1
place bond_options = 2
place bond_mode = 3

unfoldable pub same_property : Property → Property → Bool
same_property j k = place j == place k

-- The calls of the setters.
pub data Setter (P I : Type 0) : Type 0 where
  to_members : List I → (I → Bool) → List I → Setter P I
  to_name : Option P → Setter P I
  to_options : Option P → Setter P I
  to_mode : Option P → Setter P I

module _ {Key P I W : Type 0} (ifs : Interfaces I Key) (cf : Values Key P)
    (prefs : BondPrefs Key P I W) (ni_prefs : Option (Key → Option I)) where
  -- What the setters rely on: values read back, and preferences that change at a path only when
  -- `SCPreferencesPathSetValue` succeeds.
  pub record PrefsLaws : Type 0 where
    pub stored : W → Key → Option P
    pub get_stored : (w : W) (p : Key) → (prefs.path_get_value w p).1 ≡ stored w p
    pub get_keeps : (w : W) (p q : Key) → stored (prefs.path_get_value w p).0 q ≡ stored w q
    pub set_stores :
        (w : W) (p : Key) (d : P)
        → (prefs.path_set_value w p d).1 ≡ true
        → stored (prefs.path_set_value w p d).0 p ≡ some d
    pub set_fails :
        (w : W) (p : Key) (d : P)
        → (prefs.path_set_value w p d).1 ≡ false
        → stored (prefs.path_set_value w p d).0 p ≡ stored w p
    pub error_keeps : (w : W) (n : ℕ) (p : Key) → stored (prefs.set_error w n) p ≡ stored w p
    pub get_set :
        (d v : P) (k j : Property)
        → cf.is_dictionary d ≡ true
        → cf.get_value (cf.set_value d k v) j
          ≡ (if same_property k j then some v else cf.get_value d j)
    pub get_remove :
        (d : P) (k j : Property)
        → cf.is_dictionary d ≡ true
        → cf.get_value (cf.remove_value d k) j
          ≡ (if same_property k j then none else cf.get_value d j)
    pub get_empty : (k : Property) → cf.get_value cf.empty_dictionary k ≡ none
    pub empty_dictionary : cf.is_dictionary cf.empty_dictionary ≡ true
    pub set_dictionary :
        (d v : P) (k : Property)
        → cf.is_dictionary d ≡ true
        → cf.is_dictionary (cf.set_value d k v) ≡ true
    pub remove_dictionary :
        (d : P) (k : Property)
        → cf.is_dictionary d ≡ true
        → cf.is_dictionary (cf.remove_value d k) ≡ true
    pub equal_values : (d e : P) → cf.equal d e ≡ true → d ≡ e
    pub string_back : (k : Key) → cf.string_of (cf.of_string k) ≡ some k
    pub array_back : (l : List P) → cf.elements (cf.of_array l) ≡ some l
    pub number_back : (z : ℤ) → cf.is_number (cf.of_number z) ≡ true
    pub copy_name : (i : I) → ifs.bsd_name (prefs.copy_interface i) ≡ ifs.bsd_name i

  unfoldable pub apply : Setter P I → BondInterface Key P I → W → Outcome Key P I W
  apply (to_members available in_use members) b w =
      set_member_interfaces ifs cf prefs available in_use members b w
  apply (to_name new_name) b w = set_localized_display_name ifs cf prefs new_name b w
  apply (to_options new_options) b w = set_options ifs cf prefs new_options b w
  apply (to_mode m) b w = set_mode ifs cf prefs m b w

  unfoldable pub apply_all :
      List (Setter P I) → BondInterface Key P I → W → W × BondInterface Key P I
  apply_all [] b w = (w, b)
  apply_all (c ∷ l) b w = apply_all l (apply c b w).bond (apply c b w).world

  -- The interface that is found by the name of a member has that name.
  unfoldable pub Known : List I → Type 0
  Known [] = Unit
  Known (i ∷ l) =
      ((j : I) × (find_member prefs ni_prefs (ifs.bsd_name i) ≡ some j)
        × (ifs.bsd_name j ≡ ifs.bsd_name i))
      × Known l

  unfoldable pub KnownIn : Setter P I → Type 0
  KnownIn (to_members available in_use members) = Known members
  KnownIn (to_name n) = Unit
  KnownIn (to_options o) = Unit
  KnownIn (to_mode m) = Unit

  -- The same names, options and members, and the same mode, where a missing mode is the one of LACP.
  abbrev pub Agree : BondInterface Key P I → BondInterface Key P I → Type 0
  Agree b c =
      (b.localized_name ≡ c.localized_name)
      × (b.options ≡ c.options)
      × (mode_or_lacp cf b.mode ≡ mode_or_lacp cf c.mode)
      × (map ifs.bsd_name b.interfaces ≡ map ifs.bsd_name c.interfaces)

  -- A stored bond that reads as the bond.
  abbrev pub Matches : BondInterface Key P I → P → Type 0
  Matches b d =
      (b.localized_name ≡ isa cf (is_cf_string cf) (cf.get_value d user_defined_name))
      × (b.options ≡ isa cf cf.is_dictionary (cf.get_value d bond_options))
      × (mode_or_lacp cf b.mode ≡ mode_or_lacp cf (isa cf cf.is_number (cf.get_value d bond_mode)))
      × (map ifs.bsd_name b.interfaces
          ≡ map ifs.bsd_name
              (add_interfaces prefs ni_prefs (member_names cf (cf.get_value d bond_interfaces))))

  module _ (laws : PrefsLaws) where
    -- The preferences hold the bond, and it reads as the object.
    unfoldable pub InSync : BondInterface Key P I → W → Type 0
    InSync b w =
        (b.is_bond ≡ true)
        × (b.has_prefs ≡ true)
        × ((d : P) × (laws.stored w (prefs.bond_path b.entity_device) ≡ some d)
            × (cf.is_dictionary d ≡ true)
            × Agree b (read_bond ifs cf prefs ni_prefs b.entity_device d w).1)

    pub map-copy : (l : List I) → map ifs.bsd_name (map prefs.copy_interface l) ≡ map ifs.bsd_name l
    map-copy [] = refl
    map-copy (i ∷ l) = ap₂ (λ k m. k ∷ m) (laws.copy_name i) (map-copy l)

    abbrev built : Key → Bool → List I → Option P → Option P → Option P → BondInterface Key P I
    built k stored members name options mode = record {
      is_bond = true;
      has_prefs = stored;
      entity_device = k;
      localized_name = name;
      interfaces = members;
      options = options;
      mode = mode;
    }

    given_name_lem :
        (k : Key) (members : List I) (v : Option P) (w : W)
        → given_name ifs cf prefs
            (isa cf (is_cf_string cf) v)
            (built k false members none none none)
            w
          ≡ record {
            world = w;
            bond = built k false members (isa cf (is_cf_string cf) v) none none;
            ok = true;
          }
    unfolding given_name isa set_localized_display_name is_refused finish store_change
    given_name_lem k members none w = refl
    given_name_lem k members (some v) w = elim (Bool-cases (is_cf_string cf v)) [
      | inl e ↦ rw (e, e) refl
      | inr e ↦ rw e refl
    ]

    given_options_lem :
        (k : Key) (members : List I) (n v : Option P) (w : W)
        → given_options ifs cf prefs
            (isa cf cf.is_dictionary v)
            (built k false members n none none)
            w
          ≡ record {
            world = w;
            bond = built k false members n (isa cf cf.is_dictionary v) none;
            ok = true;
          }
    unfolding given_options isa set_options is_refused finish store_change
    given_options_lem k members n none w = refl
    given_options_lem k members n (some v) w = elim (Bool-cases (cf.is_dictionary v)) [
      | inl e ↦ rw (e, e) refl
      | inr e ↦ rw e refl
    ]

    pub read_bond_lem :
        (k : Key) (d : P) (w : W)
        → (read_bond ifs cf prefs ni_prefs k d w).1
          ≡ built k true
              (map prefs.copy_interface
                (add_interfaces prefs ni_prefs (member_names cf (cf.get_value d bond_interfaces))))
              (isa cf (is_cf_string cf) (cf.get_value d user_defined_name))
              (isa cf cf.is_dictionary (cf.get_value d bond_options))
              (some (mode_or_lacp cf (isa cf cf.is_number (cf.get_value d bond_mode))))
    unfolding read_bond change_interfaces finish store_change change_mode
    read_bond_lem k d w =
        rw
          (
            given_name_lem k
                (map prefs.copy_interface (
                  add_interfaces prefs ni_prefs (member_names cf (cf.get_value d bond_interfaces))))
                (cf.get_value d user_defined_name) w,
            given_options_lem k
                (map prefs.copy_interface (
                  add_interfaces prefs ni_prefs (member_names cf (cf.get_value d bond_interfaces))))
                (isa cf (is_cf_string cf) (cf.get_value d user_defined_name))
                (cf.get_value d bond_options) w,
          )
          refl
