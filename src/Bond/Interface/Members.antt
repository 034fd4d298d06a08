-- ===== src/Bond/Interface/Members.antt =====
-- SystemConfiguration/BondConfiguration.c: the names of members that are stored read back.
use configd_extra.Base.{◌≡◌, refl, ap, ap₂, ◌∙◌, List, [], ◌∷◌, map, Option, some}
use configd_extra.Bond.State.{Interfaces}
use configd_extra.Bond.Interface.{Values, BondPrefs, strings_of, member_names, stored_names}
use configd_extra.Bond.Interface.Read.{with_found, add_interfaces}
use configd_extra.Bond.Interface.InSync.{PrefsLaws, Known}

module _ {Key P I W : Type 0} (ifs : Interfaces I Key) (cf : Values Key P)
    (prefs : BondPrefs Key P I W) (ni_prefs : Option (Key → Option I))
    (laws : PrefsLaws ifs cf prefs ni_prefs) where
  -- The members read back.
  strings_of-map : (l : List Key) → strings_of cf (map cf.of_string l) ≡ l
  unfolding strings_of
  strings_of-map [] = refl
  strings_of-map (k ∷ l) = rw (laws.string_back k, strings_of-map l) refl

  map-map :
      (l : List I)
      → map (λ i. cf.of_string (ifs.bsd_name i)) l ≡ map cf.of_string (map ifs.bsd_name l)
  map-map [] = refl
  map-map (i ∷ l) = ap (λ m. cf.of_string (ifs.bsd_name i) ∷ m) (map-map l)

  pub member_names-stored_names :
      (l : List I) → member_names cf (some (stored_names ifs cf prefs l)) ≡ map ifs.bsd_name l
  unfolding member_names stored_names
  member_names-stored_names l =
      rw
        (
          member_names,
          stored_names,
          laws.array_back (map (λ i. cf.of_string (ifs.bsd_name i)) l),
          map-map l,
        )
        (strings_of-map (map ifs.bsd_name l))

  pub add_interfaces-Known :
      (l : List I)
      → Known ifs cf prefs ni_prefs l
      → map ifs.bsd_name (add_interfaces prefs ni_prefs (map ifs.bsd_name l)) ≡ map ifs.bsd_name l
  unfolding Known add_interfaces
  add_interfaces-Known [] u = refl
  add_interfaces-Known (i ∷ l) ((j, f, n), rest) =
      ap
        (λ o.
          map ifs.bsd_name
            (with_found prefs o (add_interfaces prefs ni_prefs (map ifs.bsd_name l))))
        f
      ∙ ap₂ (λ k m. k ∷ m) n (add_interfaces-Known l rest)
