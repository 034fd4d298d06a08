-- ===== src/Bond/Interface/Fresh.antt =====
-- SystemConfiguration/BondConfiguration.c: a bond that `SCBondInterfaceCreate` makes.
use configd_extra.Base.{
  ℕ, zero, suc, ◌+◌, ◌<◌, ◌≤◌, ◌≡◌, refl, sym, ◌∙◌, subst, true, ◌⊎◌, inl, inr, [], Option, none,
  some, Bool-cases, Option-cases, arith, ◌==◌,
}
use configd_extra.Bond.State.{Interfaces}
use configd_extra.Bond.Interface.{
  bond_interfaces, user_defined_name, bond_options, bond_mode, Values, BondPrefs, BondInterface,
  new_interface, isa, strings_of, member_names, mode_or_lacp,
}
use configd_extra.Bond.Interface.Read.{create_from, create_bond, store_new, add_interfaces}
use configd_extra.Bond.Interface.Kept.{Held, Holds, Held-InSync}
use configd_extra.Bond.Interface.InSync.{same_property, PrefsLaws, Matches, InSync}

module _ {Key P I W : Type 0} (ifs : Interfaces I Key) (cf : Values Key P)
    (prefs : BondPrefs Key P I W) (ni_prefs : Option (Key → Option I))
    (laws : PrefsLaws ifs cf prefs ni_prefs) where
  -- A bond with the name, which the preferences hold, or no bond and nothing stored.
  unfoldable pub Created : ℕ → W × Option (BondInterface Key P I) → Type 0
  Created k (w, made) =
      ((b : BondInterface Key P I) × (made ≡ some b)
        × (b.entity_device ≡ prefs.bond_name k)
        × InSync ifs cf prefs ni_prefs laws b w)
      ⊎ ((made ≡ none) × (laws.stored w (prefs.bond_path (prefs.bond_name k)) ≡ none))

  new-Matches :
      (k : Key)
      → Matches ifs cf prefs ni_prefs
          (record (new_interface ifs cf prefs k) { has_prefs = true })
          (cf.set_value cf.empty_dictionary bond_interfaces (cf.of_array []))
  unfolding mode_or_lacp isa same_property member_names strings_of add_interfaces
  new-Matches k =
      let e = cf.empty_dictionary in
      let v = cf.of_array [] in
      let d = laws.empty_dictionary in
      rw
        (
          laws.get_set e v bond_interfaces user_defined_name d,
          laws.get_set e v bond_interfaces bond_options d,
          laws.get_set e v bond_interfaces bond_mode d,
          laws.get_set e v bond_interfaces bond_interfaces d,
          laws.get_empty user_defined_name,
          laws.get_empty bond_options,
          laws.get_empty bond_mode,
        )
        (refl, refl, refl, rw (member_names, laws.array_back []) refl)

  store_new-Created :
      (k : ℕ) (w : W)
      → laws.stored w (prefs.bond_path (prefs.bond_name k)) ≡ none
      → Created k (store_new ifs cf prefs (prefs.bond_name k) w)
  unfolding Created store_new Held Holds
  store_new-Created k w free =
      let path = prefs.bond_path (prefs.bond_name k) in
      let d = cf.set_value cf.empty_dictionary bond_interfaces (cf.of_array []) in
      let b = record (new_interface ifs cf prefs (prefs.bond_name k)) { has_prefs = true } in
      elim (Bool-cases (prefs.path_set_value w path d).1) [
        | inl ok ↦ rw ok (
            inl (
              b,
              refl,
              refl,
              Held-InSync ifs cf prefs ni_prefs laws b (prefs.path_set_value w path d).0 (
                refl,
                refl,
                (
                  d,
                  (
                    laws.set_stores w path d ok,
                    laws.set_dictionary cf.empty_dictionary (cf.of_array []) bond_interfaces
                        laws.empty_dictionary,
                    new-Matches (prefs.bond_name k),
                  ),
                ),
              ),
            ))
        | inr failed ↦ rw failed (inr (refl, laws.set_fails w path d failed ∙ free))
      ]

  create_from-free :
      (k fuel : ℕ) (w : W)
      → laws.stored w (prefs.bond_path (prefs.bond_name k)) ≡ none
      → (r : W × Option (BondInterface Key P I)) × (create_from ifs cf prefs (suc fuel) k w
          ≡ some r)
        × Created k r
  unfolding create_from
  create_from-free k fuel w free =
      let path = prefs.bond_path (prefs.bond_name k) in
      let w' = (prefs.path_get_value w path).0 in
      (
        store_new ifs cf prefs (prefs.bond_name k) w',
        rw (laws.get_stored w path ∙ free, create_from) refl,
        store_new-Created k w' (laws.get_keeps w path path ∙ free),
      )

  create_from-Created :
      (k fuel i : ℕ) (w : W)
      → i ≤ k
      → k < i + fuel
      → ((j : ℕ) → i ≤ j → j < k → laws.stored w (prefs.bond_path (prefs.bond_name j)) ≡ none → ⊥)
      → laws.stored w (prefs.bond_path (prefs.bond_name k)) ≡ none
      → (r : W × Option (BondInterface Key P I)) × (create_from ifs cf prefs fuel i w ≡ some r)
        × Created k r
  unfolding create_from
  create_from-Created k zero i w low enough used free = absurd (omega arith)
  create_from-Created k (suc fuel) i w low enough used free =
      let path = prefs.bond_path (prefs.bond_name i) in
      let w' = (prefs.path_get_value w path).0 in
      elim (Bool-cases (i == k)) [
        | inl here ↦
            subst
              (λ n.
                (r : W × Option (BondInterface Key P I)) × (create_from ifs cf prefs (suc fuel) n w
                  ≡ some r)
                × Created k r)
              (ground (arith, here)) (create_from-free k fuel w free)
        | inr above ↦ elim (Option-cases (laws.stored w path)) [
          | inl e ↦ absurd (used i (omega arith) (ground (arith, above)) e)
          | inr (d, e) ↦
              rw (laws.get_stored w path ∙ e, create_from)
                (create_from-Created k fuel (suc i) w' (ground (arith, above)) (omega arith)
                  (λ j l h q.
                    used j (omega arith) h
                      (sym (laws.get_keeps w path (prefs.bond_path (prefs.bond_name j))) ∙ q))
                  (laws.get_keeps w path (prefs.bond_path (prefs.bond_name k)) ∙ free))
        ]
      ]

  -- If the names "bond0", "bond1", and so on are taken up to the one with the number `k`, which is free,
  -- then with fuel for more than `k` rounds `SCBondInterfaceCreate` returns. Either it gives a bond with
  -- this name, which the preferences hold and which reads back with the same name, options, members and
  -- mode, or it gives none, and nothing is stored at the path of the name.
  pub create_bond-Created :
      (k fuel : ℕ) (w : W)
      → k < fuel
      → ((j : ℕ) → j < k → laws.stored w (prefs.bond_path (prefs.bond_name j)) ≡ none → ⊥)
      → laws.stored w (prefs.bond_path (prefs.bond_name k)) ≡ none
      → (r : W × Option (BondInterface Key P I)) × (create_bond ifs cf prefs fuel true w ≡ some r)
        × Created k r
  unfolding create_bond
  create_bond-Created k fuel w enough used free =
      create_from-Created k fuel 0 w (omega arith) (omega arith) (λ j l h. used j h) free
