-- ===== src/Bond/Interface/Kept.antt =====
-- SystemConfiguration/BondConfiguration.c: the setters keep a bond and what is stored of it in line.
use configd_extra.Base.{
  ◌≡◌, refl, sym, ap, ◌∙◌, true, false, ◌⊎◌, inl, inr, map, Option, some, Bool-cases,
}
use configd_extra.Bond.State.{Interfaces}
use configd_extra.Bond.Interface.{
  bond_interfaces, Values, BondPrefs, BondInterface, member_names, change_dictionary, store_change,
  finish, mode_or_lacp,
}
use configd_extra.Bond.Interface.Read.{add_interfaces}
use configd_extra.Bond.Interface.InSync.{PrefsLaws, Matches, InSync, map-copy, read_bond_lem}

module _ {Key P I W : Type 0} (ifs : Interfaces I Key) (cf : Values Key P)
    (prefs : BondPrefs Key P I W) (ni_prefs : Option (Key → Option I))
    (laws : PrefsLaws ifs cf prefs ni_prefs) where
  -- The preferences hold the bond as `d`.
  unfoldable pub Holds : BondInterface Key P I → W → P → Type 0
  Holds b w d =
      (laws.stored w (prefs.bond_path b.entity_device) ≡ some d)
      × (cf.is_dictionary d ≡ true)
      × Matches ifs cf prefs ni_prefs b d

  unfoldable pub Held : BondInterface Key P I → W → Type 0
  Held b w = (b.is_bond ≡ true) × (b.has_prefs ≡ true) × ((d : P) × Holds b w d)

  pub InSync-Held :
      (b : BondInterface Key P I) (w : W) → InSync ifs cf prefs ni_prefs laws b w → Held b w
  unfolding Held Holds InSync mode_or_lacp
  InSync-Held b w (k, h, (d, s, e, (n, o, m, l))) = (
    k,
    h,
    (
      d,
      (
        s,
        e,
        (
          n
              ∙ ap (λ x. x.localized_name)
                  (read_bond_lem ifs cf prefs ni_prefs laws b.entity_device d w),
          o ∙ ap (λ x. x.options) (read_bond_lem ifs cf prefs ni_prefs laws b.entity_device d w),
          m
              ∙ ap (λ x. mode_or_lacp cf x.mode)
                  (read_bond_lem ifs cf prefs ni_prefs laws b.entity_device d w),
          l
              ∙ ap (λ x. map ifs.bsd_name x.interfaces)
                  (read_bond_lem ifs cf prefs ni_prefs laws b.entity_device d w)
              ∙ map-copy ifs cf prefs ni_prefs laws (
                  add_interfaces prefs ni_prefs (member_names cf (cf.get_value d bond_interfaces))),
        ),
      ),
    ),
  )

  pub Held-InSync :
      (b : BondInterface Key P I) (w : W) → Held b w → InSync ifs cf prefs ni_prefs laws b w
  unfolding Held Holds InSync mode_or_lacp
  Held-InSync b w (k, h, (d, (s, e, (n, o, m, l)))) = (
    k,
    h,
    (
      d,
      s,
      e,
      rw (read_bond_lem ifs cf prefs ni_prefs laws b.entity_device d w) (
        n,
        o,
        m,
        l
            ∙ sym (
                map-copy ifs cf prefs ni_prefs laws (
                  add_interfaces prefs ni_prefs
                    (member_names cf (cf.get_value d bond_interfaces)))),
      ),
    ),
  )

  -- What the preferences hold after a change that is made there first.
  store_change_lem :
      (f : P → P) (b : BondInterface Key P I) (w : W) (d : P)
      → b.has_prefs ≡ true
      → laws.stored w (prefs.bond_path b.entity_device) ≡ some d
      → cf.is_dictionary d ≡ true
      → (((store_change ifs cf prefs f b w).1 ≡ true)
          × (laws.stored (store_change ifs cf prefs f b w).0 (prefs.bond_path b.entity_device)
              ≡ some (f d)))
        ⊎ (((store_change ifs cf prefs f b w).1 ≡ false)
            × (laws.stored (store_change ifs cf prefs f b w).0 (prefs.bond_path b.entity_device)
                ≡ some d))
  unfolding store_change change_dictionary
  store_change_lem f b w d h s e =
      let path = prefs.bond_path b.entity_device in
      let w' = (prefs.path_get_value w path).0 in
      rw (h, laws.get_stored w path, s, e)
        elim (Bool-cases (cf.equal d (f d))) [
          | inl q ↦
              rw q
                (inl (refl, laws.get_keeps w path path ∙ s ∙ ap some (laws.equal_values d (f d) q)))
          | inr q ↦ rw q elim (Bool-cases (prefs.path_set_value w' path (f d)).1) [
            | inl r ↦ inl (r, laws.set_stores w' path (f d) r)
            | inr r ↦ inr (r, laws.set_fails w' path (f d) r ∙ laws.get_keeps w path path ∙ s)
          ]
        ]

  -- The change of the object follows the change of the preferences.
  pub finish-Held :
      (f : P → P) (b changed : BondInterface Key P I) (w : W) (d : P)
      → b.is_bond ≡ true
      → b.has_prefs ≡ true
      → Holds b w d
      → changed.is_bond ≡ b.is_bond
      → changed.has_prefs ≡ b.has_prefs
      → changed.entity_device ≡ b.entity_device
      → cf.is_dictionary (f d) ≡ true
      → Matches ifs cf prefs ni_prefs changed (f d)
      → Held
          (finish ifs cf prefs b changed (store_change ifs cf prefs f b w)).bond
          (finish ifs cf prefs b changed (store_change ifs cf prefs f b w)).world
  unfolding Held Holds finish
  finish-Held f b changed w d k h (s, e, m) ck ch cd e' m' = elim (store_change_lem f b w d h s e) [
    | inl (ok, t) ↦ rw ok (ck ∙ k, ch ∙ h, (f d, (rw cd t, e', m')))
    | inr (failed, t) ↦ rw failed (k, h, (d, (t, e, m)))
  ]
