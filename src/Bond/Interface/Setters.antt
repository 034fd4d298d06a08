-- ===== src/Bond/Interface/Setters.antt =====
-- SystemConfiguration/BondConfiguration.c: each setter keeps a bond in line with the preferences.
use configd_extra.Base.{
  All, ℕ, ◌≡◌, refl, sym, ap, ◌∙◌, Bool, true, false, not, ◌&&◌, ◌||◌, List, [], ◌∷◌, map, Option,
  none, some, if◌then◌else◌, arith, ◌==◌,
}
use configd_extra.Bond.State.{Interfaces, invalid_argument, status_ok}
use configd_extra.Bond.Members.{check_members}
use configd_extra.Bond.Interface.{
  Property, bond_interfaces, user_defined_name, bond_options, bond_mode, Values, BondPrefs,
  BondInterface, Outcome, with_entry, is_cf_string, isa, is_refused, member_names, store_change,
  finish, refuse, stored_names, change_interfaces, set_member_interfaces,
  set_localized_display_name, set_options, mode_or_lacp, change_mode, is_mode, set_mode,
}
use configd_extra.Bond.Interface.Read.{add_interfaces}
use configd_extra.Bond.Interface.Kept.{Held, Holds, InSync-Held, Held-InSync, finish-Held}
use configd_extra.Bond.Interface.InSync.{
  same_property, Setter, to_members, to_name, to_options, to_mode, PrefsLaws, apply, apply_all,
  Known, KnownIn, InSync, map-copy,
}
use configd_extra.Bond.Interface.Members.{member_names-stored_names, add_interfaces-Known}

module _ {Key P I W : Type 0} (ifs : Interfaces I Key) (cf : Values Key P)
    (prefs : BondPrefs Key P I W) (ni_prefs : Option (Key → Option I))
    (laws : PrefsLaws ifs cf prefs ni_prefs) where
  get-with_entry :
      (k j : Property) (v : Option P) (d : P)
      → cf.is_dictionary d ≡ true
      → cf.get_value (with_entry cf k v d) j ≡ (if same_property k j then v else cf.get_value d j)
  unfolding with_entry
  get-with_entry k j none d e = laws.get_remove d k j e
  get-with_entry k j (some v) d e = laws.get_set d v k j e

  with_entry_dictionary :
      (k : Property) (v : Option P) (d : P)
      → cf.is_dictionary d ≡ true
      → cf.is_dictionary (with_entry cf k v d) ≡ true
  unfolding with_entry
  with_entry_dictionary k none d e = laws.remove_dictionary d k e
  with_entry_dictionary k (some v) d e = laws.set_dictionary d v k e

  isa-accepted : (test : P → Bool) (v : Option P) → is_refused cf test v ≡ false → isa cf test v ≡ v
  unfolding isa is_refused
  isa-accepted test none e = refl
  isa-accepted test (some v) e = ground (arith, e)

  refuse-Held :
      (b : BondInterface Key P I) (w : W) (n : ℕ)
      → Held ifs cf prefs ni_prefs laws b w
      → Held ifs cf prefs ni_prefs laws b (prefs.set_error w n)
  unfolding Held Holds
  refuse-Held b w n (k, h, (d, (s, e, m))) =
      (k, h, (d, (laws.error_keeps w n (prefs.bond_path b.entity_device) ∙ s, e, m)))

  unfoldable HeldAfter : Outcome Key P I W → Type 0
  HeldAfter r = Held ifs cf prefs ni_prefs laws r.bond r.world

  either-HeldAfter :
      (c : Bool) (x y : Outcome Key P I W)
      → (c ≡ true → HeldAfter x)
      → (c ≡ false → HeldAfter y)
      → HeldAfter (if c then x else y)
  either-HeldAfter true x y a f = a refl
  either-HeldAfter false x y a f = f refl

  -- The bond reads as the entries that `get` gives.
  abbrev ReadsAs : BondInterface Key P I → (Property → Option P) → Type 0
  ReadsAs b get =
      (b.localized_name ≡ isa cf (is_cf_string cf) (get user_defined_name))
      × (b.options ≡ isa cf cf.is_dictionary (get bond_options))
      × (mode_or_lacp cf b.mode ≡ mode_or_lacp cf (isa cf cf.is_number (get bond_mode)))
      × (map ifs.bsd_name b.interfaces
          ≡ map ifs.bsd_name
              (add_interfaces prefs ni_prefs (member_names cf (get bond_interfaces))))

  -- A setter of the entry `k`, when `c` is the bond with the new field.
  entry-Held :
      (k : Property) (v : Option P) (b c : BondInterface Key P I) (w : W) (d : P)
      → b.is_bond ≡ true
      → b.has_prefs ≡ true
      → Holds ifs cf prefs ni_prefs laws b w d
      → c.is_bond ≡ b.is_bond
      → c.has_prefs ≡ b.has_prefs
      → c.entity_device ≡ b.entity_device
      → ReadsAs c (λ j. if same_property k j then v else cf.get_value d j)
      → HeldAfter (finish ifs cf prefs b c (store_change ifs cf prefs (with_entry cf k v) b w))
  unfolding HeldAfter Holds
  entry-Held k v b c w d kb h (s, e, m) ck ch cd r =
      finish-Held ifs cf prefs ni_prefs laws (with_entry cf k v) b c w d kb h (s, e, m) ck ch cd
        (with_entry_dictionary k v d e)
        (rw
          (
            get-with_entry k user_defined_name v d e,
            get-with_entry k bond_options v d e,
            get-with_entry k bond_mode v d e,
            get-with_entry k bond_interfaces v d e,
          )
          r)

  set_localized_display_name-Held :
      (v : Option P) (b : BondInterface Key P I) (w : W)
      → Held ifs cf prefs ni_prefs laws b w
      → HeldAfter (set_localized_display_name ifs cf prefs v b w)
  unfolding set_localized_display_name refuse Held Holds HeldAfter same_property
  set_localized_display_name-Held v b w (k, h, (d, (s, e, (n, o, m, l)))) =
      either-HeldAfter (not b.is_bond || is_refused cf (is_cf_string cf) v)
        (refuse ifs cf prefs b w)
        (finish ifs cf prefs b (record b { localized_name = v })
          (store_change ifs cf prefs (with_entry cf user_defined_name v) b w))
        (λ g. refuse-Held b w invalid_argument (k, h, (d, (s, e, (n, o, m, l)))))
        (λ g.
          entry-Held user_defined_name v b (record b { localized_name = v }) w d k h
            (s, e, (n, o, m, l)) refl refl refl
            (sym (isa-accepted (is_cf_string cf) v (ground (arith, g))), o, m, l))

  set_options-Held :
      (v : Option P) (b : BondInterface Key P I) (w : W)
      → Held ifs cf prefs ni_prefs laws b w
      → HeldAfter (set_options ifs cf prefs v b w)
  unfolding set_options refuse Held Holds HeldAfter same_property
  set_options-Held v b w (k, h, (d, (s, e, (n, o, m, l)))) =
      either-HeldAfter (not b.is_bond || is_refused cf cf.is_dictionary v) (refuse ifs cf prefs b w)
        (finish ifs cf prefs b (record b { options = v })
          (store_change ifs cf prefs (with_entry cf bond_options v) b w))
        (λ g. refuse-Held b w invalid_argument (k, h, (d, (s, e, (n, o, m, l)))))
        (λ g.
          entry-Held bond_options v b (record b { options = v }) w d k h (s, e, (n, o, m, l)) refl
            refl refl (n, sym (isa-accepted cf.is_dictionary v (ground (arith, g))), m, l))

  change_mode-Held :
      (v : P) (b : BondInterface Key P I) (w : W)
      → cf.is_number v ≡ true
      → Held ifs cf prefs ni_prefs laws b w
      → HeldAfter (change_mode ifs cf prefs (some v) b w)
  unfolding change_mode Held Holds same_property is_refused mode_or_lacp
  change_mode-Held v b w r (k, h, (d, (s, e, (n, o, m, l)))) =
      entry-Held bond_mode (some v) b (record b { mode = some v }) w d k h (s, e, (n, o, m, l)) refl
        refl refl
        (
          n,
          o,
          ap (λ x. mode_or_lacp cf x)
              (sym (isa-accepted cf.is_number (some v) (ground (arith, r)))),
          l,
        )

  set_mode-Held :
      (v : Option P) (b : BondInterface Key P I) (w : W)
      → Held ifs cf prefs ni_prefs laws b w
      → HeldAfter (set_mode ifs cf prefs v b w)
  unfolding set_mode refuse HeldAfter
  set_mode-Held none b w a = refuse-Held b w invalid_argument a
  set_mode-Held (some v) b w a =
      either-HeldAfter (b.is_bond && cf.is_number v && is_mode (cf.int_value v))
        (change_mode ifs cf prefs (some v) b w) (refuse ifs cf prefs b w)
        (λ g. change_mode-Held v b w (ground (arith, g)) a)
        (λ g. refuse-Held b w invalid_argument a)

  change_interfaces-Held :
      (ms : List I) (b : BondInterface Key P I) (w : W)
      → Known ifs cf prefs ni_prefs ms
      → Held ifs cf prefs ni_prefs laws b w
      → HeldAfter (change_interfaces ifs cf prefs ms b w)
  unfolding change_interfaces Held Holds same_property
  change_interfaces-Held ms b w known (k, h, (d, (s, e, (n, o, m, l)))) =
      let v = some (stored_names ifs cf prefs ms) in
      entry-Held bond_interfaces v b (record b { interfaces = map prefs.copy_interface ms }) w d k h
        (s, e, (n, o, m, l)) refl refl refl
        (
          n,
          o,
          m,
          map-copy ifs cf prefs ni_prefs laws ms
              ∙ sym (add_interfaces-Known ifs cf prefs ni_prefs laws ms known)
              ∙ ap (λ x. map ifs.bsd_name (add_interfaces prefs ni_prefs x))
                  (sym (member_names-stored_names ifs cf prefs ni_prefs laws ms)),
        )

  set_member_interfaces-Held :
      (available : List I) (in_use : I → Bool) (ms : List I) (b : BondInterface Key P I) (w : W)
      → Known ifs cf prefs ni_prefs ms
      → Held ifs cf prefs ni_prefs laws b w
      → HeldAfter (set_member_interfaces ifs cf prefs available in_use ms b w)
  unfolding set_member_interfaces refuse HeldAfter
  set_member_interfaces-Held available in_use ms b w known a =
      let code =
        (if b.has_prefs then check_members ifs b.interfaces available in_use ms else status_ok) in
      either-HeldAfter (not b.is_bond) (refuse ifs cf prefs b w)
        (if code == status_ok
          then change_interfaces ifs cf prefs ms b w
          else record { world = prefs.set_error w code; bond = b; ok = false })
        (λ g. refuse-Held b w invalid_argument a)
        (λ g.
          either-HeldAfter (code == status_ok) (change_interfaces ifs cf prefs ms b w)
            (record { world = prefs.set_error w code; bond = b; ok = false })
            (λ h. change_interfaces-Held ms b w known a) (λ h. refuse-Held b w code a))

  apply-Held :
      (c : Setter P I) (b : BondInterface Key P I) (w : W)
      → KnownIn ifs cf prefs ni_prefs c
      → Held ifs cf prefs ni_prefs laws b w
      → HeldAfter (apply ifs cf prefs ni_prefs c b w)
  unfolding apply KnownIn
  apply-Held (to_members available in_use ms) b w known a =
      set_member_interfaces-Held available in_use ms b w known a
  apply-Held (to_name v) b w known a = set_localized_display_name-Held v b w a
  apply-Held (to_options v) b w known a = set_options-Held v b w a
  apply-Held (to_mode v) b w known a = set_mode-Held v b w a

  -- If the preferences hold a bond, and it reads back with the same name, options, members and mode, then
  -- this is so after any calls of its setters, whether they succeed or fail, that give members which are
  -- found by their names. A failed write changes nothing at the path.
  pub apply_all-InSync :
      (l : List (Setter P I)) (b : BondInterface Key P I) (w : W)
      → All (λ c. KnownIn ifs cf prefs ni_prefs c) l
      → InSync ifs cf prefs ni_prefs laws b w
      → InSync ifs cf prefs ni_prefs laws
          (apply_all ifs cf prefs ni_prefs l b w).1
          (apply_all ifs cf prefs ni_prefs l b w).0
  unfolding apply_all HeldAfter
  apply_all-InSync [] b w known a = a
  apply_all-InSync (c ∷ l) b w (k, known) a =
      apply_all-InSync l (apply ifs cf prefs ni_prefs c b w).bond
        (apply ifs cf prefs ni_prefs c b w).world known
        (Held-InSync ifs cf prefs ni_prefs laws (apply ifs cf prefs ni_prefs c b w).bond
          (apply ifs cf prefs ni_prefs c b w).world
          (apply-Held c b w k (InSync-Held ifs cf prefs ni_prefs laws b w a)))
