-- ===== src/Bond/Members/Disjoint.antt =====
-- SystemConfiguration/BondConfiguration.c: no interface becomes a member of two bonds.
use configd_extra.Base.{
  ◌≡◌, refl, Bool, true, false, ◌||◌, ◌⊎◌, inl, inr, List, [], ◌∷◌, ◌++◌, Bool-cases, arith,
}
use configd_extra.Bond.State.{is_among, Interfaces, Bond}
use configd_extra.Bond.Members.{
  add_to_set, add_each, collect_members, collect_lists, excluded_interfaces, select_available,
  available_interfaces, check_members,
}

module _ {I Key : Type 0} (ifs : Interfaces I Key) where
  -- `CFEqual` is an equality.
  pub record SameLaws : Type 0 where
    pub same_refl : (i : I) → ifs.same i i ≡ true
    pub same_sym : (i j : I) → ifs.same i j ≡ true → ifs.same j i ≡ true
    pub same_trans : (i j k : I) → ifs.same i j ≡ true → ifs.same j k ≡ true → ifs.same i k ≡ true

  module _ (laws : SameLaws) where
    is_among-same :
        (l : List I) (i j : I)
        → is_among ifs l i ≡ true
        → ifs.same i j ≡ true
        → is_among ifs l j ≡ true
    unfolding is_among
    is_among-same [] i j e s = absurd (cc)
    is_among-same (x ∷ l) i j e s = ground (arith, is_among-same l i j, laws.same_trans x i j)

    is_among-same_iff :
        (l : List I) (i j : I) → ifs.same i j ≡ true → is_among ifs l i ≡ is_among ifs l j
    is_among-same_iff l i j s =
        ground (arith, is_among-same l i j, is_among-same l j i, laws.same_sym i j)

    -- What a set has, after additions.
    is_among-add_to_set :
        (i : I) (set : List I) (j : I)
        → is_among ifs (add_to_set ifs i set) j ≡ (ifs.same i j || is_among ifs set j)
    unfolding add_to_set is_among
    is_among-add_to_set i set j = ground (arith, is_among-same set i j)

    is_among-add_each :
        (l set : List I) (j : I)
        → is_among ifs (add_each ifs l set) j ≡ (is_among ifs l j || is_among ifs set j)
    unfolding add_each is_among
    is_among-add_each [] set j = refl
    is_among-add_each (i ∷ l) set j =
        ground (arith, is_among-add_each l (add_to_set ifs i set) j, is_among-add_to_set i set j)

    -- Whether an interface is a member of one of the bonds.
    unfoldable pub is_member : List (Bond I Key) → I → Bool
    is_member [] j = false
    is_member (b ∷ l) j = is_among ifs b.interfaces j || is_member l j

    is_among-collect_members :
        (l : List (Bond I Key)) (set : List I) (j : I)
        → is_among ifs (collect_members ifs l set) j ≡ (is_member l j || is_among ifs set j)
    unfolding collect_members is_member
    is_among-collect_members [] set j = refl
    is_among-collect_members (b ∷ l) set j = ground (
      arith,
      is_among-collect_members l (add_each ifs b.interfaces set) j,
      is_among-add_each b.interfaces set j,
    )

    collect_lists-keeps :
        (l : List (List I)) (set : List I) (j : I)
        → is_among ifs set j ≡ true
        → is_among ifs (collect_lists ifs l set) j ≡ true
    unfolding collect_lists
    collect_lists-keeps [] set j e = e
    collect_lists-keeps (m ∷ l) set j e =
        collect_lists-keeps l (add_each ifs m set) j (ground (arith, is_among-add_each m set j))

    -- The members of all bonds are excluded.
    excluded_interfaces-members :
        (bonds : List (Bond I Key)) (bridges : List (List I)) (vlans : List I) (j : I)
        → is_member bonds j ≡ true
        → is_among ifs (excluded_interfaces ifs bonds bridges vlans) j ≡ true
    unfolding excluded_interfaces
    excluded_interfaces-members bonds bridges vlans j e = ground (
      arith,
      is_among-add_each vlans (collect_lists ifs bridges (collect_members ifs bonds [])) j,
      collect_lists-keeps bridges (collect_members ifs bonds []) j,
      is_among-collect_members bonds [] j,
    )

    select_available-free :
        (excluded l : List I) (j : I)
        → is_among ifs (select_available ifs excluded l) j ≡ true
        → is_among ifs excluded j ≡ false
    unfolding select_available is_among
    select_available-free excluded [] j e = absurd (cc)
    select_available-free excluded (i ∷ l) j e =
        ground (arith, select_available-free excluded l j, is_among-same_iff excluded i j)

    available_interfaces-free :
        (bonds : List (Bond I Key)) (bridges : List (List I)) (vlans all : List I) (j : I)
        → is_among ifs (available_interfaces ifs bonds bridges vlans all) j ≡ true
        → is_member bonds j ≡ false
    unfolding available_interfaces
    available_interfaces-free bonds bridges vlans all j e = ground (
      arith,
      select_available-free (excluded_interfaces ifs bonds bridges vlans) all j e,
      excluded_interfaces-members bonds bridges vlans j,
    )

    -- Each accepted member was one, or is available.
    check_members-allowed :
        (current available : List I) (in_use : I → Bool) (ms : List I) (j : I)
        → check_members ifs current available in_use ms ≡ 0
        → is_among ifs ms j ≡ true
        → (is_among ifs current j || is_among ifs available j) ≡ true
    unfolding check_members is_among
    check_members-allowed current available in_use [] j e h = absurd (cc)
    check_members-allowed current available in_use (i ∷ ms) j e h = ground (
      arith,
      check_members-allowed current available in_use ms j,
      is_among-same_iff current i j,
      is_among-same_iff available i j,
    )

    -- No interface is a member of two bonds of the list.
    unfoldable pub IsDisjoint : List (Bond I Key) → Type 0
    IsDisjoint [] = Unit
    IsDisjoint (b ∷ l) =
        ((j : I) → is_among ifs b.interfaces j ≡ true → is_member l j ≡ false) × IsDisjoint l

    is_member-append :
        (l m : List (Bond I Key)) (j : I) → is_member (l ++ m) j ≡ (is_member l j || is_member m j)
    unfolding is_member
    is_member-append [] m j = refl
    is_member-append (b ∷ l) m j = ground (arith, is_member-append l m j)

    untouched :
        (before after : List (Bond I Key)) (b : Bond I Key) (ms : List I) (j : I)
        → is_member (before ++ b ∷ after) j ≡ false
        → (is_among ifs ms j ≡ true → ⊥)
        → is_member (before ++ record b { interfaces = ms } ∷ after) j ≡ false
    unfolding is_member
    untouched before after b ms j e out = elim (Bool-cases (is_among ifs ms j)) [
      | inl m ↦ absurd (out m)
      | inr m ↦ ground (
        arith,
        m,
        is_member-append before (b ∷ after) j,
        is_member-append before (record b { interfaces = ms } ∷ after) j,
      )
    ]

    replaced-IsDisjoint :
        (before after : List (Bond I Key)) (b : Bond I Key) (ms : List I)
        → ((j : I)
            → is_among ifs ms j ≡ true
            → (is_among ifs b.interfaces j ≡ true) ⊎ (is_member (before ++ b ∷ after) j ≡ false))
        → IsDisjoint (before ++ b ∷ after)
        → IsDisjoint (before ++ record b { interfaces = ms } ∷ after)
    unfolding IsDisjoint is_member
    replaced-IsDisjoint [] after b ms h (d, rest) =
        (λ j e. elim (h j e) [ inl old ↦ d j old | inr new ↦ ground (arith, new) ], rest)
    replaced-IsDisjoint (x ∷ before) after b ms h (d, rest) = (
      λ j e. untouched before after b ms j (d j e) (λ m. elim (h j m) [
        | inl old ↦ ground (arith, d j e, is_member-append before (b ∷ after) j, old)
        | inr new ↦ ground (arith, new, e)
      ]),
      replaced-IsDisjoint before after b ms
          (λ j e. elim (h j e) [ inl old ↦ inl old | inr new ↦ inr (ground (arith, new)) ]) rest,
    )

    -- `CFEqual` is an equality, and no interface is in two of the configured bonds. If the new members of
    -- the bond `b` of the configuration pass the test of `SCBondInterfaceSetMemberInterfaces`, against the
    -- members it has and the interfaces that `SCBondInterfaceCopyAvailableMemberInterfaces` gives, then
    -- with them no interface is in two bonds either.
    pub check_members-IsDisjoint :
        (before after : List (Bond I Key)) (b : Bond I Key) (bridges : List (List I))
        (vlans all ms : List I) (in_use : I → Bool)
        → IsDisjoint (before ++ b ∷ after)
        → check_members ifs b.interfaces
            (available_interfaces ifs (before ++ b ∷ after) bridges vlans all)
            in_use
            ms
          ≡ 0
        → IsDisjoint (before ++ record b { interfaces = ms } ∷ after)
    check_members-IsDisjoint before after b bridges vlans all ms in_use d ok =
        replaced-IsDisjoint before after b ms
          (λ j e. elim (Bool-cases (is_among ifs b.interfaces j)) [
            | inl old ↦ inl old
            | inr new ↦ inr (
                available_interfaces-free (before ++ b ∷ after) bridges vlans all j (
                  ground (
                    arith,
                    new,
                    check_members-allowed b.interfaces
                        (available_interfaces ifs (before ++ b ∷ after) bridges vlans all) in_use ms
                        j ok e,
                  )))
          ])
          d
