-- ===== src/Bond/Update/Names.antt =====
-- SystemConfiguration/BondConfiguration.c: the lists of member names that the loops leave.
use configd_extra.Base.{
  ◌≡◌, refl, sym, ap, ap₂, ◌∙◌, Bool, true, false, not, ◌||◌, ◌&&◌, inl, inr, List, [], ◌∷◌, ◌++◌,
  Option, none, some, map, if◌then◌else◌, All, Bool-cases, arith, append-nil, append_assoc,
}
use configd_extra.Bond.State.{is_among, Interfaces, BondKernel}
use configd_extra.Bond.Update.{equal_interfaces, first_differs}
use configd_extra.Bond.Update.Changes.{KernelLaws, without_name}
use configd_extra.Bond.Update.Loops.{drop_all, append_all, kept, stale, missing}

module _ {I Key W : Type 0} (ifs : Interfaces I Key) (kernel : BondKernel Key W) where
  -- Whether a name is in a list.
  unfoldable pub has_name : Key → List Key → Bool
  has_name k [] = false
  has_name k (j ∷ l) = if ifs.name_equal k j then true else has_name k l

  abbrev pub first_name : List Key → Option Key
  first_name [] = none
  first_name (k ∷ l) = some k

  abbrev pub names : List I → List Key
  names = map ifs.bsd_name

  unfoldable pub Supported : List I → Type 0
  Supported c = All (λ i. ifs.supports_bond i ≡ true) c

  pub append_all-some : (ks l : List Key) → append_all ifs kernel ks (some l) ≡ some (l ++ ks)
  unfolding append_all
  append_all-some [] l = ap some (sym (append-nil l))
  append_all-some (k ∷ ks) l =
      append_all-some ks (l ++ (k ∷ [])) ∙ ap some (append_assoc l (k ∷ []) ks)

  pub has_name-append :
      (k : Key) (l m : List Key) → has_name k (l ++ m) ≡ (has_name k l || has_name k m)
  unfolding has_name
  has_name-append k [] m = refl
  has_name-append k (j ∷ l) m = ground (arith, has_name-append k l m)

  module _ (laws : KernelLaws ifs kernel) where
    name_equal_self : (k : Key) → ifs.name_equal k k ≡ true
    name_equal_self k = (laws.name_equal_iff k k).1 refl

    same-name_equal : (i j : I) → ifs.same j i ≡ ifs.name_equal (ifs.bsd_name i) (ifs.bsd_name j)
    same-name_equal i j = elim (Bool-cases (ifs.same j i)) [
      | inl yes_same ↦
          yes_same ∙ sym ((laws.name_equal_iff _ _).1 (sym ((laws.same_iff j i).0 yes_same)))
      | inr not_same ↦ elim (Bool-cases (ifs.name_equal (ifs.bsd_name i) (ifs.bsd_name j))) [
        | inl e ↦
            absurd (ground (arith, (laws.same_iff j i).1 (sym ((laws.name_equal_iff _ _).0 e))))
        | inr e ↦ not_same ∙ sym e
      ]
    ]

    is_among-has_name :
        (c : List I) (i : I) → is_among ifs c i ≡ has_name (ifs.bsd_name i) (names c)
    unfolding is_among has_name
    is_among-has_name [] i = refl
    is_among-has_name (j ∷ c) i = ground (arith, same-name_equal i j, is_among-has_name c i)

    pub drop_all_self : (ks : List Key) → drop_all ifs kernel ks (some ks) ≡ some []
    unfolding drop_all without_name
    drop_all_self [] = refl
    drop_all_self (k ∷ ks) = rw (name_equal_self k) (drop_all_self ks)

    without_name-append :
        (k : Key) (l m : List Key)
        → has_name k l ≡ false
        → without_name ifs.name_equal k (l ++ k ∷ m) ≡ l ++ m
    unfolding without_name has_name
    without_name-append k [] m e = rw (name_equal_self k) refl
    without_name-append k (j ∷ l) m e = ground (arith, without_name-append k l m)

    contained_name :
        (c : List I) (a : I) (k : Key)
        → ifs.name_equal k (ifs.bsd_name a) ≡ true
        → is_among ifs c a ≡ has_name k (names c)
    contained_name c a k e =
        is_among-has_name c a ∙ ap (λ j. has_name j (names c)) (sym ((laws.name_equal_iff _ _).0 e))

    -- A name that is not configured is not the name of an interface that is.
    configured_name :
        (c : List I) (a : I) (k : Key)
        → is_among ifs c a ≡ true
        → has_name k (names c) ≡ false
        → ifs.name_equal k (ifs.bsd_name a) ≡ false
    configured_name c a k there none_k = elim (Bool-cases (ifs.name_equal k (ifs.bsd_name a))) [
      | inr other ↦ other
      | inl e ↦ absurd (ground (arith, contained_name c a k e))
    ]

    prefix_names :
        (c : List I) (a : I) (pre : List Key) (k : Key)
        → is_among ifs c a ≡ true
        → has_name k (names c) ≡ false
        → has_name k pre ≡ false
        → has_name k (pre ++ (ifs.bsd_name a ∷ [])) ≡ false
    unfolding has_name
    prefix_names c a pre k there none_k h =
        ground
          (arith, has_name-append k pre (ifs.bsd_name a ∷ []), configured_name c a k there none_k)

    -- The members that are no longer configured are taken out.
    pub drop_all-stale :
        (c l : List I) (pre : List Key)
        → ((k : Key) → has_name k (names c) ≡ false → has_name k pre ≡ false)
        → drop_all ifs kernel (stale ifs kernel c l) (some (pre ++ names l))
          ≡ some (pre ++ kept ifs kernel c l)
    unfolding drop_all stale kept
    drop_all-stale c [] pre h = refl
    drop_all-stale c (a ∷ l) pre h = elim (Bool-cases (is_among ifs c a)) [
      | inl there ↦ rw there (
          ap (λ v. drop_all ifs kernel (stale ifs kernel c l) (some v))
            (sym (append_assoc pre (ifs.bsd_name a ∷ []) (names l)))
          ∙ drop_all-stale c l (pre ++ (ifs.bsd_name a ∷ []))
              (λ k e. prefix_names c a pre k there e (h k e))
          ∙ ap some (append_assoc pre (ifs.bsd_name a ∷ []) (kept ifs kernel c l)))
      | inr gone ↦ rw gone (
          ap (λ v. drop_all ifs kernel (stale ifs kernel c l) (some v))
            (without_name-append (ifs.bsd_name a) pre (names l)
              (h (ifs.bsd_name a) (sym (is_among-has_name c a) ∙ gone)))
          ∙ drop_all-stale c l pre h)
    ]

    pub has_name-kept :
        (c l : List I) (k : Key)
        → has_name k (kept ifs kernel c l) ≡ (has_name k (names l) && has_name k (names c))
    unfolding kept has_name
    has_name-kept c [] k = refl
    has_name-kept c (a ∷ l) k = ground (arith, has_name-kept c l k, contained_name c a k)

    pub has_name-missing :
        (a l : List I) (k : Key)
        → Supported l
        → has_name k (missing ifs kernel a l) ≡ (has_name k (names l) && not (has_name k (names a)))
    unfolding missing has_name Supported
    has_name-missing a [] k s = refl
    has_name-missing a (c ∷ l) k (y, s) =
        ground (arith, y, has_name-missing a l k s, contained_name a c k)

    kept-nil : (l : List I) → kept ifs kernel [] l ≡ []
    unfolding kept is_among
    kept-nil [] = refl
    kept-nil (a ∷ l) = kept-nil l

    pub missing-nil : (l : List I) → Supported l → missing ifs kernel [] l ≡ names l
    unfolding missing is_among Supported
    missing-nil [] s = refl
    missing-nil (c ∷ l) (y, s) = rw y (ap (λ r. ifs.bsd_name c ∷ r) (missing-nil l s))

    pub equal_interfaces-names :
        (k l : List I) → equal_interfaces ifs kernel k l ≡ true → names k ≡ names l
    unfolding equal_interfaces
    equal_interfaces-names [] [] e = refl
    equal_interfaces-names [] (j ∷ l) e = absurd (cc)
    equal_interfaces-names (i ∷ k) [] e = absurd (cc)
    equal_interfaces-names (i ∷ k) (j ∷ l) e = elim (Bool-cases (ifs.same i j)) [
      | inl same ↦
          ap₂ (λ x y. x ∷ y) ((laws.same_iff i j).0 same)
            (equal_interfaces-names k l (ground (arith, e)))
      | inr other ↦ absurd (ground (arith, e))
    ]

    first_shared : (x y : I) → not (ifs.same x y) ≡ false → ifs.bsd_name x ≡ ifs.bsd_name y
    first_shared x y e = (laws.same_iff x y).0 (ground (arith, e))

    -- With the first device in common, it stays the first.
    pub first_name-kept :
        (c a : List I) (m : List Key)
        → first_differs ifs kernel c a ≡ false
        → (a ≡ [] → first_name m ≡ first_name (names c))
        → (c ≡ [] → m ≡ [])
        → first_name (kept ifs kernel c a ++ m) ≡ first_name (names c)
    unfolding kept first_differs is_among
    first_name-kept [] a m e h none_m = rw (kept-nil a, none_m refl) refl
    first_name-kept (x ∷ c) [] m e h none_m = h refl
    first_name-kept (x ∷ c) (y ∷ a) m e h none_m =
        ground (arith, e, sym (ap some (first_shared x y e)))

    pub equal_first_name :
        (c a : List I)
        → equal_interfaces ifs kernel c a ≡ true
        → first_name (kept ifs kernel c a) ≡ first_name (names c)
    unfolding kept equal_interfaces is_among
    equal_first_name [] [] e = refl
    equal_first_name [] (y ∷ a) e = absurd (cc)
    equal_first_name (x ∷ c) [] e = absurd (cc)
    equal_first_name (x ∷ c) (y ∷ a) e = elim (Bool-cases (ifs.same x y)) [
      | inl same ↦ ground (arith, e, sym (ap some ((laws.same_iff x y).0 same)))
      | inr other ↦ absurd (ground (arith, e))
    ]
