-- ===== src/Bond/Update/Realized.antt =====
-- SystemConfiguration/BondConfiguration.c: after `_SCBondInterfaceUpdateConfiguration` the kernel has the
-- configured bonds.
use configd_extra.Base.{
  ◌≡◌, refl, ap, ◌∙◌, true, false, ◌⊎◌, inl, inr, List, [], ◌++◌, Option, some, All, Bool-cases,
  arith,
}
use configd_extra.Bond.State.{Interfaces, Bond, BondKernel}
use configd_extra.Bond.Update.{
  Progress, Flow, next, done, end_of, equal_interfaces, first_differs, update_configuration,
}
use configd_extra.Bond.Update.Changes.{KernelLaws, Effect, Leads}
use configd_extra.Bond.Update.Loops.{append_all, kept, missing}
use configd_extra.Bond.Update.Names.{
  has_name, first_name, names, Supported, append_all-some, has_name-append, drop_all_self,
  drop_all-stale, has_name-kept, has_name-missing, missing-nil, equal_interfaces-names,
  equal_first_name, first_name-kept,
}
use configd_extra.Bond.Update.Own.{Alone, both-Leads, new-Leads}
use configd_extra.Bond.Update.Bodies.{updated_members}

module _ {I Key W : Type 0} (ifs : Interfaces I Key) (kernel : BondKernel Key W) where
  -- The members are those that are configured, in some order with the configured first one first.
  unfoldable pub Realizes : List I → List Key → Type 0
  Realizes c ms =
      ((k : Key) → has_name ifs kernel k ms ≡ has_name ifs kernel k (names ifs kernel c))
      × (first_name ifs kernel ms ≡ first_name ifs kernel (names ifs kernel c))

  module _ (laws : KernelLaws ifs kernel) (n : Key) where
    -- The members after the first loop, changed by the second one.
    updated_members-Realizes :
        (c a : List I)
        → Supported ifs kernel c
        → (ms : List Key) × (updated_members ifs kernel laws n c a (some (kept ifs kernel c a))
            ≡ some ms)
          × Realizes c ms
    unfolding Realizes missing
    updated_members-Realizes c a s = elim (Bool-cases (equal_interfaces ifs kernel c a)) [
      | inl same ↦ (
        kept ifs kernel c a,
        rw same refl,
        (
          λ k. ground (
            arith,
            has_name-kept ifs kernel laws c a k,
            ap (has_name ifs kernel k) (equal_interfaces-names ifs kernel laws c a same),
          ),
          equal_first_name ifs kernel laws c a same,
        ),
      )
      | inr changed ↦ elim (Bool-cases (first_differs ifs kernel c a)) [
        | inl differs ↦ (
          names ifs kernel c,
          rw (changed, differs)
              (ap (append_all ifs kernel (missing ifs kernel [] c))
                  (drop_all_self ifs kernel laws (kept ifs kernel c a))
                ∙ append_all-some ifs kernel (missing ifs kernel [] c) []
                ∙ ap some (missing-nil ifs kernel laws c s)),
          (λ k. refl, refl),
        )
        | inr first ↦ (
          kept ifs kernel c a ++ missing ifs kernel a c,
          rw (changed, first)
              (append_all-some ifs kernel (missing ifs kernel a c) (kept ifs kernel c a)),
          (
            λ k. ground (
              arith,
              has_name-append ifs kernel k (kept ifs kernel c a) (missing ifs kernel a c),
              has_name-kept ifs kernel laws c a k,
              has_name-missing ifs kernel laws a c k s,
            ),
            first_name-kept ifs kernel laws c a _ first
                (λ e. rw e (ap (first_name ifs kernel) (missing-nil ifs kernel laws c s)))
                (λ e. rw e refl),
          ),
        )
      ]
    ]

    -- The members that the kernel has of a bond with the name: those of the only active bond with it, or
    -- none if no active bond has it.
    unfoldable pub Starts : List (Bond I Key) → W → Type 0
    Starts active w =
        ((a : Bond I Key) × (a.bond_if ≡ n)
          × Alone ifs kernel laws n a active
          × (laws.members_of w n ≡ some (names ifs kernel a.interfaces)))
        ⊎ All (λ y. ifs.name_equal n y.bond_if ≡ false) active

    -- What the end of the function says of the members.
    ended :
        (f : Option (List Key) → Option (List Key)) (p : Progress W) (m : Flow (Progress W))
        (v : Option (List Key))
        → Leads ifs kernel laws n f p m
        → laws.members_of p.world n ≡ v
        → (end_of m).ok ≡ true
        → laws.members_of (end_of m).world n ≡ f v
    unfolding Leads Effect
    ended f p (next q) v l e ok = (l ok).1 ∙ ap f e
    ended f p (done q) v l e ok = absurd (cc)

  -- The kernel does what it documents, `CFEqual` takes two of the interfaces at hand to be the same just
  -- when they have the same BSD name (the type, the text and the layers that it compares as well do not
  -- tell them apart), the names of bonds are unique in the configuration and among the active bonds, for
  -- `c` at least, and every configured member of `c` can be in a bond. If the update
  -- returns TRUE, the kernel has a bond with the name of `c`, whose members are exactly the configured
  -- ones, and the first configured one is the first.
  pub update_configuration-Realizes :
      (laws : KernelLaws ifs kernel) (config active : List (Bond I Key)) (c : Bond I Key) (w : W)
      → Alone ifs kernel laws c.bond_if c config
      → Starts laws c.bond_if active w
      → Supported ifs kernel c.interfaces
      → (update_configuration ifs kernel true config active w).ok ≡ true
      → (ms : List Key) × (laws.members_of
            (update_configuration ifs kernel true config active w).world
            c.bond_if
          ≡ some ms)
        × Realizes c.interfaces ms
  unfolding update_configuration Starts Realizes has_name
  update_configuration-Realizes laws config active c w alone (inl (a, ea, alone_a, at_a)) s ok =
      let (ms, e, r) = updated_members-Realizes laws c.bond_if c.interfaces a.interfaces s in
      (
        ms,
        ended laws c.bond_if _ (record { socket = false; ok = true; sc_error = 0; world = w }) _ _
              (both-Leads ifs kernel laws c.bond_if config active a c _ ea refl alone_a alone) at_a
              ok
            ∙ ap (updated_members ifs kernel laws c.bond_if c.interfaces a.interfaces)
                (drop_all-stale ifs kernel laws c.interfaces a.interfaces [] (λ k h. refl))
            ∙ e,
        r,
      )
  update_configuration-Realizes laws config active c w alone (inr others) s ok = (
    names ifs kernel c.interfaces,
    ended laws c.bond_if _ (record { socket = false; ok = true; sc_error = 0; world = w }) _ _
          (new-Leads ifs kernel laws config active c _ others alone) refl ok
        ∙ append_all-some ifs kernel (missing ifs kernel [] c.interfaces) []
        ∙ ap some (missing-nil ifs kernel laws c.interfaces s),
    (λ k. refl, refl),
  )
