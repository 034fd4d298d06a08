-- ===== src/Bond/Update/Others.antt =====
-- SystemConfiguration/BondConfiguration.c: the steps for one bond leave the members of the others.
use configd_extra.Base.{
  ◌≡◌, refl, Bool, false, not, ◌||◌, List, [], ◌∷◌, Option, none, some, if◌then◌else◌, All, ap,
  subst, ◌∙◌, arith, Bool-cases, inl, inr,
}
use mathlib.Core.Option.{some-injective}
use configd_extra.Base.Int.{ℤ}
use configd_extra.Bond.State.{
  is_among, Interfaces, Bond, set_mode_of, BondKernel, mode_number, equal_mode,
}
use configd_extra.Bond.Update.{
  Progress, Flow, next, ◌>>=◌, checked, after_call, with_socket, bond_set_mode,
  bond_remove_interface, bond_add_interface, find_bond, remove_stale, remove_unconfigured,
  remove_all, remove_present, add_missing, change_members, change_bond, new_bond, update_bond,
  update_all, first_differs, equal_interfaces,
}
use configd_extra.Bond.Update.Changes.{
  KernelLaws, unchanged, Effect, Leads, same-Effect, then-Effect, then-Leads, bind-Leads, if-Effect,
  socket-Leads, socket_then-Leads, created-Effect, checked-Effect, called-Effect, other-Effect,
}

module _ {I Key W : Type 0} (ifs : Interfaces I Key) (kernel : BondKernel Key W)
    (laws : KernelLaws ifs kernel) (n : Key) where
  -- The steps leave the bond `n` as it is.
  abbrev pub Spares : Progress W → Progress W → Type 0
  Spares = Effect ifs kernel laws n (unchanged ifs kernel laws n)

  abbrev pub LeavesOut : Progress W → Flow (Progress W) → Type 0
  LeavesOut = Leads ifs kernel laws n (unchanged ifs kernel laws n)

  module _ (b : Key) (e : ifs.name_equal n b ≡ false) where
    remove_stale-LeavesOut :
        (c l : List I) (p : Progress W) → LeavesOut p (remove_stale ifs kernel b c l p)
    unfolding remove_stale Leads bond_remove_interface
    remove_stale-LeavesOut c [] p = same-Effect ifs kernel laws n p
    remove_stale-LeavesOut c (a ∷ l) p = elim (Bool-cases (is_among ifs c a)) [
      | inl there ↦ rw there (remove_stale-LeavesOut c l p)
      | inr gone ↦ rw gone (
          socket_then-Leads ifs kernel laws n _ p _ (λ q.
            then-Leads ifs kernel laws n _ (unchanged ifs kernel laws n) q _ _
              (other-Effect ifs kernel laws n b _ q e) (remove_stale-LeavesOut c l _)))
    ]

    remove_present-Spares :
        (c l : List I) (p : Progress W) → Spares p (remove_present ifs kernel b c l p)
    unfolding remove_present bond_remove_interface
    remove_present-Spares c [] p = same-Effect ifs kernel laws n p
    remove_present-Spares c (a ∷ l) p =
        if-Effect ifs kernel laws n _ (is_among ifs c a) p _ _
          (then-Effect ifs kernel laws n _ (unchanged ifs kernel laws n) p _ _
            (other-Effect ifs kernel laws n b _ p e) (remove_present-Spares c l _))
          (remove_present-Spares c l p)

    add_missing-Spares : (a l : List I) (p : Progress W) → Spares p (add_missing ifs kernel b a l p)
    unfolding add_missing bond_add_interface
    add_missing-Spares a [] p = same-Effect ifs kernel laws n p
    add_missing-Spares a (c ∷ l) p =
        if-Effect ifs kernel laws n _ (is_among ifs a c || not (ifs.supports_bond c)) p _ _
          (add_missing-Spares a l p)
          (then-Effect ifs kernel laws n _ (unchanged ifs kernel laws n) p _ _
            (other-Effect ifs kernel laws n b _ p e) (add_missing-Spares a l _))

    mode-Spares : (m : Option ℤ) (p : Progress W) → Spares p (bond_set_mode kernel b m p).1
    unfolding bond_set_mode
    mode-Spares m p =
        called-Effect ifs kernel laws n _ (kernel.request p.world b (set_mode_of (mode_number m))) p
          (laws.request_other _ b n _ e)

  -- The first bond with a name has the name.
  pub find_bond-name :
      (k : Key) (l : List (Bond I Key)) (b : Bond I Key)
      → find_bond ifs kernel k l ≡ some b
      → k ≡ b.bond_if
  unfolding find_bond
  find_bond-name k [] b e = absurd (cc)
  find_bond-name k (x ∷ l) b e = elim (Bool-cases (ifs.name_equal k x.bond_if)) [
    | inl same ↦
        (laws.name_equal_iff k x.bond_if).0 same
        ∙ ap (λ y. y.bond_if) (some-injective x b (ground (arith, e)))
    | inr other ↦ find_bond-name k l b (ground (arith, e))
  ]

  removed-LeavesOut :
      (a : Bond I Key) (o : Option (Bond I Key)) (p : Progress W)
      → ifs.name_equal n a.bond_if ≡ false
      → LeavesOut p (elim o [
        | some c ↦ remove_stale ifs kernel a.bond_if c.interfaces a.interfaces p
        | none ↦ with_socket kernel p >>= λ q.
            next (checked (after_call kernel (kernel.destroy_interface q.world a.bond_if) q))
      ])
  unfolding Leads
  removed-LeavesOut a (some c) p e = remove_stale-LeavesOut a.bond_if e c.interfaces a.interfaces p
  removed-LeavesOut a none p e = socket_then-Leads ifs kernel laws n _ p _ (λ q.
      checked-Effect ifs kernel laws n _ (kernel.destroy_interface q.world a.bond_if) q
        (λ o. laws.destroy_other _ a.bond_if n e))

  pub remove_unconfigured-LeavesOut :
      (config : List (Bond I Key)) (a : Bond I Key) (p : Progress W)
      → ifs.name_equal n a.bond_if ≡ false
      → LeavesOut p (remove_unconfigured ifs kernel config a p)
  unfolding remove_unconfigured
  remove_unconfigured-LeavesOut config a p e = removed-LeavesOut a _ p e

  pub remove_all-LeavesOut :
      (config active : List (Bond I Key)) (p : Progress W)
      → All (λ a. ifs.name_equal n a.bond_if ≡ false) active
      → LeavesOut p (remove_all ifs kernel config active p)
  unfolding remove_all Leads
  remove_all-LeavesOut config [] p all = same-Effect ifs kernel laws n p
  remove_all-LeavesOut config (a ∷ active) p (e, all) =
      bind-Leads ifs kernel laws n _ (unchanged ifs kernel laws n) p _ _
        (remove_unconfigured-LeavesOut config a p e) (λ q. remove_all-LeavesOut config active q all)

  change_members-Spares :
      (a c : Bond I Key) (p : Progress W)
      → ifs.name_equal n a.bond_if ≡ false
      → ifs.name_equal n c.bond_if ≡ false
      → Spares p (change_members ifs kernel a c p)
  unfolding change_members
  change_members-Spares a c p ea ec =
      if-Effect ifs kernel laws n _ (first_differs ifs kernel c.interfaces a.interfaces) p _ _
        (then-Effect ifs kernel laws n _ (unchanged ifs kernel laws n) p _ _
          (remove_present-Spares a.bond_if ea c.interfaces a.interfaces p)
          (add_missing-Spares c.bond_if ec [] c.interfaces _))
        (add_missing-Spares c.bond_if ec a.interfaces c.interfaces p)

  change_bond-LeavesOut :
      (a c : Bond I Key) (p : Progress W)
      → ifs.name_equal n a.bond_if ≡ false
      → ifs.name_equal n c.bond_if ≡ false
      → LeavesOut p (change_bond ifs kernel a c p)
  unfolding change_bond Leads
  change_bond-LeavesOut a c p ea ec = socket-Leads ifs kernel laws n _ p _ (
      socket_then-Leads ifs kernel laws n _ p _ (λ q.
        then-Effect ifs kernel laws n _ (unchanged ifs kernel laws n) q _ _
          (if-Effect ifs kernel laws n _ (not (equal_mode a.mode c.mode)) q _ _
            (mode-Spares a.bond_if ea c.mode q) (same-Effect ifs kernel laws n q))
          (if-Effect ifs kernel laws n _
            (not (equal_interfaces ifs kernel c.interfaces a.interfaces)) _ _ _
            (change_members-Spares a c _ ea ec) (same-Effect ifs kernel laws n _))))

  created-Spares :
      (c : Bond I Key) (r : W × Bool) (q : Progress W)
      → ifs.name_equal n c.bond_if ≡ false
      → laws.members_of r.0 n ≡ laws.members_of q.world n
      → Spares q (
          let (created, t) = after_call kernel r q in
          if created
          then add_missing ifs kernel c.bond_if [] c.interfaces
              (bond_set_mode kernel c.bond_if c.mode t).1
          else record t { ok = false })
  created-Spares c r q e h =
      created-Effect ifs kernel laws n _ (unchanged ifs kernel laws n) r q
        (λ t.
          add_missing ifs kernel c.bond_if [] c.interfaces
            (bond_set_mode kernel c.bond_if c.mode t).1)
        (λ o. h)
        (λ t.
          then-Effect ifs kernel laws n _ (unchanged ifs kernel laws n) t _ _
            (mode-Spares c.bond_if e c.mode t) (add_missing-Spares c.bond_if e [] c.interfaces _))

  updated-LeavesOut :
      (c : Bond I Key) (o : Option (Bond I Key)) (p : Progress W)
      → ifs.name_equal n c.bond_if ≡ false
      → ((a : Bond I Key) → o ≡ some a → c.bond_if ≡ a.bond_if)
      → LeavesOut p
          (elim o [ some a ↦ change_bond ifs kernel a c p | none ↦ new_bond ifs kernel c p ])
  unfolding new_bond Leads
  updated-LeavesOut c (some a) p e same =
      change_bond-LeavesOut a c p (subst (λ k. ifs.name_equal n k ≡ false) (same a refl) e) e
  updated-LeavesOut c none p e same = socket_then-Leads ifs kernel laws n _ p _ (λ q.
      created-Spares c (kernel.create_interface q.world c.bond_if) q e
        (laws.create_other _ c.bond_if n e))

  pub update_bond-LeavesOut :
      (active : List (Bond I Key)) (c : Bond I Key) (p : Progress W)
      → ifs.name_equal n c.bond_if ≡ false
      → LeavesOut p (update_bond ifs kernel active c p)
  unfolding update_bond
  update_bond-LeavesOut active c p e =
      updated-LeavesOut c (find_bond ifs kernel c.bond_if active) p e
        (find_bond-name c.bond_if active)

  pub update_all-LeavesOut :
      (active config : List (Bond I Key)) (p : Progress W)
      → All (λ c. ifs.name_equal n c.bond_if ≡ false) config
      → LeavesOut p (update_all ifs kernel active config p)
  unfolding update_all Leads
  update_all-LeavesOut active [] p all = same-Effect ifs kernel laws n p
  update_all-LeavesOut active (c ∷ config) p (e, all) =
      bind-Leads ifs kernel laws n _ (unchanged ifs kernel laws n) p _ _
        (update_bond-LeavesOut active c p e) (λ q. update_all-LeavesOut active config q all)
