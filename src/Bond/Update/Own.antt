-- ===== src/Bond/Update/Own.antt =====
-- SystemConfiguration/BondConfiguration.c: what `_SCBondInterfaceUpdateConfiguration` does to the members
-- of one configured bond.
use configd_extra.Base.{
  ◌≡◌, refl, sym, ap, subst, ◌∙◌, false, ◌⊎◌, inl, inr, List, [], ◌∷◌, Option, none, some, All,
  arith,
}
use configd_extra.Bond.State.{Interfaces, Bond, BondKernel}
use configd_extra.Bond.Update.{
  Progress, ◌>>=◌, bond_set_mode, find_bond, remove_stale, remove_unconfigured, remove_all,
  add_missing, new_bond, update_bond, update_all,
}
use configd_extra.Bond.Update.Changes.{
  KernelLaws, Leads, then-Effect, bind-Leads, socket_then-Leads, created-Effect, set_mode-Effect,
}
use configd_extra.Bond.Update.Loops.{
  drop_all, append_all, stale, missing, remove_stale-Leads, add_missing-Effect,
}
use configd_extra.Bond.Update.Others.{
  remove_unconfigured-LeavesOut, remove_all-LeavesOut, update_bond-LeavesOut, update_all-LeavesOut,
}
use configd_extra.Bond.Update.Bodies.{updated_members, change_bond-Leads}

module _ {I Key W : Type 0} (ifs : Interfaces I Key) (kernel : BondKernel Key W)
    (laws : KernelLaws ifs kernel) where
  -- The bond `b` is in the list, and it is the only one with the name `n`.
  unfoldable pub Alone : Key → Bond I Key → List (Bond I Key) → Type 0
  Alone n b [] = ⊥
  Alone n b (x ∷ l) =
      ((x ≡ b) × All (λ y. ifs.name_equal n y.bond_if ≡ false) l)
      ⊎ ((ifs.name_equal n x.bond_if ≡ false) × Alone n b l)

  pub Alone-found :
      (n : Key) (b : Bond I Key) (l : List (Bond I Key))
      → b.bond_if ≡ n
      → Alone n b l
      → find_bond ifs kernel n l ≡ some b
  unfolding Alone find_bond
  Alone-found n b (x ∷ l) e (inl (same, all)) =
      ground (arith, (laws.name_equal_iff n x.bond_if).1 (sym (ap (λ y. y.bond_if) same ∙ e)), same)
  Alone-found n b (x ∷ l) e (inr (other, alone)) = ground (arith, Alone-found n b l e alone)
  Alone-found n b [] e alone = absurd alone

  pub missed :
      (n : Key) (l : List (Bond I Key))
      → All (λ y. ifs.name_equal n y.bond_if ≡ false) l
      → find_bond ifs kernel n l ≡ none
  unfolding find_bond
  missed n [] all = refl
  missed n (x ∷ l) (e, all) = ground (arith, missed n l all)

  new_bond-Leads :
      (c : Bond I Key) (p : Progress W)
      → Leads ifs kernel laws c.bond_if
          (λ v. append_all ifs kernel (missing ifs kernel [] c.interfaces) (some []))
          p
          (new_bond ifs kernel c p)
  unfolding new_bond Leads
  new_bond-Leads c p = socket_then-Leads ifs kernel laws c.bond_if _ p _ (λ q.
      created-Effect ifs kernel laws c.bond_if (λ v. some [])
        (append_all ifs kernel (missing ifs kernel [] c.interfaces)) _ q
        (λ r.
          add_missing ifs kernel c.bond_if [] c.interfaces
            (bond_set_mode kernel c.bond_if c.mode r).1)
        (laws.create_members q.world c.bond_if)
        (λ r.
          then-Effect ifs kernel laws c.bond_if (λ v. v)
            (append_all ifs kernel (missing ifs kernel [] c.interfaces)) r _ _
            (set_mode-Effect ifs kernel laws c.bond_if c.mode r)
            (add_missing-Effect ifs kernel laws c.bond_if [] c.interfaces _)))

  module _ (n : Key) where
    -- A loop over bonds of which one has the name.
    update_all-Leads :
        (f : Option (List Key) → Option (List Key)) (active config : List (Bond I Key))
        (c : Bond I Key) (p : Progress W)
        → ((q : Progress W) → Leads ifs kernel laws n f q (update_bond ifs kernel active c q))
        → Alone n c config
        → Leads ifs kernel laws n f p (update_all ifs kernel active config p)
    unfolding update_all Alone
    update_all-Leads f active [] c p step alone = absurd alone
    update_all-Leads f active (x ∷ config) c p step (inl (same, all)) =
        bind-Leads ifs kernel laws n f (λ v. v) p _ _
          (subst (λ y. Leads ifs kernel laws n f p (update_bond ifs kernel active y p)) (sym same)
            (step p))
          (λ q. update_all-LeavesOut ifs kernel laws n active config q all)
    update_all-Leads f active (x ∷ config) c p step (inr (other, alone)) =
        bind-Leads ifs kernel laws n (λ v. v) f p _ _
          (update_bond-LeavesOut ifs kernel laws n active x p other)
          (λ q. update_all-Leads f active config c q step alone)

    remove_all-Leads :
        (f : Option (List Key) → Option (List Key)) (config active : List (Bond I Key))
        (a : Bond I Key) (p : Progress W)
        → ((q : Progress W)
            → Leads ifs kernel laws n f q (remove_unconfigured ifs kernel config a q))
        → Alone n a active
        → Leads ifs kernel laws n f p (remove_all ifs kernel config active p)
    unfolding remove_all Alone
    remove_all-Leads f config [] a p step alone = absurd alone
    remove_all-Leads f config (x ∷ active) a p step (inl (same, all)) =
        bind-Leads ifs kernel laws n f (λ v. v) p _ _
          (subst (λ y. Leads ifs kernel laws n f p (remove_unconfigured ifs kernel config y p))
            (sym same) (step p))
          (λ q. remove_all-LeavesOut ifs kernel laws n config active q all)
    remove_all-Leads f config (x ∷ active) a p step (inr (other, alone)) =
        bind-Leads ifs kernel laws n (λ v. v) f p _ _
          (remove_unconfigured-LeavesOut ifs kernel laws n config x p other)
          (λ q. remove_all-Leads f config active a q step alone)

    removed_own-Leads :
        (config : List (Bond I Key)) (a c : Bond I Key)
        → a.bond_if ≡ n
        → find_bond ifs kernel a.bond_if config ≡ some c
        → (q : Progress W)
        → Leads ifs kernel laws n
            (drop_all ifs kernel (stale ifs kernel c.interfaces a.interfaces))
            q
            (remove_unconfigured ifs kernel config a q)
    unfolding remove_unconfigured Leads
    removed_own-Leads config a c ea found q =
        rw (found, remove_unconfigured)
          (subst
            (λ k.
              Leads ifs kernel laws n
                (drop_all ifs kernel (stale ifs kernel c.interfaces a.interfaces)) q
                (remove_stale ifs kernel k c.interfaces a.interfaces q))
            (sym ea) (remove_stale-Leads ifs kernel laws n c.interfaces a.interfaces q))

    updated_own-Leads :
        (active : List (Bond I Key)) (a c : Bond I Key)
        → a.bond_if ≡ n
        → c.bond_if ≡ n
        → find_bond ifs kernel c.bond_if active ≡ some a
        → (q : Progress W)
        → Leads ifs kernel laws n
            (updated_members ifs kernel laws n c.interfaces a.interfaces)
            q
            (update_bond ifs kernel active c q)
    unfolding update_bond Leads
    updated_own-Leads active a c ea ec found q =
        rw (found, update_bond) (change_bond-Leads ifs kernel laws n a c q ea ec)

    -- The two loops, on a bond that is active and configured.
    pub both-Leads :
        (config active : List (Bond I Key)) (a c : Bond I Key) (p : Progress W)
        → a.bond_if ≡ n
        → c.bond_if ≡ n
        → Alone n a active
        → Alone n c config
        → Leads ifs kernel laws n
            (λ v.
              updated_members ifs kernel laws n c.interfaces a.interfaces
                (drop_all ifs kernel (stale ifs kernel c.interfaces a.interfaces) v))
            p
            (remove_all ifs kernel config active p >>= update_all ifs kernel active config)
    both-Leads config active a c p ea ec alone_a alone_c =
        bind-Leads ifs kernel laws n _ (updated_members ifs kernel laws n c.interfaces a.interfaces)
          p _ _
          (remove_all-Leads _ config active a p
            (removed_own-Leads config a c ea (
              subst (λ k. find_bond ifs kernel k config ≡ some c) (sym ea)
                (Alone-found n c config ec alone_c)))
            alone_a)
          (λ q.
            update_all-Leads _ active config c q
              (updated_own-Leads active a c ea ec (
                subst (λ k. find_bond ifs kernel k active ≡ some a) (sym ec)
                  (Alone-found n a active ea alone_a)))
              alone_c)

  created_own-Leads :
      (active : List (Bond I Key)) (c : Bond I Key)
      → find_bond ifs kernel c.bond_if active ≡ none
      → (q : Progress W)
      → Leads ifs kernel laws c.bond_if
          (λ v. append_all ifs kernel (missing ifs kernel [] c.interfaces) (some []))
          q
          (update_bond ifs kernel active c q)
  unfolding update_bond Leads
  created_own-Leads active c found q = rw (found, update_bond) (new_bond-Leads c q)

  -- The two loops, on a configured bond that is not active.
  pub new-Leads :
      (config active : List (Bond I Key)) (c : Bond I Key) (p : Progress W)
      → All (λ y. ifs.name_equal c.bond_if y.bond_if ≡ false) active
      → Alone c.bond_if c config
      → Leads ifs kernel laws c.bond_if
          (λ v. append_all ifs kernel (missing ifs kernel [] c.interfaces) (some []))
          p
          (remove_all ifs kernel config active p >>= update_all ifs kernel active config)
  new-Leads config active c p others alone =
      bind-Leads ifs kernel laws c.bond_if (λ v. v) _ p _ _
        (remove_all-LeavesOut ifs kernel laws c.bond_if config active p others)
        (λ q.
          update_all-Leads c.bond_if _ active config c q
            (created_own-Leads active c (missed c.bond_if active others)) alone)
