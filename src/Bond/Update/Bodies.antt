-- ===== src/Bond/Update/Bodies.antt =====
-- SystemConfiguration/BondConfiguration.c: what the change of an active bond does to its members.
use configd_extra.Base.{
  ◌≡◌, sym, subst, Bool, true, false, not, ◌&&◌, List, [], Option, if◌then◌else◌,
}
use configd_extra.Bond.State.{Interfaces, Bond, BondKernel, equal_mode}
use configd_extra.Bond.Update.{
  Progress, next, ◌>>=◌, with_socket, bond_set_mode, remove_present, add_missing, change_members,
  change_bond, first_differs, equal_interfaces,
}
use configd_extra.Bond.Update.Changes.{
  KernelLaws, Effect, Leads, same-Effect, then-Effect, socket_then-Leads, set_mode-Effect,
}
use configd_extra.Bond.Update.Loops.{
  drop_all, append_all, kept, missing, remove_present-Effect, add_missing-Effect,
}

module _ {I Key W : Type 0} (ifs : Interfaces I Key) (kernel : BondKernel Key W)
    (laws : KernelLaws ifs kernel) where
  module _ (n : Key) where
    -- The change of the members of an active bond that is configured.
    abbrev pub changed_members : List I → List I → Option (List Key) → Option (List Key)
    changed_members c a v =
        if first_differs ifs kernel c a
        then append_all ifs kernel (missing ifs kernel [] c)
            (drop_all ifs kernel (kept ifs kernel c a) v)
        else append_all ifs kernel (missing ifs kernel a c) v

    abbrev pub updated_members : List I → List I → Option (List Key) → Option (List Key)
    updated_members c a v = if equal_interfaces ifs kernel c a then v else changed_members c a v

    branch-Effect :
        (b : Bool) (f g : Option (List Key) → Option (List Key)) (p q r : Progress W)
        → Effect ifs kernel laws n f p q
        → Effect ifs kernel laws n g p r
        → Effect ifs kernel laws n (λ v. if b then f v else g v) p (if b then q else r)
    branch-Effect true f g p q r x y = x
    branch-Effect false f g p q r x y = y

    change_members-Effect :
        (a c : Bond I Key) (p : Progress W)
        → a.bond_if ≡ n
        → c.bond_if ≡ n
        → Effect ifs kernel laws n
            (changed_members c.interfaces a.interfaces)
            p
            (change_members ifs kernel a c p)
    unfolding change_members
    change_members-Effect a c p ea ec =
        branch-Effect (first_differs ifs kernel c.interfaces a.interfaces) _ _ p _ _
          (then-Effect ifs kernel laws n _
            (append_all ifs kernel (missing ifs kernel [] c.interfaces)) p _ _
            (subst
              (λ k.
                Effect ifs kernel laws n
                  (drop_all ifs kernel (kept ifs kernel c.interfaces a.interfaces)) p
                  (remove_present ifs kernel k c.interfaces a.interfaces p))
              (sym ea) (remove_present-Effect ifs kernel laws n c.interfaces a.interfaces p))
            (added [] _))
          (added a.interfaces p)
      where
        added :
            (l : List I) (q : Progress W)
            → Effect ifs kernel laws n
                (append_all ifs kernel (missing ifs kernel l c.interfaces))
                q
                (add_missing ifs kernel c.bond_if l c.interfaces q)
        added l q =
            subst
              (λ k.
                Effect ifs kernel laws n (append_all ifs kernel (missing ifs kernel l c.interfaces))
                  q (add_missing ifs kernel k l c.interfaces q))
              (sym ec) (add_missing-Effect ifs kernel laws n l c.interfaces q)

    -- The two tests of a change, with the step for each.
    tested-Leads :
        (f : Option (List Key) → Option (List Key)) (same_mode same_list : Bool) (p : Progress W)
        (set_mode set_members : Progress W → Progress W)
        → ((q : Progress W) → Effect ifs kernel laws n (λ v. v) q (set_mode q))
        → ((q : Progress W) → Effect ifs kernel laws n f q (set_members q))
        → Leads ifs kernel laws n
            (λ v. if same_list then v else f v)
            p
            (if not (not same_mode) && not (not same_list)
              then next p
              else with_socket kernel p >>= λ q.
                  let r = if not same_mode then set_mode q else q in
                  next (if not same_list then set_members r else r))
    unfolding Leads
    tested-Leads f true true p sm sl m l = same-Effect ifs kernel laws n p
    tested-Leads f false true p sm sl m l = socket_then-Leads ifs kernel laws n _ p _ m
    tested-Leads f true false p sm sl m l = socket_then-Leads ifs kernel laws n _ p _ l
    tested-Leads f false false p sm sl m l =
        socket_then-Leads ifs kernel laws n _ p _
          (λ q. then-Effect ifs kernel laws n (λ v. v) f q _ _ (m q) (l _))

    pub change_bond-Leads :
        (a c : Bond I Key) (p : Progress W)
        → a.bond_if ≡ n
        → c.bond_if ≡ n
        → Leads ifs kernel laws n
            (updated_members c.interfaces a.interfaces)
            p
            (change_bond ifs kernel a c p)
    unfolding change_bond
    change_bond-Leads a c p ea ec =
        tested-Leads (changed_members c.interfaces a.interfaces) (equal_mode a.mode c.mode)
          (equal_interfaces ifs kernel c.interfaces a.interfaces) p
          (λ q. (bond_set_mode kernel a.bond_if c.mode q).1) (change_members ifs kernel a c)
          (λ q.
            subst (λ k. Effect ifs kernel laws n (λ v. v) q (bond_set_mode kernel k c.mode q).1)
              (sym ea) (set_mode-Effect ifs kernel laws n c.mode q))
          (λ q. change_members-Effect a c q ea ec)
