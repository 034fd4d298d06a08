-- ===== src/Bond/Update/Loops.antt =====
-- SystemConfiguration/BondConfiguration.c: what the loops over members do to their own bond.
use configd_extra.Base.{not, ◌||◌, List, [], ◌∷◌, Option, if◌then◌else◌, Bool-cases, inl, inr}
use configd_extra.Bond.State.{is_among, Interfaces, BondKernel}
use configd_extra.Bond.Update.{Progress, remove_stale, remove_present, add_missing}
use configd_extra.Bond.Update.Changes.{
  KernelLaws, on_members, with_last, without_name, Effect, Leads, same-Effect, then-Effect,
  then-Leads, socket_then-Leads, add-Effect, remove-Effect,
}

module _ {I Key W : Type 0} (ifs : Interfaces I Key) (kernel : BondKernel Key W) where
  -- The names taken out of the members one by one, and put behind them one by one.
  unfoldable pub drop_all : List Key → Option (List Key) → Option (List Key)
  drop_all [] v = v
  drop_all (k ∷ ks) v = drop_all ks (on_members (without_name ifs.name_equal k) v)

  unfoldable pub append_all : List Key → Option (List Key) → Option (List Key)
  append_all [] v = v
  append_all (k ∷ ks) v = append_all ks (on_members (with_last k) v)

  -- The names of the interfaces that are configured, of those that are not, and of the configured ones
  -- that are to be added.
  unfoldable pub kept : List I → List I → List Key
  kept c [] = []
  kept c (a ∷ l) = if is_among ifs c a then ifs.bsd_name a ∷ kept c l else kept c l

  unfoldable pub stale : List I → List I → List Key
  stale c [] = []
  stale c (a ∷ l) = if is_among ifs c a then stale c l else ifs.bsd_name a ∷ stale c l

  unfoldable pub missing : List I → List I → List Key
  missing a [] = []
  missing a (c ∷ l) =
      if is_among ifs a c || not (ifs.supports_bond c)
      then missing a l
      else ifs.bsd_name c ∷ missing a l

  module _ (laws : KernelLaws ifs kernel) (n : Key) where
    pub remove_stale-Leads :
        (c l : List I) (p : Progress W)
        → Leads ifs kernel laws n (drop_all (stale c l)) p (remove_stale ifs kernel n c l p)
    unfolding remove_stale stale drop_all Leads
    remove_stale-Leads c [] p = same-Effect ifs kernel laws n p
    remove_stale-Leads c (a ∷ l) p = elim (Bool-cases (is_among ifs c a)) [
      | inl there ↦ rw there (remove_stale-Leads c l p)
      | inr gone ↦ rw gone (
          socket_then-Leads ifs kernel laws n _ p _ (λ q.
            then-Leads ifs kernel laws n _ (drop_all (stale c l)) q _ _
              (remove-Effect ifs kernel laws n (ifs.bsd_name a) q) (remove_stale-Leads c l _)))
    ]

    pub remove_present-Effect :
        (c l : List I) (p : Progress W)
        → Effect ifs kernel laws n (drop_all (kept c l)) p (remove_present ifs kernel n c l p)
    unfolding remove_present kept drop_all
    remove_present-Effect c [] p = same-Effect ifs kernel laws n p
    remove_present-Effect c (a ∷ l) p = elim (Bool-cases (is_among ifs c a)) [
      | inl there ↦ rw there (
          then-Effect ifs kernel laws n _ (drop_all (kept c l)) p _ _
            (remove-Effect ifs kernel laws n (ifs.bsd_name a) p) (remove_present-Effect c l _))
      | inr gone ↦ rw gone (remove_present-Effect c l p)
    ]

    pub add_missing-Effect :
        (a l : List I) (p : Progress W)
        → Effect ifs kernel laws n (append_all (missing a l)) p (add_missing ifs kernel n a l p)
    unfolding add_missing missing append_all
    add_missing-Effect a [] p = same-Effect ifs kernel laws n p
    add_missing-Effect a (c ∷ l) p =
        elim (Bool-cases (is_among ifs a c || not (ifs.supports_bond c))) [
          | inl passed ↦ rw passed (add_missing-Effect a l p)
          | inr added ↦ rw added (
              then-Effect ifs kernel laws n _ (append_all (missing a l)) p _ _
                (add-Effect ifs kernel laws n (ifs.bsd_name c) p) (add_missing-Effect a l _))
        ]
