-- ===== src/Nwi/Diff/Steps.antt =====
-- The two steps of `nwi_state_diff_populate` as loop bodies, and both halves of each loop.
use configd_extra.Base.{
  ℕ, ◌≡◌, refl, sym, ap, subst, ◌∙◌, inl, inr, List, [], ◌∷◌, ◌++◌, map, Option, none, some, arith,
  All,
}
use configd_extra.Nwi.Add.Slots.{pushed}
use configd_extra.Nwi.Diff.{diff_add_change, append_removed, diff_remove}
use configd_extra.Nwi.Diff.Append.{IsValid?, marked, diff_add_change-lem, append_removed-lem}
use configd_extra.Nwi.Diff.Populate.{Extends-nil, Extends-pushed, HasFamily, Appends, appended}
use configd_extra.Nwi.Entries.{IsFamily, entries, named}
use configd_extra.Nwi.Entries.Found.{get_ifstate_with_name-cases}
use configd_extra.Nwi.Flags.{ifstate_set_diff, diff_removed}
use configd_extra.Nwi.Lookup.{get_ifstate_with_name}
use configd_extra.Nwi.State.{Ifstate, State, af_inet, af_inet6}

-- An addition or a change appends the marked entry.
abbrev pub change_of : Option State → ℕ → List Ifstate → Ifstate → List Ifstate
change_of old af acc i = marked old af i ∷ []

-- A removal appends the entry, unless the difference has its name already.
abbrev pub removed_if : Option Ifstate → Ifstate → List Ifstate
removed_if (some _) i = []
removed_if none i = ifstate_set_diff i diff_removed ∷ []

abbrev pub removal_of : List Ifstate → Ifstate → List Ifstate
removal_of acc i = removed_if (named i.ifname acc) i

pub appended-map :
    (old : Option State) (af : ℕ) (xs acc : List Ifstate)
    → appended (change_of old af) acc xs ≡ map (marked old af) xs
appended-map old af [] acc = refl
appended-map old af (x ∷ xs) acc =
    ap (◌∷◌ (marked old af x)) (appended-map old af xs (acc ++ marked old af x ∷ []))

pub change-Appends :
    (old : Option State) (af : ℕ)
    → IsValid? old
    → IsFamily af
    → Appends af (diff_add_change old) (change_of old af)
change-Appends old af w f d i v room typed = (
  pushed d af (marked old af i),
  diff_add_change-lem d af i v f room typed old w,
  Extends-pushed d af (marked old af i) v f room,
  omega arith,
)

diff_remove-found :
    (d : State) (i : Ifstate) (slot : ℕ)
    → get_ifstate_with_name (some d) i.af i.ifname ≡ some slot
    → diff_remove d i ≡ some d
unfolding diff_remove
diff_remove-found d i slot e = rw (e, diff_remove)

diff_remove-missing :
    (d : State) (i : Ifstate)
    → get_ifstate_with_name (some d) i.af i.ifname ≡ none
    → diff_remove d i ≡ append_removed d i
unfolding diff_remove
diff_remove-missing d i e = rw (e, diff_remove)

pub removal-Appends : (af : ℕ) → IsFamily af → Appends af diff_remove removal_of
removal-Appends af f d i v room typed = elim (get_ifstate_with_name-cases d af i.ifname v f) [
  | inl (missing, unnamed) ↦ (
    pushed d af (ifstate_set_diff i diff_removed),
    diff_remove-missing d i (at_family missing) ∙ append_removed-lem d af i v f room typed,
    rw unnamed (Extends-pushed d af (ifstate_set_diff i diff_removed) v f room),
    rw unnamed (omega arith),
  )
  | inr (slot, j, found, is_named, _, _, _, _) ↦ (
    d,
    diff_remove-found d i slot (at_family found),
    rw is_named (Extends-nil af d v),
    rw is_named (omega arith),
  )
]
  where
    at_family :
        {o : Option ℕ}
        → get_ifstate_with_name (some d) af i.ifname ≡ o
        → get_ifstate_with_name (some d) i.af i.ifname ≡ o
    at_family {o} h = subst (λ a. get_ifstate_with_name (some d) a i.ifname ≡ o) (sym typed) h

-- The entries of each family carry that family.
pub record IsTyped (s : State) : Type 0 where
  pub typed_v4 : All (HasFamily af_inet) (entries s af_inet)
  pub typed_v6 : All (HasFamily af_inet6) (entries s af_inet6)
