-- ===== src/Nwi/Diff/Append.antt =====
-- One entry of `nwi_state_diff`: what an addition, a change or a removal appends.
use configd_extra.Base.{
  ℕ, ◌<◌, ◌≡◌, refl, sym, ap, subst, ◌∙◌, inl, inr, Option, none, some, Bytes, length, get_elem?,
  length-set, get_elem?-set_self, arith,
}
use configd_extra.Nwi.Add.{last_slot, write_slot}
use configd_extra.Nwi.Add.Slots.{set-set, put, write_slot-some, last_slot-lt, pushed, list-pushed}
use configd_extra.Nwi.Diff.{
  compare_entries, change_code, diff_append, diff_add_change, append_removed,
}
use configd_extra.Nwi.Entries.{IsFamily, entries, named}
use configd_extra.Nwi.Entries.Found.{get_ifstate_with_name-cases}
use configd_extra.Nwi.Flags.{ifstate_set_diff, diff_added, diff_removed}
use configd_extra.Nwi.Lookup.{get_ifstate_with_name}
use configd_extra.Nwi.State.{Ifstate, State, IsValid, get_ifstate_count, set_count}

-- The entry of a name in a state that may be NULL.
abbrev pub named_in : Option State → ℕ → Bytes → Option Ifstate
named_in none af name = none
named_in (some s) af name = named name (entries s af)

abbrev pub IsValid? : Option State → Type 0
IsValid? none = Unit {0}
IsValid? (some s) = IsValid s

-- The code of an entry against the entry of its name before.
abbrev pub code_of : Option Ifstate → Ifstate → ℕ
code_of none i = diff_added
code_of (some existing) i = compare_entries existing i

abbrev pub marked : Option State → ℕ → Ifstate → Ifstate
marked old af i = ifstate_set_diff i (code_of (named_in old af i.ifname) i)

change_code-lem :
    (old : Option State) (af : ℕ) (name : Bytes) (i : Ifstate)
    → IsValid? old
    → IsFamily af
    → change_code old (get_ifstate_with_name old af name) i
      ≡ some (code_of (named_in old af name) i)
unfolding change_code
change_code-lem none af name i v f = unfold get_ifstate_with_name in refl
change_code-lem (some old) af name i v f = elim (get_ifstate_with_name-cases old af name v f) [
  | inl (missing, none_named) ↦ rw (missing, none_named)
  | inr (slot, e, found, is_named, at, _, _, _) ↦ rw (found, is_named, change_code) (rw at)
]

af-pushed_twice :
    (s : State) (af : ℕ) (i j : Ifstate) → put (pushed s af i) (last_slot s af) j ≡ pushed s af j
unfolding set_count
af-pushed_twice s af i j = ground (arith, set-set s.ifstate_list (last_slot s af) i j)

module _ (d : State) (i : Ifstate) (v : IsValid d)
    (room : get_ifstate_count d i.af < d.max_if_count) where
  diff_append-pushed : diff_append d i ≡ some (pushed d i.af i)
  unfolding diff_append
  diff_append-pushed =
      rw (write_slot-some d (last_slot d i.af) i (last_slot-lt d i.af v room))
        (ap some (unfold get_ifstate_count set_count in refl))

  read_back : get_elem? (pushed d i.af i).ifstate_list (last_slot d i.af) ≡ some i
  read_back =
      rw (list-pushed d i.af i v)
        (get_elem?-set_self d.ifstate_list (last_slot d i.af) i (last_slot-lt d i.af v room))

  write_back :
      (j : Ifstate) → write_slot (pushed d i.af i) (last_slot d i.af) j ≡ some (pushed d i.af j)
  write_back j =
      write_slot-some (pushed d i.af i) (last_slot d i.af) j (
        omega (
          arith,
          ap length (list-pushed d i.af i v),
          length-set d.ifstate_list (last_slot d i.af) i,
          last_slot-lt d i.af v room,
        ))
      ∙ ap some (af-pushed_twice d i.af i j)

  diff_add_change-pushed :
      (old : Option State)
      → IsValid? old
      → IsFamily i.af
      → diff_add_change old d i ≡ some (pushed d i.af (marked old i.af i))
  unfolding diff_add_change
  diff_add_change-pushed old w f =
      rw (diff_append-pushed, read_back, change_code-lem old i.af i.ifname i w f)
        (write_back (marked old i.af i))

  append_removed-pushed :
      append_removed d i ≡ some (pushed d i.af (ifstate_set_diff i diff_removed))
  unfolding append_removed
  append_removed-pushed =
      rw (diff_append-pushed, read_back) (write_back (ifstate_set_diff i diff_removed))

module _ (d : State) (af : ℕ) (i : Ifstate) (v : IsValid d) (f : IsFamily af)
    (room : get_ifstate_count d af < d.max_if_count) (typed : i.af ≡ af) where
  room' : get_ifstate_count d i.af < d.max_if_count
  room' = subst (λ a. get_ifstate_count d a < d.max_if_count) (sym typed) room

  -- An entry of the new state is appended with its code.
  pub diff_add_change-lem :
      (old : Option State)
      → IsValid? old
      → diff_add_change old d i ≡ some (pushed d af (marked old af i))
  diff_add_change-lem old w =
      subst (λ a. diff_add_change old d i ≡ some (pushed d a (marked old a i))) typed
        (diff_add_change-pushed d i v room' old w (subst IsFamily (sym typed) f))

  -- An entry of the old state is appended as removed.
  pub append_removed-lem : append_removed d i ≡ some (pushed d af (ifstate_set_diff i diff_removed))
  append_removed-lem =
      subst (λ a. append_removed d i ≡ some (pushed d a (ifstate_set_diff i diff_removed))) typed
        (append_removed-pushed d i v room')
