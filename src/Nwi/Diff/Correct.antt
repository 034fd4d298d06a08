-- ===== src/Nwi/Diff/Correct.antt =====
-- `nwi_state_diff` on the entries of its two states.
use configd_extra.Base.{
  ℕ, ◌+◌, ◌≤◌, ◌≡◌, ◌≢◌, refl, sym, ap, ◌∙◌, inl, inr, List, [], ◌++◌, map, Option, none, some,
  length, length-map, arith,
}
use configd_extra.Nwi.Diff.{
  diff_add_change, diff_remove, diff_populate, max_af_count, count_of, populate_new, diff,
}
use configd_extra.Nwi.Diff.Append.{IsValid?, marked}
use configd_extra.Nwi.Diff.Halves.{each_half-Loops, entries_in, IsTyped?}
use configd_extra.Nwi.Diff.Populate.{appended}
use configd_extra.Nwi.Diff.Steps.{
  change_of, removal_of, appended-map, change-Appends, removal-Appends,
}
use configd_extra.Nwi.Entries.{IsFamily, entries, length-entries}
use configd_extra.Nwi.New.{new, fresh}
use configd_extra.Nwi.New.Fresh.{fresh-IsValid, count-fresh, entries-fresh, max-fresh}
use configd_extra.Nwi.State.{Ifstate, State, IsValid, af_inet, af_inet6, get_ifstate_count}

-- The entries of a family in the difference: those of the new state, marked, and then those of
-- the old state whose name is missing.
abbrev pub expected : Option State → Option State → ℕ → List Ifstate
expected old new_state af =
    map (marked old af) (entries_in new_state af)
    ++ appended removal_of (map (marked old af) (entries_in new_state af)) (entries_in old af)

length-entries_in :
    (s : Option State)
    → IsValid? s
    → (length (entries_in s af_inet) ≤ count_of s) × (length (entries_in s af_inet6) ≤ count_of s)
unfolding count_of max_af_count get_ifstate_count
length-entries_in none v = omega arith
length-entries_in (some s) v =
    ground (arith, length-entries s af_inet v, length-entries s af_inet6 v)

module _ (old new_state : Option State) (vo : IsValid? old) (vn : IsValid? new_state)
    (to : IsTyped? old) (tn : IsTyped? new_state) where
  -- After the first loop the difference has the marked entries of the new state.
  changed_entries :
      (af : ℕ) (d d1 : State)
      → entries d af ≡ []
      → entries d1 af
        ≡ entries d af ++ appended (change_of old af) (entries d af) (entries_in new_state af)
      → entries d1 af ≡ map (marked old af) (entries_in new_state af)
  changed_entries af d d1 none_yet e =
      e
      ∙ ap (λ acc. acc ++ appended (change_of old af) acc (entries_in new_state af)) none_yet
      ∙ appended-map old af (entries_in new_state af) []

  room_left :
      (af : ℕ) (d1 : State)
      → IsFamily af
      → IsValid d1
      → entries d1 af ≡ map (marked old af) (entries_in new_state af)
      → get_ifstate_count d1 af ≡ length (entries_in new_state af)
  room_left af d1 f v e =
      sym (length-entries d1 af v)
      ∙ ap length e
      ∙ length-map (entries_in new_state af) (marked old af)

  populate_new-lem :
      (n : ℕ)
      → count_of old + count_of new_state ≡ n
      → (d : State) × (populate_new (some (fresh n)) old new_state ≡ some (some d))
        × IsValid d
        × (entries d af_inet ≡ expected old new_state af_inet)
        × (entries d af_inet6 ≡ expected old new_state af_inet6)
  unfolding populate_new diff_populate
  populate_new-lem n e =
      let lo = length-entries_in old vo in
      let ln = length-entries_in new_state vn in
      let (d1, e1, l1) =
        each_half-Loops (change_of old af_inet) (change_of old af_inet6) (diff_add_change old)
          (change-Appends old af_inet vo (inl refl)) (change-Appends old af_inet6 vo (inr refl))
          new_state (fresh n) vn tn (fresh-IsValid n)
          (omega (arith, count-fresh n af_inet, max-fresh n))
          (omega (arith, count-fresh n af_inet6, max-fresh n)) in
      let c4 = changed_entries af_inet (fresh n) d1 (entries-fresh n af_inet) l1.v4 in
      let c6 = changed_entries af_inet6 (fresh n) d1 (entries-fresh n af_inet6) l1.v6 in
      let (d2, e2, l2) =
        each_half-Loops removal_of removal_of diff_remove (removal-Appends af_inet (inl refl))
          (removal-Appends af_inet6 (inr refl)) old d1 vo to l1.valid
          (omega (arith, room_left af_inet d1 (inl refl) l1.valid c4, l1.max, max-fresh n))
          (omega (arith, room_left af_inet6 d1 (inr refl) l1.valid c6, l1.max, max-fresh n)) in
      (
        d2,
        rw (e1, e2),
        l2.valid,
        l2.v4 ∙ ap (λ acc. acc ++ appended removal_of acc (entries_in old af_inet)) c4,
        l2.v6 ∙ ap (λ acc. acc ++ appended removal_of acc (entries_in old af_inet6)) c6,
      )

  -- With any entry to compare, the difference is computed inside its array.
  pub diff-expected :
      count_of old + count_of new_state ≢ 0
      → (d : State) × (diff old new_state ≡ some (some d))
        × IsValid d
        × (entries d af_inet ≡ expected old new_state af_inet)
        × (entries d af_inet6 ≡ expected old new_state af_inet6)
  unfolding diff new
  diff-expected ne =
      let (d, e, valid, v4, v6) = populate_new-lem (count_of old + count_of new_state) refl in
      (d, ground (arith, e), valid, v4, v6)
