-- ===== src/Nwi/Generations/Correct.antt =====
-- The two loops of `_nwi_state_update_interface_generations`, after `nwi_state_diff`.
use configd_extra.Base.{
  ◌+◌, ◌≡◌, ◌≢◌, refl, sym, ◌∙◌, inl, inr, List, map, Option, some, length, length-map,
  length-splice, arith, segment, splice, segment-splice_self, segment-splice_other, each_slot,
  each_slot-splice, [],
}
use configd_extra.Nwi.Diff.{count_of, diff}
use configd_extra.Nwi.Diff.Append.{IsValid?}
use configd_extra.Nwi.Diff.Halves.{IsTyped?}
use configd_extra.Nwi.Diff.Outcome.{diff-outcome}
use configd_extra.Nwi.Diff.Steps.{IsTyped}
use configd_extra.Nwi.Entries.{entries, length-entries}
use configd_extra.Nwi.Generations.{update_v4, update_v6, update_both, update_interface_generations}
use configd_extra.Nwi.Generations.Update.{
  Reports, updated_v4, updated_v6, update_v4-lem, update_v6-lem, traverse-map, All-Named,
}
use configd_extra.Nwi.State.{
  Ifstate, State, IsValid, af_inet, af_inet6, list_start, get_ifstate_count,
}

-- The array after both loops.
abbrev pub written : Option State → State → List Ifstate
written old s =
    splice (splice s.ifstate_list 0 (map (updated_v4 old s) (entries s af_inet))) s.max_if_count
      (map (updated_v6 old s) (entries s af_inet6))

module _ (old : Option State) (s : State) (vs : IsValid s) where
  l4 : List Ifstate
  l4 = splice s.ifstate_list 0 (map (updated_v4 old s) (entries s af_inet))

  len4 : length (map (updated_v4 old s) (entries s af_inet)) ≡ s.ipv4_count
  unfolding get_ifstate_count
  len4 = length-map (entries s af_inet) (updated_v4 old s) ∙ length-entries s af_inet vs

  len6 : length (map (updated_v6 old s) (entries s af_inet6)) ≡ s.ipv6_count
  unfolding get_ifstate_count
  len6 = length-map (entries s af_inet6) (updated_v6 old s) ∙ length-entries s af_inet6 vs

  -- The first loop leaves the IPv6 half alone.
  v6_untouched : segment l4 s.max_if_count s.ipv6_count ≡ entries s af_inet6
  unfolding l4 list_start get_ifstate_count
  v6_untouched =
      segment-splice_other s.ifstate_list 0 s.max_if_count s.ipv6_count
        (map (updated_v4 old s) (entries s af_inet)) (inr (omega (arith, len4, vs.v4_fits)))

  v4_written : segment (written old s) 0 s.ipv4_count ≡ map (updated_v4 old s) (entries s af_inet)
  v4_written =
      segment-splice_other (splice s.ifstate_list 0 (map (updated_v4 old s) (entries s af_inet)))
        s.max_if_count 0 s.ipv4_count (map (updated_v6 old s) (entries s af_inet6))
        (inl (omega (arith, vs.v4_fits)))
      ∙ segment-splice_self s.ifstate_list 0 s.ipv4_count
          (map (updated_v4 old s) (entries s af_inet)) (sym len4)
          (omega (arith, vs.v4_fits, vs.slots))

  v6_written :
      segment (written old s) s.max_if_count s.ipv6_count
      ≡ map (updated_v6 old s) (entries s af_inet6)
  v6_written =
      segment-splice_self (splice s.ifstate_list 0 (map (updated_v4 old s) (entries s af_inet)))
        s.max_if_count s.ipv6_count (map (updated_v6 old s) (entries s af_inet6)) (sym len6)
        (omega (
          arith,
          vs.v6_fits,
          vs.slots,
          length-splice s.ifstate_list 0 (map (updated_v4 old s) (entries s af_inet)),
        ))

  module _ (d : State) (vo : IsValid? old) (vd : IsValid d) (reports : Reports old s d) where
    first_loop :
        each_slot (update_v4 old d s.generation_count) s.ipv4_count s.ifstate_list 0 ≡ some l4
    unfolding l4 list_start get_ifstate_count
    first_loop =
        each_slot-splice (update_v4 old d s.generation_count) s.ipv4_count s.ifstate_list 0
          (map (updated_v4 old s) (entries s af_inet)) (omega (arith, vs.v4_fits, vs.slots))
          (traverse-map (update_v4 old d s.generation_count) (updated_v4 old s) (entries s af_inet)
            (entries s af_inet) (update_v4-lem old s d vo vs vd reports)
            (All-Named [] (entries s af_inet) (entries s af_inet) refl))

    second_loop :
        each_slot (update_v6 old d s.generation_count) s.ipv6_count l4 s.max_if_count
        ≡ some (written old s)
    unfolding l4 list_start get_ifstate_count v6_untouched
    second_loop =
        each_slot-splice (update_v6 old d s.generation_count) s.ipv6_count l4 s.max_if_count
          (map (updated_v6 old s) (entries s af_inet6))
          (omega (
            arith,
            vs.v6_fits,
            vs.slots,
            length-splice s.ifstate_list 0 (map (updated_v4 old s) (entries s af_inet)),
          ))
          (rw v6_untouched (
            traverse-map (update_v6 old d s.generation_count) (updated_v6 old s)
              (entries s af_inet6) (entries s af_inet6) (update_v6-lem old s d vo vs vd reports)
              (All-Named [] (entries s af_inet6) (entries s af_inet6) refl)))

    update_both-lem : update_both old s d ≡ some (record s { ifstate_list = written old s })
    unfolding update_both list_start
    update_both-lem = rw (first_loop, second_loop)

-- The state, and the old one if there is one, are valid, their entries carry the family they stand
-- in, and one of the two has an entry. After a difference was computed against the old state (or
-- against none), updating the
-- generations fails no assertion and stays inside its arrays. Every IPv4 entry then has the
-- state's generation if its interface changed in either family, and otherwise the generation of
-- its old entry; so has every IPv6 entry, but for one that had the state's generation before,
-- which is left alone. Nothing else of the entries changes.
pub update_interface_generations-lem :
    (old : Option State) (s : State)
    → IsValid? old
    → IsValid s
    → IsTyped? old
    → IsTyped s
    → count_of old + count_of (some s) ≢ 0
    → (d : State) × (diff old (some s) ≡ some (some d))
      × (s' : State) × (update_interface_generations old (some s) (some d) ≡ some (some s'))
      × (entries s' af_inet ≡ map (updated_v4 old s) (entries s af_inet))
      × (entries s' af_inet6 ≡ map (updated_v6 old s) (entries s af_inet6))
unfolding update_interface_generations list_start get_ifstate_count
update_interface_generations-lem old s vo vs to ts ne =
    let (d, e, vd, reports) = diff-outcome old (some s) vo vs to ts ne in
    (
      d,
      e,
      record s { ifstate_list = written old s },
      rw (update_both-lem old s vs d vo vd reports),
      v4_written old s vs,
      v6_written old s vs,
    )
