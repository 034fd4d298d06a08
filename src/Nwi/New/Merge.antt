-- ===== src/Nwi/New/Merge.antt =====
-- The loop of `nwi_state_set_if_list`: it merges the entries of both families by rank, and with
-- fuel for every entry it ends.
use configd_extra.Base.{
  ℕ, zero, suc, ◌+◌, ◌≤◌, ◌<◌, ◌≡◌, refl, sym, ap, ap₂, subst, ◌∙◌, inl, inr, List, [], ◌∷◌, none,
  some, get_elem?, leb, if◌then◌else◌, Bool-cases, arith, segment, segment-suc, get_elem?_total,
  segment_zero,
}
use configd_extra.Nwi.Entries.{entries, get_ifstate_with_index-below, get_ifstate_with_index-above}
use configd_extra.Nwi.Lookup.{get_ifstate_with_index}
use configd_extra.Nwi.New.{take_v4, take_v6, next_round, fill_if_list, set_if_list}
use configd_extra.Nwi.New.IfList.{
  collect, collect_one, resolve, relisted, Lists, add_to_if_list-lem,
}
use configd_extra.Nwi.State.{
  Ifstate, State, IsValid, af_inet, af_inet6, list_start, get_ifstate_count,
}
use configd_extra.Nwi.New.Rounds.{
  merge, merge-nil, merge_first, merge_second, fill_stop, fill_v4, fill_v6, if_true, if_false,
  next_round-both, next_round-v4, next_round-v6, Fills,
}

module _ (s : State) (v : IsValid s) where
  relisted-IsValid :
      (l : List ℕ) (c : ℕ) (acc : List Ifstate) → Lists s l c acc → IsValid (relisted s l c)
  relisted-IsValid l c acc ls = record {
    slots = v.slots;
    indices = ls.room;
    v4_fits = v.v4_fits;
    v6_fits = v.v6_fits;
    listed_fits = ls.fits;
  }

  at_v4 :
      (l : List ℕ) (c : ℕ) (acc : List Ifstate) (v4 : ℕ)
      → Lists s l c acc
      → v4 < s.ipv4_count
      → get_ifstate_with_index (relisted s l c) af_inet v4 ≡ some v4
  unfolding get_ifstate_count list_start
  at_v4 l c acc v4 ls h =
      get_ifstate_with_index-below (relisted s l c) af_inet v4 v4 (relisted-IsValid l c acc ls)
        (inl refl) h (omega arith)

  at_v6 :
      (l : List ℕ) (c : ℕ) (acc : List Ifstate) (v6 : ℕ)
      → Lists s l c acc
      → v6 < s.ipv6_count
      → get_ifstate_with_index (relisted s l c) af_inet6 v6 ≡ some (s.max_if_count + v6)
  unfolding get_ifstate_count list_start
  at_v6 l c acc v6 ls h =
      get_ifstate_with_index-below (relisted s l c) af_inet6 v6 (s.max_if_count + v6)
        (relisted-IsValid l c acc ls) (inr refl) h refl

  past_v4 :
      (l : List ℕ) (c v4 : ℕ)
      → s.ipv4_count ≤ v4
      → get_ifstate_with_index (relisted s l c) af_inet v4 ≡ none
  unfolding get_ifstate_count
  past_v4 l c v4 h = get_ifstate_with_index-above (relisted s l c) af_inet v4 h

  past_v6 :
      (l : List ℕ) (c v6 : ℕ)
      → s.ipv6_count ≤ v6
      → get_ifstate_with_index (relisted s l c) af_inet6 v6 ≡ none
  unfolding get_ifstate_count
  past_v6 l c v6 h = get_ifstate_with_index-above (relisted s l c) af_inet6 v6 h

  -- A round that takes the IPv4 entry, and one that takes the IPv6 entry.
  round_v4 :
      (fuel v4 v6 : ℕ) (l : List ℕ) (c : ℕ) (acc order : List Ifstate) (x : Ifstate)
      → Lists s l c acc
      → get_elem? s.ifstate_list v4 ≡ some x
      → next_round
          (relisted s l c)
          (get_ifstate_with_index (relisted s l c) af_inet v4)
          (get_ifstate_with_index (relisted s l c) af_inet6 v6)
        ≡ some (take_v4 v4)
      → ((l' : List ℕ) (c' : ℕ)
          → Lists s l' c' (collect_one s.max_if_count acc x)
          → Fills s
              (collect_one s.max_if_count acc x)
              order
              (fill_if_list fuel (relisted s l' c') (v4 + 1) v6))
      → Fills s acc (x ∷ order) (fill_if_list (suc fuel) (relisted s l c) v4 v6)
  round_v4 fuel v4 v6 l c acc order x ls at next rest =
      let (l', c', added, ls') = add_to_if_list-lem s l c v4 acc x ls at in
      let (m, d, done, ls'') = rest l' c' ls' in
      (m, d, fill_v4 fuel (relisted s l c) (relisted s l' c') v4 v6 v4 added next ∙ done, ls'')

  round_v6 :
      (fuel v4 v6 slot : ℕ) (l : List ℕ) (c : ℕ) (acc order : List Ifstate) (y : Ifstate)
      → Lists s l c acc
      → get_elem? s.ifstate_list slot ≡ some y
      → next_round
          (relisted s l c)
          (get_ifstate_with_index (relisted s l c) af_inet v4)
          (get_ifstate_with_index (relisted s l c) af_inet6 v6)
        ≡ some (take_v6 slot)
      → ((l' : List ℕ) (c' : ℕ)
          → Lists s l' c' (collect_one s.max_if_count acc y)
          → Fills s
              (collect_one s.max_if_count acc y)
              order
              (fill_if_list fuel (relisted s l' c') v4 (v6 + 1)))
      → Fills s acc (y ∷ order) (fill_if_list (suc fuel) (relisted s l c) v4 v6)
  round_v6 fuel v4 v6 slot l c acc order y ls at next rest =
      let (l', c', added, ls') = add_to_if_list-lem s l c slot acc y ls at in
      let (m, d, done, ls'') = rest l' c' ls' in
      (m, d, fill_v6 fuel (relisted s l c) (relisted s l' c') v4 v6 slot added next ∙ done, ls'')

  next_both :
      (l : List ℕ) (c : ℕ) (acc : List Ifstate) (v4 v6 w6 : ℕ) (x y : Ifstate)
      → Lists s l c acc
      → v4 < s.ipv4_count
      → v6 < s.ipv6_count
      → w6 ≡ s.max_if_count + v6
      → get_elem? s.ifstate_list v4 ≡ some x
      → get_elem? s.ifstate_list w6 ≡ some y
      → next_round
          (relisted s l c)
          (get_ifstate_with_index (relisted s l c) af_inet v4)
          (get_ifstate_with_index (relisted s l c) af_inet6 v6)
        ≡ some (if leb x.rank y.rank then take_v4 v4 else take_v6 w6)
  next_both l c acc v4 v6 w6 x y ls h4 h6 ew at4 at6 =
      ap₂ (next_round (relisted s l c)) (at_v4 l c acc v4 ls h4)
        (at_v6 l c acc v6 ls h6 ∙ ap some (sym ew))
      ∙ next_round-both (relisted s l c) v4 w6 x y at4 at6

  -- The entries still to come stand from position `v4` and from position `v6` on.
  fill_if_list-Fills :
      (fuel r4 r6 v4 v6 w6 : ℕ) (l : List ℕ) (c : ℕ) (acc : List Ifstate)
      → Lists s l c acc
      → v4 + r4 ≡ s.ipv4_count
      → v6 + r6 ≡ s.ipv6_count
      → w6 ≡ s.max_if_count + v6
      → r4 + r6 < fuel
      → Fills s acc
          (merge (segment s.ifstate_list v4 r4) (segment s.ifstate_list w6 r6))
          (fill_if_list fuel (relisted s l c) v4 v6)
  fill_if_list-Fills zero r4 r6 v4 v6 w6 l c acc ls e4 e6 ew h = absurd (omega arith)
  fill_if_list-Fills (suc fuel) zero zero v4 v6 w6 l c acc ls e4 e6 ew h =
      rw (segment_zero s.ifstate_list v4, segment_zero s.ifstate_list w6)
        (
          l,
          c,
          fill_stop fuel (relisted s l c) v4 v6 (past_v4 l c v4 (omega arith))
              (past_v6 l c v6 (omega arith)),
          ls,
        )
  fill_if_list-Fills (suc fuel) (suc r4) zero v4 v6 w6 l c acc ls e4 e6 ew h =
      let (x, at) = get_elem?_total s.ifstate_list v4 (omega (arith, v.slots, v.v4_fits)) in
      rw
        (
          segment-suc s.ifstate_list v4 (v4 + 1) r4 x (omega arith) at,
          segment_zero s.ifstate_list w6,
        )
        (round_v4 fuel v4 v6 l c acc (segment s.ifstate_list (v4 + 1) r4) x ls at
          (rw (at_v4 l c acc v4 ls (omega arith), past_v6 l c v6 (omega arith))
            (next_round-v4 s l c v4))
          (λ l' c' ls'.
            subst
              (λ order.
                Fills s (collect_one s.max_if_count acc x) order
                  (fill_if_list fuel (relisted s l' c') (v4 + 1) v6))
              (ap (merge (segment s.ifstate_list (v4 + 1) r4)) (segment_zero s.ifstate_list w6)
                ∙ merge-nil (segment s.ifstate_list (v4 + 1) r4))
              (fill_if_list-Fills fuel r4 zero (v4 + 1) v6 w6 l' c'
                (collect_one s.max_if_count acc x) ls' (omega arith) (omega arith) ew
                (omega arith))))
  fill_if_list-Fills (suc fuel) zero (suc r6) v4 v6 w6 l c acc ls e4 e6 ew h =
      let (y, at) = get_elem?_total s.ifstate_list w6 (omega (arith, v.slots, v.v6_fits)) in
      rw
        (
          segment-suc s.ifstate_list w6 (w6 + 1) r6 y (omega arith) at,
          segment_zero s.ifstate_list v4,
        )
        (round_v6 fuel v4 v6 w6 l c acc (segment s.ifstate_list (w6 + 1) r6) y ls at
          (rw (past_v4 l c v4 (omega arith), at_v6 l c acc v6 ls (omega arith), ← ew)
            (next_round-v6 s l c w6))
          (λ l' c' ls'.
            subst
              (λ xs.
                Fills s (collect_one s.max_if_count acc y)
                  (merge xs (segment s.ifstate_list (w6 + 1) r6))
                  (fill_if_list fuel (relisted s l' c') v4 (v6 + 1)))
              (segment_zero s.ifstate_list v4)
              (fill_if_list-Fills fuel zero r6 v4 (v6 + 1) (w6 + 1) l' c'
                (collect_one s.max_if_count acc y) ls' (omega arith) (omega arith) (omega arith)
                (omega arith))))
  fill_if_list-Fills (suc fuel) (suc r4) (suc r6) v4 v6 w6 l c acc ls e4 e6 ew h =
      let (x, at4) = get_elem?_total s.ifstate_list v4 (omega (arith, v.slots, v.v4_fits)) in
      let (y, at6) = get_elem?_total s.ifstate_list w6 (omega (arith, v.slots, v.v6_fits)) in
      elim (Bool-cases (leb x.rank y.rank)) [
        | inl first ↦
            subst (λ order. Fills s acc order (fill_if_list (suc fuel) (relisted s l c) v4 v6))
              (sym (
                merge_first (segment s.ifstate_list v4 (suc r4))
                  (segment s.ifstate_list w6 (suc r6)) (segment s.ifstate_list (v4 + 1) r4)
                  (segment s.ifstate_list (w6 + 1) r6) x y
                  (segment-suc s.ifstate_list v4 (v4 + 1) r4 x (omega arith) at4)
                  (segment-suc s.ifstate_list w6 (w6 + 1) r6 y (omega arith) at6) first))
              (round_v4 fuel v4 v6 l c acc
                (merge (segment s.ifstate_list (v4 + 1) r4) (segment s.ifstate_list w6 (suc r6))) x
                ls at4
                (next_both l c acc v4 v6 w6 x y ls (omega arith) (omega arith) ew at4 at6
                  ∙ ap some (if_true (take_v4 v4) (take_v6 w6) first))
                (λ l' c' ls'.
                  fill_if_list-Fills fuel r4 (suc r6) (v4 + 1) v6 w6 l' c'
                    (collect_one s.max_if_count acc x) ls' (omega arith) e6 ew (omega arith)))
        | inr second ↦
            subst (λ order. Fills s acc order (fill_if_list (suc fuel) (relisted s l c) v4 v6))
              (sym (
                merge_second (segment s.ifstate_list v4 (suc r4))
                  (segment s.ifstate_list w6 (suc r6)) (segment s.ifstate_list (v4 + 1) r4)
                  (segment s.ifstate_list (w6 + 1) r6) x y
                  (segment-suc s.ifstate_list v4 (v4 + 1) r4 x (omega arith) at4)
                  (segment-suc s.ifstate_list w6 (w6 + 1) r6 y (omega arith) at6) second))
              (round_v6 fuel v4 v6 w6 l c acc
                (merge (segment s.ifstate_list v4 (suc r4)) (segment s.ifstate_list (w6 + 1) r6)) y
                ls at6
                (next_both l c acc v4 v6 w6 x y ls (omega arith) (omega arith) ew at4 at6
                  ∙ ap some (if_false (take_v4 v4) (take_v6 w6) second))
                (λ l' c' ls'.
                  fill_if_list-Fills fuel (suc r4) r6 v4 (v6 + 1) (w6 + 1) l' c'
                    (collect_one s.max_if_count acc y) ls' e4 (omega arith) (omega arith)
                    (omega arith)))
      ]

-- On a valid state the interface list is computed with no access outside an array and with fuel
-- to spare. It then stands for the entries of both families merged by rank (IPv4 first at equal
-- ranks), less those that are excluded from the list and those whose name is in the list already,
-- as far as `max_if_count` entries. Nothing else of the state changes, and it stays valid.
pub set_if_list-merge :
    (s : State)
    → IsValid s
    → (l : List ℕ) × (c : ℕ) × (set_if_list s ≡ some (relisted s l c))
      × IsValid (relisted s l c)
      × (resolve s.ifstate_list (segment l 0 c)
          ≡ some (collect s.max_if_count [] (merge (entries s af_inet) (entries s af_inet6))))
unfolding set_if_list list_start get_ifstate_count
set_if_list-merge s v =
    let start : Lists s s.if_list 0 [] = record {
      room = v.indices;
      count = refl;
      fits = omega arith;
      stands_for = refl;
    } in
    let (l, c, done, ls) =
      fill_if_list-Fills s v (s.ipv4_count + s.ipv6_count + 1) s.ipv4_count s.ipv6_count 0 0
        s.max_if_count s.if_list 0 [] start (omega arith) (omega arith) (omega arith)
        (omega arith) in
    (l, c, done, relisted-IsValid s v l c _ ls, ls.stands_for)
