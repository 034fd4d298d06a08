-- ===== src/Nwi/Add/Outcome.antt =====
-- What `nwi_state_add_ifstate` does to a state, in each of its four cases.
use configd_extra.Base.{
  ℕ, ◌-◌, ◌≤◌, ◌<◌, ◌≡◌, refl, ◌∙◌, ◌⊎◌, inl, inr, [], ◌∷◌, ◌++◌, Option, none, some, Bytes,
  get_elem?, arith, ltb, take, Bool-cases, ◌==◌, bind_some, elim_some, elim_none,
}
use configd_extra.Nwi.Add.{Args, last_slot, new_entry, update_existing, add_new, add_ifstate}
use configd_extra.Nwi.Add.Keeps.{Keeps-IsValid, get_elem?-lt, update_slot-Keeps}
use configd_extra.Nwi.Add.Names.{names, Keeps-names, append-outcome}
use configd_extra.Nwi.Entries.{IsFamily, entries, named, count_fits}
use configd_extra.Nwi.Entries.Found.{get_ifstate_with_name-cases}
use configd_extra.Nwi.State.{Ifstate, State, IsValid, ifnamsiz, other_af, get_ifstate_count}

-- The state and the pointer that a call leaves: an entry that ranks higher is kept, one that does
-- not is updated, a full family refuses a new name, and else the name is appended.
unfoldable pub Added : State → Bytes → ℕ → Args → State → Option ℕ → Type 0
Added s name af a s' r =
    ((i : Ifstate) × (named name (entries s af) ≡ some i)
      × (i.rank < a.rank)
      × (s' ≡ s)
      × (r ≡ none))
    ⊎ ((i : Ifstate) × (slot : ℕ) × (named name (entries s af) ≡ some i)
        × (a.rank ≤ i.rank)
        × (names s' af ≡ names s af)
        × (r ≡ some slot))
    ⊎ ((named name (entries s af) ≡ none)
        × (get_ifstate_count s af ≡ s.max_if_count)
        × (s' ≡ s)
        × (r ≡ none))
    ⊎ ((named name (entries s af) ≡ none)
        × (get_ifstate_count s af < s.max_if_count)
        × (names s' af ≡ names s af ++ (take (ifnamsiz - 1) name ∷ []))
        × (r ≡ some (last_slot s af)))

abbrev Result : State → Bytes → ℕ → Args → Option (State × Option ℕ) → Type 0
Result s name af a o =
    (s' : State) × (r : Option ℕ) × (o ≡ some (s', r))
    × IsValid s'
    × (s'.max_if_count ≡ s.max_if_count)
    × (names s' (other_af af) ≡ names s (other_af af))
    × Added s name af a s' r

module _ (s : State) (name : Bytes) (af : ℕ) (a : Args) (v : IsValid s) (f : IsFamily af) where
  update_existing-Result :
      (slot : ℕ) (i : Ifstate)
      → get_elem? s.ifstate_list slot ≡ some i
      → named name (entries s af) ≡ some i
      → Result s name af a (update_existing s af a slot)
  unfolding update_existing Added
  update_existing-Result slot i at found = elim (Bool-cases (ltb i.rank a.rank)) [
    | inl worse ↦ (
      s,
      none,
      bind_some _ _ i at ∙ rw worse refl,
      v,
      refl,
      refl,
      inl (i, found, ground arith, refl, refl),
    )
    | inr better ↦
        let (s', e, k) = update_slot-Keeps s af a slot (get_elem?-lt s.ifstate_list slot i at) in
        (
          s',
          some slot,
          bind_some _ _ i at ∙ rw better e,
          Keeps-IsValid s s' k v,
          k.max,
          Keeps-names s s' k (other_af af),
          inr (inl (i, slot, found, ground arith, Keeps-names s s' k af, refl)),
        )
  ]

  add_new-Result : named name (entries s af) ≡ none → Result s name af a (add_new s name af a)
  unfolding add_new Added new_entry
  add_new-Result absent = elim (Bool-cases (get_ifstate_count s af == s.max_if_count)) [
    | inl full ↦
        (s, none, rw full refl, v, refl, refl, inr (inr (inl (absent, ground arith, refl, refl))))
    | inr free ↦
        let room : get_ifstate_count s af < s.max_if_count = ground (arith, count_fits s af v) in
        let (s', e, v', max, own, other) = append-outcome s name af v f room a in
        (
          s',
          some (last_slot s af),
          rw free e,
          v',
          max,
          other,
          inr (inr (inr (absent, room, own, refl))),
        )
  ]

-- A call on a valid state, for one of the two families and any name, flags, rank and addresses,
-- accesses nothing outside the array and leaves a valid state of the same size; the names in the
-- other family stay as they were. In its own family: an entry of that name whose rank is smaller than
-- the one given stays as it is, with the whole state, and NULL is returned; for one whose rank is
-- not smaller all names stay at their positions and a pointer is returned; if there is no entry of that name, a
-- full family leaves the state as it is and returns NULL, and otherwise the name, cut to 15 bytes,
-- comes behind the others and the pointer to its entry is returned.
pub add_ifstate-Added :
    (s : State) (name : Bytes) (af : ℕ) (a : Args)
    → IsValid s
    → IsFamily af
    → (s' : State) × (r : Option ℕ) × (add_ifstate s name af a ≡ some (s', r))
      × IsValid s'
      × (s'.max_if_count ≡ s.max_if_count)
      × (names s' (other_af af) ≡ names s (other_af af))
      × Added s name af a s' r
unfolding add_ifstate
add_ifstate-Added s name af a v f = elim (get_ifstate_with_name-cases s af name v f) [
  | inl (e, absent) ↦
      let (s', r, made, v', max, other, added) = add_new-Result s name af a v f absent in
      (s', r, elim_none _ (update_existing s af a) _ e ∙ made, v', max, other, added)
  | inr (slot, i, e, found, at, _, _, _) ↦
      let (s', r, made, v', max, other, added) =
        update_existing-Result s name af a v f slot i at found in
      (s', r, elim_some _ (update_existing s af a) _ slot e ∙ made, v', max, other, added)
]
