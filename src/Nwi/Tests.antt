-- ===== src/Nwi/Tests.antt =====
-- Runs of the network state functions, and the theorems at concrete states.
use configd_extra.Base.{
  ℕ, ◌+◌, ◌≤◌, ◌<◌, ◌≡◌, ◌≢◌, ◌⊎◌, refl, inl, Option, List, [], ◌∷◌, map, none, some, Bytes, codes,
  get_elem?, segment, arith,
}
use configd_extra.Nwi.Add.{Args, add_ifstate}
use configd_extra.Nwi.Add.Names.{names}
use configd_extra.Nwi.Add.Outcome.{Added, add_ifstate-Added}
use configd_extra.Nwi.Diff.{diff, count_of, max_af_count}
use configd_extra.Nwi.Diff.Outcome.{outcome, diff-outcome, set_diff_flags-fields}
use configd_extra.Nwi.Diff.Steps.{IsTyped}
use configd_extra.Nwi.Entries.{IsFamily, entries, named, deref}
use configd_extra.Nwi.Entries.Found.{get_ifstate_with_name-cases}
use configd_extra.Nwi.Flags.{field, public_flags, not_in_iflist, flags_get_diff, set_diff_flags}
use configd_extra.Nwi.Generations.{update_interface_generations}
use configd_extra.Nwi.Generations.Correct.{update_interface_generations-lem}
use configd_extra.Nwi.Generations.Update.{updated_v4, updated_v6}
use configd_extra.Nwi.Lookup.{get_ifstate_with_name}
use configd_extra.Nwi.New.{zero_ifstate, set_if_list}
use configd_extra.Nwi.New.{new}
use configd_extra.Nwi.New.Alias.{ifname_of, LeadsTo, new-LeadsTo}
use configd_extra.Nwi.New.IfList.{collect, resolve, relisted}
use configd_extra.Nwi.New.Merge.{set_if_list-merge}
use configd_extra.Nwi.New.Rounds.{merge}
use configd_extra.Nwi.State.{
  other_af, Ifstate, State, IsValid, af_inet, af_inet6, state_version, list_start,
  get_ifstate_count,
}

abbrev entry : Bytes → ℕ → ℕ → Ifstate
entry name af rank = record zero_ifstate { ifname = name; af = af; rank = rank }

abbrev en0 : Bytes
en0 = codes "en0"

abbrev en1 : Bytes
en1 = codes "en1"

abbrev state_of : ℕ → ℕ → ℕ → List Ifstate → State
state_of max v4 v6 l = record {
  version = state_version;
  max_if_count = max;
  ipv4_count = v4;
  ipv6_count = v6;
  if_list_count = 0;
  ref = 0;
  reach_flags_v4 = 0;
  reach_flags_v6 = 0;
  generation_count = 7;
  ifstate_list = l;
  if_list = 0 ∷ 0 ∷ [];
}

-- en0 in both families
abbrev before : State
before =
    state_of 2 1 1 (entry en0 af_inet 10 ∷ zero_ifstate ∷ entry en0 af_inet6 10 ∷ zero_ifstate ∷ [])

-- en1 ranks first now, and en0 has no IPv6 entry
abbrev after : State
after =
    state_of 2 2 0 (entry en1 af_inet 5 ∷ entry en0 af_inet 10 ∷ zero_ifstate ∷ zero_ifstate ∷ [])

before-IsValid : IsValid before
before-IsValid = omega arith

after-IsValid : IsValid after
after-IsValid = omega arith

before-IsTyped : IsTyped before
unfolding list_start get_ifstate_count
before-IsTyped = record { typed_v4 = (refl, tt); typed_v6 = (refl, tt) }

after-IsTyped : IsTyped after
unfolding list_start get_ifstate_count
after-IsTyped = record { typed_v4 = (refl, (refl, tt)); typed_v6 = tt }

get_ifstate_with_name-cases_example :
    ((get_ifstate_with_name (some after) af_inet en0 ≡ none)
      × (named en0 (entries after af_inet) ≡ none))
    ⊎ ((slot : ℕ) × (i : Ifstate) × (get_ifstate_with_name (some after) af_inet en0 ≡ some slot)
        × (named en0 (entries after af_inet) ≡ some i)
        × (get_elem? after.ifstate_list slot ≡ some i)
        × (list_start after af_inet ≤ slot)
        × (slot < list_start after af_inet + get_ifstate_count after af_inet)
        × (i.ifname ≡ en0))
get_ifstate_with_name-cases_example =
    get_ifstate_with_name-cases after af_inet en0 after-IsValid (inl refl)

something_to_compare : count_of (some before) + count_of (some after) ≢ 0
unfolding count_of max_af_count
something_to_compare = omega arith

diff-outcome_example :
    (d : State) × (diff (some before) (some after) ≡ some (some d))
    × IsValid d
    × ((af : ℕ) (name : Bytes)
        → IsFamily af
        → deref d (get_ifstate_with_name (some d) af name)
          ≡ outcome (some before) (some after) af name)
diff-outcome_example =
    diff-outcome (some before) (some after) before-IsValid after-IsValid before-IsTyped
      after-IsTyped something_to_compare

set_diff_flags-fields_example :
    (flags_get_diff (set_diff_flags 0x1025 3) ≡ 3)
    × (public_flags (set_diff_flags 0x1025 3) ≡ public_flags 0x1025)
    × (not_in_iflist (set_diff_flags 0x1025 3) ≡ not_in_iflist 0x1025)
    × (field 12 1 (set_diff_flags 0x1025 3) ≡ field 12 1 0x1025)
set_diff_flags-fields_example = set_diff_flags-fields 0x1025 3 (omega arith)

update_interface_generations-lem_example :
    (d : State) × (diff (some before) (some after) ≡ some (some d))
    × (s' : State) × (update_interface_generations (some before) (some after) (some d)
        ≡ some (some s'))
    × (entries s' af_inet ≡ map (updated_v4 (some before) after) (entries after af_inet))
    × (entries s' af_inet6 ≡ map (updated_v6 (some before) after) (entries after af_inet6))
update_interface_generations-lem_example =
    update_interface_generations-lem (some before) after before-IsValid after-IsValid before-IsTyped
      after-IsTyped something_to_compare

set_if_list-merge_example :
    (l : List ℕ) × (c : ℕ) × (set_if_list after ≡ some (relisted after l c))
    × IsValid (relisted after l c)
    × (resolve after.ifstate_list (segment l 0 c)
        ≡ some (
            collect after.max_if_count [] (merge (entries after af_inet) (entries after af_inet6))))
set_if_list-merge_example = set_if_list-merge after after-IsValid

new-LeadsTo_example :
    (s : State) × (new (some before) 3 ≡ some (some s))
    × IsValid s
    × (s.max_if_count ≡ 3)
    × (map ifname_of (entries s af_inet) ≡ map ifname_of (entries before af_inet))
    × (map ifname_of (entries s af_inet6) ≡ map ifname_of (entries before af_inet6))
    × ((k j : ℕ)
        → k < 2
        → j < 2
        → (LeadsTo before af_inet k k (2 + j) → LeadsTo s af_inet k k (3 + j))
          × (LeadsTo before af_inet6 j (2 + j) k → LeadsTo s af_inet6 j (3 + j) k))
new-LeadsTo_example = new-LeadsTo before 3 before-IsValid (omega arith) (omega arith)

abbrev arguments : Args
arguments = record {
  flags = 1;
  rank = 20;
  ifa = some (10 ∷ 0 ∷ 0 ∷ 1 ∷ []);
  vpn_server_addr = none;
  reach_flags = 2;
}

add_ifstate-Added_example :
    (s' : State) × (r : Option ℕ) × (add_ifstate before en1 af_inet arguments ≡ some (s', r))
    × IsValid s'
    × (s'.max_if_count ≡ 2)
    × (names s' (other_af af_inet) ≡ names before (other_af af_inet))
    × Added before en1 af_inet arguments s' r
add_ifstate-Added_example = add_ifstate-Added before en1 af_inet arguments before-IsValid (inl refl)
