-- ===== src/Nwi/Diff.antt =====
-- `nwi_state_diff`: the entries of the new state, each marked with what changed against the old
-- one, then the entries of the old state that are gone. `none` is an access outside an array.
pub mod Append
pub mod Populate
pub mod Steps
pub mod Halves
pub mod Correct
pub mod Outcome
use configd_extra.Base.{
  ℕ, zero, suc, ◌+◌, Bool, true, false, not, List, Option, none, some, Bytes, equal, get_elem?,
  take, leb, ltb, ◌==◌, if◌then◌else◌, ◌>>=◌,
}
use configd_extra.Nwi.Add.{last_slot, write_slot}
use configd_extra.Nwi.Flags.{
  public_flags, ifstate_set_diff, diff_unchanged, diff_added, diff_removed, diff_changed,
  diff_rank_up, diff_rank_down,
}
use configd_extra.Nwi.Lookup.{get_ifstate_with_name}
use configd_extra.Nwi.New.{new}
use configd_extra.Nwi.State.{
  Ifstate, State, af_inet, in_addr_size, in6_addr_size, get_ifstate_count, set_count,
}

-- memcmp(a, b, n) != 0
abbrev pub differ : ℕ → Bytes → Bytes → Bool
differ n a b = not (equal (take n a) (take n b))

unfoldable pub has_changed : Ifstate → Ifstate → Bool
has_changed i1 i2 =
    if not (public_flags i1.flags == public_flags i2.flags)
    then true
    else if i1.af == af_inet
    then differ in_addr_size i1.addr i2.addr
    else differ in6_addr_size i1.addr i2.addr

-- The code for an entry that the old state has too.
unfoldable pub compare_entries : Ifstate → Ifstate → ℕ
compare_entries existing new_ifstate =
    if has_changed existing new_ifstate
    then diff_changed
    else if ltb existing.rank new_ifstate.rank
    then diff_rank_down
    else if ltb new_ifstate.rank existing.rank
    then diff_rank_up
    else diff_unchanged

-- `existing` is a pointer into the old state.
unfoldable pub change_code : Option State → Option ℕ → Ifstate → Option ℕ
change_code old none i = some diff_added
change_code none (some slot) i = none
change_code (some old) (some slot) i = do
  existing ← get_elem? old.ifstate_list slot
  some (compare_entries existing i)

unfoldable pub diff_append : State → Ifstate → Option State
diff_append s scan = do
  s' ← write_slot s (last_slot s scan.af) scan
  some (set_count s' scan.af (get_ifstate_count s' scan.af + 1))

unfoldable pub diff_add_change : Option State → State → Ifstate → Option State
diff_add_change old diff scan =
    let existing = get_ifstate_with_name old scan.af scan.ifname in
    do
      diff' ← diff_append diff scan
      i ← get_elem? diff'.ifstate_list (last_slot diff scan.af)
      code ← change_code old existing i
      write_slot diff' (last_slot diff scan.af) (ifstate_set_diff i code)

unfoldable pub append_removed : State → Ifstate → Option State
append_removed diff scan = do
  diff' ← diff_append diff scan
  i ← get_elem? diff'.ifstate_list (last_slot diff scan.af)
  write_slot diff' (last_slot diff scan.af) (ifstate_set_diff i diff_removed)

unfoldable pub diff_remove : State → Ifstate → Option State
diff_remove diff scan = elim (get_ifstate_with_name (some diff) scan.af scan.ifname) [
  | some _ ↦ some diff
  | none ↦ append_removed diff scan
]

-- for (i = 0; i < rounds; i++, scan++) step(diff, scan);
unfoldable pub each_entry :
    (State → Ifstate → Option State) → List Ifstate → ℕ → ℕ → State → Option State
each_entry step src slot zero diff = some diff
each_entry step src slot (suc rounds) diff = do
  scan ← get_elem? src slot
  diff' ← step diff scan
  each_entry step src (slot + 1) rounds diff'

-- Both halves of a state, IPv4 first; the state may be NULL.
unfoldable pub each_half : (State → Ifstate → Option State) → Option State → State → Option State
each_half step none diff = some diff
each_half step (some s) diff = do
  diff' ← each_entry step s.ifstate_list 0 s.ipv4_count diff
  each_entry step s.ifstate_list s.max_if_count s.ipv6_count diff'

unfoldable pub diff_populate : State → Option State → Option State → Option State
diff_populate diff old new_state = do
  diff' ← each_half (diff_add_change old) new_state diff
  each_half diff_remove old diff'

unfoldable pub max_af_count : State → ℕ
max_af_count s = if leb s.ipv6_count s.ipv4_count then s.ipv4_count else s.ipv6_count

unfoldable pub count_of : Option State → ℕ
count_of none = 0
count_of (some s) = max_af_count s

unfoldable pub populate_new : Option State → Option State → Option State → Option (Option State)
populate_new none old new_state = none
populate_new (some diff) old new_state = do
  diff' ← diff_populate diff old new_state
  some (some diff')

unfoldable pub diff : Option State → Option State → Option (Option State)
diff old new_state =
    let total_count = count_of old + count_of new_state in
    if total_count == 0
    then some none
    else do allocated ← new none total_count; populate_new allocated old new_state
