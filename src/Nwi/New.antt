-- ===== src/Nwi/New.antt =====
-- `nwi_state_new`, and the `if_list` that it and `nwi_state_finalize` compute. `none` is an access
-- outside an array; `malloc` succeeds, and the block that `nwi_state_free` gives back is not used
-- again. `size_t` and `int32_t` values of the sizes stay far below their limits.
pub mod Fresh
pub mod IfList
pub mod Rounds
pub mod Merge
pub mod Grow
pub mod Alias
use configd_extra.Base.{
  ℕ, zero, suc, ◌+◌, ◌-◌, ◌*◌, ◌%◌, ◌^◌, Bool, true, false, not, ◌&&◌, List, [], ◌∷◌, Option, none,
  some, Bytes, equal, get_elem?, replicate, leb, ltb, ◌==◌, if◌then◌else◌, ◌>>=◌, store, each_slot,
  copy_slots,
}
use configd_extra.Base.Int.{ℤ, pos, negsuc, ◌+ℤ◌, ◌-ℤ◌, ltb_ℤ}
use configd_extra.Nwi.Flags.{not_in_iflist}
use configd_extra.Nwi.Lookup.{is_zero, get_ifstate_with_index}
use configd_extra.Nwi.State.{
  Ifstate, State, state_version, af_inet, af_inet6, in6_addr_size, vpn_address_size,
  signature_length, list_start,
}

-- What `memset(…, 0, …)` leaves.
abbrev pub zero_ifstate : Ifstate
zero_ifstate = record {
  ifname = [];
  flags = 0;
  af_alias_offset = pos 0;
  rank = 0;
  af = 0;
  addr = replicate in6_addr_size 0;
  if_generation_count = 0;
  reach_flags = 0;
  vpn_server_address = replicate vpn_address_size 0;
  signature = replicate signature_length 0;
}

-- `malloc`, `memset`, and the two fields that are set.
unfoldable pub fresh : ℕ → State
fresh max_if_count = record {
  version = state_version;
  max_if_count = max_if_count;
  ipv4_count = 0;
  ipv6_count = 0;
  if_list_count = 0;
  ref = 0;
  reach_flags_v4 = 0;
  reach_flags_v6 = 0;
  generation_count = 0;
  ifstate_list = replicate (2 * max_if_count) zero_ifstate;
  if_list = replicate max_if_count 0;
}

-- Conversion to `int32_t`.
unfoldable pub to_int32 : ℤ → ℤ
to_int32 (pos n) = let m = n % 2 ^ 32 in if ltb m (2 ^ 31) then pos m else negsuc (2 ^ 32 - 1 - m)
to_int32 (negsuc n) =
    let m = n % 2 ^ 32 in if ltb m (2 ^ 31) then negsuc m else pos (2 ^ 32 - 1 - m)

unfoldable pub fix_v4 : ℕ → Ifstate → Option Ifstate
fix_v4 offset i = some (
    if is_zero i.af_alias_offset
    then i
    else record i { af_alias_offset = to_int32 (i.af_alias_offset +ℤ pos offset) })

unfoldable pub fix_v6 : ℕ → Ifstate → Option Ifstate
fix_v6 offset i = some (
    if is_zero i.af_alias_offset
    then i
    else record i { af_alias_offset = to_int32 (i.af_alias_offset -ℤ pos offset) })

-- `int32_t` minus `uint32_t` is computed as `uint32_t` before it widens to `int64_t`.
unfoldable pub alias_offset_delta : ℕ → ℕ → ℕ
alias_offset_delta new_max old_max = (new_max + 2 ^ 32 - old_max) % 2 ^ 32

unfoldable pub fix_af_aliases : State → ℕ → Option State
fix_af_aliases s old_max =
    let offset = alias_offset_delta s.max_if_count old_max in
    if ltb_ℤ (pos offset) (pos 0) then some s else do
      l4 ← each_slot (fix_v4 offset) s.ipv4_count s.ifstate_list (list_start s af_inet)
      l6 ← each_slot (fix_v6 offset) s.ipv6_count l4 (list_start s af_inet6)
      some (record s { ifstate_list = l6 })

-- The scan of `if_list`, on the rounds left.
unfoldable pub is_listed : State → Bytes → ℕ → ℕ → Option Bool
is_listed s name zero k = some false
is_listed s name (suc rounds) k =
    let rest = is_listed s name rounds (k + 1) in
    do
      idx ← get_elem? s.if_list k
      i ← get_elem? s.ifstate_list idx
      if equal i.ifname name then some true else rest

unfoldable pub append_if_list : State → ℕ → Option State
append_if_list s slot = do
  l ← store s.if_list s.if_list_count slot
  some (record s { if_list = l; if_list_count = s.if_list_count + 1 })

unfoldable pub add_to_if_list : State → ℕ → Option State
add_to_if_list s slot = do
  i ← get_elem? s.ifstate_list slot
  if not (not_in_iflist i.flags == 0)
      then some s
      else if leb s.max_if_count s.if_list_count
      then some s
      else do
        found ← is_listed s i.ifname s.if_list_count 0
        if found then some s else append_if_list s slot

-- `scan_v4->rank <= scan_v6->rank`
unfoldable pub v4_first : State → ℕ → ℕ → Option Bool
v4_first s slot4 slot6 = do
  i4 ← get_elem? s.ifstate_list slot4
  i6 ← get_elem? s.ifstate_list slot6
  some (leb i4.rank i6.rank)

-- What one round of the loop does: take the next IPv4 entry, take the next IPv6 one, or stop.
pub data Round : Type 0 where
  take_v4 take_v6 : ℕ → Round
  stop : Round

unfoldable pub next_round : State → Option ℕ → Option ℕ → Option Round
next_round s none none = some stop
next_round s (some slot4) none = some (take_v4 slot4)
next_round s none (some slot6) = some (take_v6 slot6)
next_round s (some slot4) (some slot6) = do
  first ← v4_first s slot4 slot6
  some (if first then take_v4 slot4 else take_v6 slot6)

-- The `while` loop, on fuel.
unfoldable pub fill_if_list : ℕ → State → ℕ → ℕ → Option State
fill_if_list zero s v4 v6 = none
fill_if_list (suc fuel) s v4 v6 = do
  round ← next_round s (get_ifstate_with_index s af_inet v4) (get_ifstate_with_index s af_inet6 v6)
  elim round [
    | stop ↦ some s
    | take_v4 slot ↦ do s' ← add_to_if_list s slot; fill_if_list fuel s' (v4 + 1) v6
    | take_v6 slot ↦ do s' ← add_to_if_list s slot; fill_if_list fuel s' v4 (v6 + 1)
  ]

unfoldable pub set_if_list : State → Option State
set_if_list s = fill_if_list (s.ipv4_count + s.ipv6_count + 1) (record s { if_list_count = 0 }) 0 0

-- `state` may be NULL.
unfoldable pub finalize : Option State → Option (Option State)
finalize none = some none
finalize (some s) = do s' ← set_if_list s; some (some s')

-- The copies out of the old state.
unfoldable pub copy_entries : State → State → Option State
copy_entries s old = do
  l6 ← copy_slots old.ifstate_list old.max_if_count old.ipv6_count s.ifstate_list s.max_if_count
  l4 ← copy_slots old.ifstate_list 0 old.ipv4_count l6 0
  some (record s { ipv4_count = old.ipv4_count; ipv6_count = old.ipv6_count; ifstate_list = l4 })

unfoldable pub grow : State → ℕ → Option State
grow old max_if_count = do
  s ← copy_entries (fresh max_if_count) old
  s' ← fix_af_aliases s old.max_if_count
  set_if_list s'

unfoldable pub new : Option State → ℕ → Option (Option State)
new none max_if_count = some (if max_if_count == 0 then none else some (fresh max_if_count))
new (some old) max_if_count =
    if leb max_if_count old.max_if_count
    then some (some old)
    else do s ← grow old max_if_count; some (some s)
