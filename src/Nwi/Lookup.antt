-- ===== src/Nwi/Lookup.antt =====
-- The searches of network_state_information_priv.h, and what they find: the entries of a family
-- are a segment of the array, and a search by name returns the first of that name.
use configd_extra.Base.{
  ℕ, zero, suc, ◌+◌, Bool, false, Option, none, some, Bytes, equal, get_elem?, leb, ltb, ◌==◌,
  if◌then◌else◌,
}
use configd_extra.Base.Int.{ℤ, pos, negsuc, ◌+ℤ◌}
use configd_extra.Nwi.State.{Ifstate, State, af_inet6, get_ifstate_count}

-- `if (idx >= max_if_count) … if (idx >= count) …`, then the address of the slot
unfoldable pub get_ifstate_with_index : State → ℕ → ℕ → Option ℕ
unfolding get_ifstate_count
get_ifstate_with_index s af idx =
    if leb s.max_if_count idx
    then none
    else if leb (get_ifstate_count s af) idx
    then none
    else some (if af == af_inet6 then idx + s.max_if_count else idx)

-- `strcmp(name, slot->ifname) == 0`
unfoldable pub has_name : State → Bytes → ℕ → Bool
has_name s name slot = elim (get_elem? s.ifstate_list slot) [
  | none ↦ false
  | some i ↦ equal name i.ifname
]

-- The `while (idx < count)` loop, on the rounds left.
unfoldable pub find_name : State → ℕ → Bytes → ℕ → ℕ → Option ℕ
find_name s af name zero idx = none
find_name s af name (suc rounds) idx =
    let rest = find_name s af name rounds (idx + 1) in
    elim (get_ifstate_with_index s af idx) [
      | none ↦ none
      | some slot ↦ if has_name s name slot then some slot else rest
    ]

unfoldable pub find_in : State → ℕ → Bytes → Option ℕ
unfolding find_name get_ifstate_count
find_in s af name =
    if ltb s.max_if_count (get_ifstate_count s af)
    then none
    else find_name s af name (get_ifstate_count s af) 0

-- `state` may be NULL.
unfoldable pub get_ifstate_with_name : Option State → ℕ → Bytes → Option ℕ
unfolding find_in
get_ifstate_with_name none af name = none
get_ifstate_with_name (some s) af name = find_in s af name

-- Whether an `int32_t` is zero.
abbrev pub is_zero : ℤ → Bool
is_zero (pos n) = n == 0
is_zero (negsuc n) = false

-- The entry at `slot` for another family; a pointer is a position in the array.
unfoldable pub get_alias : Ifstate → ℕ → ℕ → Option ℤ
get_alias i slot af =
    if i.af == af
    then some (pos slot)
    else if is_zero i.af_alias_offset
    then none
    else some (pos slot +ℤ i.af_alias_offset)
