-- ===== src/Nwi/Add.antt =====
-- `nwi_state_add_ifstate`: a new entry at the end of its family, or an update in place. A returned
-- pointer is a slot, and `none` inside the result is NULL; the outer `none` is an access outside
-- the array.
pub mod Slots
pub mod Keeps
pub mod Names
pub mod Outcome
use configd_extra.Base.{
  ℕ, ◌+◌, ◌-◌, Bool, true, false, not, ◌&&◌, ◌||◌, List, ◌++◌, Option, none, some, Bytes, get_elem?,
  take, drop, replicate, length, ltb, ◌==◌, if◌then◌else◌, ◌>>=◌, store,
}
use configd_extra.Base.Int.{ℤ, sub_ℕ}
use configd_extra.Nwi.Flags.{replace_public_flags, set_last_item, clear_last_item}
use configd_extra.Nwi.Lookup.{get_ifstate_with_name}
use configd_extra.Nwi.New.{zero_ifstate}
use configd_extra.Nwi.State.{
  Ifstate, State, af_inet, af_inet6, ifnamsiz, in_addr_size, in6_addr_size, vpn_address_size,
  other_af, get_ifstate_count, set_count,
}

-- `struct sockaddr`: `bytes` are the whole structure, of `sa_len` bytes.
pub record Sockaddr : Type 0 where
  pub sa_len : ℕ
  pub sa_family : ℕ
  pub bytes : Bytes

-- `nwi_state_get_last_ifstate`: the slot behind the last entry of a family
unfoldable pub last_slot : State → ℕ → ℕ
last_slot s af = if af == af_inet then s.ipv4_count else s.max_if_count + s.ipv6_count

unfoldable pub write_slot : State → ℕ → Ifstate → Option State
write_slot s slot i = do l ← store s.ifstate_list slot i; some (record s { ifstate_list = l })

-- memcpy(dst, src, n) over the first bytes of `dst`
abbrev pub overwrite : Bytes → ℕ → Bytes → Bytes
overwrite dst n src = take n src ++ drop n dst

unfoldable pub set_vpn_server : Ifstate → Option Sockaddr → Ifstate
set_vpn_server i none = record i { vpn_server_address = replicate vpn_address_size 0 }
set_vpn_server i (some a) =
    if a.sa_len == 0 || ltb vpn_address_size a.sa_len
    then i
    else record i { vpn_server_address = overwrite i.vpn_server_address a.sa_len a.bytes }

-- vpn_server_addr != NULL && vpn_server_addr->sa_family != 0
unfoldable pub vpn_argument : Option Sockaddr → Option Sockaddr
vpn_argument none = none
vpn_argument (some a) = if a.sa_family == 0 then none else some a

unfoldable pub set_address : ℕ → Option Bytes → Ifstate → Ifstate
set_address af none i = i
set_address af (some ifa) i =
    if af == af_inet
    then record i { addr = overwrite i.addr in_addr_size ifa }
    else if af == af_inet6
    then record i { addr = overwrite i.addr in6_addr_size ifa }
    else i

-- The other arguments of the call.
pub record Args : Type 0 where
  pub flags : ℕ
  pub rank : ℕ
  pub ifa : Option Bytes
  pub vpn_server_addr : Option Sockaddr
  pub reach_flags : ℕ

-- The address, rank and flag fields of a new or an existing entry.
unfoldable pub update_fields : ℕ → Args → Ifstate → Ifstate
update_fields af a i =
    let j = set_vpn_server (set_address af a.ifa i) (vpn_argument a.vpn_server_addr) in
    record j {
      reach_flags = a.reach_flags;
      rank = a.rank;
      flags = replace_public_flags j.flags a.flags;
    }

-- memset, strlcpy, and the fields of a new last entry
unfoldable pub new_entry : Bytes → ℕ → Ifstate
new_entry ifname af = record zero_ifstate {
  ifname = take (ifnamsiz - 1) ifname;
  af = af;
  flags = set_last_item 0;
}

-- `prev->flags &= ~NWI_IFSTATE_FLAGS_LAST_ITEM`
unfoldable pub unmark_slot : State → ℕ → Option State
unmark_slot s slot = do
  prev ← get_elem? s.ifstate_list slot
  write_slot s slot (record prev { flags = clear_last_item prev.flags })

-- When there is a previous entry, it is no longer the last one.
unfoldable pub unmark_last : State → ℕ → ℕ → Option State
unmark_last s count slot = if ltb 0 count then unmark_slot s (slot - 1) else some s

-- The two entries of an interface point at one another, by the distance of their slots.
unfoldable pub link : State → ℕ → ℕ → Option State
link s slot alias = do
  i ← get_elem? s.ifstate_list slot
  s' ← write_slot s slot (record i { af_alias_offset = sub_ℕ alias slot })
  j ← get_elem? s'.ifstate_list alias
  write_slot s' alias (record j { af_alias_offset = sub_ℕ slot alias })

unfoldable pub add_alias : State → ℕ → Option State
add_alias s slot = do
  i ← get_elem? s.ifstate_list slot
  elim (get_ifstate_with_name (some s) (other_af i.af) i.ifname) [
    | none ↦ some s
    | some alias ↦ link s slot alias
  ]

unfoldable pub append_entry : State → Bytes → ℕ → Option State
append_entry s ifname af = do
  s1 ← unmark_last s (get_ifstate_count s af) (last_slot s af)
  s2 ← write_slot s1 (last_slot s af) (new_entry ifname af)
  some (set_count s2 af (get_ifstate_count s2 af + 1))

unfoldable pub update_slot : State → ℕ → Args → ℕ → Option (State × Option ℕ)
update_slot s af a slot = do
  i ← get_elem? s.ifstate_list slot
  s' ← write_slot s slot (update_fields af a i)
  some (s', some slot)

-- Already present: an update, unless the new rank is lower in priority.
unfoldable pub update_existing : State → ℕ → Args → ℕ → Option (State × Option ℕ)
update_existing s af a slot = do
  i ← get_elem? s.ifstate_list slot
  if ltb i.rank a.rank then some (s, none) else update_slot s af a slot

unfoldable pub add_new : State → Bytes → ℕ → Args → Option (State × Option ℕ)
add_new s ifname af a = if get_ifstate_count s af == s.max_if_count then some (s, none) else do
  s1 ← append_entry s ifname af
  s2 ← add_alias s1 (last_slot s af)
  update_slot s2 af a (last_slot s af)

unfoldable pub add_ifstate : State → Bytes → ℕ → Args → Option (State × Option ℕ)
add_ifstate s ifname af a = elim (get_ifstate_with_name (some s) af ifname) [
  | some slot ↦ update_existing s af a slot
  | none ↦ add_new s ifname af a
]
