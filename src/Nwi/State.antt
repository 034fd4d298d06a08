-- ===== src/Nwi/State.antt =====
-- The records of network_state_information_priv.h. `ifstate_list` is one array of twice
-- `max_if_count` slots, the IPv4 half first; a pointer into it is the index of its slot. A byte
-- array is the list of its bytes.
use configd_extra.Base.{ℕ, ◌*◌, ◌≤◌, ◌≡◌, List, Bytes, length, ◌==◌, if◌then◌else◌}
use configd_extra.Base.Int.{ℤ}

-- The address families of the system's headers.
abbrev pub af_inet : ℕ
af_inet = 2

abbrev pub af_inet6 : ℕ
af_inet6 = 30

-- The value of NWI_STATE_VERSION.
abbrev pub state_version : ℕ
state_version = 0x20170601

-- IFNAMSIZ, and the sizes of `struct in_addr`, `struct in6_addr` and of the larger socket address.
abbrev pub ifnamsiz : ℕ
ifnamsiz = 16

abbrev pub in_addr_size : ℕ
in_addr_size = 4

abbrev pub in6_addr_size : ℕ
in6_addr_size = 16

abbrev pub vpn_address_size : ℕ
vpn_address_size = 28

abbrev pub signature_length : ℕ
signature_length = 20

-- `addr` is the union of `iaddr`, its first four bytes, and `iaddr6`.
pub record Ifstate : Type 0 where
  pub ifname : Bytes
  pub flags : ℕ
  pub af_alias_offset : ℤ
  pub rank : ℕ
  pub af : ℕ
  pub addr : Bytes
  pub if_generation_count : ℕ
  pub reach_flags : ℕ
  pub vpn_server_address : Bytes
  pub signature : Bytes

-- The counts are `int32_t` that the code never makes negative.
pub record State : Type 0 where
  pub version : ℕ
  pub max_if_count : ℕ
  pub ipv4_count : ℕ
  pub ipv6_count : ℕ
  pub if_list_count : ℕ
  pub ref : ℕ
  pub reach_flags_v4 : ℕ
  pub reach_flags_v6 : ℕ
  pub generation_count : ℕ
  pub ifstate_list : List Ifstate
  pub if_list : List ℕ

-- The arrays have the size that was allocated for them, and the counts stay inside.
pub record IsValid (s : State) : Type 0 where
  pub slots : length s.ifstate_list ≡ 2 * s.max_if_count
  pub indices : length s.if_list ≡ s.max_if_count
  pub v4_fits : s.ipv4_count ≤ s.max_if_count
  pub v6_fits : s.ipv6_count ≤ s.max_if_count
  pub listed_fits : s.if_list_count ≤ s.max_if_count

unfoldable pub other_af : ℕ → ℕ
other_af af = if af == af_inet then af_inet6 else af_inet

-- Where the half of a family begins.
unfoldable pub list_start : State → ℕ → ℕ
list_start s af = if af == af_inet then 0 else s.max_if_count

unfoldable pub get_ifstate_count : State → ℕ → ℕ
get_ifstate_count s af = if af == af_inet then s.ipv4_count else s.ipv6_count

-- `*count_p = n` for the count of a family.
unfoldable pub set_count : State → ℕ → ℕ → State
set_count s af n =
    if af == af_inet then record s { ipv4_count = n } else record s { ipv6_count = n }

unfoldable pub set_reachability_flags : State → ℕ → ℕ → State
set_reachability_flags s v4 v6 = record s { reach_flags_v4 = v4; reach_flags_v6 = v6 }

unfoldable pub clear : State → ℕ → State
clear s af = if af == af_inet then record s { ipv4_count = 0 } else record s { ipv6_count = 0 }
