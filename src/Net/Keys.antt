-- ===== src/Net/Keys.antt =====
-- scutil/net.c, `net_keys`: the commands that take the name of a kind of object, and their functions.
pub mod Faults
use configd_extra.Base.{
  Bool, true, false, List, [], ◌∷◌, ◌++◌, Option, none, some, Bytes, codes, equal, if◌then◌else◌,
}

pub data NetKey : Type 0 where
  interfaces_row : NetKey
  interface_row : NetKey
  services_row : NetKey
  service_row : NetKey
  protocols_row : NetKey
  protocol_row : NetKey
  sets_row : NetKey
  set_row : NetKey

-- The columns, which are the commands.
pub data Column : Type 0 where
  create_column : Column
  disable_column : Column
  enable_column : Column
  select_column : Column
  set_column : Column
  show_column : Column
  remove_column : Column

-- A function is there.
unfoldable pub is_there : Column → NetKey → Bool
is_there show_column k = true
is_there create_column interface_row = true
is_there create_column service_row = true
is_there create_column protocol_row = true
is_there create_column set_row = true
is_there create_column _ = false
is_there disable_column service_row = true
is_there disable_column protocol_row = true
is_there disable_column _ = false
is_there enable_column service_row = true
is_there enable_column protocol_row = true
is_there enable_column _ = false
is_there select_column interface_row = true
is_there select_column service_row = true
is_there select_column protocol_row = true
is_there select_column set_row = true
is_there select_column _ = false
is_there set_column interface_row = true
is_there set_column service_row = true
is_there set_column protocol_row = true
is_there set_column set_row = true
is_there set_column _ = false
is_there remove_column service_row = true
is_there remove_column protocol_row = true
is_there remove_column set_row = true
is_there remove_column _ = false

unfoldable pub net_keys : List (Bytes × NetKey)
net_keys =
    (codes "interfaces", interfaces_row)
    ∷ (codes "interface", interface_row)
    ∷ (codes "services", services_row)
    ∷ (codes "service", service_row)
    ∷ (codes "protocols", protocols_row)
    ∷ (codes "protocol", protocol_row)
    ∷ (codes "sets", sets_row)
    ∷ (codes "set", set_row)
    ∷ []

unfoldable pub find_net_key_in : List (Bytes × NetKey) → Bytes → Option NetKey
find_net_key_in [] key = none
find_net_key_in ((name, k) ∷ l) key =
    let rest = find_net_key_in l key in if equal key name then some k else rest

unfoldable pub find_net_key : Bytes → Option NetKey
find_net_key key = find_net_key_in net_keys key

-- `create`, `disable`, `enable`, `select` and `remove` test the column, `set` and `show` do not.
unfoldable pub tests_column : Column → Bool
tests_column create_column = true
tests_column disable_column = true
tests_column enable_column = true
tests_column select_column = true
tests_column set_column = false
tests_column show_column = false
tests_column remove_column = true

unfoldable pub what : Column → Bytes
what create_column = codes "create what?\n"
what disable_column = codes "disable what?\n"
what enable_column = codes "enable what?\n"
what select_column = codes "select what?\n"
what set_column = codes "set what?\n"
what show_column = codes "show what?\n"
what remove_column = codes "remove what?\n"

-- What a command does: it prints a text, calls the function of a key with the other arguments, or calls
-- `NULL` or reads an argument that is missing.
pub data Does : Type 0 where
  prints : Bytes → Does
  calls : Column → NetKey → List Bytes → Does
  is_fault : Does

-- `do_net_create`, `do_net_disable`, and so on.
unfoldable pub do_net : Column → List Bytes → Does
do_net column [] = is_fault
do_net column (key ∷ args) = elim (find_net_key key) [
  | none ↦ prints (what column)
  | some k ↦
      if is_there column k
      then calls column k args
      else if tests_column column
      then prints (what column)
      else is_fault
]
