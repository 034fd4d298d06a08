-- ===== src/Bond/Members.antt =====
-- SystemConfiguration/BondConfiguration.c: which interfaces can become members of a bond, in
-- `__SCBondInterfaceListCollectMembers`, `SCBondInterfaceCopyAvailableMemberInterfaces` and
-- `SCBondInterfaceSetMemberInterfaces`.
pub mod Disjoint
use configd_extra.Base.{ℕ, Bool, true, false, not, ◌&&◌, List, [], ◌∷◌, if◌then◌else◌}
use configd_extra.Bond.State.{is_among, Interfaces, Bond, status_ok, invalid_argument, key_exists}

module _ {I Key : Type 0} (ifs : Interfaces I Key) where
  -- `CFSetAddValue`
  unfoldable pub add_to_set : I → List I → List I
  add_to_set i set = if is_among ifs set i then set else i ∷ set

  unfoldable pub add_each : List I → List I → List I
  add_each [] set = set
  add_each (i ∷ l) set = add_each l (add_to_set i set)

  unfoldable pub collect_members : List (Bond I Key) → List I → List I
  collect_members [] set = set
  collect_members (b ∷ l) set = collect_members l (add_each b.interfaces set)

  -- The members of the bridges, one list for each.
  unfoldable pub collect_lists : List (List I) → List I → List I
  collect_lists [] set = set
  collect_lists (m ∷ l) set = collect_lists l (add_each m set)

  -- The members of bonds and bridges, and the physical interfaces of VLANs.
  unfoldable pub excluded_interfaces : List (Bond I Key) → List (List I) → List I → List I
  excluded_interfaces bonds bridges vlans =
      add_each vlans (collect_lists bridges (collect_members bonds []))

  -- The loop over the network interfaces.
  unfoldable pub select_available : List I → List I → List I
  select_available excluded [] = []
  select_available excluded (i ∷ l) =
      let rest = select_available excluded l in
      if not (ifs.supports_bond i) then rest else if is_among ifs excluded i then rest else i ∷ rest

  unfoldable pub available_interfaces : List (Bond I Key) → List (List I) → List I → List I → List I
  available_interfaces bonds bridges vlans all =
      select_available (excluded_interfaces bonds bridges vlans) all

  -- The loop over the new members; `in_use` is whether an enabled service is on the interface.
  unfoldable pub check_members : List I → List I → (I → Bool) → List I → ℕ
  check_members current available in_use [] = status_ok
  check_members current available in_use (i ∷ l) =
      let rest = check_members current available in_use l in
      if is_among ifs current i
      then rest
      else if is_among ifs available i
      then (if in_use i then key_exists else rest)
      else invalid_argument
