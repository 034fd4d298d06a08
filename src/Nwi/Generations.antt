-- ===== src/Nwi/Generations.antt =====
-- `_nwi_state_update_interface_generations`: which entries of a state take its generation, by the
-- difference against the state before. `none` is a failed assertion, or an access outside an array.
pub mod Update
pub mod Correct
use configd_extra.Base.{
  ℕ, Bool, true, false, not, Option, none, some, Bytes, get_elem?, ◌==◌, if◌then◌else◌, ◌>>=◌,
  each_slot,
}
use configd_extra.Nwi.Flags.{ifstate_get_diff, diff_unchanged}
use configd_extra.Nwi.Lookup.{get_ifstate_with_name}
use configd_extra.Nwi.State.{Ifstate, State, af_inet, af_inet6, list_start}

unfoldable pub set_generation : Ifstate → ℕ → Ifstate
set_generation i generation_count = record i { if_generation_count = generation_count }

-- ifstate != NULL && diff != UNCHANGED
unfoldable pub marks_change : State → Option ℕ → Option Bool
marks_change s none = some false
marks_change s (some slot) = do
  i ← get_elem? s.ifstate_list slot
  some (not (ifstate_get_diff i == diff_unchanged))

-- `_nwi_ifstate_has_changed`
unfoldable pub interface_has_changed : State → Bytes → Option Bool
interface_has_changed changes ifname = do
  v4 ← marks_change changes (get_ifstate_with_name (some changes) af_inet ifname)
  v6 ← marks_change changes (get_ifstate_with_name (some changes) af_inet6 ifname)
  some (if v4 then true else v6)

-- assert(old_ifstate != NULL)
unfoldable pub asserted : Option State → Option ℕ → Option Ifstate
asserted none _ = none
asserted (some old) none = none
asserted (some old) (some slot) = get_elem? old.ifstate_list slot

unfoldable pub keep_generation : Option State → ℕ → Ifstate → Option Ifstate
keep_generation old af scan = do
  old_ifstate ← asserted old (get_ifstate_with_name old af scan.ifname)
  some (set_generation scan old_ifstate.if_generation_count)

unfoldable pub update_v4 : Option State → State → ℕ → Ifstate → Option Ifstate
update_v4 old changes generation_count scan = do
  changed ← interface_has_changed changes scan.ifname
  if changed then some (set_generation scan generation_count) else keep_generation old af_inet scan

unfoldable pub update_v6 : Option State → State → ℕ → Ifstate → Option Ifstate
update_v6 old changes generation_count scan =
    if scan.if_generation_count == generation_count then some scan else do
      changed ← interface_has_changed changes scan.ifname
      if changed
          then some (set_generation scan generation_count)
          else keep_generation old af_inet6 scan

unfoldable pub update_both : Option State → State → State → Option State
update_both old s changes = do
  l4 ←
      each_slot (update_v4 old changes s.generation_count) s.ipv4_count s.ifstate_list
        (list_start s af_inet)
  l6 ← each_slot (update_v6 old changes s.generation_count) s.ipv6_count l4 (list_start s af_inet6)
  some (record s { ifstate_list = l6 })

unfoldable pub update_interface_generations :
    Option State → Option State → Option State → Option (Option State)
update_interface_generations old none changes = some none
update_interface_generations old (some s) none = some (some s)
update_interface_generations old (some s) (some changes) = do
  s' ← update_both old s changes
  some (some s')
