-- ===== src/Net/Options.antt =====
-- scutil/net.c, `_process_options`: the arguments of "set" are options from a table, most with a value.
pub mod Ends
pub mod Last
pub mod Meaning
pub mod Judged
use configd_extra.Base.{
  ℕ, zero, suc, Bool, true, false, not, ◌||◌, List, [], ◌∷◌, ◌++◌, map, Option, none, some, Bytes,
  codes, if◌then◌else◌, drop,
}
use configd_extra.Base.Int.{ℤ, pos}
use configd_extra.Shell.Scan.{equal_nocase}
use configd_extra.Control.Switches.{means_off, means_on}
use configd_extra.Net.Values.{
  is_other, is_help, is_choose_one, is_choose_multiple, is_bool, is_boolean, is_number, is_string,
  is_string_array, set_to, drop_key, drop_saying, invalid, fault, Kind, Choice, Dictionaries,
  Editing, Setting, Verdict, is_empty, described, find_selection, cannot_select, invalid_selection,
  choice_value, chosen_one, chosen_all, choose_each, truth, zero_or_one, number_value, judge,
}

-- Where an option leads: on with the arguments that are left, to a result `FALSE`, or to a fault.
pub data Then (D : Type 0) : Type 0 where
  goes_on : Editing D → List Bytes → Then D
  stops : Editing D → Then D
  faults : Then D

pub data Ended (D : Type 0) : Type 0 where
  all_done : Editing D → Ended D
  stopped : Editing D → Ended D
  faulted : Ended D
  no_fuel : Ended D

unfoldable pub not_specified : Kind → Option Bytes → Bytes
not_specified is_other d = []
not_specified is_help d = []
not_specified is_choose_one d = described d (codes "selection") ++ codes " not specified\n"
not_specified is_choose_multiple d = described d (codes "selection") ++ codes "(s) not specified\n"
not_specified is_bool d = described d (codes "enable/disable") ++ codes " not specified\n"
not_specified is_boolean d = described d (codes "enable/disable") ++ codes " not specified\n"
not_specified is_number d = described d (codes "value") ++ codes " not specified\n"
not_specified is_string d = described d (codes "value") ++ codes " not specified\n"
not_specified is_string_array d = described d (codes "value") ++ codes "(s) not specified\n"

unfoldable pub takes_value : Kind → Bool
takes_value is_other = false
takes_value is_help = false
takes_value is_choose_one = true
takes_value is_choose_multiple = true
takes_value is_bool = true
takes_value is_boolean = true
takes_value is_number = true
takes_value is_string = true
takes_value is_string_array = true

abbrev pub is_help_kind : Kind → Bool
is_help_kind is_help = true
is_help_kind is_other = false
is_help_kind is_choose_one = false
is_help_kind is_choose_multiple = false
is_help_kind is_bool = false
is_help_kind is_boolean = false
is_help_kind is_number = false
is_help_kind is_string = false
is_help_kind is_string_array = false

module _ {D : Type 0} where
  unfoldable pub print_text : Bytes → Editing D → Editing D
  print_text text c = record c { out = text ∷ c.out }

  abbrev pub used_by_handler : List Bytes → Editing D × Option ℕ → Then D
  used_by_handler args (c, none) = stops c
  used_by_handler args (c, some n) = goes_on c (drop n args)

  abbrev pub with_handler : Option (List Bytes → Editing D → Editing D × Option ℕ) → Then D → Then D
  with_handler none t = t
  with_handler (some h) (goes_on c args) = used_by_handler args (h args c)
  with_handler (some h) (stops c) = stops c
  with_handler (some h) faults = faults

module _ {Key D : Type 0} where
  unfoldable pub find_option : List (Setting Key D) → Bytes → Option (Setting Key D)
  find_option [] name = none
  find_option (o ∷ l) name =
      let rest = find_option l name in if equal_nocase name o.option then some o else rest

module _ {Key V D : Type 0} (cf : Dictionaries Key V D) where
  unfoldable pub carry_out : Option Key → Verdict V → Editing D → List Bytes → Then D
  carry_out (some k) (set_to v) c args =
      goes_on (record c { config = cf.set_value c.config k v }) args
  carry_out (some k) drop_key c args =
      goes_on (record c { config = cf.remove_value c.config k }) args
  carry_out (some k) (drop_saying text) c args =
      goes_on (print_text text (record c { config = cf.remove_value c.config k })) args
  carry_out none (set_to v) c args = faults
  carry_out none drop_key c args = faults
  carry_out none (drop_saying text) c args = faults
  carry_out key (invalid text) c args = stops (print_text text c)
  carry_out key fault c args = faults

  -- The cases of an option that takes a value.
  unfoldable pub with_value : Setting Key D → List Bytes → Editing D → Then D
  with_value o [] c = stops (print_text (not_specified o.kind o.description) c)
  with_value o (a ∷ args) c = carry_out o.key (judge cf o.kind o a) c args

  -- The switch on the type.
  unfoldable pub by_type : Setting Key D → List Bytes → Editing D → Then D
  by_type o args c =
      if takes_value o.kind
      then with_value o args c
      else if is_help_kind o.kind
      then stops (print_text (o.info ++ codes "\n") c)
      else goes_on c args

  -- The round of an option, its name taken.
  unfoldable pub one_option : Setting Key D → List Bytes → Editing D → Then D
  one_option o args c = with_handler o.handler (by_type o args c)

  abbrev pub followed : (Editing D → List Bytes → Ended D) → Then D → Ended D
  followed next_round (goes_on c args) = next_round c args
  followed next_round (stops c) = stopped c
  followed next_round faults = faulted

  -- The loop on fuel.
  unfoldable pub process_options : List (Setting Key D) → ℕ → List Bytes → Editing D → Ended D
  process_options table fuel [] c = all_done c
  process_options table zero (a ∷ args) c = no_fuel
  process_options table (suc fuel) (a ∷ args) c = elim (find_option table a) [
    | none ↦ stopped (print_text (codes "set what?\n") c)
    | some o ↦ followed (λ c' rest. process_options table fuel rest c') (one_option o args c)
  ]
