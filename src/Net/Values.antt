-- ===== src/Net/Values.antt =====
-- scutil/net.c, `_process_options`: the options of a table, and what the value of each type asks for.
use configd_extra.Base.{
  ℕ, Bool, true, false, List, [], ◌∷◌, ◌++◌, Option, none, some, Bytes, codes, if◌then◌else◌,
}
use configd_extra.Base.Int.{ℤ, pos}
use configd_extra.Shell.Scan.{scan_number}
use configd_extra.Control.Switches.{means_off, means_on}

-- optionType
pub data Kind : Type 0 where
  is_other : Kind
  is_help : Kind
  is_choose_one : Kind
  is_choose_multiple : Kind
  is_bool : Kind
  is_boolean : Kind
  is_number : Kind
  is_string : Kind
  is_string_array : Kind

-- selections
pub record Choice (Key : Type 0) : Type 0 where
  pub selection : Key
  pub key : Option Key
  pub not_available : Bool

-- CoreFoundation's dictionaries and strings; `equal_nocase_key` is `CFStringCompare` without case, and
-- `separated` gives the parts between commas, and `is_null` tells the `NULL` that there is for bytes
-- that are not UTF-8.
pub record Dictionaries (Key V D : Type 0) : Type 0 where
  pub get_value : D → Key → Option V
  pub set_value : D → Key → V → D
  pub remove_value : D → Key → D
  pub create_string : Bytes → Key
  pub is_null : Key → Bool
  pub equal_nocase_key : Key → Key → Bool
  pub separated : Key → List Key
  pub of_string : Key → V
  pub of_boolean : Bool → V
  pub of_number : ℤ → V
  pub of_array : List Key → V

-- The new configuration, and what was printed, the last text first.
pub record Editing (D : Type 0) : Type 0 where
  pub config : D
  pub out : List Bytes

-- options. A handler gets the arguments that are left and says how many it used, `none` for a negative
-- number. `info` is a text or the choices, by the type.
pub record Setting (Key D : Type 0) : Type 0 where
  pub option : Bytes
  pub description : Option Bytes
  pub kind : Kind
  pub key : Option Key
  pub handler : Option (List Bytes → Editing D → Editing D × Option ℕ)
  pub info : Bytes
  pub choices : List (Choice Key)

-- What the value asks for; `drop_saying` prints a text and removes the key.
pub data Verdict (V : Type 0) : Type 0 where
  set_to : V → Verdict V
  drop_key : Verdict V
  drop_saying : Bytes → Verdict V
  invalid : Bytes → Verdict V
  fault : Verdict V

abbrev pub is_empty : Bytes → Bool
is_empty [] = true
is_empty (b ∷ a) = false

abbrev pub described : Option Bytes → Bytes → Bytes
described none fallback = fallback
described (some d) fallback = d

module _ {Key V D : Type 0} (cf : Dictionaries Key V D) where
  unfoldable pub find_selection : List (Choice Key) → Key → Option (Choice Key)
  find_selection [] choice = none
  find_selection (s ∷ l) choice =
      let rest = find_selection l choice in
      if cf.equal_nocase_key choice s.selection then some s else rest

  abbrev pub cannot_select : Setting Key D → Bytes
  cannot_select o =
      codes "cannot select " ++ (described o.description (codes "selection") ++ codes "\n")

  abbrev pub invalid_selection : Setting Key D → Bytes
  invalid_selection o =
      codes "invalid " ++ (described o.description (codes "selection") ++ codes "\n")

  abbrev pub choice_value : Option Key → Verdict V
  choice_value none = drop_key
  choice_value (some k) = set_to (cf.of_string k)

  abbrev pub chosen_one : Setting Key D → Option (Choice Key) → Verdict V
  chosen_one o none = invalid (invalid_selection o)
  chosen_one o (some s) = if s.not_available then invalid (cannot_select o) else choice_value s.key

  abbrev pub chosen_all : List Key → Verdict V
  chosen_all [] = drop_key
  chosen_all (k ∷ l) = set_to (cf.of_array (k ∷ l))

  -- The loop over the parts, with what is chosen so far.
  unfoldable pub choose_each : Setting Key D → List Key → List Key → Verdict V
  choose_each o [] chosen = chosen_all chosen
  choose_each o (c ∷ l) chosen = elim (find_selection o.choices c) [
    | none ↦ drop_saying (invalid_selection o)
    | some s ↦
        if s.not_available
        then drop_saying (cannot_select o)
        else elim s.key [ none ↦ fault | some k ↦ choose_each o l (chosen ++ (k ∷ [])) ]
  ]

  abbrev pub truth : (Bool → V) → Bytes → Verdict V
  truth value a =
      if means_off a
      then set_to (value false)
      else if means_on a
      then set_to (value true)
      else if is_empty a
      then drop_key
      else invalid (codes "invalid value\n")

  -- CFNumberRef_0 and CFNumberRef_1
  abbrev pub zero_or_one : Bool → V
  zero_or_one b = if b then cf.of_number (pos 1) else cf.of_number (pos 0)

  abbrev pub number_value : Option ℤ → Verdict V
  number_value none = invalid (codes "invalid value\n")
  number_value (some z) = set_to (cf.of_number z)

  -- The string for a text that is compared, split, stored or released: `NULL` is a fault there.
  abbrev with_string : Bytes → (Key → Verdict V) → Verdict V
  with_string a next_step =
      let k = cf.create_string a in if cf.is_null k then fault else next_step k

  -- The value of an option that takes one.
  unfoldable pub judge : Kind → Setting Key D → Bytes → Verdict V
  judge is_other o a = fault
  judge is_help o a = fault
  judge is_choose_one o a = with_string a (λ k. chosen_one o (find_selection o.choices k))
  judge is_choose_multiple o a =
      if is_empty a then drop_key else with_string a (λ k. choose_each o (cf.separated k) [])
  judge is_bool o a = truth cf.of_boolean a
  judge is_boolean o a = truth zero_or_one a
  judge is_number o a = if is_empty a then drop_key else number_value (scan_number a)
  judge is_string o a =
      if is_empty a then drop_key else with_string a (λ k. set_to (cf.of_string k))
  judge is_string_array o a =
      if is_empty a then drop_key else with_string a (λ k. set_to (cf.of_array (cf.separated k)))
