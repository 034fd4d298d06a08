-- ===== src/Net/Tests.antt =====
-- The options of a configuration on a small table, and instances of the theorems.
use configd_extra.Base.{
  ◌≡◌, refl, Bool, true, false, List, [], ◌∷◌, Option, none, some, Bytes, codes, equal,
  if◌then◌else◌, arith, inl, inr,
}
use Prim.Native.String.{String}
use configd_extra.Base.Int.{ℤ}
use configd_extra.Shell.Scan.{equal_nocase, lower}
use configd_extra.Net.Options.{
  Ended, all_done, stopped, faulted, no_fuel, find_option, carry_out, with_value, by_type,
  one_option, process_options, takes_value, print_text,
}
use configd_extra.Net.Values.{
  Kind, is_other, is_choose_one, is_choose_multiple, is_bool, is_number, Choice, Dictionaries,
  Editing, Setting, find_selection, choose_each, judge,
}
use configd_extra.Net.Options.Ends.{HasEnded, process_options-HasEnded}
use configd_extra.Net.Options.Meaning.{
  Means, InInt, number_of, written, with_sign, on_word, off_word,
}
use configd_extra.Net.Options.Last.{
  DictionaryLaws, arguments, IsPlain, value_after, process_options-arguments,
}

data Value : Type 0 where
  text : Bytes → Value
  boolean : Bool → Value
  number : ℤ → Value
  texts : List Bytes → Value

abbrev Config : Type 0
Config = Bytes → Option Value

abbrev store : Config → Bytes → Option Value → Config
store d k v j = if equal k j then v else d j

-- Texts that are not split.
abbrev dictionaries : Dictionaries Bytes Value Config
dictionaries = record {
  get_value = λ d k. d k;
  set_value = λ d k v. store d k (some v);
  remove_value = λ d k. store d k none;
  create_string = λ a. a;
  is_null = λ k. false;
  equal_nocase_key = equal_nocase;
  separated = λ a. a ∷ [];
  of_string = text;
  of_boolean = boolean;
  of_number = number;
  of_array = texts;
}

abbrev dictionary_laws : DictionaryLaws dictionaries
dictionary_laws = record { same_key = equal; get_set = λ d k j v. refl; get_remove = λ d k j. refl }

abbrev choices : List (Choice Bytes)
choices =
    record { selection = codes "dhcp"; key = some (codes "DHCP"); not_available = false }
    ∷ record { selection = codes "ppp"; key = some (codes "PPP"); not_available = true }
    ∷ []

abbrev setting : String → Kind → Setting Bytes Config
setting name kind = record {
  option = codes name;
  description = none;
  kind = kind;
  key = some (codes name);
  handler = none;
  info = [];
  choices = choices;
}

abbrev table : List (Setting Bytes Config)
table =
    setting "enabled" is_bool
    ∷ setting "mtu" is_number
    ∷ setting "config" is_choose_one
    ∷ setting "proxies" is_choose_multiple
    ∷ record (setting "skip" is_other) {
      handler = some (λ args c. (record c { out = args }, some 2));
    }
    ∷ []

abbrev start : Editing Config
start = record { config = λ k. none; out = [] }

-- "enabled ON mtu -1500 enabled off mtu ''", with what the texts stand for.
abbrev given : List (Setting Bytes Config × Bytes × Option Value)
given =
    (setting "enabled" is_bool, codes "ON", some (boolean true))
    ∷ (setting "mtu" is_number, codes "-1500", some (number (with_sign true 1500)))
    ∷ (setting "enabled" is_bool, codes "off", some (boolean false))
    ∷ (setting "mtu" is_number, [], none)
    ∷ []

process_options-arguments_example :
    (c : Editing Config) × (process_options dictionaries table 4
        (arguments dictionaries given)
        start
      ≡ all_done c)
    × ((j : Bytes) → c.config j ≡ value_after dictionaries dictionary_laws given j none)
unfolding IsPlain find_option equal equal_nocase lower takes_value Means InInt number_of written
process_options-arguments_example =
    process_options-arguments dictionaries dictionary_laws table given 4 start
      (
        (refl, refl, refl, (codes "enabled", refl), inr (true, codes "on", on_word, refl, refl)),
        (
          (
            refl,
            refl,
            refl,
            (codes "mtu", refl),
            inr (
              true,
              1,
              5 ∷ 0 ∷ 0 ∷ [],
              (omega arith, (omega arith, (omega arith, (omega arith, tt)))),
              omega arith,
              refl,
              refl,
            ),
          ),
          (
            (
              refl,
              refl,
              refl,
              (codes "enabled", refl),
              inr (false, codes "off", off_word, refl, refl),
            ),
            ((refl, refl, refl, (codes "mtu", refl), inl (refl, refl)), tt),
          ),
        ),
      )
      (omega arith)

last_one :
    value_after dictionaries dictionary_laws given (codes "enabled") none ≡ some (boolean false)
unfolding value_after equal
last_one = refl

process_options-HasEnded_example :
    HasEnded
      (process_options dictionaries table 3 (codes "skip" ∷ codes "mtu" ∷ codes "x" ∷ []) start)
process_options-HasEnded_example =
    process_options-HasEnded dictionaries table 3 (codes "skip" ∷ codes "mtu" ∷ codes "x" ∷ [])
      start (omega arith)

-- A choice that is not in the list of `is_choose_multiple` is reported, and the loop goes on; one of
-- `is_choose_one` ends it.
ends_well : Ended Config → Bool
ends_well (all_done c) = true
ends_well (stopped c) = false
ends_well faulted = false
ends_well no_fuel = false

unknown_choice :
    ends_well (process_options dictionaries table 2 (codes "proxies" ∷ codes "none" ∷ []) start)
    ≡ true
unfolding process_options find_option equal equal_nocase lower one_option by_type takes_value
    with_value judge choose_each find_selection carry_out print_text ends_well
unknown_choice = refl

one_unknown :
    ends_well (process_options dictionaries table 2 (codes "config" ∷ codes "none" ∷ []) start)
    ≡ false
unfolding process_options find_option equal equal_nocase lower one_option by_type takes_value
    with_value judge find_selection carry_out print_text ends_well
one_unknown = refl
