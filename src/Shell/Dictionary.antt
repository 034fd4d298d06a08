-- ===== src/Shell/Dictionary.antt =====
-- scutil/dictionary.c: the dictionary that `d.init`, `d.show`, `d.add` and `d.remove` work on.
-- Handlers get the arguments that follow the command's name; `none` is a fault: a read of a missing
-- one, or a `NULL` string that is put into an array or released.
pub mod Data
pub mod Consistent
use configd_extra.Base.{
  ◌⊎◌, inl, inr, ℕ, suc, Bool, true, false, ◌||◌, List, [], ◌∷◌, ◌++◌, Option, none, some, Bytes,
  codes, equal, if◌then◌else◌, ◌>>=◌,
}
use configd_extra.Shell.Scan.{equal_nocase, hex_pair, scan_number}
use configd_extra.Shell.State.{Cf, created, Shell, Message, text, shown, print}

-- `doArray`, `doBoolean`, `doData`, `doNumeric`.
pub record Options : Type 0 where
  pub array : Bool
  pub boolean : Bool
  pub data' : Bool
  pub numeric : Bool

abbrev pub no_options : Options
no_options = record { array = false; boolean = false; data' = false; numeric = false }

-- The flags before the values, and the values.
unfoldable pub parse_flags : Options → List Bytes → Options × List Bytes
parse_flags o [] = (o, [])
parse_flags o (a ∷ args) =
    let with_array = parse_flags (record o { array = true }) args in
    let with_boolean = parse_flags (record o { boolean = true }) args in
    let with_data = parse_flags (record o { data' = true }) args in
    let with_numeric = parse_flags (record o { numeric = true }) args in
    if equal a (codes "*")
    then with_array
    else if equal a (codes "-")
    then (o, args)
    else if equal a (codes "?")
    then with_boolean
    else if equal a (codes "%")
    then with_data
    else if equal a (codes "#")
    then with_numeric
    else (o, a ∷ args)

unfoldable pub scan_boolean : Bytes → Option Bool
scan_boolean a =
    if equal_nocase a (codes "true")
      || (equal_nocase a (codes "t")
          || (equal_nocase a (codes "yes") || (equal_nocase a (codes "y") || equal a (codes "1"))))
    then some true
    else if equal_nocase a (codes "false")
        || (equal_nocase a (codes "f")
            || (equal_nocase a (codes "no") || (equal_nocase a (codes "n") || equal a (codes "0"))))
    then some false
    else none

-- The bytes of pairs of digits. An odd length has been refused before.
unfoldable pub scan_data : Bytes → Option Bytes
scan_data [] = some []
scan_data (c ∷ []) = none
scan_data (c ∷ d ∷ s) = let rest = scan_data s in do b ← hex_pair c d; bs ← rest; some (b ∷ bs)

unfoldable pub is_odd : Bytes → Bool
is_odd [] = false
is_odd (c ∷ []) = true
is_odd (c ∷ d ∷ s) = is_odd s

module _ {Key P : Type 0} (cf : Cf Key P) where
  -- One value, or the message that refuses it.
  unfoldable pub scan_value : Options → Bytes → Option (Bytes ⊎ P)
  scan_value o a =
      if o.boolean
      then elim (scan_boolean a) [
        | none ↦ some (inl (codes "d.add: invalid data.\n"))
        | some b ↦ some (inr (cf.of_boolean b))
      ]
      else if o.data'
      then (if is_odd a
          then some (inl (codes "d.add: not enough bytes.\n"))
          else elim (scan_data a) [
            | none ↦ some (inl (codes "d.add: invalid data.\n"))
            | some bytes ↦ some (inr (cf.of_data bytes))
          ])
      else if o.numeric
      then elim (scan_number a) [
        | none ↦ some (inl (codes "d.add: invalid data.\n"))
        | some n ↦ some (inr (cf.of_number n))
      ]
      else (do string ← created cf a; some (inr (cf.of_string string)))

  -- The loop of an array.
  unfoldable pub scan_values : Options → List Bytes → List P → Option (Bytes ⊎ List P)
  scan_values o [] array = some (inr array)
  scan_values o (a ∷ args) array = do
    scanned ← scan_value o a
    elim scanned [
      | inl refused ↦ some (inl refused)
      | inr val ↦ scan_values o args (array ++ (val ∷ []))
    ]

  unfoldable pub as_array : Bytes ⊎ List P → Bytes ⊎ P
  as_array (inl refused) = inl refused
  as_array (inr vals) = inr (cf.of_array vals)

  unfoldable pub scan_array : Options → List Bytes → Option (Bytes ⊎ P)
  scan_array o args = do scanned ← scan_values o args []; some (as_array scanned)

  -- The value for the key: an array if asked for or if there are several values.
  unfoldable pub scan_argument : Options × List Bytes → Option (Bytes ⊎ P)
  scan_argument (o, []) =
      if o.array then some (inr (cf.of_array [])) else some (inl (codes "d.add: no values.\n"))
  scan_argument (o, a ∷ []) = if o.array then scan_array o (a ∷ []) else scan_value o a
  scan_argument (o, a ∷ b ∷ args) = scan_array o (a ∷ b ∷ args)

module _ {Key P H W : Type 0} (cf : Cf Key P) where
  unfoldable pub do_dict_init : List Bytes → Shell Key P H W → Option (Shell Key P H W)
  do_dict_init args s = some (record s { value = some cf.empty_dictionary })

  unfoldable pub do_dict_show : List Bytes → Shell Key P H W → Option (Shell Key P H W)
  do_dict_show args s = elim s.value [
    | none ↦ some (print (text (codes "d.show: dictionary must be initialized.\n")) s)
    | some v ↦ some (print (shown v) s)
  ]

  -- The part of `do_dictSetKey` behind its guards.
  unfoldable pub set_key : P → List Bytes → Shell Key P H W → Option (Shell Key P H W)
  set_key old [] s = none
  set_key old (name ∷ args) s = do
    key ← created cf name
    scanned ← scan_argument cf (parse_flags no_options args)
    elim scanned [
      | inl refused ↦ some (print (text refused) s)
      | inr val ↦ some (record s { value = some (cf.set_value old key val) })
    ]

  unfoldable pub do_dict_set_key : List Bytes → Shell Key P H W → Option (Shell Key P H W)
  do_dict_set_key args s = elim s.value [
    | none ↦ some (print (text (codes "d.add: dictionary must be initialized.\n")) s)
    | some old ↦
        if cf.is_dictionary old
        then set_key old args s
        else some (
            print
              (text
                (codes "d.add: data (fetched from configuration server) is not a dictionary.\n"))
              s)
  ]

  unfoldable pub remove_key : P → List Bytes → Shell Key P H W → Option (Shell Key P H W)
  remove_key old [] s = none
  remove_key old (name ∷ args) s = do
    key ← created cf name
    some (record s { value = some (cf.remove_value old key) })

  unfoldable pub do_dict_remove_key : List Bytes → Shell Key P H W → Option (Shell Key P H W)
  do_dict_remove_key args s = elim s.value [
    | none ↦ some (print (text (codes "d.remove: dictionary must be initialized.\n")) s)
    | some old ↦
        if cf.is_dictionary old
        then remove_key old args s
        else some (
            print
              (text
                (codes "d.remove: data (fetched from configuration server) is not a dictionary.\n"))
              s)
  ]
