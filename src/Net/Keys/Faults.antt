-- ===== src/Net/Keys/Faults.antt =====
-- scutil/net.c: which commands on the kinds of objects fault.
use configd_extra.Base.{
  ◌≡◌, refl, sym, subst, ◌||◌, ◌∙◌, ap, Bool, true, false, inl, inr, List, ◌∷◌, Option, none, some,
  Bytes, codes, equal, equal_iff, if◌then◌else◌, Bool-cases, Option-cases, arith,
}
use configd_extra.Net.Keys.{
  NetKey, interfaces_row, interface_row, services_row, service_row, protocols_row, protocol_row,
  sets_row, set_row, Column, create_column, disable_column, enable_column, select_column,
  set_column, show_column, remove_column, is_there, net_keys, find_net_key_in, find_net_key,
  tests_column, what, Does, prints, calls, is_fault, do_net,
}

-- Only the plural keys have no function for "set".
unfoldable pub is_plural : NetKey → Bool
is_plural interfaces_row = true
is_plural interface_row = false
is_plural services_row = true
is_plural service_row = false
is_plural protocols_row = true
is_plural protocol_row = false
is_plural sets_row = true
is_plural set_row = false

abbrev pub is_set : Column → Bool
is_set create_column = false
is_set disable_column = false
is_set enable_column = false
is_set select_column = false
is_set set_column = true
is_set show_column = false
is_set remove_column = false

unfoldable pub faults : Does → Bool
faults (prints t) = false
faults (calls c k args) = false
faults is_fault = true

unfoldable pub is_plural_name : Bytes → Bool
is_plural_name key =
    equal key (codes "interfaces")
    || (equal key (codes "services") || (equal key (codes "protocols") || equal key (codes "sets")))

called_or_printed :
    (b : Bool) (column : Column) (k : NetKey) (args : List Bytes) (t : Bytes)
    → faults (if b then calls column k args else prints t) ≡ false
unfolding faults
called_or_printed true column k args t = refl
called_or_printed false column k args t = refl

no_function :
    (column : Column) (k : NetKey) (args : List Bytes)
    → faults (
        if is_there column k
        then calls column k args
        else if tests_column column
        then prints (what column)
        else is_fault)
      ≡ (if is_set column then is_plural k else false)
unfolding is_there tests_column faults is_plural
no_function create_column k args =
    called_or_printed (is_there create_column k) create_column k args (what create_column)
no_function disable_column k args =
    called_or_printed (is_there disable_column k) disable_column k args (what disable_column)
no_function enable_column k args =
    called_or_printed (is_there enable_column k) enable_column k args (what enable_column)
no_function select_column k args =
    called_or_printed (is_there select_column k) select_column k args (what select_column)
no_function show_column k args = refl
no_function remove_column k args =
    called_or_printed (is_there remove_column k) remove_column k args (what remove_column)
no_function set_column interfaces_row args = refl
no_function set_column interface_row args = refl
no_function set_column services_row args = refl
no_function set_column service_row args = refl
no_function set_column protocols_row args = refl
no_function set_column protocol_row args = refl
no_function set_column sets_row args = refl
no_function set_column set_row args = refl

is_plural_found : Option NetKey → Bool
is_plural_found none = false
is_plural_found (some k) = is_plural k

if_false : (b : Bool) → (if b then false else false) ≡ false
if_false true = refl
if_false false = refl

known : (key name : Bytes) → equal key name ≡ true → key ≡ name
known key name e = (equal_iff key name).0 e

is_plural-find_net_key : (key : Bytes) → is_plural_found (find_net_key key) ≡ is_plural_name key
unfolding is_plural_found is_plural is_plural_name find_net_key find_net_key_in net_keys equal
is_plural-find_net_key key = elim (Bool-cases (equal key (codes "interface"))) [
  | inl e ↦
      subst (λ x. is_plural_found (find_net_key x) ≡ is_plural_name x)
        (sym (known key (codes "interface") e)) refl
  | inr e ↦ elim (Bool-cases (equal key (codes "service"))) [
    | inl f ↦
        subst (λ x. is_plural_found (find_net_key x) ≡ is_plural_name x)
          (sym (known key (codes "service") f)) refl
    | inr f ↦ elim (Bool-cases (equal key (codes "protocol"))) [
      | inl g ↦
          subst (λ x. is_plural_found (find_net_key x) ≡ is_plural_name x)
            (sym (known key (codes "protocol") g)) refl
      | inr g ↦ elim (Bool-cases (equal key (codes "set"))) [
        | inl h ↦
            subst (λ x. is_plural_found (find_net_key x) ≡ is_plural_name x)
              (sym (known key (codes "set") h)) refl
        | inr h ↦ ground (arith, e, f, g, h)
      ]
    ]
  ]
]

-- A command with the name of a kind of object is a fault just when it is "set" with one of the names
-- "interfaces", "services", "protocols" and "sets": then `NULL` is called.
pub do_net-faults :
    (column : Column) (key : Bytes) (args : List Bytes)
    → faults (do_net column (key ∷ args)) ≡ (if is_set column then is_plural_name key else false)
unfolding do_net faults is_plural_found
do_net-faults column key args = elim (Option-cases (find_net_key key)) [
  | inl e ↦
      rw (e, do_net)
        (sym (if_false (is_set column))
          ∙ ap (λ q. if is_set column then q else false)
              (sym (ap is_plural_found e) ∙ is_plural-find_net_key key))
  | inr (k, e) ↦
      rw (e, do_net)
        (no_function column k args
          ∙ ap (λ q. if is_set column then q else false)
              (sym (ap is_plural_found e) ∙ is_plural-find_net_key key))
]
