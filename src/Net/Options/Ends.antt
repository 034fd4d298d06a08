-- ===== src/Net/Options/Ends.antt =====
-- scutil/net.c, `_process_options`: the loop ends.
use configd_extra.Base.{
  ℕ, zero, suc, ◌≤◌, Bool, true, false, inl, inr, List, [], ◌∷◌, Option, none, some, Bytes, codes,
  ◌++◌, if◌then◌else◌, length, Option-cases, arith, length-drop,
}
use configd_extra.Net.Options.{
  Then, goes_on, stops, faults, Ended, all_done, stopped, faulted, no_fuel, find_option, carry_out,
  with_value, by_type, with_handler, used_by_handler, one_option, followed, process_options,
  takes_value, is_help_kind, print_text,
}
use configd_extra.Net.Values.{
  Dictionaries, Editing, Setting, Verdict, set_to, drop_key, drop_saying, invalid, fault, judge,
}

module _ {D : Type 0} where
  -- The fuel was enough.
  unfoldable pub HasEnded : Ended D → Type 0
  HasEnded (all_done c) = Unit
  HasEnded (stopped c) = Unit
  HasEnded faulted = Unit
  HasEnded no_fuel = ⊥

module _ {Key V D : Type 0} (cf : Dictionaries Key V D) where
  -- No more arguments are left than there were.
  unfoldable Within : ℕ → Then D → Type 0
  Within n (goes_on c args) = length args ≤ n
  Within n (stops c) = Unit
  Within n faults = Unit

  carry_out-Within :
      (k : Option Key) (v : Verdict V) (c : Editing D) (args : List Bytes) (n : ℕ)
      → length args ≤ n
      → Within n (carry_out cf k v c args)
  unfolding carry_out Within
  carry_out-Within (some k) (set_to v) c args n e = e
  carry_out-Within (some k) drop_key c args n e = e
  carry_out-Within (some k) (drop_saying t) c args n e = e
  carry_out-Within none (set_to v) c args n e = tt
  carry_out-Within none drop_key c args n e = tt
  carry_out-Within none (drop_saying t) c args n e = tt
  carry_out-Within (some k) (invalid t) c args n e = tt
  carry_out-Within none (invalid t) c args n e = tt
  carry_out-Within (some k) fault c args n e = tt
  carry_out-Within none fault c args n e = tt

  with_value-Within :
      (o : Setting Key D) (args : List Bytes) (c : Editing D)
      → Within (length args) (with_value cf o args c)
  unfolding with_value Within
  with_value-Within o [] c = tt
  with_value-Within o (a ∷ args) c =
      carry_out-Within o.key (judge cf o.kind o a) c args (suc (length args)) (omega arith)

  if-Within :
      (b : Bool) (x y : Then D) (n : ℕ) → Within n x → Within n y → Within n (if b then x else y)
  if-Within true x y n e f = e
  if-Within false x y n e f = f

  by_type-Within :
      (o : Setting Key D) (args : List Bytes) (c : Editing D)
      → Within (length args) (by_type cf o args c)
  unfolding by_type Within
  by_type-Within o args c =
      if-Within (takes_value o.kind) (with_value cf o args c)
        (if is_help_kind o.kind
          then stops (print_text (o.info ++ codes "\n") c)
          else goes_on c args)
        (length args) (with_value-Within o args c)
        (if-Within (is_help_kind o.kind) (stops (print_text (o.info ++ codes "\n") c))
          (goes_on c args) (length args) tt (omega arith))

  used_by_handler-Within :
      (args : List Bytes) (r : Editing D × Option ℕ) (n : ℕ)
      → length args ≤ n
      → Within n (used_by_handler args r)
  unfolding Within
  used_by_handler-Within args (c, none) n e = tt
  used_by_handler-Within args (c, some k) n e = omega (arith, length-drop k args)

  with_handler-Within :
      (h : Option (List Bytes → Editing D → Editing D × Option ℕ)) (t : Then D) (n : ℕ)
      → Within n t
      → Within n (with_handler h t)
  unfolding Within
  with_handler-Within none t n e = e
  with_handler-Within (some h) (stops c) n e = tt
  with_handler-Within (some h) faults n e = tt
  with_handler-Within (some h) (goes_on c args) n e = used_by_handler-Within args (h args c) n e

  one_option-Within :
      (o : Setting Key D) (args : List Bytes) (c : Editing D)
      → Within (length args) (one_option cf o args c)
  unfolding one_option
  one_option-Within o args c =
      with_handler-Within o.handler (by_type cf o args c) (length args) (by_type-Within o args c)

  followed-HasEnded :
      (f : Editing D → List Bytes → Ended D) (t : Then D) (n : ℕ)
      → Within n t
      → ((c : Editing D) (args : List Bytes) → length args ≤ n → HasEnded (f c args))
      → HasEnded (followed cf f t)
  unfolding Within HasEnded
  followed-HasEnded f (goes_on c args) n e g = g c args e
  followed-HasEnded f (stops c) n e g = tt
  followed-HasEnded f faults n e g = tt

  -- With fuel for the number of the arguments the loop comes to its end, for any table and any handlers.
  pub process_options-HasEnded :
      (table : List (Setting Key D)) (fuel : ℕ) (args : List Bytes) (c : Editing D)
      → length args ≤ fuel
      → HasEnded (process_options cf table fuel args c)
  unfolding process_options HasEnded
  process_options-HasEnded table fuel [] c le = tt
  process_options-HasEnded table zero (a ∷ args) c le = absurd (omega arith)
  process_options-HasEnded table (suc fuel) (a ∷ args) c le =
      elim (Option-cases (find_option table a)) [
        | inl e ↦ rw (e, process_options) tt
        | inr (o, e) ↦
            rw (e, process_options)
              (followed-HasEnded (λ c' rest. process_options cf table fuel rest c')
                (one_option cf o args c) (length args) (one_option-Within o args c)
                (λ c' rest l. process_options-HasEnded table fuel rest c' (omega arith)))
      ]
