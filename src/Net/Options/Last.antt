-- ===== src/Net/Options/Last.antt =====
-- scutil/net.c, `_process_options`: what the configuration has after options with values.
use configd_extra.Base.{
  ℕ, zero, suc, ◌≤◌, ◌≡◌, refl, sym, ◌∙◌, ap, Bool, true, false, List, [], ◌∷◌, Option, none, some,
  Bytes, codes, ◌++◌, if◌then◌else◌, length, All, arith,
}
use configd_extra.Net.Options.{
  goes_on, stops, all_done, find_option, carry_out, with_value, by_type, with_handler, one_option,
  followed, process_options, takes_value, is_help_kind, print_text,
}
use configd_extra.Net.Options.Meaning.{Means}
use configd_extra.Net.Options.Judged.{Gives, sets, drops, judge-Means}
use configd_extra.Net.Values.{Dictionaries, Editing, Setting, Verdict, judge}

module _ {Key V D : Type 0} (cf : Dictionaries Key V D) where
  -- A dictionary gives back what was set last.
  pub record DictionaryLaws : Type 0 where
    pub same_key : Key → Key → Bool
    pub get_set :
        (d : D) (k j : Key) (v : V)
        → cf.get_value (cf.set_value d k v) j ≡ (if same_key k j then some v else cf.get_value d j)
    pub get_remove :
        (d : D) (k j : Key)
        → cf.get_value (cf.remove_value d k) j ≡ (if same_key k j then none else cf.get_value d j)

  -- The arguments for options with their values.
  unfoldable pub arguments : List (Setting Key D × Bytes × Option V) → List Bytes
  arguments [] = []
  arguments ((o, a, v) ∷ l) = o.option ∷ (a ∷ arguments l)

  -- The option is the one that its name finds, has a key and no handler, and its text stands for the
  -- value as one of its type.
  unfoldable pub IsPlain : List (Setting Key D) → Setting Key D × Bytes × Option V → Type 0
  IsPlain table (o, a, v) =
      (find_option table o.option ≡ some o)
      × (takes_value o.kind ≡ true)
      × (o.handler ≡ none)
      × ((k : Key) × (o.key ≡ some k))
      × Means cf o.kind o a v

  module _ (laws : DictionaryLaws) where
    abbrev pub is_for : Option Key → Key → Bool
    is_for none j = false
    is_for (some k) j = laws.same_key k j

    -- The value of a key, of the last option for it.
    unfoldable pub value_after : List (Setting Key D × Bytes × Option V) → Key → Option V → Option V
    value_after [] j u = u
    value_after ((o, a, v) ∷ l) j u = value_after l j (if is_for o.key j then v else u)

    carry_out_lem :
        (k : Key) (r : Verdict V) (v : Option V) (c : Editing D) (args : List Bytes)
        → Gives cf r v
        → (c' : Editing D) × (carry_out cf (some k) r c args ≡ goes_on c' args)
          × ((j : Key)
              → cf.get_value c'.config j
                ≡ (if laws.same_key k j then v else cf.get_value c.config j))
    unfolding carry_out
    carry_out_lem k r v c args (sets w) =
        (record c { config = cf.set_value c.config k w }, refl, λ j. laws.get_set c.config k j w)
    carry_out_lem k r v c args drops =
        (record c { config = cf.remove_value c.config k }, refl, λ j. laws.get_remove c.config k j)

    if-true : {A : Type 0} (b : Bool) (x y : A) → b ≡ true → (if b then x else y) ≡ x
    if-true b x y e = ap (λ q. if q then x else y) e

    one_option_lem :
        (o : Setting Key D) (a : Bytes) (v : Option V) (c : Editing D) (args : List Bytes) (k : Key)
        → takes_value o.kind ≡ true
        → o.handler ≡ none
        → o.key ≡ some k
        → Means cf o.kind o a v
        → (c' : Editing D) × (one_option cf o (a ∷ args) c ≡ goes_on c' args)
          × ((j : Key)
              → cf.get_value c'.config j ≡ (if is_for o.key j then v else cf.get_value c.config j))
    unfolding one_option by_type with_value
    one_option_lem o a v c args k t h e m =
        let (c', f, g) =
          carry_out_lem k (judge cf o.kind o a) v c args (judge-Means cf o.kind o a v m) in
        (
          c',
          ap (λ x. with_handler x (by_type cf o (a ∷ args) c)) h
              ∙ if-true (takes_value o.kind) (with_value cf o (a ∷ args) c)
                  (if is_help_kind o.kind
                    then stops (print_text (o.info ++ codes "\n") c)
                    else goes_on c (a ∷ args))
                  t
              ∙ ap (λ x. carry_out cf x (judge cf o.kind o a) c args) e
              ∙ f,
          λ j. g j ∙ ap (λ x. if is_for x j then v else cf.get_value c.config j) (sym e),
        )

    -- If each option is found by its name, has a key, a type that takes a value, and no handler, and
    -- the text of each stands for a value as one of its type, then with fuel for a round of each option
    -- the loop returns `TRUE`, and each key of the configuration has the value of the last option for
    -- it, or none if that one removes it, and the value it had if there is no such option.
    pub process_options-arguments :
        (table : List (Setting Key D)) (l : List (Setting Key D × Bytes × Option V)) (fuel : ℕ)
        (c : Editing D)
        → All (IsPlain table) l
        → length l ≤ fuel
        → (c' : Editing D) × (process_options cf table fuel (arguments l) c ≡ all_done c')
          × ((j : Key) → cf.get_value c'.config j ≡ value_after l j (cf.get_value c.config j))
    unfolding process_options arguments value_after IsPlain
    process_options-arguments table [] fuel c p le = (c, refl, λ j. refl)
    process_options-arguments table ((o, a, v) ∷ l) zero c p le = absurd (omega arith)
    process_options-arguments table ((o, a, v) ∷ l) (suc fuel) c ((f, t, h, (k, e), m), p) le =
        let (c1, step, g) = one_option_lem o a v c (arguments l) k t h e m in
        let (c', rest, g') = process_options-arguments table l fuel c1 p (omega arith) in
        (
          c',
          rw (f, process_options)
              (ap (followed cf (λ c'' more. process_options cf table fuel more c'')) step ∙ rest),
          λ j. g' j ∙ ap (value_after l j) (g j),
        )
