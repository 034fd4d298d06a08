-- ===== src/Net/Options/Meaning.antt =====
-- scutil/net.c, `_process_options`: what a value of each type stands for, told without the code that
-- reads it.
use configd_extra.Base.{
  ℕ, zero, suc, ◌+◌, ◌*◌, ◌^◌, ◌≤◌, ◌<◌, ◌≡◌, ◌⊎◌, Bool, true, false, List, [], ◌∷◌, ◌++◌, map,
  Option, none, some, Bytes, codes, All, if◌then◌else◌,
}
use configd_extra.Base.Int.{ℤ, pos, negsuc}
use configd_extra.Net.Values.{
  Kind, is_other, is_help, is_choose_one, is_choose_multiple, is_bool, is_boolean, is_number,
  is_string, is_string_array, Choice, Dictionaries, Setting, is_empty,
}
use configd_extra.Shell.Scan.{lower}

-- The words for off and for on.
pub data IsWord : Bool → Bytes → Type 0 where
  disable_word : IsWord false (codes "disable")
  no_word : IsWord false (codes "no")
  off_word : IsWord false (codes "off")
  zero_word : IsWord false (codes "0")
  enable_word : IsWord true (codes "enable")
  yes_word : IsWord true (codes "yes")
  on_word : IsWord true (codes "on")
  one_word : IsWord true (codes "1")

-- The number with these digits after `v`.
unfoldable pub number_of : ℕ → List ℕ → ℕ
number_of v [] = v
number_of v (d ∷ ds) = number_of (10 * v + d) ds

-- Digits as they are written, with a minus or without one.
unfoldable pub written : Bool → List ℕ → Bytes
written false ds = map (λ d. 48 + d) ds
written true ds = 45 ∷ map (λ d. 48 + d) ds

abbrev pub negated : ℕ → ℤ
negated zero = pos 0
negated (suc n) = negsuc n

abbrev pub with_sign : Bool → ℕ → ℤ
with_sign false n = pos n
with_sign true n = negated n

-- The numbers of an `int` of 32 bits.
unfoldable pub InInt : Bool → ℕ → Type 0
InInt false n = n < 2 ^ 31
InInt true n = n ≤ 2 ^ 31

module _ {Key V D : Type 0} (cf : Dictionaries Key V D) where
  -- The first choice of that name.
  pub record Picks (l : List (Choice Key)) (k : Key) (s : Choice Key) : Type 0 where
    pub before : List (Choice Key)
    pub after : List (Choice Key)
    pub splits : l ≡ before ++ (s ∷ after)
    pub others_differ : All (λ x. cf.equal_nocase_key k x.selection ≡ false) before
    pub same : cf.equal_nocase_key k s.selection ≡ true

  -- The keys of the choices that the parts name.
  unfoldable pub Chosen : List (Choice Key) → List Key → List Key → Type 0
  Chosen l [] keys = keys ≡ []
  Chosen l (c ∷ parts) keys =
      (s : Choice Key) × (k : Key) × (rest : List Key) × Picks l c s
      × (s.not_available ≡ false)
      × (s.key ≡ some k)
      × Chosen l parts rest
      × (keys ≡ k ∷ rest)

  abbrev pub array_of : List Key → Option V
  array_of [] = none
  array_of (k ∷ l) = some (cf.of_array (k ∷ l))

  abbrev pub string_of : Option Key → Option V
  string_of none = none
  string_of (some k) = some (cf.of_string k)

  -- No value, for an empty text.
  abbrev pub Removes : Bytes → Option V → Type 0
  Removes a v = (a ≡ []) × (v ≡ none)

  -- A text that is not empty and for which there is a string.
  abbrev pub IsText : Bytes → Type 0
  IsText a = (is_empty a ≡ false) × (cf.is_null (cf.create_string a) ≡ false)

  abbrev pub Switches : (Bool → V) → Bytes → Option V → Type 0
  Switches value a v =
      Removes a v
      ⊎ ((b : Bool) × (w : Bytes) × IsWord b w × (map lower a ≡ map lower w) × (v ≡ some (value b)))

  abbrev pub Counts : Bytes → Option V → Type 0
  Counts a v =
      Removes a v
      ⊎ ((minus : Bool) × (d : ℕ) × (ds : List ℕ) × All (λ e. e < 10) (d ∷ ds)
          × InInt minus (number_of 0 (d ∷ ds))
          × (a ≡ written minus (d ∷ ds))
          × (v ≡ some (cf.of_number (with_sign minus (number_of 0 (d ∷ ds))))))

  -- `v` is the value that the text `a` stands for as one of the type, `none` if it is to be removed:
  -- off and on in any case of letters, a decimal number of an `int`, a text, texts between commas, a
  -- choice that can be selected, or several of those that all have keys.
  unfoldable pub Means : Kind → Setting Key D → Bytes → Option V → Type 0
  Means is_other o a v = ⊥
  Means is_help o a v = ⊥
  Means is_choose_one o a v =
      (cf.is_null (cf.create_string a) ≡ false)
      × ((s : Choice Key) × Picks o.choices (cf.create_string a) s
          × (s.not_available ≡ false)
          × (v ≡ string_of s.key))
  Means is_choose_multiple o a v =
      Removes a v
      ⊎ (IsText a
          × ((keys : List Key) × Chosen o.choices (cf.separated (cf.create_string a)) keys
              × (v ≡ array_of keys)))
  Means is_bool o a v = Switches cf.of_boolean a v
  Means is_boolean o a v =
      Switches (λ b. if b then cf.of_number (pos 1) else cf.of_number (pos 0)) a v
  Means is_number o a v = Counts a v
  Means is_string o a v = Removes a v ⊎ (IsText a × (v ≡ some (cf.of_string (cf.create_string a))))
  Means is_string_array o a v =
      Removes a v ⊎ (IsText a × (v ≡ some (cf.of_array (cf.separated (cf.create_string a)))))
