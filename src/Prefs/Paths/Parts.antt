-- ===== src/Prefs/Paths/Parts.antt =====
-- scutil/prefs.c: the two loops over the entries of a dictionary, for its children and the others.
use configd_extra.Base.{
  or_else, or_else-none, ◌≡◌, refl, sym, subst, ◌∙◌, ◌↔◌, true, false, inl, inr, List, [], ◌∷◌,
  Option, none, some, if◌then◌else◌, arith, Bool-cases,
}
use configd_extra.Prefs.State.{Plists}
use configd_extra.Prefs.Paths.{without_children, retain_children}

module _ {Key P : Type 0} (lists : Plists Key P) where
  -- The value of the first entry with the key.
  unfoldable pub assoc : List (Key × P) → Key → Option P
  assoc [] j = none
  assoc ((k, v) ∷ l) j = if lists.cf.key_equal k j then some v else assoc l j

  -- No key is in two entries.
  unfoldable pub HasUniqueKeys : List (Key × P) → Type 0
  HasUniqueKeys [] = Unit
  HasUniqueKeys ((k, v) ∷ l) = (assoc l k ≡ none) × HasUniqueKeys l

  -- What CoreFoundation documents of `CFDictionaryGetValue`, `CFDictionaryContainsKey`,
  -- `CFDictionaryAddValue` (an entry that is there stays), `CFDictionaryGetKeysAndValues` and
  -- `CFEqual`.
  pub record PlistLaws : Type 0 where
    pub key_equal_iff : (j k : Key) → (lists.cf.key_equal j k ≡ true) ↔ (j ≡ k)
    pub get_empty : (j : Key) → lists.get_value lists.cf.empty_dictionary j ≡ none
    pub get_add :
        (d : P) (k : Key) (v : P) (j : Key)
        → lists.get_value (lists.add_value d k v) j
          ≡ or_else (lists.get_value d j) (if lists.cf.key_equal k j then some v else none)
    pub contains_get :
        (d : P) (k : Key) → lists.get_value d k ≡ none → lists.contains_key d k ≡ false
    pub get_entries : (d : P) (j : Key) → lists.get_value d j ≡ assoc (lists.entries d) j
    pub entries_unique : (d : P) → HasUniqueKeys (lists.entries d)

  -- The entries that are children, and the others.
  unfoldable pub children : List (Key × P) → List (Key × P)
  children [] = []
  children ((k, v) ∷ l) = if lists.cf.is_dictionary v then (k, v) ∷ children l else children l

  unfoldable pub plain : List (Key × P) → List (Key × P)
  plain [] = []
  plain ((k, v) ∷ l) = if lists.cf.is_dictionary v then plain l else (k, v) ∷ plain l

  -- A key with no entry has none among the parts.
  parts_none :
      (l : List (Key × P)) (j : Key)
      → assoc l j ≡ none
      → (assoc (plain l) j ≡ none) × (assoc (children l) j ≡ none)
  unfolding assoc children plain
  parts_none [] j e = (refl, refl)
  parts_none ((k, v) ∷ l) j e = ground (arith, parts_none l j)

  -- The two parts of entries without double keys make up the whole.
  assoc-parts :
      PlistLaws
      → (l : List (Key × P)) (j : Key) → HasUniqueKeys l
      → assoc l j ≡ or_else (assoc (plain l) j) (assoc (children l) j)
  unfolding assoc HasUniqueKeys children plain
  assoc-parts laws [] j u = refl
  assoc-parts laws ((k, v) ∷ l) j (n, u) = elim (Bool-cases (lists.cf.key_equal k j)) [
    | inl same ↦
        let none_j =
          parts_none l j (subst (λ i. assoc l i ≡ none) ((laws.key_equal_iff k j).0 same) n) in
        ground (arith, none_j)
    | inr other ↦ ground (arith, assoc-parts laws l j u)
  ]

  -- `get` keeps the entries that are not children.
  get-without_children :
      PlistLaws
      → (l : List (Key × P)) (d : P) (j : Key)
      → lists.get_value (without_children lists l d) j
        ≡ or_else (lists.get_value d j) (assoc (plain l) j)
  unfolding without_children plain assoc
  get-without_children laws [] d j = sym (or_else-none (lists.get_value d j))
  get-without_children laws ((k, v) ∷ l) d j = ground (
    arith,
    get-without_children laws l d j,
    get-without_children laws l (lists.add_value d k v) j,
    laws.get_add d k v j,
  )

  -- No child is a key of the dictionary.
  unfoldable pub Apart : List (Key × P) → P → Type 0
  Apart [] d = Unit
  Apart ((k, v) ∷ l) d =
      ((lists.cf.is_dictionary v ≡ true) → lists.get_value d k ≡ none) × Apart l d

  key_equal_comm :
      PlistLaws → (i k : Key) → lists.cf.key_equal i k ≡ false → lists.cf.key_equal k i ≡ false
  key_equal_comm laws i k e = elim (Bool-cases (lists.cf.key_equal k i)) [
    | inl same ↦
        absurd (ground (arith, (laws.key_equal_iff i k).1 (sym ((laws.key_equal_iff k i).0 same))))
    | inr other ↦ other
  ]

  Apart-add :
      PlistLaws
      → (l : List (Key × P)) (d : P) (k : Key) (v : P) → assoc l k ≡ none
      → Apart l d
      → Apart l (lists.add_value d k v)
  unfolding Apart assoc
  Apart-add laws [] d k v n a = tt
  Apart-add laws ((i, u) ∷ l) d k v n (a, rest) = elim (Bool-cases (lists.cf.key_equal i k)) [
    | inl same ↦ absurd (ground arith)
    | inr other ↦ (
      λ child. ground (arith, laws.get_add d k v i, key_equal_comm laws i k other, a child),
      Apart-add laws l d k v (ground arith) rest,
    )
  ]

  -- `set` adds all the children.
  retain_children-lem :
      PlistLaws
      → (l : List (Key × P)) (d : P) → HasUniqueKeys l
      → Apart l d
      → (d' : P) × (retain_children lists l d ≡ inr d')
        × ((j : Key) → lists.get_value d' j ≡ or_else (lists.get_value d j) (assoc (children l) j))
  unfolding retain_children children HasUniqueKeys Apart assoc
  retain_children-lem laws [] d u a = (d, refl, λ j. sym (or_else-none (lists.get_value d j)))
  retain_children-lem laws ((k, v) ∷ l) d (n, u) (a, rest) =
      elim (Bool-cases (lists.cf.is_dictionary v)) [
        | inl child ↦
            let (d', e, g) =
              retain_children-lem laws l (lists.add_value d k v) u
                (Apart-add laws l d k v n rest) in
            (
              d',
              rw (child, laws.contains_get d k (a child)) e,
              λ j. ground (arith, g j, laws.get_add d k v j),
            )
        | inr other ↦
            let (d', e, g) = retain_children-lem laws l d u rest in (d', rw other e, rw other g)
      ]

  -- A key is among the children or among the others.
  parts_exclusive :
      PlistLaws
      → (l : List (Key × P)) (j : Key) (v : P) → HasUniqueKeys l
      → assoc (children l) j ≡ some v
      → assoc (plain l) j ≡ none
  unfolding assoc HasUniqueKeys children plain
  parts_exclusive laws [] j v u e = refl
  parts_exclusive laws ((k, x) ∷ l) j v (n, u) e = elim (Bool-cases (lists.cf.key_equal k j)) [
    | inl same ↦
        let none_j =
          parts_none l j (subst (λ i. assoc l i ≡ none) ((laws.key_equal_iff k j).0 same) n) in
        ground (arith, none_j)
    | inr other ↦ ground (arith, parts_exclusive laws l j v u)
  ]

  Apart-of :
      PlistLaws
      → (l : List (Key × P)) (d : P)
      → ((j : Key) (v : P) → assoc (children l) j ≡ some v → lists.get_value d j ≡ none)
      → Apart l d
  unfolding Apart assoc children
  Apart-of laws [] d f = tt
  Apart-of laws ((k, v) ∷ l) d f = (
    λ child. f k v (rw (child, (laws.key_equal_iff k k).1 refl) refl),
    Apart-of laws l d (λ j x e. elim (Bool-cases (lists.cf.is_dictionary v)) [
      | inl child ↦ elim (Bool-cases (lists.cf.key_equal k j)) [
        | inl same ↦ f j v (rw (child, same) refl)
        | inr other ↦ f j x (rw (child, other) e)
      ]
      | inr plain_v ↦ f j x (rw plain_v e)
    ]),
  )

  -- The dictionary that `get` makes of `v`, with the children that `set` adds, has the entries of `v`.
  pub retain_children-without_children :
      PlistLaws
      → (v : P)
      → let d = without_children lists (lists.entries v) lists.cf.empty_dictionary in
        (d' : P) × (retain_children lists (lists.entries v) d ≡ inr d')
        × ((j : Key) → lists.get_value d' j ≡ lists.get_value v j)
  retain_children-without_children laws v =
      let l = lists.entries v in
      let d = without_children lists l lists.cf.empty_dictionary in
      let got : (j : Key) → lists.get_value d j ≡ assoc (plain l) j =
        λ j. get-without_children laws l lists.cf.empty_dictionary j ∙ rw (laws.get_empty j) refl in
      let (d', e, g) = retain_children-lem laws l d (laws.entries_unique v) (
        Apart-of laws l d
          (λ j x c. got j ∙ parts_exclusive laws l j x (laws.entries_unique v) c)) in
      (
        d',
        e,
        λ j.
            g j
            ∙ (rw (got j)
                (sym (laws.get_entries v j ∙ assoc-parts laws l j (laws.entries_unique v)))),
      )
