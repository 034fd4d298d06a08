-- ===== src/Nwi/Entries/Found.antt =====
-- A search by name fails exactly when no entry has the name, and otherwise points at the first.
use configd_extra.Base.{
  ℕ, suc, ◌+◌, ◌≤◌, ◌<◌, ◌≡◌, refl, ◌∙◌, ◌⊎◌, inl, inr, List, [], ◌∷◌, none, some, Bytes, equal,
  equal_iff, length, get_elem?, Bool-cases, sym, ap, arith, get_elem?-segment,
}
use configd_extra.Nwi.Entries.{
  IsFamily, entries, slot_of, named, deref, find_in-slot_of, length-entries,
}
use configd_extra.Nwi.Lookup.{get_ifstate_with_name}
use configd_extra.Nwi.State.{Ifstate, State, IsValid, list_start, get_ifstate_count}

-- The two outcomes of a search of a list whose first entry is at slot `base`.
abbrev pub Searched : Bytes → ℕ → List Ifstate → Type 0
Searched name base xs =
    ((slot_of name base xs ≡ none) × (named name xs ≡ none))
    ⊎ ((k : ℕ) × (i : Ifstate) × (slot_of name base xs ≡ some (base + k))
        × (named name xs ≡ some i)
        × (get_elem? xs k ≡ some i)
        × (k < length xs)
        × (i.ifname ≡ name))

pub slot_of-cases : (name : Bytes) (base : ℕ) (xs : List Ifstate) → Searched name base xs
slot_of-cases name base [] = inl (refl, refl)
slot_of-cases name base (x ∷ xs) = elim (Bool-cases (equal name x.ifname)) [
  | inl same ↦ inr (
    0,
    x,
    rw same (ap some (omega arith)),
    rw same,
    refl,
    omega arith,
    sym ((equal_iff name x.ifname).0 same),
  )
  | inr other ↦ elim (slot_of-cases name (base + 1) xs) [
    | inl (a, b) ↦ inl (rw other a, rw other b)
    | inr (k, i, a, b, c, d, e) ↦
        inr (suc k, i, rw (other, a) (ap some (omega arith)), rw other b, c, omega arith, e)
  ]
]

-- A search of a valid state in one of its two families returns NULL when no entry of the family has the name, and otherwise a
-- slot of the family that holds the first such entry.
pub get_ifstate_with_name-cases :
    (s : State) (af : ℕ) (name : Bytes)
    → IsValid s
    → IsFamily af
    → ((get_ifstate_with_name (some s) af name ≡ none) × (named name (entries s af) ≡ none))
      ⊎ ((slot : ℕ) × (i : Ifstate) × (get_ifstate_with_name (some s) af name ≡ some slot)
          × (named name (entries s af) ≡ some i)
          × (get_elem? s.ifstate_list slot ≡ some i)
          × (list_start s af ≤ slot)
          × (slot < list_start s af + get_ifstate_count s af)
          × (i.ifname ≡ name))
unfolding get_ifstate_with_name
get_ifstate_with_name-cases s af name v f =
    elim (slot_of-cases name (list_start s af) (entries s af)) [
      | inl (a, b) ↦ inl (find_in-slot_of s af name v f ∙ a, b)
      | inr (k, i, a, b, c, d, e) ↦
          let inside : k < get_ifstate_count s af = omega (arith, length-entries s af v) in
          inr (
            list_start s af + k,
            i,
            find_in-slot_of s af name v f ∙ a,
            b,
            sym (
                  get_elem?-segment s.ifstate_list (list_start s af) (get_ifstate_count s af) k
                    (list_start s af + k) inside refl)
                ∙ c,
            omega arith,
            omega arith,
            e,
          )
    ]

-- What a search by name returns is the first entry of that name.
pub deref-get_ifstate_with_name :
    (s : State) (af : ℕ) (name : Bytes)
    → IsValid s
    → IsFamily af
    → deref s (get_ifstate_with_name (some s) af name) ≡ named name (entries s af)
deref-get_ifstate_with_name s af name v f = elim (get_ifstate_with_name-cases s af name v f) [
  | inl (a, b) ↦ rw (a, b)
  | inr (slot, i, a, b, c, d, e, g) ↦ rw (a, b) c
]
