-- ===== src/Nwi/New/Rounds.antt =====
-- Two families merged by rank, and one round of the loop of `nwi_state_set_if_list`.
use configd_extra.Base.{
  ℕ, suc, ◌+◌, ◌≡◌, refl, sym, ap, ap₂, ◌∙◌, Bool, true, false, List, [], ◌∷◌, Option, none, some,
  get_elem?, leb, if◌then◌else◌,
}
use configd_extra.Nwi.Lookup.{get_ifstate_with_index}
use configd_extra.Nwi.New.{add_to_if_list, v4_first, take_v4, take_v6, next_round, fill_if_list}
use configd_extra.Nwi.New.IfList.{collect, relisted, Lists}
use configd_extra.Nwi.State.{Ifstate, State, af_inet, af_inet6}

-- Two families merged by rank; at equal ranks IPv4 goes first.
abbrev pub merge : List Ifstate → List Ifstate → List Ifstate
merge [] ys = ys
merge (x ∷ xs) [] = x ∷ xs
merge (x ∷ xs) (y ∷ ys) = elim (leb x.rank y.rank) [
  | true ↦ x ∷ merge xs (y ∷ ys)
  | false ↦ y ∷ merge (x ∷ xs) ys
]

pub merge-nil : (xs : List Ifstate) → merge xs [] ≡ xs
merge-nil [] = refl
merge-nil (x ∷ xs) = refl

module _ (a b xs ys : List Ifstate) (x y : Ifstate) (p : a ≡ x ∷ xs) (q : b ≡ y ∷ ys) where
  pub merge_first : leb x.rank y.rank ≡ true → merge a b ≡ x ∷ merge xs b
  merge_first h = ap₂ merge p q ∙ head h ∙ ap (λ l. x ∷ merge xs l) (sym q)
    where
      head : leb x.rank y.rank ≡ true → merge (x ∷ xs) (y ∷ ys) ≡ x ∷ merge xs (y ∷ ys)
      head h = rw (h, merge)

  pub merge_second : leb x.rank y.rank ≡ false → merge a b ≡ y ∷ merge a ys
  merge_second h = ap₂ merge p q ∙ head h ∙ ap (λ l. y ∷ merge l ys) (sym p)
    where
      head : leb x.rank y.rank ≡ false → merge (x ∷ xs) (y ∷ ys) ≡ y ∷ merge (x ∷ xs) ys
      head h = rw (h, merge)

pub fill_stop :
    (fuel : ℕ) (s : State) (v4 v6 : ℕ)
    → get_ifstate_with_index s af_inet v4 ≡ none
    → get_ifstate_with_index s af_inet6 v6 ≡ none
    → fill_if_list (suc fuel) s v4 v6 ≡ some s
unfolding fill_if_list next_round
fill_stop fuel s v4 v6 a b = rw (a, b, fill_if_list)

module _ (fuel : ℕ) (s s' : State) (v4 v6 slot : ℕ) (added : add_to_if_list s slot ≡ some s') where
  pub fill_v4 :
      next_round s (get_ifstate_with_index s af_inet v4) (get_ifstate_with_index s af_inet6 v6)
        ≡ some (take_v4 slot)
      → fill_if_list (suc fuel) s v4 v6 ≡ fill_if_list fuel s' (v4 + 1) v6
  unfolding fill_if_list
  fill_v4 e = rw (e, fill_if_list) (rw added)

  pub fill_v6 :
      next_round s (get_ifstate_with_index s af_inet v4) (get_ifstate_with_index s af_inet6 v6)
        ≡ some (take_v6 slot)
      → fill_if_list (suc fuel) s v4 v6 ≡ fill_if_list fuel s' v4 (v6 + 1)
  unfolding fill_if_list
  fill_v6 e = rw (e, fill_if_list) (rw added)

pub if_true {ℓ} : {A : Type ℓ} {b : Bool} (x y : A) → b ≡ true → (if b then x else y) ≡ x
if_true x y e = rw e

pub if_false {ℓ} : {A : Type ℓ} {b : Bool} (x y : A) → b ≡ false → (if b then x else y) ≡ y
if_false x y e = rw e

pub next_round-both :
    (s : State) (slot4 slot6 : ℕ) (x y : Ifstate)
    → get_elem? s.ifstate_list slot4 ≡ some x
    → get_elem? s.ifstate_list slot6 ≡ some y
    → next_round s (some slot4) (some slot6)
      ≡ some (if leb x.rank y.rank then take_v4 slot4 else take_v6 slot6)
unfolding next_round v4_first
next_round-both s slot4 slot6 x y a b = rw (a, v4_first) (rw b)

pub next_round-v4 :
    (s : State) (l : List ℕ) (c slot : ℕ)
    → next_round (relisted s l c) (some slot) none ≡ some (take_v4 slot)
unfolding next_round
next_round-v4 s l c slot = refl

pub next_round-v6 :
    (s : State) (l : List ℕ) (c slot : ℕ)
    → next_round (relisted s l c) none (some slot) ≡ some (take_v6 slot)
unfolding next_round
next_round-v6 s l c slot = refl

-- What the loop makes of a list of interfaces that is in use so far.
abbrev pub Fills : State → List Ifstate → List Ifstate → Option State → Type 0
Fills s acc order r =
    (l : List ℕ) × (c : ℕ) × (r ≡ some (relisted s l c))
    × Lists s l c (collect s.max_if_count acc order)
