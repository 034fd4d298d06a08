-- ===== src/Nwi/Add/Slots.antt =====
-- Writes to the slots of a state, seen through the entries of its two families.
use configd_extra.Base.{
  ℕ, zero, suc, ◌+◌, ◌≤◌, ◌<◌, ◌≡◌, refl, ap, ◌⊎◌, inl, inr, List, [], ◌∷◌, ◌++◌, some, length, set,
  length-set, segment-set_end, segment-set_above, segment-set_below, store-some, arith,
}
use configd_extra.Nwi.Add.{last_slot, write_slot}
use configd_extra.Nwi.Entries.{IsFamily, entries, list_start_fits}
use configd_extra.Nwi.State.{
  Ifstate, State, IsValid, list_start, get_ifstate_count, set_count, other_af,
}

pub set-set {ℓ} : {A : Type ℓ} (l : List A) (i : ℕ) (a b : A) → set (set l i a) i b ≡ set l i b
set-set [] i a b = refl
set-set (x ∷ l) zero a b = refl
set-set (x ∷ l) (suc i) a b = ap (◌∷◌ x) (set-set l i a b)

-- The state after a write.
abbrev pub put : State → ℕ → Ifstate → State
put s slot i = record s { ifstate_list = set s.ifstate_list slot i }

pub write_slot-some :
    (s : State) (slot : ℕ) (i : Ifstate)
    → slot < length s.ifstate_list
    → write_slot s slot i ≡ some (put s slot i)
unfolding write_slot
write_slot-some s slot i h = rw (store-some s.ifstate_list slot i h)

pub last_slot-eq : (s : State) (af : ℕ) → last_slot s af ≡ list_start s af + get_ifstate_count s af
unfolding last_slot list_start get_ifstate_count
last_slot-eq s af = ground arith

pub last_slot-lt :
    (s : State) (af : ℕ)
    → IsValid s
    → get_ifstate_count s af < s.max_if_count
    → last_slot s af < length s.ifstate_list
last_slot-lt s af v h = omega (arith, last_slot-eq s af, list_start_fits s af v)

-- The state with one more entry in a family.
abbrev pub pushed : State → ℕ → Ifstate → State
pushed s af i = set_count (put s (last_slot s af) i) af (get_ifstate_count s af + 1)

module _ (s : State) (af : ℕ) (i : Ifstate) (v : IsValid s) where
  pub max-pushed : (pushed s af i).max_if_count ≡ s.max_if_count
  unfolding set_count
  max-pushed = ground arith

  pub pushed-IsValid : get_ifstate_count s af < s.max_if_count → IsValid (pushed s af i)
  unfolding set_count get_ifstate_count
  pushed-IsValid h = ground (arith, length-set s.ifstate_list (last_slot s af) i)

  pub list_start-pushed : (b : ℕ) → list_start (pushed s af i) b ≡ list_start s b
  unfolding set_count list_start
  list_start-pushed b = ground arith

  pub count-pushed_self :
      IsFamily af → get_ifstate_count (pushed s af i) af ≡ get_ifstate_count s af + 1
  unfolding set_count get_ifstate_count
  count-pushed_self f = ground arith

  pub count-pushed_other :
      get_ifstate_count (pushed s af i) (other_af af) ≡ get_ifstate_count s (other_af af)
  unfolding set_count get_ifstate_count other_af
  count-pushed_other = ground arith

  pub list-pushed : (pushed s af i).ifstate_list ≡ set s.ifstate_list (last_slot s af) i
  unfolding set_count
  list-pushed = ground arith

  pub entries-pushed_self :
      IsFamily af
      → get_ifstate_count s af < s.max_if_count
      → entries (pushed s af i) af ≡ entries s af ++ (i ∷ [])
  entries-pushed_self f h =
      rw (list_start-pushed af, count-pushed_self f, list-pushed)
        (rw (let e : get_ifstate_count s af + 1 ≡ suc (get_ifstate_count s af) = omega arith in e) (
          segment-set_end s.ifstate_list (list_start s af) (get_ifstate_count s af) (last_slot s af)
            i (last_slot-eq s af) (last_slot-lt s af v h)))

  -- The halves of two families are apart.
  halves_apart :
      get_ifstate_count s af < s.max_if_count
      → (list_start s (other_af af) + get_ifstate_count s (other_af af) ≤ last_slot s af)
        ⊎ (last_slot s af < list_start s (other_af af))
  unfolding last_slot list_start get_ifstate_count other_af
  halves_apart h = ground arith

  pub entries-pushed_other :
      get_ifstate_count s af < s.max_if_count
      → entries (pushed s af i) (other_af af) ≡ entries s (other_af af)
  entries-pushed_other h =
      rw (list_start-pushed (other_af af), count-pushed_other, list-pushed)
        (elim (halves_apart h) [
          | inl above ↦
              segment-set_above s.ifstate_list (list_start s (other_af af))
                (get_ifstate_count s (other_af af)) (last_slot s af) i above
          | inr below ↦
              segment-set_below s.ifstate_list (list_start s (other_af af))
                (get_ifstate_count s (other_af af)) (last_slot s af) i below
        ])
