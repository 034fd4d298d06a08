-- ===== src/Nwi/Diff/Outcome.antt =====
-- What `nwi_state_diff` says of each interface name, and how its codes are read back.
use configd_extra.Base.{
  or_else, or_else-none, or_else_assoc, ℕ, ◌+◌, ◌<◌, ◌≡◌, ◌≢◌, refl, sym, ap, subst, ◌∙◌, ◌⊎◌, inl,
  inr, true, false, List, [], ◌∷◌, ◌++◌, map, append-nil, append_assoc, Option, none, some, Bytes,
  equal, equal_iff, arith, Bool-cases, Option-cases,
}
use configd_extra.Nwi.Diff.{count_of, diff}
use configd_extra.Nwi.Diff.Append.{named_in, IsValid?, marked}
use configd_extra.Nwi.Diff.Correct.{expected, diff-expected}
use configd_extra.Nwi.Diff.Halves.{entries_in, IsTyped?}
use configd_extra.Nwi.Diff.Populate.{appended}
use configd_extra.Nwi.Diff.Steps.{removal_of}
use configd_extra.Nwi.Entries.{IsFamily, entries, named, deref}
use configd_extra.Nwi.Entries.Found.{deref-get_ifstate_with_name}
use configd_extra.Nwi.Flags.{
  field, public_flags, not_in_iflist, flags_get_diff, set_diff_flags, ifstate_set_diff,
  diff_removed,
}
use configd_extra.Nwi.Lookup.{get_ifstate_with_name}
use configd_extra.Nwi.State.{Ifstate, State, IsValid, af_inet, af_inet6}

abbrev pub removed : Option Ifstate → Option Ifstate
removed none = none
removed (some i) = some (ifstate_set_diff i diff_removed)

abbrev pub marked_in : Option State → ℕ → Option Ifstate → Option Ifstate
marked_in old af none = none
marked_in old af (some i) = some (marked old af i)

-- The entry that the difference should have for a name: the new entry, marked against the old one;
-- or the old entry, removed.
abbrev pub outcome : Option State → Option State → ℕ → Bytes → Option Ifstate
outcome old new_state af name =
    or_else (marked_in old af (named_in new_state af name)) (removed (named_in old af name))

named-append :
    (name : Bytes) (xs ys : List Ifstate)
    → named name (xs ++ ys) ≡ or_else (named name xs) (named name ys)
named-append name [] ys = refl
named-append name (x ∷ xs) ys = ground (arith, named-append name xs ys)

named-map-marked :
    (old : Option State) (af : ℕ) (name : Bytes) (xs : List Ifstate)
    → named name (map (marked old af) xs) ≡ marked_in old af (named name xs)
unfolding ifstate_set_diff
named-map-marked old af name [] = refl
named-map-marked old af name (x ∷ xs) = ground (arith, named-map-marked old af name xs)

or_else-some : (a b : Option Ifstate) (i : Ifstate) → a ≡ some i → or_else a b ≡ a
or_else-some none b i e = absurd (cc)
or_else-some (some j) b i e = refl

named-appended :
    (name : Bytes) (acc xs : List Ifstate)
    → named name (acc ++ appended removal_of acc xs)
      ≡ or_else (named name acc) (removed (named name xs))
unfolding ifstate_set_diff
named-appended name acc [] = rw append-nil (sym (or_else-none (named name acc)))
named-appended name acc (x ∷ xs) = elim (Option-cases (named x.ifname acc)) [
  | inl missing ↦ rw missing (
      sym (
        ap (named name) (
          append_assoc acc (ifstate_set_diff x diff_removed ∷ [])
            (appended removal_of (acc ++ ifstate_set_diff x diff_removed ∷ []) xs)))
      ∙ named-appended name (acc ++ ifstate_set_diff x diff_removed ∷ []) xs
      ∙ ap (λ a. or_else a (removed (named name xs)))
          (named-append name acc (ifstate_set_diff x diff_removed ∷ []))
      ∙ or_else_assoc (named name acc) (named name (ifstate_set_diff x diff_removed ∷ []))
          (removed (named name xs))
      ∙ ap (or_else (named name acc)) (ground arith))
  | inr (i, found) ↦
      rw (found, append-nil)
        (named-appended name acc xs ∙ same_name (Bool-cases (equal name x.ifname)) found)
]
  where
    same_name :
        {i : Ifstate}
        → (equal name x.ifname ≡ true) ⊎ (equal name x.ifname ≡ false)
        → named x.ifname acc ≡ some i
        → or_else (named name acc) (removed (named name xs))
          ≡ or_else (named name acc) (removed (named name (x ∷ xs)))
    same_name {i} (inl same) found =
        let at : named name acc ≡ some i = rw ((equal_iff name x.ifname).0 same) found in
        or_else-some (named name acc) _ i at ∙ sym (or_else-some (named name acc) _ i at)
    same_name (inr other) found = rw other

named-expected :
    (old new_state : Option State) (af : ℕ) (name : Bytes)
    → named name (expected old new_state af) ≡ outcome old new_state af name
named-expected old new_state af name =
    named-appended name (map (marked old af) (entries_in new_state af)) (entries_in old af)
    ∙ ap₂_or
        (named-map-marked old af name (entries_in new_state af)
          ∙ ap (marked_in old af) (in_state new_state))
        (ap removed (in_state old))
  where
    in_state : (s : Option State) → named name (entries_in s af) ≡ named_in s af name
    in_state none = refl
    in_state (some s) = refl

    ap₂_or : {a a' b b' : Option Ifstate} → a ≡ a' → b ≡ b' → or_else a b ≡ or_else a' b'
    ap₂_or p q = λ i. or_else (p i) (q i)

-- The old and the new state may each be NULL; one that is not is valid, and its entries carry the
-- family they stand in. When either has an entry, `nwi_state_diff` gives a valid state and never
-- leaves an array. Looking up any name in either family of that state finds the entry of the new
-- state with the code of its change, or else the entry of the old state marked as removed, or
-- else nothing.
pub diff-outcome :
    (old new_state : Option State)
    → IsValid? old
    → IsValid? new_state
    → IsTyped? old
    → IsTyped? new_state
    → count_of old + count_of new_state ≢ 0
    → (d : State) × (diff old new_state ≡ some (some d))
      × IsValid d
      × ((af : ℕ) (name : Bytes)
          → IsFamily af
          → deref d (get_ifstate_with_name (some d) af name) ≡ outcome old new_state af name)
diff-outcome old new_state vo vn to tn ne =
    let (d, e, v, v4, v6) = diff-expected old new_state vo vn to tn ne in
    (d, e, v, λ af name f. found d v v4 v6 af name f)
  where
    found :
        (d : State)
        → IsValid d
        → entries d af_inet ≡ expected old new_state af_inet
        → entries d af_inet6 ≡ expected old new_state af_inet6
        → (af : ℕ) (name : Bytes) → IsFamily af
        → deref d (get_ifstate_with_name (some d) af name) ≡ outcome old new_state af name
    found d v v4 v6 af name f =
        deref-get_ifstate_with_name d af name v f
        ∙ ap (named name) (at f)
        ∙ named-expected old new_state af name
      where
        at : IsFamily af → entries d af ≡ expected old new_state af
        at (inl e) = subst (λ a. entries d a ≡ expected old new_state a) (sym e) v4
        at (inr e) = subst (λ a. entries d a ≡ expected old new_state a) (sym e) v6

-- Setting a diff code below 16 is read back, and keeps the public flags, the mark of the last
-- item and the mark that keeps an entry out of the interface list.
pub set_diff_flags-fields :
    (flags code : ℕ)
    → code < 16
    → (flags_get_diff (set_diff_flags flags code) ≡ code)
      × (public_flags (set_diff_flags flags code) ≡ public_flags flags)
      × (not_in_iflist (set_diff_flags flags code) ≡ not_in_iflist flags)
      × (field 12 1 (set_diff_flags flags code) ≡ field 12 1 flags)
unfolding set_diff_flags flags_get_diff public_flags not_in_iflist
set_diff_flags-fields flags code h = ground arith
