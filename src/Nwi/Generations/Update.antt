-- ===== src/Nwi/Generations/Update.antt =====
-- `_nwi_state_update_interface_generations` after `nwi_state_diff`: no assertion fails, and the
-- generation of every entry is determined.
use configd_extra.Base.{
  ℕ, ◌≡◌, refl, sym, subst, ◌∙◌, inl, inr, Bool, true, false, not, List, [], ◌∷◌, ◌++◌, map, Option,
  none, some, Bytes, equal, equal_iff, equal_refl, arith, traverse, All, if◌then◌else◌, Bool-cases,
  Option-cases, ◌==◌, append_assoc,
}
use configd_extra.Nwi.Diff.Append.{named_in, IsValid?, marked}
use configd_extra.Nwi.Diff.Outcome.{outcome, set_diff_flags-fields}
use configd_extra.Nwi.Entries.{IsFamily, entries, named, deref}
use configd_extra.Nwi.Entries.Found.{get_ifstate_with_name-cases}
use configd_extra.Nwi.Flags.{ifstate_get_diff, ifstate_set_diff, diff_unchanged}
use configd_extra.Nwi.Generations.{
  set_generation, marks_change, interface_has_changed, asserted, keep_generation, update_v4,
  update_v6,
}
use configd_extra.Nwi.Lookup.{get_ifstate_with_name}
use configd_extra.Nwi.State.{Ifstate, State, IsValid, af_inet, af_inet6}

-- Whether an entry of a difference, if there is one, says that something changed.
abbrev pub says_changed : Option Ifstate → Bool
says_changed none = false
says_changed (some i) = not (ifstate_get_diff i == diff_unchanged)

-- An interface changed when either family did.
abbrev pub is_changed : Option State → State → Bytes → Bool
is_changed old s name =
    if says_changed (outcome old (some s) af_inet name)
    then true
    else says_changed (outcome old (some s) af_inet6 name)

abbrev pub generation_in : Option Ifstate → ℕ
generation_in none = 0
generation_in (some i) = i.if_generation_count

-- The state's generation for a changed interface, and otherwise the one that the old entry had.
abbrev pub next_generation : Option State → State → ℕ → Ifstate → ℕ
next_generation old s af i =
    if is_changed old s i.ifname
    then s.generation_count
    else generation_in (named_in old af i.ifname)

abbrev pub updated_v4 : Option State → State → Ifstate → Ifstate
updated_v4 old s i = set_generation i (next_generation old s af_inet i)

-- An IPv6 entry that has the state's generation already is left as it is.
abbrev pub updated_v6 : Option State → State → Ifstate → Ifstate
updated_v6 old s i =
    if i.if_generation_count == s.generation_count
    then i
    else set_generation i (next_generation old s af_inet6 i)

marks_change-lem :
    (d : State) (af : ℕ) (name : Bytes) (o : Option Ifstate)
    → IsValid d
    → IsFamily af
    → deref d (get_ifstate_with_name (some d) af name) ≡ o
    → marks_change d (get_ifstate_with_name (some d) af name) ≡ some (says_changed o)
unfolding marks_change
marks_change-lem d af name o v f e = elim (get_ifstate_with_name-cases d af name v f) [
  | inl (missing, _) ↦ rw missing (ground (arith, rw missing at e))
  | inr (slot, i, found, _, at, _, _, _) ↦
      let e' : some i ≡ o = sym at ∙ (rw found at e) in rw (found, marks_change) (rw (at, ← e'))
]

asserted-lem :
    (old : Option State) (af : ℕ) (name : Bytes) (i : Ifstate)
    → IsValid? old
    → IsFamily af
    → named_in old af name ≡ some i
    → asserted old (get_ifstate_with_name old af name) ≡ some i
unfolding asserted
asserted-lem none af name i v f e = absurd (cc)
asserted-lem (some old) af name i v f e = elim (get_ifstate_with_name-cases old af name v f) [
  | inl (_, missing) ↦ absurd (cc)
  | inr (slot, j, found, is_named, at, _, _, _) ↦ rw (found, asserted) (cc)
]

-- The code of an addition is read back as a change.
added-says_changed :
    (old : Option State) (af : ℕ) (i : Ifstate)
    → named_in old af i.ifname ≡ none
    → says_changed (some (marked old af i)) ≡ true
unfolding ifstate_get_diff ifstate_set_diff
added-says_changed old af i e = rw e (ground (arith, set_diff_flags-fields i.flags 1 (omega arith)))

named_self :
    (xs : List Ifstate) (name : Bytes) (i : Ifstate) → named name xs ≡ some i → i.ifname ≡ name
named_self [] name i e = absurd (cc)
named_self (x ∷ xs) name i e = elim (Bool-cases (equal name x.ifname)) [
  | inl same ↦
      let e' : some x ≡ some i = rw same at e in
      subst (λ o. generation_name o ≡ name) e' (sym ((equal_iff name x.ifname).0 same))
  | inr other ↦ named_self xs name i (rw other at e)
]
  where
    generation_name : Option Ifstate → Bytes
    generation_name none = []
    generation_name (some j) = j.ifname

-- An entry that the difference does not report as changed was there before.
unchanged_was_there :
    (old : Option State) (s : State) (af : ℕ) (name : Bytes) (y : Ifstate)
    → named name (entries s af) ≡ some y
    → says_changed (outcome old (some s) af name) ≡ false
    → (e : Ifstate) × (named_in old af name ≡ some e)
unchanged_was_there old s af name y is_new quiet = elim (Option-cases (named_in old af name)) [
  | inr (e, there) ↦ (e, there)
  | inl missing ↦
      let same = named_self (entries s af) name y is_new in
      let quiet' : says_changed (some (marked old af y)) ≡ false = rw is_new at quiet in
      absurd (cc (added-says_changed old af y (rw same missing), quiet'))
]

abbrev pub Named : Bytes → List Ifstate → Type 0
Named name xs = (y : Ifstate) × (named name xs ≡ some y)

Named-total : (pre post : List Ifstate) (i : Ifstate) → Named i.ifname (pre ++ (i ∷ post))
Named-total [] post i = (i, rw (equal_refl i.ifname))
Named-total (x ∷ pre) post i = elim (Bool-cases (equal i.ifname x.ifname)) [
  | inl same ↦ (x, rw same)
  | inr other ↦ rw other (Named-total pre post i)
]

pub All-Named :
    (pre post whole : List Ifstate) → whole ≡ pre ++ post → All (λ i. Named i.ifname whole) post
All-Named pre [] whole e = tt
All-Named pre (i ∷ post) whole e = (
  subst (Named i.ifname) (sym e) (Named-total pre post i),
  All-Named (pre ++ i ∷ []) post whole (e ∙ sym (append_assoc pre (i ∷ []) post)),
)

pub traverse-map :
    (f : Ifstate → Option Ifstate) (g : Ifstate → Ifstate) (whole xs : List Ifstate)
    → ((i : Ifstate) → Named i.ifname whole → f i ≡ some (g i))
    → All (λ i. Named i.ifname whole) xs
    → traverse f xs ≡ some (map g xs)
unfolding traverse
traverse-map f g whole [] h a = refl
traverse-map f g whole (x ∷ xs) h a = rw (h x a.0, traverse-map f g whole xs h a.1)

-- The difference of `old` and `s`, as far as it is looked up.
abbrev pub Reports : Option State → State → State → Type 0
Reports old s d =
    (af : ℕ) (name : Bytes)
    → IsFamily af
    → deref d (get_ifstate_with_name (some d) af name) ≡ outcome old (some s) af name

module _ (old : Option State) (s d : State) (vo : IsValid? old) (vs : IsValid s) (vd : IsValid d)
    (reports : Reports old s d) where
  interface_has_changed-lem :
      (name : Bytes) → interface_has_changed d name ≡ some (is_changed old s name)
  unfolding interface_has_changed
  interface_has_changed-lem name = rw (
    marks_change-lem d af_inet name _ vd (inl refl) (reports af_inet name (inl refl)),
    marks_change-lem d af_inet6 name _ vd (inr refl) (reports af_inet6 name (inr refl)),
  )

  kept :
      (af : ℕ) (i : Ifstate)
      → IsFamily af
      → Named i.ifname (entries s af)
      → says_changed (outcome old (some s) af i.ifname) ≡ false
      → keep_generation old af i
        ≡ some (set_generation i (generation_in (named_in old af i.ifname)))
  unfolding keep_generation
  kept af i f (y, is_new) quiet =
      let (e, there) = unchanged_was_there old s af i.ifname y is_new quiet in
      rw (asserted-lem old af i.ifname e vo f there, there)

  quiet_v4 :
      (name : Bytes)
      → is_changed old s name ≡ false
      → says_changed (outcome old (some s) af_inet name) ≡ false
  quiet_v4 name h = ground arith

  quiet_v6 :
      (name : Bytes)
      → is_changed old s name ≡ false
      → says_changed (outcome old (some s) af_inet6 name) ≡ false
  quiet_v6 name h = ground arith

  pub update_v4-lem :
      (i : Ifstate)
      → Named i.ifname (entries s af_inet)
      → update_v4 old d s.generation_count i ≡ some (updated_v4 old s i)
  unfolding update_v4
  update_v4-lem i is_new = elim (Bool-cases (is_changed old s i.ifname)) [
    | inl changed ↦ rw (interface_has_changed-lem i.ifname, changed)
    | inr same ↦
        rw (interface_has_changed-lem i.ifname, same)
          (kept af_inet i (inl refl) is_new (quiet_v4 i.ifname same))
  ]

  pub update_v6-lem :
      (i : Ifstate)
      → Named i.ifname (entries s af_inet6)
      → update_v6 old d s.generation_count i ≡ some (updated_v6 old s i)
  unfolding update_v6
  update_v6-lem i is_new = elim (Bool-cases (i.if_generation_count == s.generation_count)) [
    | inl done ↦ rw done
    | inr todo ↦ rw todo (elim (Bool-cases (is_changed old s i.ifname)) [
      | inl changed ↦ rw (interface_has_changed-lem i.ifname, changed)
      | inr same ↦
          rw (interface_has_changed-lem i.ifname, same)
            (kept af_inet6 i (inr refl) is_new (quiet_v6 i.ifname same))
    ])
  ]
