-- ===== src/Nwi/Diff/Populate.antt =====
-- The loops of `nwi_state_diff_populate`: each appends to its family, leaves the other alone, and
-- stays inside the array while there is room.
use configd_extra.Base.{
  ℕ, zero, suc, ◌+◌, ◌≤◌, ◌<◌, ◌≡◌, refl, sym, ap, subst, ◌∙◌, List, [], ◌∷◌, ◌++◌, append-nil,
  append_assoc, Option, some, length, length-append, get_elem?, arith, segment, segment-suc,
  get_elem?_total, segment_zero, All,
}
use configd_extra.Nwi.Add.Slots.{
  pushed, max-pushed, pushed-IsValid, entries-pushed_self, entries-pushed_other, count-pushed_self,
  count-pushed_other,
}
use configd_extra.Nwi.Diff.{each_entry}
use configd_extra.Nwi.Entries.{IsFamily, entries}
use configd_extra.Nwi.State.{Ifstate, State, IsValid, get_ifstate_count, other_af}

-- `d'` is `d` with the entries `xs` behind those of family `af`.
pub record Extends (af : ℕ) (d : State) (xs : List Ifstate) (d' : State) : Type 0 where
  pub valid : IsValid d'
  pub own : entries d' af ≡ entries d af ++ xs
  pub other : entries d' (other_af af) ≡ entries d (other_af af)
  pub max : d'.max_if_count ≡ d.max_if_count
  pub count : get_ifstate_count d' af ≡ get_ifstate_count d af + length xs
  pub count_other : get_ifstate_count d' (other_af af) ≡ get_ifstate_count d (other_af af)

pub Extends-nil : (af : ℕ) (d : State) → IsValid d → Extends af d [] d
Extends-nil af d v = record {
  valid = v;
  own = sym (append-nil (entries d af));
  other = refl;
  max = refl;
  count = omega arith;
  count_other = refl;
}

Extends-trans :
    {af : ℕ} {d d' d'' : State} {xs ys : List Ifstate}
    → Extends af d xs d'
    → Extends af d' ys d''
    → Extends af d (xs ++ ys) d''
Extends-trans {af} {d} {d'} {d''} {xs} {ys} p q = record {
  valid = q.valid;
  own = q.own ∙ ap (λ l. l ++ ys) p.own ∙ append_assoc (entries d af) xs ys;
  other = q.other ∙ p.other;
  max = q.max ∙ p.max;
  count = omega (arith, p.count, q.count, length-append xs ys);
  count_other = q.count_other ∙ p.count_other;
}

pub Extends-pushed :
    (d : State) (af : ℕ) (i : Ifstate)
    → IsValid d
    → IsFamily af
    → get_ifstate_count d af < d.max_if_count
    → Extends af d (i ∷ []) (pushed d af i)
Extends-pushed d af i v f room = record {
  valid = pushed-IsValid d af i v room;
  own = entries-pushed_self d af i v f room;
  other = entries-pushed_other d af i v room;
  max = max-pushed d af i v;
  count = omega (arith, count-pushed_self d af i v f);
  count_other = count-pushed_other d af i v;
}

abbrev pub HasFamily : ℕ → Ifstate → Type 0
HasFamily af i = i.af ≡ af

-- A loop whose step appends what `f` says of the entries so far, and of the entry at hand.
abbrev pub Appends :
    ℕ → (State → Ifstate → Option State) → (List Ifstate → Ifstate → List Ifstate) → Type 0
Appends af step f =
    (d : State) (i : Ifstate)
    → IsValid d
    → get_ifstate_count d af < d.max_if_count
    → HasFamily af i
    → (d' : State) × (step d i ≡ some d')
      × Extends af d (f (entries d af) i) d'
      × (length (f (entries d af) i) ≤ 1)

abbrev pub appended :
    (List Ifstate → Ifstate → List Ifstate) → List Ifstate → List Ifstate → List Ifstate
appended f acc [] = []
appended f acc (x ∷ xs) = f acc x ++ appended f (acc ++ f acc x) xs

each_entry_step :
    (step : State → Ifstate → Option State) (src : List Ifstate) (slot rounds : ℕ) (d d' : State)
    (i : Ifstate)
    → get_elem? src slot ≡ some i
    → step d i ≡ some d'
    → each_entry step src slot (suc rounds) d ≡ each_entry step src (slot + 1) rounds d'
unfolding each_entry
each_entry_step step src slot rounds d d' i at e = rw (at, e)

pub each_entry-Extends :
    (af : ℕ) (step : State → Ifstate → Option State) (f : List Ifstate → Ifstate → List Ifstate)
    → Appends af step f
    → (src : List Ifstate) (rounds slot : ℕ) (d : State) → IsValid d
    → slot + rounds ≤ length src
    → get_ifstate_count d af + rounds ≤ d.max_if_count
    → All (HasFamily af) (segment src slot rounds)
    → (d' : State) × (each_entry step src slot rounds d ≡ some d')
      × Extends af d (appended f (entries d af) (segment src slot rounds)) d'
unfolding each_entry
each_entry-Extends af step f app src zero slot d v fits room typed =
    (d, refl, rw (segment_zero src slot) (Extends-nil af d v))
each_entry-Extends af step f app src (suc rounds) slot d v fits room typed =
    let (i, at) = get_elem?_total src slot (omega arith) in
    let e = segment-suc src slot (slot + 1) rounds i (omega arith) at in
    let typed' : All (HasFamily af) (i ∷ segment src (slot + 1) rounds) = rw e at typed in
    let (d1, stepped, ext, small) = app d i v (omega arith) typed'.0 in
    let (d2, looped, ext') =
      each_entry-Extends af step f app src rounds (slot + 1) d1 ext.valid (omega arith)
        (omega (arith, ext.count, ext.max)) typed'.1 in
    (
      d2,
      each_entry_step step src slot rounds d d1 i at stepped ∙ looped,
      rw e (
          Extends-trans ext (
            subst (λ acc. Extends af d1 (appended f acc (segment src (slot + 1) rounds)) d2) ext.own
              ext')),
    )
