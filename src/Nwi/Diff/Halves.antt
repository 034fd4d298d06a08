-- ===== src/Nwi/Diff/Halves.antt =====
-- A loop of `nwi_state_diff_populate` over both halves of a state.
use configd_extra.Base.{
  ℕ, ◌+◌, ◌≤◌, ◌≡◌, refl, sym, subst, ◌∙◌, List, [], ◌∷◌, ◌++◌, append-nil, Option, none, some,
  length, length-append, arith,
}
use configd_extra.Nwi.Diff.{each_entry, each_half}
use configd_extra.Nwi.Diff.Append.{IsValid?}
use configd_extra.Nwi.Diff.Populate.{Appends, appended, each_entry-Extends}
use configd_extra.Nwi.Diff.Steps.{IsTyped}
use configd_extra.Nwi.Entries.{entries, length-entries}
use configd_extra.Nwi.State.{
  Ifstate, State, IsValid, af_inet, af_inet6, list_start, get_ifstate_count, other_af,
}

abbrev pub Body : Type 0
Body = List Ifstate → Ifstate → List Ifstate

-- What a loop over the entries `xs4` and `xs6` has made of `d`.
pub record Loops (f4 f6 : Body) (xs4 xs6 : List Ifstate) (d d' : State) : Type 0 where
  pub valid : IsValid d'
  pub v4 : entries d' af_inet ≡ entries d af_inet ++ appended f4 (entries d af_inet) xs4
  pub v6 : entries d' af_inet6 ≡ entries d af_inet6 ++ appended f6 (entries d af_inet6) xs6
  pub max : d'.max_if_count ≡ d.max_if_count

each_half-step :
    (step : State → Ifstate → Option State) (s d d' : State)
    → each_entry step s.ifstate_list 0 s.ipv4_count d ≡ some d'
    → each_half step (some s) d ≡ each_entry step s.ifstate_list s.max_if_count s.ipv6_count d'
unfolding each_half
each_half-step step s d d' e = rw e

-- The entries of a state that may be NULL.
abbrev pub entries_in : Option State → ℕ → List Ifstate
entries_in none af = []
entries_in (some s) af = entries s af

abbrev pub IsTyped? : Option State → Type 0
IsTyped? none = Unit {0}
IsTyped? (some s) = IsTyped s

module _ (f4 f6 : Body) (step : State → Ifstate → Option State) (app4 : Appends af_inet step f4)
    (app6 : Appends af_inet6 step f6) where
  -- With room for as many entries as `s` has, the loop stays inside the array.
  pub each_half-Loops :
      (s : Option State) (d : State)
      → IsValid? s
      → IsTyped? s
      → IsValid d
      → get_ifstate_count d af_inet + length (entries_in s af_inet) ≤ d.max_if_count
      → get_ifstate_count d af_inet6 + length (entries_in s af_inet6) ≤ d.max_if_count
      → (d' : State) × (each_half step s d ≡ some d')
        × Loops f4 f6 (entries_in s af_inet) (entries_in s af_inet6) d d'
  unfolding other_af get_ifstate_count list_start each_half
  each_half-Loops none d vs typed vd room4 room6 =
      (d, refl, record { valid = vd; v4 = sym (append-nil _); v6 = sym (append-nil _); max = refl })
  each_half-Loops (some s) d vs typed vd room4 room6 =
      let (d1, e1, x1) =
        each_entry-Extends af_inet step f4 app4 s.ifstate_list s.ipv4_count 0 d vd
          (omega (arith, vs.slots, vs.v4_fits)) (omega (arith, length-entries s af_inet vs))
          typed.typed_v4 in
      let (d2, e2, x2) =
        each_entry-Extends af_inet6 step f6 app6 s.ifstate_list s.ipv6_count s.max_if_count d1
          x1.valid (omega (arith, vs.slots, vs.v6_fits))
          (omega (arith, x1.count_other, x1.max, length-entries s af_inet6 vs)) typed.typed_v6 in
      (
        d2,
        each_half-step step s d d1 e1 ∙ e2,
        record {
          valid = x2.valid;
          v4 = x2.other ∙ x1.own;
          v6 =
              subst (λ acc. entries d2 af_inet6 ≡ acc ++ appended f6 acc (entries s af_inet6))
                x1.other x2.own;
          max = x2.max ∙ x1.max;
        },
      )

pub length-appended :
    (f : Body) (xs acc : List Ifstate)
    → ((acc : List Ifstate) (x : Ifstate) → length (f acc x) ≤ 1)
    → length (appended f acc xs) ≤ length xs
length-appended f [] acc h = omega arith
length-appended f (x ∷ xs) acc h = omega (
  arith,
  length-append (f acc x) (appended f (acc ++ f acc x) xs),
  h acc x,
  length-appended f xs (acc ++ f acc x) h,
)
