-- ===== src/Nwi/Add/Names.antt =====
-- The names in the families of a state after `nwi_state_add_ifstate`.
use configd_extra.Base.{
  bind_some, elim_some, elim_none, get_elem?_total, ℕ, zero, suc, ◌+◌, ◌<◌, ◌≡◌, refl, ap, ap₂, sym,
  ◌∙◌, inl, inr, List, [], ◌∷◌, ◌++◌, some, Bytes, map, length, get_elem?, arith, if◌then◌else◌,
  ◌>>=◌, segment, ◌==◌,
}
use configd_extra.Nwi.Add.{
  Args, last_slot, write_slot, new_entry, add_alias, append_entry, link, update_slot,
}
use configd_extra.Nwi.Add.Keeps.{
  Keeps, Keeps-refl, Keeps-trans, Keeps-length, Keeps-IsValid, get_elem?-lt, unmark_last-Keeps,
  update_slot-Keeps, link-Keeps,
}
use configd_extra.Nwi.Add.Slots.{
  put, pushed, write_slot-some, last_slot-eq, last_slot-lt, max-pushed, pushed-IsValid,
  entries-pushed_self, entries-pushed_other,
}
use configd_extra.Nwi.Entries.{IsFamily, entries, list_start_fits}
use configd_extra.Nwi.Entries.Found.{get_ifstate_with_name-cases}
use configd_extra.Nwi.New.Alias.{ifname_of}
use configd_extra.Nwi.State.{
  Ifstate, State, IsValid, af_inet, other_af, get_ifstate_count, set_count, list_start,
}

-- The names of the entries of a family, in order.
abbrev pub names : State → ℕ → List Bytes
names s af = map ifname_of (entries s af)

map-segment :
    (l : List Ifstate) (a n : ℕ) → map ifname_of (segment l a n) ≡ segment (map ifname_of l) a n
map-segment [] zero zero = refl
map-segment [] zero (suc n) = refl
map-segment (x ∷ l) zero zero = refl
map-segment (x ∷ l) zero (suc n) = ap (◌∷◌ x.ifname) (map-segment l zero n)
map-segment [] (suc a) n = refl
map-segment (x ∷ l) (suc a) n = map-segment l a n

map-append_one :
    (l : List Ifstate) (i : Ifstate)
    → map ifname_of (l ++ (i ∷ [])) ≡ map ifname_of l ++ (i.ifname ∷ [])
map-append_one [] i = refl
map-append_one (x ∷ l) i = ap (◌∷◌ x.ifname) (map-append_one l i)

module _ (s s' : State) (k : Keeps s s') where
  Keeps-list_start : (af : ℕ) → list_start s' af ≡ list_start s af
  unfolding list_start
  Keeps-list_start af = ap (λ m. if af == af_inet then 0 else m) k.max

  Keeps-count : (af : ℕ) → get_ifstate_count s' af ≡ get_ifstate_count s af
  unfolding get_ifstate_count
  Keeps-count af = ap₂ (λ a b. if af == af_inet then a else b) k.count4 k.count6

  pub Keeps-names : (af : ℕ) → names s' af ≡ names s af
  Keeps-names af =
      map-segment s'.ifstate_list (list_start s' af) (get_ifstate_count s' af)
      ∙ rw (k.names, Keeps-list_start af, Keeps-count af)
          (sym (map-segment s.ifstate_list (list_start s af) (get_ifstate_count s af)))

  Keeps-last_slot : (af : ℕ) → last_slot s' af ≡ last_slot s af
  Keeps-last_slot af =
      last_slot-eq s' af
      ∙ ap₂ (λ a b. a + b) (Keeps-list_start af) (Keeps-count af)
      ∙ sym (last_slot-eq s af)

other_af-IsFamily : (af : ℕ) → IsFamily (other_af af)
unfolding other_af
other_af-IsFamily af = ground arith

add_alias-Keeps :
    (s : State) (slot : ℕ)
    → IsValid s
    → slot < length s.ifstate_list
    → (s' : State) × (add_alias s slot ≡ some s') × Keeps s s'
unfolding add_alias
add_alias-Keeps s slot v h =
    let (i, at) = get_elem?_total s.ifstate_list slot h in
    let back = bind_some (get_elem? s.ifstate_list slot) _ i at in
    elim (get_ifstate_with_name-cases s (other_af i.af) i.ifname v (other_af-IsFamily i.af)) [
      | inl (e, _) ↦ (s, back ∙ elim_none _ (link s slot) _ e, Keeps-refl s)
      | inr (alias, j, e, _, at', _, _, _) ↦
          let (s', e', k) = link-Keeps s slot alias h (get_elem?-lt s.ifstate_list alias j at') in
          (s', back ∙ elim_some _ (link s slot) _ alias e ∙ e', k)
    ]

count-put :
    (s : State) (slot : ℕ) (i : Ifstate) (af : ℕ)
    → get_ifstate_count (put s slot i) af ≡ get_ifstate_count s af
unfolding get_ifstate_count
count-put s slot i af = refl

write_pushed :
    (s : State) (slot af : ℕ) (i : Ifstate)
    → slot ≡ last_slot s af
    → slot < length s.ifstate_list
    → (write_slot s slot i >>= λ s2. some (set_count s2 af (get_ifstate_count s2 af + 1)))
      ≡ some (pushed s af i)
write_pushed s slot af i e h =
    bind_some _ _ (put s slot i) (write_slot-some s slot i h)
    ∙ ap (λ n. some (set_count (put s slot i) af (n + 1))) (count-put s slot i af)
    ∙ ap (λ l. some (set_count (put s l i) af (get_ifstate_count s af + 1))) e

-- A state with room for the entry that is appended.
module _ (s : State) (name : Bytes) (af : ℕ) (v : IsValid s) (f : IsFamily af)
    (room : get_ifstate_count s af < s.max_if_count) where
  -- The state before the write of the new entry.
  append_entry-pushed :
      (s1 : State) × (append_entry s name af ≡ some (pushed s1 af (new_entry name af))) × Keeps s s1
  unfolding append_entry
  append_entry-pushed =
      let start = list_start_fits s af v in
      let (s1, e, k) =
        unmark_last-Keeps s (get_ifstate_count s af) (last_slot s af)
          (omega (arith, last_slot-lt s af v room)) (omega (arith, last_slot-eq s af)) in
      let same = Keeps-last_slot s s1 k af in
      (
        s1,
        bind_some _ _ s1 e
            ∙ write_pushed s1 (last_slot s af) af (new_entry name af) (sym same)
                (omega (arith, last_slot-lt s af v room, Keeps-length s s1 k)),
        k,
      )

  -- Every step behind the guard for a full family.
  pub append-outcome :
      (a : Args)
      → (s' : State) × ((do
        t1 ← append_entry s name af
        t2 ← add_alias t1 (last_slot s af)
        update_slot t2 af a (last_slot s af))
          ≡ some (s', some (last_slot s af)))
        × IsValid s'
        × (s'.max_if_count ≡ s.max_if_count)
        × (names s' af ≡ names s af ++ ((new_entry name af).ifname ∷ []))
        × (names s' (other_af af) ≡ names s (other_af af))
  append-outcome a =
      let (s1, e1, k1) = append_entry-pushed in
      let v1 = Keeps-IsValid s s1 k1 v in
      let room1 : get_ifstate_count s1 af < s1.max_if_count =
        omega (arith, room, Keeps-count s s1 k1 af, k1.max) in
      let i = new_entry name af in
      let p = pushed s1 af i in
      let vp = pushed-IsValid s1 af i v1 room1 in
      let inside : last_slot s af < length p.ifstate_list =
        omega (arith, last_slot-lt s af v room, v.slots, vp.slots, max-pushed s1 af i v1, k1.max) in
      let (s2, e2, k2) = add_alias-Keeps p (last_slot s af) vp inside in
      let (s3, e3, k3) =
        update_slot-Keeps s2 af a (last_slot s af) (omega (arith, inside, Keeps-length p s2 k2)) in
      let k = Keeps-trans p s2 s3 k2 k3 in
      (
        s3,
        bind_some _ _ p e1 ∙ bind_some _ _ s2 e2 ∙ e3,
        Keeps-IsValid p s3 k vp,
        k.max ∙ max-pushed s1 af i v1 ∙ k1.max,
        Keeps-names p s3 k af
            ∙ ap (map ifname_of) (entries-pushed_self s1 af i v1 f room1)
            ∙ map-append_one (entries s1 af) i
            ∙ ap (λ l. l ++ (i.ifname ∷ [])) (Keeps-names s s1 k1 af),
        Keeps-names p s3 k (other_af af)
            ∙ ap (map ifname_of) (entries-pushed_other s1 af i v1 room1)
            ∙ Keeps-names s s1 k1 (other_af af),
      )
