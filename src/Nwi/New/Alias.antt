-- ===== src/Nwi/New/Alias.antt =====
-- Alias offsets of a grown state: the two entries of an interface still lead to one another.
use configd_extra.Base.{
  ℕ, zero, suc, ◌+◌, ◌-◌, ◌≤◌, ◌<◌, ◌≡◌, refl, ap, ◌∙◌, false, List, [], ◌∷◌, map, Option, none,
  some, Bytes, ◌≢◌, inl, inr, Bool-cases, get_elem?, arith, leb, ◌==◌, if◌then◌else◌,
}
use configd_extra.Base.Int.{ℤ, pos, ◌+ℤ◌, ◌-ℤ◌}
use configd_extra.Nwi.Entries.{entries}
use configd_extra.Nwi.Lookup.{is_zero, get_alias}
use configd_extra.Nwi.New.{to_int32, alias_offset_delta, new}
use configd_extra.Nwi.New.Grow.{
  size_limit, shifted, shift_v4, shift_v6, alias_offset_delta-lem, grow-lem,
}
use configd_extra.Nwi.State.{Ifstate, State, IsValid, af_inet, af_inet6}

abbrev pub ifname_of : Ifstate → Bytes
ifname_of i = i.ifname

same_names : (f : ℤ → ℤ) (xs : List Ifstate) → map ifname_of (map (shifted f) xs) ≡ map ifname_of xs
same_names f [] = refl
same_names f (x ∷ xs) = ground (arith, same_names f xs)

not_leb : (m n : ℕ) → m < n → leb n m ≡ false
not_leb m n h = ground arith

get_elem?-map :
    (f : Ifstate → Ifstate) (xs : List Ifstate) (k : ℕ) (i : Ifstate)
    → get_elem? xs k ≡ some i
    → get_elem? (map f xs) k ≡ some (f i)
get_elem?-map f [] k i e = absurd (cc)
get_elem?-map f (x ∷ xs) zero i e = cc
get_elem?-map f (x ∷ xs) (suc k) i e = get_elem?-map f xs k i e

forward :
    (z : ℤ) (k j m n d : ℕ)
    → d ≡ n - m
    → m ≤ n
    → n < size_limit
    → k < m
    → j < m
    → pos k +ℤ z ≡ pos (m + j)
    → pos k +ℤ to_int32 (z +ℤ pos d) ≡ pos (n + j)
unfolding to_int32 ◌+ℤ◌
forward z k j m n d ed h1 h2 h3 h4 e = ground arith

backward :
    (z : ℤ) (k j m n d : ℕ)
    → d ≡ n - m
    → m ≤ n
    → n < size_limit
    → k < m
    → j < m
    → pos (m + j) +ℤ z ≡ pos k
    → pos (n + j) +ℤ to_int32 (z -ℤ pos d) ≡ pos k
unfolding to_int32 ◌+ℤ◌ ◌-ℤ◌
backward z k j m n d ed h1 h2 h3 h4 e = ground arith

-- An alias elsewhere is that of another family, by an offset that is not zero.
get_alias-elsewhere :
    (i : Ifstate) (slot af target : ℕ)
    → target ≢ slot
    → get_alias i slot af ≡ some (pos target)
    → ((i.af == af) ≡ false)
      × (is_zero i.af_alias_offset ≡ false)
      × (pos slot +ℤ i.af_alias_offset ≡ pos target)
unfolding get_alias
get_alias-elsewhere i slot af target ne e = elim (Bool-cases (i.af == af)) [
  | inl same ↦ let h : some (pos slot) ≡ some (pos target) = rw same at e in absurd (ground arith)
  | inr other ↦ elim (Bool-cases (is_zero i.af_alias_offset)) [
    | inl zero_offset ↦
        let h : ◌≡◌ {A = Option ℤ} none (some (pos target)) = rw (other, zero_offset) at e in
        absurd (cc)
    | inr offset ↦
        let h : some (pos slot +ℤ i.af_alias_offset) ≡ some (pos target) =
          rw (other, offset) at e in
        (other, offset, cc)
  ]
]

not_zero : (z : ℤ) (k target : ℕ) → target ≢ k → pos k +ℤ z ≡ pos target → is_zero z ≡ false
unfolding ◌+ℤ◌
not_zero z k target ne e = ground arith

get_alias-at :
    (i : Ifstate) (z : ℤ) (slot af target : ℕ)
    → target ≢ slot
    → (i.af == af) ≡ false
    → pos slot +ℤ z ≡ pos target
    → get_alias (record i { af_alias_offset = z }) slot af ≡ some (pos target)
unfolding get_alias
get_alias-at i z slot af target ne other e = rw (other, not_zero z slot target ne e, e)

shifted-nonzero :
    (f : ℤ → ℤ) (i : Ifstate)
    → is_zero i.af_alias_offset ≡ false
    → shifted f i ≡ record i { af_alias_offset = f i.af_alias_offset }
shifted-nonzero f i e = rw e

module _ (i : Ifstate) (k j m n : ℕ) (h1 : m ≤ n) (h2 : n < size_limit) (h3 : k < m)
    (h4 : j < m) where
  alias-shift_v4 :
      get_alias i k af_inet6 ≡ some (pos (m + j))
      → get_alias (shift_v4 (alias_offset_delta n m) i) k af_inet6 ≡ some (pos (n + j))
  alias-shift_v4 e =
      let (other, offset, at) = get_alias-elsewhere i k af_inet6 (m + j) (omega arith) e in
      rw (shifted-nonzero _ i offset) (
        get_alias-at i _ k af_inet6 (n + j) (omega arith) other (
          forward i.af_alias_offset k j m n (alias_offset_delta n m)
            (alias_offset_delta-lem n m h1 h2) h1 h2 h3 h4 at))

  alias-shift_v6 :
      get_alias i (m + j) af_inet ≡ some (pos k)
      → get_alias (shift_v6 (alias_offset_delta n m) i) (n + j) af_inet ≡ some (pos k)
  alias-shift_v6 e =
      let (other, offset, at) = get_alias-elsewhere i (m + j) af_inet k (omega arith) e in
      rw (shifted-nonzero _ i offset) (
        get_alias-at i _ (n + j) af_inet k (omega arith) other (
          backward i.af_alias_offset k j m n (alias_offset_delta n m)
            (alias_offset_delta-lem n m h1 h2) h1 h2 h3 h4 at))

-- The entry at a position of a family, with the entry that it leads to.
abbrev pub LeadsTo : State → ℕ → ℕ → ℕ → ℕ → Type 0
LeadsTo s af k slot target =
    (i : Ifstate) × (get_elem? (entries s af) k ≡ some i)
    × (get_alias i slot (if af == af_inet then af_inet6 else af_inet) ≡ some (pos target))

-- Growing a valid state (to fewer than 2^30 slots for each family) gives a valid state of the size
-- asked for, with no access outside an array. Each entry of the old state has its position in its
-- family still, and where the IPv4 entry at position k led to the IPv6 entry at position j, or the
-- other way round, it does so in the grown array.
pub new-LeadsTo :
    (old : State) (n : ℕ)
    → IsValid old
    → old.max_if_count < n
    → n < size_limit
    → (s : State) × (new (some old) n ≡ some (some s))
      × IsValid s
      × (s.max_if_count ≡ n)
      × (map ifname_of (entries s af_inet) ≡ map ifname_of (entries old af_inet))
      × (map ifname_of (entries s af_inet6) ≡ map ifname_of (entries old af_inet6))
      × ((k j : ℕ)
          → k < old.max_if_count
          → j < old.max_if_count
          → (LeadsTo old af_inet k k (old.max_if_count + j) → LeadsTo s af_inet k k (n + j))
            × (LeadsTo old af_inet6 j (old.max_if_count + j) k → LeadsTo s af_inet6 j (n + j) k))
unfolding new
new-LeadsTo old n v bigger small =
    let (s, grown, valid, max, v4, v6) = grow-lem old n v (omega arith) in
    let d = alias_offset_delta n old.max_if_count in
    (
      s,
      rw (not_leb old.max_if_count n bigger, grown),
      valid,
      max,
      ap (map ifname_of) v4 ∙ same_names _ (entries old af_inet),
      ap (map ifname_of) v6 ∙ same_names _ (entries old af_inet6),
      λ k j hk hj. (
        λ (i, at, leads). (
          shift_v4 d i,
          rw v4 (get_elem?-map (shift_v4 d) (entries old af_inet) k i at),
          alias-shift_v4 i k j old.max_if_count n (omega arith) small hk hj leads,
        ),
        λ (i, at, leads). (
          shift_v6 d i,
          rw v6 (get_elem?-map (shift_v6 d) (entries old af_inet6) j i at),
          alias-shift_v6 i k j old.max_if_count n (omega arith) small hk hj leads,
        ),
      ),
    )
