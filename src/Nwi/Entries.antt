-- ===== src/Nwi/Entries.antt =====
-- What the searches of network_state_information_priv.h find. The entries of a family are a
-- segment of the array; a search by name meets the first entry of that name, and no other slot.
pub mod Found
pub mod Written
use configd_extra.Base.{
  ℕ, zero, suc, ◌+◌, ◌-◌, ◌*◌, ◌≤◌, ◌<◌, ◌≡◌, refl, ap, ◌∙◌, ◌⊎◌, inl, inr, Bool, true, false, List,
  [], ◌∷◌, Option, none, some, Bytes, equal, length, get_elem?, leb, ltb, ◌==◌, if◌then◌else◌,
  Bool-cases, arith, segment, segment-suc, get_elem?_total, get_elem?-segment, equal_iff,
  length-segment,
}
use configd_extra.Nwi.State.{
  Ifstate, State, IsValid, af_inet, af_inet6, list_start, get_ifstate_count,
}
use configd_extra.Nwi.Lookup.{
  get_ifstate_with_index, has_name, find_name, find_in, get_ifstate_with_name,
}

abbrev pub IsFamily : ℕ → Type 0
IsFamily af = (af ≡ af_inet) ⊎ (af ≡ af_inet6)

abbrev pub entries : State → ℕ → List Ifstate
entries s af = segment s.ifstate_list (list_start s af) (get_ifstate_count s af)

-- The slot of the first entry of a name, for entries that begin at slot `base`.
abbrev pub slot_of : Bytes → ℕ → List Ifstate → Option ℕ
slot_of name base [] = none
slot_of name base (i ∷ is) = if equal name i.ifname then some base else slot_of name (base + 1) is

-- The first entry of a name.
abbrev pub named : Bytes → List Ifstate → Option Ifstate
named name [] = none
named name (i ∷ is) = if equal name i.ifname then some i else named name is

-- What a returned pointer refers to.
abbrev pub deref : State → Option ℕ → Option Ifstate
deref s none = none
deref s (some slot) = get_elem? s.ifstate_list slot

pub count_fits : (s : State) (af : ℕ) → IsValid s → get_ifstate_count s af ≤ s.max_if_count
unfolding get_ifstate_count
count_fits s af v = ground arith

pub list_start_fits :
    (s : State) (af : ℕ) → IsValid s → list_start s af + s.max_if_count ≤ length s.ifstate_list
unfolding list_start
list_start_fits s af v = ground arith

pub length-entries :
    (s : State) (af : ℕ) → IsValid s → length (entries s af) ≡ get_ifstate_count s af
length-entries s af v =
    length-segment s.ifstate_list (list_start s af) (get_ifstate_count s af)
      (omega (arith, count_fits s af v, list_start_fits s af v))

-- An index below the count names the slot at that distance from the start of its family.
pub get_ifstate_with_index-below :
    (s : State) (af idx slot : ℕ)
    → IsValid s
    → IsFamily af
    → idx < get_ifstate_count s af
    → slot ≡ list_start s af + idx
    → get_ifstate_with_index s af idx ≡ some slot
unfolding get_ifstate_with_index list_start
get_ifstate_with_index-below s af idx slot v f h e = ground arith

-- An index that is not below the count names nothing.
pub get_ifstate_with_index-above :
    (s : State) (af idx : ℕ) → get_ifstate_count s af ≤ idx → get_ifstate_with_index s af idx ≡ none
unfolding get_ifstate_with_index
get_ifstate_with_index-above s af idx h = ground arith

has_name-some :
    (s : State) (name : Bytes) (slot : ℕ) (i : Ifstate)
    → get_elem? s.ifstate_list slot ≡ some i
    → has_name s name slot ≡ equal name i.ifname
unfolding has_name
has_name-some s name slot i e = rw (e, has_name)

find_name-slot_of :
    (s : State) (af : ℕ) (name : Bytes)
    → IsValid s
    → IsFamily af
    → (rounds idx start : ℕ) → start ≡ list_start s af + idx
    → idx + rounds ≡ get_ifstate_count s af
    → find_name s af name rounds idx ≡ slot_of name start (segment s.ifstate_list start rounds)
unfolding find_name
find_name-slot_of s af name v f zero idx start e h = segment-nil s.ifstate_list start
  where
    segment-nil : (l : List Ifstate) (a : ℕ) → none ≡ slot_of name a (segment l a zero)
    segment-nil l a = go l a a
      where
        go : (l : List Ifstate) (a b : ℕ) → none ≡ slot_of name b (segment l a zero)
        go [] zero b = refl
        go [] (suc a) b = refl
        go (x ∷ l) zero b = refl
        go (x ∷ l) (suc a) b = go l a b
find_name-slot_of s af name v f (suc rounds) idx start e h =
    let fits = list_start_fits s af v in
    let counted = count_fits s af v in
    let (i, at) = get_elem?_total s.ifstate_list start (omega arith) in
    let ih =
      find_name-slot_of s af name v f rounds (idx + 1) (start + 1) (omega arith) (omega arith) in
    rw (segment-suc s.ifstate_list start (start + 1) rounds i (omega arith) at) (
      ground (
        arith,
        get_ifstate_with_index-below s af idx start v f (omega arith) e,
        has_name-some s name start i at,
        ih,
      ))

pub find_in-slot_of :
    (s : State) (af : ℕ) (name : Bytes)
    → IsValid s
    → IsFamily af
    → find_in s af name ≡ slot_of name (list_start s af) (entries s af)
unfolding find_in
find_in-slot_of s af name v f = ground (
  arith,
  count_fits s af v,
  find_name-slot_of s af name v f (get_ifstate_count s af) 0 (list_start s af) (omega arith)
      (omega arith),
)
