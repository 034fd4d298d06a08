-- ===== src/Nwi/Add/Keeps.antt =====
-- The writes of `nwi_state_add_ifstate` that leave the names and the counts of a state alone.
use configd_extra.Base.{
  bind_some, ℕ, zero, suc, ◌-◌, ◌≤◌, ◌<◌, ◌≡◌, refl, ap, sym, ◌∙◌, inl, inr, List, [], ◌∷◌, Option,
  none, some, Bytes, map, length, get_elem?, set, length-map, get_elem?_total, arith, ltb,
  Bool-cases,
}
use configd_extra.Base.Int.{sub_ℕ}
use configd_extra.Nwi.Add.{
  Args, Sockaddr, write_slot, unmark_slot, unmark_last, link, update_fields, update_slot,
  set_address, set_vpn_server,
}
use configd_extra.Nwi.Add.Slots.{put, write_slot-some}
use configd_extra.Nwi.Flags.{clear_last_item}
use configd_extra.Nwi.New.Alias.{ifname_of}
use configd_extra.Nwi.State.{Ifstate, State, IsValid}

-- `s'` is `s` but for the fields of its entries that are not their names.
pub record Keeps (s s' : State) : Type 0 where
  pub names : map ifname_of s'.ifstate_list ≡ map ifname_of s.ifstate_list
  pub max : s'.max_if_count ≡ s.max_if_count
  pub count4 : s'.ipv4_count ≡ s.ipv4_count
  pub count6 : s'.ipv6_count ≡ s.ipv6_count
  pub indices : s'.if_list ≡ s.if_list
  pub listed : s'.if_list_count ≡ s.if_list_count

pub Keeps-refl : (s : State) → Keeps s s
Keeps-refl s = record {
  names = refl;
  max = refl;
  count4 = refl;
  count6 = refl;
  indices = refl;
  listed = refl;
}

pub Keeps-trans : (s t u : State) → Keeps s t → Keeps t u → Keeps s u
Keeps-trans s t u a b = record {
  names = b.names ∙ a.names;
  max = b.max ∙ a.max;
  count4 = b.count4 ∙ a.count4;
  count6 = b.count6 ∙ a.count6;
  indices = b.indices ∙ a.indices;
  listed = b.listed ∙ a.listed;
}

pub Keeps-length : (s s' : State) → Keeps s s' → length s'.ifstate_list ≡ length s.ifstate_list
Keeps-length s s' k =
    sym (length-map s'.ifstate_list ifname_of)
    ∙ ap length k.names
    ∙ length-map s.ifstate_list ifname_of

pub Keeps-IsValid : (s s' : State) → Keeps s s' → IsValid s → IsValid s'
Keeps-IsValid s s' k v = record {
  slots = omega (arith, Keeps-length s s' k, v.slots, k.max);
  indices = ap length k.indices ∙ v.indices ∙ sym k.max;
  v4_fits = omega (arith, v.v4_fits, k.count4, k.max);
  v6_fits = omega (arith, v.v6_fits, k.count6, k.max);
  listed_fits = omega (arith, v.listed_fits, k.listed, k.max);
}

set_name :
    (l : List Ifstate) (slot : ℕ) (i j : Ifstate)
    → get_elem? l slot ≡ some j
    → i.ifname ≡ j.ifname
    → map ifname_of (set l slot i) ≡ map ifname_of l
set_name [] slot i j h e = refl
set_name (x ∷ l) zero i j h e = ap (λ n. n ∷ map ifname_of l) (e ∙ sym (same_name x j h))
  where
    same_name : (x j : Ifstate) → some x ≡ some j → x.ifname ≡ j.ifname
    same_name x j h = ap (name_or x.ifname) h
      where
        name_or : Bytes → Option Ifstate → Bytes
        name_or d none = d
        name_or d (some i) = i.ifname
set_name (x ∷ l) (suc slot) i j h e = ap (◌∷◌ x.ifname) (set_name l slot i j h e)

pub get_elem?-lt :
    (l : List Ifstate) (slot : ℕ) (j : Ifstate) → get_elem? l slot ≡ some j → slot < length l
get_elem?-lt [] slot j h = absurd (cc)
get_elem?-lt (x ∷ l) zero j h = omega arith
get_elem?-lt (x ∷ l) (suc slot) j h = omega (arith, get_elem?-lt l slot j h)

-- An entry is written back with its name.
pub write_slot-Keeps :
    (s : State) (slot : ℕ) (i j : Ifstate)
    → get_elem? s.ifstate_list slot ≡ some j
    → i.ifname ≡ j.ifname
    → (s' : State) × (write_slot s slot i ≡ some s') × Keeps s s'
write_slot-Keeps s slot i j h e = (
  put s slot i,
  write_slot-some s slot i (get_elem?-lt s.ifstate_list slot j h),
  record {
    names = set_name s.ifstate_list slot i j h e;
    max = refl;
    count4 = refl;
    count6 = refl;
    indices = refl;
    listed = refl;
  },
)

unmark_slot-Keeps :
    (s : State) (slot : ℕ)
    → slot < length s.ifstate_list
    → (s' : State) × (unmark_slot s slot ≡ some s') × Keeps s s'
unfolding unmark_slot
unmark_slot-Keeps s slot h =
    let (j, at) = get_elem?_total s.ifstate_list slot h in
    let (s', e, k) =
      write_slot-Keeps s slot (record j { flags = clear_last_item j.flags }) j at refl in
    (s', bind_some _ _ j at ∙ e, k)

pub unmark_last-Keeps :
    (s : State) (count slot : ℕ)
    → slot ≤ length s.ifstate_list
    → count ≤ slot
    → (s' : State) × (unmark_last s count slot ≡ some s') × Keeps s s'
unfolding unmark_last
unmark_last-Keeps s count slot h c = elim (Bool-cases (ltb 0 count)) [
  | inl some_entry ↦
      let (s', e, k) = unmark_slot-Keeps s (slot - 1) (ground arith) in (s', rw some_entry e, k)
  | inr no_entry ↦ (s, rw no_entry refl, Keeps-refl s)
]

set_address-ifname :
    (af : ℕ) (o : Option Bytes) (i : Ifstate) → (set_address af o i).ifname ≡ i.ifname
unfolding set_address
set_address-ifname af none i = refl
set_address-ifname af (some ifa) i = ground arith

set_vpn_server-ifname : (o : Option Sockaddr) (i : Ifstate) → (set_vpn_server i o).ifname ≡ i.ifname
unfolding set_vpn_server
set_vpn_server-ifname none i = refl
set_vpn_server-ifname (some a) i = ground arith

update_fields-ifname : (af : ℕ) (a : Args) (i : Ifstate) → (update_fields af a i).ifname ≡ i.ifname
unfolding update_fields
update_fields-ifname af a i =
    set_vpn_server-ifname _ (set_address af a.ifa i) ∙ set_address-ifname af a.ifa i

pub update_slot-Keeps :
    (s : State) (af : ℕ) (a : Args) (slot : ℕ)
    → slot < length s.ifstate_list
    → (s' : State) × (update_slot s af a slot ≡ some (s', some slot)) × Keeps s s'
unfolding update_slot
update_slot-Keeps s af a slot h =
    let (j, at) = get_elem?_total s.ifstate_list slot h in
    let (s', e, k) =
      write_slot-Keeps s slot (update_fields af a j) j at (update_fields-ifname af a j) in
    (s', bind_some _ _ j at ∙ bind_some _ _ s' e, k)

pub link-Keeps :
    (s : State) (slot alias : ℕ)
    → slot < length s.ifstate_list
    → alias < length s.ifstate_list
    → (s' : State) × (link s slot alias ≡ some s') × Keeps s s'
unfolding link
link-Keeps s slot alias h h' =
    let (i, at) = get_elem?_total s.ifstate_list slot h in
    let (s1, e, k) =
      write_slot-Keeps s slot (record i { af_alias_offset = sub_ℕ alias slot }) i at refl in
    let (j, at') = get_elem?_total s1.ifstate_list alias (omega (arith, Keeps-length s s1 k)) in
    let (s2, e', k') =
      write_slot-Keeps s1 alias (record j { af_alias_offset = sub_ℕ slot alias }) j at' refl in
    (
      s2,
      bind_some _ _ i at ∙ bind_some _ _ s1 e ∙ bind_some _ _ j at' ∙ e',
      Keeps-trans s s1 s2 k k',
    )
