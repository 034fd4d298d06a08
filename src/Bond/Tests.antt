-- ===== src/Bond/Tests.antt =====
-- The update of bonds on a small kernel, and an instance of its theorem.
use configd_extra.Base.{
  ℕ, ◌≡◌, refl, true, false, inl, List, [], ◌∷◌, Option, none, some, arith, ◌==◌, if◌then◌else◌,
  ◌↔◌,
}
use configd_extra.Base.Int.{pos}
use configd_extra.Bond.State.{
  is_among, Interfaces, Bond, Request, set_mode_of, add_member, remove_member, BondKernel,
  equal_mode, equal_ℤ,
}
use configd_extra.Bond.Members.{
  add_to_set, add_each, collect_members, collect_lists, excluded_interfaces, select_available,
  available_interfaces, check_members,
}
use configd_extra.Bond.Members.Disjoint.{SameLaws, IsDisjoint, is_member, check_members-IsDisjoint}
use configd_extra.Bond.Update.{
  update_configuration, remove_all, update_all, remove_unconfigured, update_bond, find_bond,
  equal_interfaces, first_differs, remove_stale, remove_present, add_missing, change_bond,
  change_members, new_bond, with_socket, after_call, checked, bond_set_mode, bond_add_interface,
  bond_remove_interface,
}
use configd_extra.Bond.Update.Changes.{KernelLaws, on_members, with_last, without_name}
use configd_extra.Bond.Update.Names.{Supported}
use configd_extra.Bond.Update.Own.{Alone}
use configd_extra.Bond.Update.Realized.{Starts, Realizes, update_configuration-Realizes}

-- Interfaces are their names.
abbrev ifs : Interfaces ℕ ℕ
ifs = record {
  bsd_name = λ i. i;
  supports_bond = λ i. true;
  same = λ i j. i == j;
  name_equal = λ i j. i == j;
}

-- The members of each bond.
abbrev World : Type 0
World = ℕ → Option (List ℕ)

abbrev at : World → ℕ → (Option (List ℕ) → Option (List ℕ)) → World
at w b f n = if n == b then f (w n) else w n

abbrev asked : Request ℕ → Option (List ℕ) → Option (List ℕ)
asked (set_mode_of m) v = v
asked (add_member k) v = on_members (with_last k) v
asked (remove_member k) v = on_members (without_name (λ i j. i == j) k) v

abbrev kernel : BondKernel ℕ World
kernel = record {
  errno = λ w. 0;
  open_socket = λ w. (w, true);
  request = λ w b r. (at w b (asked r), true);
  create_interface = λ w b. (at w b (λ v. some []), true);
  destroy_interface = λ w b. (at w b (λ v. none), true);
}

equal_iff : (i j : ℕ) → (i == j ≡ true) ↔ (i ≡ j)
equal_iff i j = (λ e. ground arith, λ e. ground arith)

at_other :
    (w : World) (b n : ℕ) (f : Option (List ℕ) → Option (List ℕ))
    → n == b ≡ false
    → at w b f n ≡ w n
at_other w b n f e = rw e refl

at_self : (w : World) (n : ℕ) (f : Option (List ℕ) → Option (List ℕ)) → at w n f n ≡ f (w n)
at_self w n f = rw ((equal_iff n n).1 refl) refl

abbrev laws : KernelLaws ifs kernel
laws = record {
  members_of = λ w n. w n;
  name_equal_iff = equal_iff;
  same_iff = equal_iff;
  open_members = λ w n. refl;
  request_other = λ w b n r e. at_other w b n (asked r) e;
  create_other = λ w b n e. at_other w b n (λ v. some []) e;
  destroy_other = λ w b n e. at_other w b n (λ v. none) e;
  set_mode_members = λ w n m. at_self w n (λ v. v);
  add_members = λ w n k e. at_self w n (on_members (with_last k));
  remove_members = λ w n k e. at_self w n (on_members (without_name (λ i j. i == j) k));
  create_members = λ w n e. at_self w n (λ v. some []);
}

abbrev bond : ℕ → List ℕ → Bond ℕ ℕ
bond name members = record { bond_if = name; interfaces = members; mode = some (pos 0) }

abbrev config : List (Bond ℕ ℕ)
config = bond 1 (5 ∷ 6 ∷ []) ∷ bond 2 (7 ∷ []) ∷ []

abbrev active : List (Bond ℕ ℕ)
active = bond 1 (7 ∷ 5 ∷ []) ∷ bond 3 (8 ∷ []) ∷ []

abbrev start : World
start n = if n == 1 then some (7 ∷ 5 ∷ []) else if n == 3 then some (8 ∷ []) else none

update_configuration-Realizes_example :
    (ms : List ℕ) × (laws.members_of
        (update_configuration ifs kernel true config active start).world
        1
      ≡ some ms)
    × Realizes ifs kernel (5 ∷ 6 ∷ []) ms
unfolding Alone Starts Supported update_configuration remove_all update_all remove_unconfigured
    update_bond find_bond is_among equal_interfaces first_differs remove_stale remove_present
    add_missing change_bond change_members new_bond with_socket after_call checked bond_set_mode
    bond_add_interface bond_remove_interface equal_mode equal_ℤ
update_configuration-Realizes_example =
    update_configuration-Realizes ifs kernel laws config active (bond 1 (5 ∷ 6 ∷ [])) start
      (inl (refl, (refl, tt))) (inl (bond 1 (7 ∷ 5 ∷ []), refl, inl (refl, (refl, tt)), refl))
      (refl, (refl, tt)) refl

same_lem : (i : ℕ) → i == i ≡ true
same_lem i = ground arith

swapped : (i j : ℕ) → i == j ≡ true → j == i ≡ true
swapped i j e = ground arith

chained : (i j k : ℕ) → i == j ≡ true → j == k ≡ true → i == k ≡ true
chained i j k e f = ground arith

abbrev same_laws : SameLaws ifs
same_laws = record { same_refl = same_lem; same_sym = swapped; same_trans = chained }

check_members-IsDisjoint_example :
    IsDisjoint ifs same_laws (bond 1 (5 ∷ 6 ∷ []) ∷ bond 2 (7 ∷ []) ∷ [])
unfolding IsDisjoint is_member is_among check_members available_interfaces select_available
    excluded_interfaces collect_members collect_lists add_each add_to_set
check_members-IsDisjoint_example =
    check_members-IsDisjoint ifs same_laws [] (bond 2 (7 ∷ []) ∷ []) (bond 1 (5 ∷ []))
      ((8 ∷ []) ∷ []) [] (5 ∷ 6 ∷ 7 ∷ 8 ∷ []) (5 ∷ 6 ∷ []) (λ i. false)
      (λ j e. ground arith, (λ j e. refl, tt)) refl
