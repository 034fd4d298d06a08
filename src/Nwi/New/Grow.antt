-- ===== src/Nwi/New/Grow.antt =====
-- Growing a state: the entries keep their order, and alias offsets lead to the same entries.
use configd_extra.Base.{
  ℕ, ◌-◌, ◌*◌, ◌^◌, ◌≤◌, ◌<◌, ◌≡◌, refl, sym, ◌∙◌, inr, false, List, [], ◌∷◌, map, Option, some,
  length, length-map, arith, segment, splice, each_slot, each_slot-splice, copy_slots-splice,
  length-splice, segment-splice_other, traverse, if◌then◌else◌,
}
use configd_extra.Base.Int.{ℤ, pos, ◌+ℤ◌, ◌-ℤ◌, ltb_ℤ}
use configd_extra.Nwi.Entries.{entries, length-entries}
use configd_extra.Nwi.Entries.Written.{written_v4_v6, written_v6_v4}
use configd_extra.Nwi.Lookup.{is_zero}
use configd_extra.Nwi.New.{
  fresh, to_int32, fix_v4, fix_v6, alias_offset_delta, fix_af_aliases, copy_entries, grow,
}
use configd_extra.Nwi.New.Fresh.{fresh-IsValid, max-fresh}
use configd_extra.Nwi.New.IfList.{relisted}
use configd_extra.Nwi.New.Merge.{set_if_list-merge}
use configd_extra.Nwi.State.{
  Ifstate, State, IsValid, af_inet, af_inet6, list_start, get_ifstate_count,
}

-- The array sizes up to which no offset leaves `int32_t`.
abbrev pub size_limit : ℕ
size_limit = 2 ^ 30

abbrev pub shifted : (ℤ → ℤ) → Ifstate → Ifstate
shifted f i =
    if is_zero i.af_alias_offset then i else record i { af_alias_offset = f i.af_alias_offset }

abbrev pub shift_v4 : ℕ → Ifstate → Ifstate
shift_v4 offset = shifted (λ z. to_int32 (z +ℤ pos offset))

abbrev pub shift_v6 : ℕ → Ifstate → Ifstate
shift_v6 offset = shifted (λ z. to_int32 (z -ℤ pos offset))

pub alias_offset_delta-lem :
    (new_max old_max : ℕ)
    → old_max ≤ new_max
    → new_max < size_limit
    → alias_offset_delta new_max old_max ≡ new_max - old_max
unfolding alias_offset_delta
alias_offset_delta-lem new_max old_max h k = omega arith

traverse-some :
    (f : Ifstate → Option Ifstate) (g : Ifstate → Ifstate) (xs : List Ifstate)
    → ((i : Ifstate) → f i ≡ some (g i))
    → traverse f xs ≡ some (map g xs)
unfolding traverse
traverse-some f g [] h = refl
traverse-some f g (x ∷ xs) h = rw (h x, traverse-some f g xs h)

-- The copies: the grown array before its offsets are fixed.
abbrev copied : State → ℕ → State
copied old n = record (fresh n) {
  max_if_count = n;
  ipv4_count = old.ipv4_count;
  ipv6_count = old.ipv6_count;
  ifstate_list =
      splice (splice (fresh n).ifstate_list n (entries old af_inet6)) 0 (entries old af_inet);
}

module _ (old : State) (n : ℕ) (v : IsValid old) (h : old.max_if_count ≤ n) where
  len4 : old.ipv4_count ≡ length (entries old af_inet)
  unfolding get_ifstate_count
  len4 = sym (length-entries old af_inet v)

  len6 : old.ipv6_count ≡ length (entries old af_inet6)
  unfolding get_ifstate_count
  len6 = sym (length-entries old af_inet6 v)

  copy_entries-copied : copy_entries (fresh n) old ≡ some (copied old n)
  unfolding copy_entries list_start get_ifstate_count
  copy_entries-copied =
      rw
        (
          copy_slots-splice old.ifstate_list old.max_if_count old.ipv6_count (fresh n).ifstate_list
              (fresh n).max_if_count (omega (arith, v.slots, v.v6_fits))
              (omega (arith, (fresh-IsValid n).slots, max-fresh n, v.v6_fits)),
          max-fresh n,
          copy_slots-splice old.ifstate_list 0 old.ipv4_count
              (splice (fresh n).ifstate_list n
                (segment old.ifstate_list old.max_if_count old.ipv6_count))
              0 (omega (arith, v.slots, v.v4_fits))
              (omega (
                arith,
                (fresh-IsValid n).slots,
                max-fresh n,
                v.v4_fits,
                length-splice (fresh n).ifstate_list n
                    (segment old.ifstate_list old.max_if_count old.ipv6_count),
              )),
        )
        (unfold fresh in refl)

  copied-entries :
      (segment (copied old n).ifstate_list 0 old.ipv4_count ≡ entries old af_inet)
      × (segment (copied old n).ifstate_list n old.ipv6_count ≡ entries old af_inet6)
      × (length (copied old n).ifstate_list ≡ 2 * n)
  copied-entries =
      written_v6_v4 (fresh n).ifstate_list n old.ipv4_count old.ipv6_count (entries old af_inet)
        (entries old af_inet6) (omega (arith, (fresh-IsValid n).slots, max-fresh n))
        (omega (arith, v.v4_fits)) (omega (arith, v.v6_fits)) len4 len6

  -- The grown state before its interface list is set.
  delta : ℕ
  delta = alias_offset_delta n old.max_if_count

  fixed : State
  fixed = record (copied old n) {
    ifstate_list =
        splice (splice (copied old n).ifstate_list 0 (map (shift_v4 delta) (entries old af_inet))) n
          (map (shift_v6 delta) (entries old af_inet6));
  }

  first_loop :
      each_slot (fix_v4 delta) old.ipv4_count (copied old n).ifstate_list 0
      ≡ some (splice (copied old n).ifstate_list 0 (map (shift_v4 delta) (entries old af_inet)))
  unfolding fix_v4
  first_loop =
      each_slot-splice (fix_v4 delta) old.ipv4_count (copied old n).ifstate_list 0
        (map (shift_v4 delta) (entries old af_inet)) (omega (arith, copied-entries.2, v.v4_fits))
        (rw copied-entries.0 (traverse-some _ _ (entries old af_inet) (λ i. refl)))

  second_loop :
      each_slot
        (fix_v6 delta)
        old.ipv6_count
        (splice (copied old n).ifstate_list 0 (map (shift_v4 delta) (entries old af_inet)))
        n
      ≡ some fixed.ifstate_list
  unfolding fix_v6 fixed
  second_loop =
      each_slot-splice (fix_v6 delta) old.ipv6_count
        (splice (copied old n).ifstate_list 0 (map (shift_v4 delta) (entries old af_inet))) n
        (map (shift_v6 delta) (entries old af_inet6))
        (omega (
          arith,
          copied-entries.2,
          v.v6_fits,
          length-splice (copied old n).ifstate_list 0 (map (shift_v4 delta) (entries old af_inet)),
        ))
        (rw (untouched) (traverse-some _ _ (entries old af_inet6) (λ i. refl)))
    where
      untouched :
          segment
            (splice (copied old n).ifstate_list 0 (map (shift_v4 delta) (entries old af_inet)))
            n
            old.ipv6_count
          ≡ entries old af_inet6
      untouched =
          segment-splice_other (copied old n).ifstate_list 0 n old.ipv6_count
            (map (shift_v4 delta) (entries old af_inet))
            (inr
              (omega (arith, length-map (entries old af_inet) (shift_v4 delta), len4, v.v4_fits)))
          ∙ copied-entries.1

  -- The guard against a shrinking array never holds.
  guard_dead : (m : ℕ) → ltb_ℤ (pos m) (pos 0) ≡ false
  guard_dead m = ground arith

  fix_af_aliases-fixed : fix_af_aliases (copied old n) old.max_if_count ≡ some fixed
  unfolding fix_af_aliases list_start fixed delta
  fix_af_aliases-fixed =
      rw (guard_dead (alias_offset_delta n old.max_if_count)) (rw (first_loop, second_loop))

  fixed-entries :
      (entries fixed af_inet ≡ map (shift_v4 delta) (entries old af_inet))
      × (entries fixed af_inet6 ≡ map (shift_v6 delta) (entries old af_inet6))
      × (length fixed.ifstate_list ≡ 2 * n)
  unfolding fixed list_start get_ifstate_count
  fixed-entries =
      written_v4_v6 (copied old n).ifstate_list n old.ipv4_count old.ipv6_count
        (map (shift_v4 delta) (entries old af_inet)) (map (shift_v6 delta) (entries old af_inet6))
        copied-entries.2 (omega (arith, v.v4_fits)) (omega (arith, v.v6_fits))
        (omega (arith, len4, length-map (entries old af_inet) (shift_v4 delta)))
        (omega (arith, len6, length-map (entries old af_inet6) (shift_v6 delta)))

  fixed-IsValid : IsValid fixed
  unfolding fixed
  fixed-IsValid = record {
    slots = fixed-entries.2;
    indices = omega (arith, (fresh-IsValid n).indices, max-fresh n);
    v4_fits = omega (arith, v.v4_fits);
    v6_fits = omega (arith, v.v6_fits);
    listed_fits = omega (arith, (fresh-IsValid n).listed_fits, max-fresh n);
  }

  pub grow-lem :
      (s : State) × (grow old n ≡ some s)
      × IsValid s
      × (s.max_if_count ≡ n)
      × (entries s af_inet
          ≡ map (shift_v4 (alias_offset_delta n old.max_if_count)) (entries old af_inet))
      × (entries s af_inet6
          ≡ map (shift_v6 (alias_offset_delta n old.max_if_count)) (entries old af_inet6))
  unfolding grow delta list_start get_ifstate_count fixed
  grow-lem =
      let (l, c, done, valid, _) = set_if_list-merge fixed fixed-IsValid in
      (
        relisted fixed l c,
        rw (copy_entries-copied, fix_af_aliases-fixed) done,
        valid,
        refl,
        fixed-entries.0,
        fixed-entries.1,
      )
