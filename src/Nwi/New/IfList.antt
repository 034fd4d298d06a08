-- ===== src/Nwi/New/IfList.antt =====
-- The interface list against a specification on lists: the entries of both families merged by
-- rank, without the excluded ones and the repeated names, up to the room there is.
use configd_extra.Base.{
  ℕ, zero, suc, ◌+◌, ◌≤◌, ◌<◌, ◌≡◌, refl, ◌∙◌, inl, inr, Bool, true, false, not, List, [], ◌∷◌,
  ◌++◌, Option, some, Bytes, equal, length, length-append, length-set, get_elem?, set, leb, ◌==◌,
  if◌then◌else◌, Bool-cases, arith, segment, segment-set_end, segment-suc, get_elem?_total,
  store-some, bind-eq-some, ◌>>=◌, segment_zero,
}
use configd_extra.Nwi.Flags.{not_in_iflist}
use configd_extra.Nwi.New.{is_listed, append_if_list, add_to_if_list}
use configd_extra.Nwi.State.{Ifstate, State}

-- Whether an entry of a name is in a list.
abbrev pub has : Bytes → List Ifstate → Bool
has name [] = false
has name (i ∷ is) = if equal i.ifname name then true else has name is

-- What one more entry does to the list of interfaces.
abbrev pub collect_one : ℕ → List Ifstate → Ifstate → List Ifstate
collect_one max acc i =
    if not (not_in_iflist i.flags == 0)
    then acc
    else if leb max (length acc)
    then acc
    else if has i.ifname acc
    then acc
    else acc ++ (i ∷ [])

abbrev pub collect : ℕ → List Ifstate → List Ifstate → List Ifstate
collect max acc [] = acc
collect max acc (i ∷ is) = collect max (collect_one max acc i) is

-- The entries that indices stand for.
abbrev pub resolve : List Ifstate → List ℕ → Option (List Ifstate)
resolve l [] = some []
resolve l (k ∷ ks) = do i ← get_elem? l k; is ← resolve l ks; some (i ∷ is)

-- A state with another interface list.
abbrev pub relisted : State → List ℕ → ℕ → State
relisted s l c = record s { if_list = l; if_list_count = c }

-- `c` indices of `l` are in use, and they stand for the entries `acc`.
pub record Lists (s : State) (l : List ℕ) (c : ℕ) (acc : List Ifstate) : Type 0 where
  pub room : length l ≡ s.max_if_count
  pub count : c ≡ length acc
  pub fits : c ≤ s.max_if_count
  pub stands_for : resolve s.ifstate_list (segment l 0 c) ≡ some acc

resolve-eq-nil :
    (l : List Ifstate) (ks : List ℕ) (acc : List Ifstate)
    → ks ≡ []
    → resolve l ks ≡ some acc
    → acc ≡ []
resolve-eq-nil l [] acc e h = cc
resolve-eq-nil l (k ∷ ks) acc e h = absurd (cc)

resolve-eq-cons :
    (l : List Ifstate) (k : ℕ) (ks : List ℕ) (acc : List Ifstate)
    → resolve l (k ∷ ks) ≡ some acc
    → (x : Ifstate) × (xs : List Ifstate) × (get_elem? l k ≡ some x)
      × (resolve l ks ≡ some xs)
      × (acc ≡ x ∷ xs)
resolve-eq-cons l k ks acc e =
    let (x, here, rest) = bind-eq-some (get_elem? l k) _ e in
    let (xs, later, all) = bind-eq-some (resolve l ks) _ rest in (x, xs, here, later, cc all)

resolve-snoc :
    (l : List Ifstate) (ks : List ℕ) (k : ℕ) (acc : List Ifstate) (i : Ifstate)
    → resolve l ks ≡ some acc
    → get_elem? l k ≡ some i
    → resolve l (ks ++ (k ∷ [])) ≡ some (acc ++ (i ∷ []))
resolve-snoc l [] k acc i e at = rw (at, resolve-eq-nil l [] acc refl e)
resolve-snoc l (j ∷ ks) k acc i e at =
    let (x, xs, here, later, all) = resolve-eq-cons l j ks acc e in
    rw (here, all, resolve-snoc l ks k xs i later at)

is_listed_step :
    (s : State) (name : Bytes) (rounds k idx : ℕ) (x : Ifstate)
    → get_elem? s.if_list k ≡ some idx
    → get_elem? s.ifstate_list idx ≡ some x
    → is_listed s name (suc rounds) k
      ≡ (if equal x.ifname name then some true else is_listed s name rounds (k + 1))
unfolding is_listed
is_listed_step s name rounds k idx x at here = rw (at, is_listed) (rw here)

is_listed-has :
    (s : State) (name : Bytes) (rounds k : ℕ) (acc : List Ifstate)
    → k + rounds ≤ length s.if_list
    → resolve s.ifstate_list (segment s.if_list k rounds) ≡ some acc
    → is_listed s name rounds k ≡ some (has name acc)
is_listed-has s name zero k acc h e =
    rw (resolve-eq-nil s.ifstate_list (segment s.if_list k 0) acc (segment_zero s.if_list k) e)
      (unfold is_listed in refl)
is_listed-has s name (suc rounds) k acc h e =
    let (idx, at) = get_elem?_total s.if_list k (omega arith) in
    let e' = rw (segment-suc s.if_list k (k + 1) rounds idx (omega arith) at) at e in
    let (x, xs, here, later, all) =
      resolve-eq-cons s.ifstate_list idx (segment s.if_list (k + 1) rounds) acc e' in
    is_listed_step s name rounds k idx x at here
    ∙ rw (all, is_listed-has s name rounds (k + 1) xs (omega arith) later)
        (elim (equal x.ifname name)
          as (λ b.
            (if b then some true else some (has name xs))
            ≡ some (if b then true else has name xs)) [ true ↦ refl | false ↦ refl ])

append_if_list-lem :
    (s : State) (l : List ℕ) (c slot : ℕ) (acc : List Ifstate) (i : Ifstate)
    → Lists s l c acc
    → c < s.max_if_count
    → get_elem? s.ifstate_list slot ≡ some i
    → (append_if_list (relisted s l c) slot ≡ some (relisted s (set l c slot) (c + 1)))
      × Lists s (set l c slot) (c + 1) (acc ++ (i ∷ []))
unfolding append_if_list
append_if_list-lem s l c slot acc i ls h at = (
  rw (store-some l c slot (omega (arith, ls.room))),
  record {
    room = omega (arith, ls.room, length-set l c slot);
    count = omega (arith, ls.count, length-append acc (i ∷ []));
    fits = omega arith;
    stands_for = rw (let e : c + 1 ≡ suc c = omega arith in e) (
        rw (segment-set_end l 0 c c slot (omega arith) (omega (arith, ls.room)))
          (resolve-snoc s.ifstate_list (segment l 0 c) slot acc i ls.stands_for at));
  },
)

-- Adding an entry never leaves an array, and does to the listed entries what `collect_one` does.
pub add_to_if_list-lem :
    (s : State) (l : List ℕ) (c slot : ℕ) (acc : List Ifstate) (i : Ifstate)
    → Lists s l c acc
    → get_elem? s.ifstate_list slot ≡ some i
    → (l' : List ℕ) × (c' : ℕ) × (add_to_if_list (relisted s l c) slot ≡ some (relisted s l' c'))
      × Lists s l' c' (collect_one s.max_if_count acc i)
unfolding add_to_if_list
add_to_if_list-lem s l c slot acc i ls at = elim (Bool-cases (not (not_in_iflist i.flags == 0))) [
  | inl out ↦ (l, c, rw at (rw out), rw out ls)
  | inr in_list ↦ elim (Bool-cases (leb s.max_if_count c)) [
    | inl full ↦ (l, c, rw at (rw (in_list, full)), rw (in_list, ← ls.count, full) ls)
    | inr room ↦ elim (Bool-cases (has i.ifname acc)) [
      | inl old ↦
          (l, c, rw at (rw (in_list, room, listed, old)), rw (in_list, ← ls.count, room, old) ls)
      | inr new_name ↦
          let (done, ls') = append_if_list-lem s l c slot acc i ls (ground arith) at in
          (
            set l c slot,
            c + 1,
            rw at (rw (in_list, room, listed, new_name) done),
            rw (in_list, ← ls.count, room, new_name) ls',
          )
    ]
  ]
]
  where
    listed : is_listed (relisted s l c) i.ifname c 0 ≡ some (has i.ifname acc)
    listed =
        is_listed-has (relisted s l c) i.ifname c 0 acc (omega (arith, ls.room, ls.fits))
          ls.stands_for
