-- ===== src/Shell/Line/Bounds.antt =====
-- scutil/scutil.c, `getString`: on a terminated string it stays inside the array and inside the
-- block that it allocates.
use configd_extra.Base.{
  ℕ, zero, suc, ◌+◌, ◌-◌, ◌≤◌, ◌<◌, ◌≡◌, ◌⊎◌, inl, inr, refl, Bool, true, false, [], ◌∷◌, Option,
  none, some, Bytes, length, ◌==◌, arith, Bool-cases, sym, ap, ◌∙◌, lt→ltb,
}
use configd_extra.Shell.Line.{
  quote_mark, skip_space, Extent, is_dropped, copy_string, pass_quote, read_string, get_from,
  get_string,
}
use configd_extra.Shell.Scan.{is_space}
use configd_extra.Shell.Line.Ends.{
  has_nul, kept, IsExtent, Found, has_nul_nil, has_nul_tail, find_end-Found,
}

kept-dropped :
    (n c d : ℕ) (p : Bytes) → is_dropped c d ≡ true → kept (suc n) (c ∷ d ∷ p) ≡ kept n (d ∷ p)
unfolding kept
kept-dropped n c d p e = rw e (omega arith)

kept-kept :
    (n c d : ℕ) (p : Bytes)
    → is_dropped c d ≡ false
    → kept (suc n) (c ∷ d ∷ p) ≡ suc (kept n (d ∷ p))
unfolding kept
kept-kept n c d p e = rw e (omega arith)

copy-dropped :
    (n c d : ℕ) (p t : Bytes) (capacity i : ℕ)
    → is_dropped c d ≡ true
    → i < capacity
    → copy_string n (d ∷ p) capacity i ≡ some t
    → copy_string (suc n) (c ∷ d ∷ p) capacity i ≡ some t
unfolding copy_string
copy-dropped n c d p t capacity i e h r = rw (lt→ltb i capacity h, e) r

copy-kept :
    (n c d : ℕ) (p t : Bytes) (capacity i : ℕ)
    → is_dropped c d ≡ false
    → i < capacity
    → copy_string n (d ∷ p) capacity (i + 1) ≡ some t
    → copy_string (suc n) (c ∷ d ∷ p) capacity i ≡ some (c ∷ t)
unfolding copy_string
copy-kept n c d p t capacity i e h r = rw (lt→ltb i capacity h, e, r) refl

kept_zero : (p : Bytes) → kept 0 p ≡ 0
unfolding kept
kept_zero p = refl

pub copy-end : (p : Bytes) (capacity i : ℕ) → i < capacity → copy_string 0 p capacity i ≡ some []
unfolding copy_string
copy-end p capacity i h = ground arith

pub Found-result :
    (p : Bytes) (o : Option Extent)
    → Found p o
    → (x : Extent) × (o ≡ some x)
      × (kept x.size p + x.escaped ≤ x.size)
      × (x.size + length x.end ≡ length p)
      × (0 < length x.end)
unfolding Found IsExtent
Found-result p none h = absurd h
Found-result p (some x) (a, b, c) = (x, refl, a, b, c)

pass_quote-total :
    (q : Bool) (e : Bytes)
    → 0 < length e
    → (line : Bytes) × (pass_quote q e ≡ some line) × (length line ≤ length e)
unfolding pass_quote
pass_quote-total false e h = (e, refl, omega arith)
pass_quote-total true [] h = absurd (omega arith)
pass_quote-total true (c ∷ e) h = (e, refl, omega arith)

space_nonzero : (c : ℕ) → is_space c ≡ true → (c == 0) ≡ false
unfolding is_space
space_nonzero c h = ground arith

pub copy_string-total :
    (n : ℕ) (p : Bytes) (capacity i : ℕ)
    → n < length p
    → i + kept n p < capacity
    → (t : Bytes) × (copy_string n p capacity i ≡ some t) × (length t ≡ kept n p)
copy_string-total zero p capacity i h k =
    ([], copy-end p capacity i (ground (arith, kept_zero p)), sym (kept_zero p))
copy_string-total (suc n) [] capacity i h k = absurd (omega arith)
copy_string-total (suc n) (c ∷ []) capacity i h k = absurd (omega arith)
copy_string-total (suc n) (c ∷ d ∷ p) capacity i h k = elim (Bool-cases (is_dropped c d)) [
  | inl dropped ↦
      let same = kept-dropped n c d p dropped in
      let (t, e, l) = copy_string-total n (d ∷ p) capacity i (omega arith) (omega (arith, same)) in
      (t, copy-dropped n c d p t capacity i dropped (omega arith) e, l ∙ sym same)
  | inr not_dropped ↦
      let more = kept-kept n c d p not_dropped in
      let (t, e, l) =
        copy_string-total n (d ∷ p) capacity (i + 1) (omega arith) (omega (arith, more)) in
      (c ∷ t, copy-kept n c d p t capacity i not_dropped (omega arith) e, ap suc l ∙ sym more)
]

-- What a call of `getString` leaves.
read_string-total :
    (q : Bool) (p : Bytes)
    → has_nul p ≡ true
    → (t line : Bytes) × (read_string q p ≡ some (t, line))
      × (length line ≤ length p)
      × (length t ≤ length p)
unfolding read_string
read_string-total q p h =
    let (x, e, fits, sizes, nonempty) = Found-result p _ (find_end-Found q p h) in
    let (t, copied, l) =
      copy_string-total x.size p (x.size - x.escaped + 1) 0 (omega arith) (omega arith) in
    let (line, passed, shorter) = pass_quote-total q x.end nonempty in
    (t, line, rw (e, copied, passed) refl, omega arith, omega arith)

skip_space-total :
    (p : Bytes)
    → has_nul p ≡ true
    → (s : Bytes) × (skip_space p ≡ some s) × (has_nul s ≡ true) × (length s ≤ length p)
unfolding skip_space
skip_space-total [] h = absurd (has_nul_nil h)
skip_space-total (c ∷ p) h = elim (Bool-cases (is_space c)) [
  | inl space ↦
      let (s, e, n, l) = skip_space-total p (has_nul_tail c p h (space_nonzero c space)) in
      (s, rw (space, e) refl, n, omega arith)
  | inr other ↦ (c ∷ p, rw other refl, h, omega arith)
]

-- `NULL`, or a string and what `*line` becomes.
abbrev pub Outcome : Bytes → Option (Option (Bytes × Bytes)) → Type 0
Outcome p o =
    (o ≡ some none)
    ⊎ ((t line : Bytes) × (o ≡ some (some (t, line)))
        × (length line ≤ length p)
        × (length t ≤ length p))

get_from-total : (p : Bytes) → has_nul p ≡ true → Outcome p (get_from p)
unfolding get_from
get_from-total [] h = absurd (has_nul_nil h)
get_from-total (c ∷ p) h = elim (Bool-cases (c == 0)) [
  | inl end ↦ inl (rw end refl)
  | inr nonzero ↦ elim (Bool-cases (c == quote_mark)) [
    | inl quoted ↦
        let (t, line, e, l, m) = read_string-total true p (has_nul_tail c p h nonzero) in
        inr (t, line, rw (nonzero, quoted, e) refl, omega arith, omega arith)
    | inr plain ↦
        let (t, line, e, l, m) = read_string-total false (c ∷ p) h in
        inr (t, line, rw (nonzero, plain, e) refl, l, m)
  ]
]

-- In an array that holds a terminator at or behind the position of `*line`, `getString` reads and
-- writes nothing outside the array and the block it allocates: it returns `NULL`, or a string no
-- longer than what was left of the array, and `*line` stays in the array or at its end.
pub get_string-total :
    (p : Bytes)
    → has_nul p ≡ true
    → (get_string p ≡ some none)
      ⊎ ((t line : Bytes) × (get_string p ≡ some (some (t, line)))
          × (length line ≤ length p)
          × (length t ≤ length p))
unfolding get_string
get_string-total [] h = absurd (has_nul_nil h)
get_string-total (c ∷ p) h = elim (Bool-cases (c == 0)) [
  | inl end ↦ inl (rw end refl)
  | inr nonzero ↦
      let (s, e, n, l) = skip_space-total (c ∷ p) h in
      elim (get_from-total s n) [
        | inl none' ↦ inl (rw (nonzero, e) none')
        | inr (t, line, e', m, k) ↦ inr (t, line, rw (nonzero, e) e', omega arith, omega arith)
      ]
]
