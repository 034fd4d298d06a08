-- ===== src/Shell/Line/Split.antt =====
-- scutil/scutil.c: a line that ended with a newline is split whatever it holds. The newline has become
-- a second terminator, so that a quoted string without its closing quote ends on that one.
use configd_extra.Base.{
  ℕ, zero, suc, ◌+◌, ◌-◌, ◌≤◌, ◌<◌, ◌≡◌, refl, ap, ◌∙◌, ◌⊎◌, inl, inr, Bool, true, false, not, ◌&&◌,
  List, [], ◌∷◌, ◌++◌, Option, none, some, Bytes, length, length-append, ◌==◌, if◌then◌else◌, ◌>>=◌,
  arith, Bool-cases, All, bind_some, subst,
}
use configd_extra.Shell.Line.{
  quote_mark, backslash, Extent, extend, stop, find_end, pass_quote, read_string, get_from,
  get_string, skip_space, split_line,
}
use configd_extra.Shell.Line.Bounds.{Found-result, copy_string-total}
use configd_extra.Shell.Line.Ends.{has_nul, find_end-Found}
use configd_extra.Shell.Line.Progress.{Moves, find_end-Moves, Moves-size}
use configd_extra.Shell.Scan.{is_space}

-- No byte 0.
abbrev pub IsText : Bytes → Type 0
IsText = All (λ c. (c == 0) ≡ false)

module _ (stale : Bytes) where
  abbrev ended : Bytes → Bytes
  ended l = l ++ (0 ∷ 0 ∷ stale)

  -- A position in the text or at the first terminator.
  Inside : Bytes → Type 0
  Inside p = (l : Bytes) × IsText l × (p ≡ ended l)

  Ends : Option Extent → Type 0
  Ends none = ⊥
  Ends (some x) = Inside x.end

  if-Ends : (b : Bool) (s t : Option Extent) → Ends s → Ends t → Ends (if b then s else t)
  if-Ends true s t hs ht = hs
  if-Ends false s t hs ht = ht

  bind-Ends : (n k : ℕ) (o : Option Extent) → Ends o → Ends (o >>= λ x. some (extend n k x))
  unfolding Ends
  bind-Ends n k none h = h
  bind-Ends n k (some x) h = h

  stop-Ends : (n : ℕ) (l : Bytes) → IsText l → Ends (some (stop n (ended l)))
  unfolding Ends Inside
  stop-Ends n l h = (l, h, refl)

  find_end-Ends : (q : Bool) (l : Bytes) → IsText l → Ends (find_end q (ended l))
  unfolding find_end
  find_end-Ends q [] h = stop-Ends 0 [] tt
  find_end-Ends q (c ∷ []) (z, h) = rw z (
      if-Ends (q && (c == quote_mark)) _ _ (stop-Ends 0 (c ∷ []) (z, h)) (
        if-Ends (c == backslash) _ _ (stop-Ends 1 [] tt) (
          if-Ends (not q && is_space c) _ _ (stop-Ends 0 (c ∷ []) (z, h))
            (bind-Ends 1 0 _ (stop-Ends 0 [] tt)))))
  find_end-Ends q (c ∷ d ∷ l) (z, (z', h)) =
      rw (z, z')
        (if-Ends (q && (c == quote_mark)) _ _ (stop-Ends 0 (c ∷ d ∷ l) (z, (z', h))) (
          if-Ends (c == backslash) _ _ (bind-Ends 2 _ _ (find_end-Ends q l h)) (
            if-Ends (not q && is_space c) _ _ (stop-Ends 0 (c ∷ d ∷ l) (z, (z', h)))
              (bind-Ends 1 0 _ (find_end-Ends q (d ∷ l) (z', h))))))

  -- What `*line` can become.
  Rest : Bytes → Type 0
  Rest p = Inside p ⊎ (p ≡ 0 ∷ stale)

  pass_quote-Rest :
      (q : Bool) (e : Bytes)
      → Inside e
      → (line : Bytes) × (pass_quote q e ≡ some line) × Rest line × (length line ≤ length e)
  unfolding pass_quote Rest Inside
  pass_quote-Rest false e h = (e, refl, inl h, omega arith)
  pass_quote-Rest true e ([], h, same) =
      (0 ∷ stale, ap (pass_quote true) same, inr refl, omega (arith, ap length same))
  pass_quote-Rest true e (c ∷ l, (z, h), same) =
      (ended l, ap (pass_quote true) same, inl (l, h, refl), omega (arith, ap length same))

  ended-has_nul : (l : Bytes) → has_nul (ended l) ≡ true
  unfolding has_nul
  ended-has_nul [] = refl
  ended-has_nul (c ∷ l) = ground (arith, ended-has_nul l)

  Ends-end : (x : Extent) → Ends (some x) → Inside x.end
  unfolding Ends
  Ends-end x h = h

  read_string-Rest :
      (q : Bool) (l : Bytes)
      → IsText l
      → (x : Extent) × (t line : Bytes) × (find_end q (ended l) ≡ some x)
        × (read_string q (ended l) ≡ some (t, line))
        × Rest line
        × (x.size + length line ≤ length (ended l))
  unfolding read_string
  read_string-Rest q l h =
      let p = ended l in
      let (x, e, fits, sizes, nonempty) = Found-result p _ (find_end-Found q p (ended-has_nul l)) in
      let (t, copied, _) =
        copy_string-total x.size p (x.size - x.escaped + 1) 0 (omega arith) (omega arith) in
      let (line, passed, rest, shorter) =
        pass_quote-Rest q x.end (Ends-end x (subst Ends e (find_end-Ends q l h))) in
      (
        x,
        t,
        line,
        e,
        bind_some _ _ x e ∙ bind_some _ _ t copied ∙ bind_some _ _ line passed,
        rest,
        omega arith,
      )

  -- `NULL`, or a string with a shorter rest of the line.
  Taken : Bytes → Option (Option (Bytes × Bytes)) → Type 0
  Taken p o =
      (o ≡ some none)
      ⊎ ((t line : Bytes) × (o ≡ some (some (t, line))) × Rest line × (length line < length p))

  first-Moves :
      (c : ℕ) (l : Bytes)
      → (c == 0) ≡ false
      → is_space c ≡ false
      → Moves (find_end false (ended (c ∷ l)))
  first-Moves c [] z h = find_end-Moves c 0 (0 ∷ stale) z h
  first-Moves c (d ∷ l) z h = find_end-Moves c d (ended l) z h

  -- White space at the front is gone.
  abbrev Trimmed : Bytes → Type 0
  Trimmed [] = Unit
  Trimmed (c ∷ k) = is_space c ≡ false

  get_from-Taken : (l : Bytes) → IsText l → Trimmed l → Taken (ended l) (get_from (ended l))
  unfolding get_from Taken
  get_from-Taken [] h start = inl refl
  get_from-Taken (c ∷ l) (z, h) start = elim (Bool-cases (c == quote_mark)) [
    | inl quoted ↦
        let (x, t, line, e, r, rest, less) = read_string-Rest true l h in
        inr (t, line, rw (z, quoted, r) refl, rest, omega arith)
    | inr plain ↦
        let (x, t, line, e, r, rest, less) = read_string-Rest false (c ∷ l) (z, h) in
        let moves = Moves-size x (subst Moves e (first-Moves c l z start)) in
        inr (t, line, rw (z, plain, r) refl, rest, omega (arith, moves))
  ]

  skip_space-ended :
      (l : Bytes)
      → IsText l
      → (m : Bytes) × IsText m
        × (skip_space (ended l) ≡ some (ended m))
        × (length m ≤ length l)
        × Trimmed m
  unfolding skip_space is_space
  skip_space-ended [] h = ([], tt, refl, omega arith, tt)
  skip_space-ended (c ∷ l) (z, h) = elim (Bool-cases (is_space c)) [
    | inl space ↦
        let (m, hm, e, less, start) = skip_space-ended l h in
        (m, hm, rw space e, omega arith, start)
    | inr plain ↦ (c ∷ l, (z, h), rw plain refl, omega arith, plain)
  ]

  get_string-Taken : (l : Bytes) → IsText l → Taken (ended l) (get_string (ended l))
  unfolding get_string Taken
  get_string-Taken [] h = inl refl
  get_string-Taken (c ∷ l) (z, h) =
      let (m, hm, e, less, start) = skip_space-ended (c ∷ l) (z, h) in
      elim (get_from-Taken m hm start) [
        | inl null ↦ inl (rw z (bind_some _ _ (ended m) e ∙ null))
        | inr (t, line, r, rest, k) ↦ inr (
          t,
          line,
          rw z (bind_some _ _ (ended m) e ∙ r),
          rest,
          omega (arith, k, length-append m (0 ∷ 0 ∷ stale), length-append l (0 ∷ 0 ∷ stale)),
        )
      ]

  split_end : (fuel : ℕ) (p : Bytes) → get_string p ≡ some none → split_line (suc fuel) p ≡ some []
  unfolding split_line
  split_end fuel p e = rw e refl

  split_next :
      (fuel : ℕ) (p t line : Bytes) (args : List Bytes)
      → get_string p ≡ some (some (t, line))
      → split_line fuel line ≡ some args
      → split_line (suc fuel) p ≡ some (t ∷ args)
  unfolding split_line
  split_next fuel p t line args e r = rw (e, r) refl

  at_end : get_string (0 ∷ stale) ≡ some none
  unfolding get_string
  at_end = refl

  split_line-Rest :
      (fuel : ℕ) (p : Bytes)
      → Rest p
      → length p ≤ fuel
      → (args : List Bytes) × (split_line fuel p ≡ some args)
  unfolding Rest Inside Taken
  split_line-Rest zero p (inl (l, h, e)) k =
      absurd (omega (arith, ap length e, length-append l (0 ∷ 0 ∷ stale)))
  split_line-Rest zero p (inr e) k = absurd (omega (arith, ap length e))
  split_line-Rest (suc fuel) p (inr e) k = ([], split_end fuel p (ap get_string e ∙ at_end))
  split_line-Rest (suc fuel) p (inl (l, h, e)) k = elim (get_string-Taken l h) [
    | inl null ↦ ([], split_end fuel p (ap get_string e ∙ null))
    | inr (t, line, r, rest, less) ↦
        let (args, done) = split_line-Rest fuel line rest (omega (arith, ap length e, less)) in
        (t ∷ args, split_next fuel p t line args (ap get_string e ∙ r) done)
  ]

-- The buffer of a line that ended with a newline and holds no byte 0, whatever its quotes and
-- backslashes are and whatever the buffer held before, is split into arguments: each call of
-- `getString` stays inside the buffer, and as many calls as the buffer has bytes reach the end.
pub split_line-total :
    (l stale : Bytes)
    → IsText l
    → (args : List Bytes) × (split_line (length (l ++ (0 ∷ 0 ∷ stale))) (l ++ (0 ∷ 0 ∷ stale))
        ≡ some args)
unfolding Rest Inside
split_line-total l stale h = split_line-Rest stale _ _ (inl (l, h, refl)) (omega arith)
