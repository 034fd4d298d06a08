-- ===== src/Shell/Line/RoundTrip.antt =====
-- scutil/scutil.c: quoted arguments are read back by `getString` and the loop of `process_line`.
use configd_extra.Base.{
  ℕ, zero, suc, ◌+◌, ◌-◌, ◌<◌, ◌≡◌, refl, Bool, true, false, not, ◌&&◌, List, [], ◌∷◌, ◌++◌, some,
  Bytes, length, ◌==◌, if◌then◌else◌, ◌>>=◌, arith, All, ap, sym, lt→ltb, ap₂, Bool-cases, inl, inr,
}
use configd_extra.Shell.Line.{
  quote_mark, backslash, newline, skip_space, is_escaped, bit, Extent, extend, stop, find_end,
  is_dropped, copy_string, pass_quote, read_string, get_from, get_string, split_line,
}
use configd_extra.Shell.Line.Bounds.{copy-end}
use configd_extra.Shell.Scan.{is_space}

-- A byte that a quoted argument can hold: no terminator, newline or backslash.
unfoldable pub is_plain : ℕ → Bool
is_plain c = not (c == 0) && (not (c == newline) && not (c == backslash))

abbrev pub IsPlain : Bytes → Type 0
IsPlain = All (λ c. is_plain c ≡ true)

unfoldable pub escape : Bytes → Bytes
escape [] = []
escape (c ∷ a) =
    let rest = escape a in if c == quote_mark then backslash ∷ quote_mark ∷ rest else c ∷ rest

unfoldable pub quotes : Bytes → ℕ
quotes [] = 0
quotes (c ∷ a) = bit (c == quote_mark) + quotes a

-- An argument in quotes, in front of `rest`.
abbrev pub quoted : Bytes → Bytes → Bytes
quoted a rest = quote_mark ∷ escape a ++ (quote_mark ∷ rest)

-- Each argument in quotes behind a space.
unfoldable pub write_line : List Bytes → Bytes → Bytes
write_line [] rest = rest
write_line (a ∷ args) rest = 32 ∷ quoted a (write_line args rest)

escape_quote :
    (c : ℕ) (a : Bytes)
    → (c == quote_mark) ≡ true
    → escape (c ∷ a) ≡ backslash ∷ quote_mark ∷ escape a
unfolding escape
escape_quote c a e = rw e refl

escape_other : (c : ℕ) (a : Bytes) → (c == quote_mark) ≡ false → escape (c ∷ a) ≡ c ∷ escape a
unfolding escape
escape_other c a e = rw e refl

find_end_close :
    (rest : Bytes) → find_end true (quote_mark ∷ rest) ≡ some (stop 0 (quote_mark ∷ rest))
unfolding find_end
find_end_close [] = refl
find_end_close (d ∷ rest) = refl

find_end_plain :
    (c : ℕ) (t : Bytes)
    → is_plain c ≡ true
    → (c == quote_mark) ≡ false
    → find_end true (c ∷ t) ≡ (find_end true t >>= λ x. some (extend 1 0 x))
unfolding find_end is_plain
find_end_plain c [] p q = ground arith
find_end_plain c (d ∷ t) p q = ground arith

find_end_escaped :
    (t : Bytes)
    → find_end true (backslash ∷ quote_mark ∷ t) ≡ (find_end true t >>= λ x. some (extend 2 1 x))
unfolding find_end is_escaped
find_end_escaped t = refl

copy_plain :
    (n c : ℕ) (t : Bytes) (capacity i : ℕ)
    → (c == backslash) ≡ false
    → i < capacity
    → copy_string (suc n) (c ∷ t) capacity i
      ≡ (copy_string n t capacity (i + 1) >>= λ s. some (c ∷ s))
unfolding copy_string is_dropped
copy_plain n c [] capacity i e h = rw (lt→ltb i capacity h, e) refl
copy_plain n c (d ∷ t) capacity i e h = rw (lt→ltb i capacity h, e) refl

copy_escaped :
    (n : ℕ) (t : Bytes) (capacity i : ℕ)
    → i < capacity
    → copy_string (suc n) (backslash ∷ quote_mark ∷ t) capacity i
      ≡ copy_string n (quote_mark ∷ t) capacity i
unfolding copy_string is_dropped is_escaped
copy_escaped n t capacity i h = rw (lt→ltb i capacity h) refl

==→≡ : (a b : ℕ) → (a == b) ≡ true → a ≡ b
==→≡ a b h = ground arith

abbrev extent : ℕ → ℕ → Bytes → Extent
extent n k e = record { size = n; escaped = k; end = e }

quotes_step : (c : ℕ) (a : Bytes) → quotes (c ∷ a) ≡ bit (c == quote_mark) + quotes a
unfolding quotes
quotes_step c a = refl

find_end_quoted :
    (a rest : Bytes)
    → IsPlain a
    → find_end true (escape a ++ (quote_mark ∷ rest))
      ≡ some (extent (length (escape a)) (quotes a) (quote_mark ∷ rest))
unfolding escape quotes
find_end_quoted [] rest h = find_end_close rest
find_end_quoted (c ∷ a) rest (p, h) = elim (Bool-cases (c == quote_mark)) [
  | inl quote ↦
      rw (quote, find_end_escaped (escape a ++ (quote_mark ∷ rest)), find_end_quoted a rest h)
        (ap₂ (λ n k. some (extent n k (quote_mark ∷ rest))) (omega arith) (omega arith))
  | inr other ↦
      rw
        (
          other,
          find_end_plain c (escape a ++ (quote_mark ∷ rest)) p other,
          find_end_quoted a rest h,
        )
        (ap₂ (λ n k. some (extent n k (quote_mark ∷ rest))) (omega arith) (omega arith))
]

plain_backslash : (c : ℕ) → is_plain c ≡ true → (c == backslash) ≡ false
unfolding is_plain
plain_backslash c h = ground arith

copy_quoted :
    (a rest : Bytes) (capacity i : ℕ)
    → IsPlain a
    → i + length a < capacity
    → copy_string (length (escape a)) (escape a ++ (quote_mark ∷ rest)) capacity i ≡ some a
unfolding escape
copy_quoted [] rest capacity i h k = copy-end (quote_mark ∷ rest) capacity i (omega arith)
copy_quoted (c ∷ a) rest capacity i (p, h) k =
    let tail = escape a ++ (quote_mark ∷ rest) in
    let later = copy_quoted a rest capacity (i + 1) h (omega arith) in
    elim (Bool-cases (c == quote_mark)) [
      | inl quote ↦
          rw
            (
              quote,
              copy_escaped (suc (length (escape a))) tail capacity i (omega arith),
              copy_plain (length (escape a)) quote_mark tail capacity i refl (omega arith),
              later,
            )
            (ap (λ b. some (b ∷ a)) (sym (==→≡ c quote_mark quote)))
      | inr other ↦
          rw
            (
              other,
              copy_plain (length (escape a)) c tail capacity i (plain_backslash c p) (omega arith),
              later,
            )
            refl
    ]

length-escape : (a : Bytes) → length (escape a) ≡ length a + quotes a
unfolding escape quotes
length-escape [] = refl
length-escape (c ∷ a) = ground (arith, length-escape a)

read_quoted :
    (a rest : Bytes)
    → IsPlain a
    → read_string true (escape a ++ (quote_mark ∷ rest)) ≡ some (a, rest)
unfolding read_string pass_quote
read_quoted a rest h =
    rw
      (
        find_end_quoted a rest h,
        copy_quoted a rest (length (escape a) - quotes a + 1) 0 h (omega (arith, length-escape a)),
      )
      refl

get_quoted : (a rest : Bytes) → IsPlain a → get_string (32 ∷ quoted a rest) ≡ some (some (a, rest))
unfolding get_string skip_space get_from is_space
get_quoted a rest h = rw (read_quoted a rest h) refl

split_end : (fuel : ℕ) (stale : Bytes) → split_line (suc fuel) (0 ∷ stale) ≡ some []
unfolding split_line get_string
split_end fuel stale = refl

split_step :
    (fuel : ℕ) (a rest : Bytes) (args : List Bytes)
    → IsPlain a
    → split_line fuel rest ≡ some args
    → split_line (suc fuel) (32 ∷ quoted a rest) ≡ some (a ∷ args)
unfolding split_line
split_step fuel a rest args h e = rw (get_quoted a rest h, e) refl

pub split_line-write_line :
    (fuel : ℕ) (args : List Bytes) (stale : Bytes)
    → All IsPlain args
    → length args < fuel
    → split_line fuel (write_line args (0 ∷ stale)) ≡ some args
unfolding write_line
split_line-write_line zero args stale h k = absurd (omega arith)
split_line-write_line (suc fuel) [] stale h k = split_end fuel stale
split_line-write_line (suc fuel) (a ∷ args) stale (p, h) k =
    split_step fuel a _ args p (split_line-write_line fuel args stale h (omega arith))
