-- ===== src/Shell/Commands/Arguments.antt =====
-- scutil/scutil.c, `process_line` on a line of a file that holds quoted arguments.
use configd_extra.Base.{
  ℕ, zero, suc, ◌+◌, ◌-◌, ◌≤◌, ◌<◌, ◌≡◌, refl, false, List, [], ◌∷◌, ◌++◌, Option, some, Bytes,
  length, ◌==◌, ◌>>=◌, arith, All, ap, sym, ◌∙◌, Bool-cases, inl, inr, append_assoc, length-append,
  subst,
}
use configd_extra.Shell.Commands.{line_length, run_arguments, echo_line, processed, process_line}
use configd_extra.Shell.Line.{
  quote_mark, newline, fgets, c_string, chomp, filled, line_of, line_read, get_line, split_line,
}
use configd_extra.Shell.Line.RoundTrip.{
  IsPlain, is_plain, escape, write_line, split_line-write_line,
}
use configd_extra.Shell.State.{Shell}

-- A line without its newline: neither a newline nor a byte 0.
abbrev pub IsLine : Bytes → Type 0
IsLine = All (λ c. ((c == newline) ≡ false) × ((c == 0) ≡ false))

fgets-line :
    (n : ℕ) (l more : Bytes)
    → IsLine l
    → length l < n
    → fgets n (l ++ (newline ∷ more)) ≡ (l ++ (newline ∷ []), more)
unfolding fgets
fgets-line zero l more h k = absurd (omega arith)
fgets-line (suc n) [] more h k = refl
fgets-line (suc n) (c ∷ l) more ((e, z), h) k = rw (fgets-line n l more h (omega arith), e) refl

c_string-line : (l : Bytes) → IsLine l → c_string (l ++ (newline ∷ [])) ≡ l ++ (newline ∷ [])
unfolding c_string
c_string-line [] h = refl
c_string-line (c ∷ l) ((e, z), h) = rw (z, c_string-line l h) refl

c_string-text : (l stale : Bytes) → IsLine l → c_string (l ++ (0 ∷ stale)) ≡ l
unfolding c_string
c_string-text [] stale h = refl
c_string-text (c ∷ l) stale ((e, z), h) = rw (z, c_string-text l stale h) refl

chomp_line : (l : Bytes) → chomp (l ++ (newline ∷ [])) ≡ some l
unfolding chomp
chomp_line [] = refl
chomp_line (c ∷ []) = refl
chomp_line (c ∷ d ∷ l) = rw (chomp_line (d ∷ l)) refl

filled-line :
    (stale l more : Bytes) → filled stale (l ++ (newline ∷ [])) more ≡ (l ++ (0 ∷ 0 ∷ stale), more)
unfolding filled
filled-line stale l more = rw (chomp_line l, filled) refl

line_of-line :
    (stale l more : Bytes)
    → line_of stale (l ++ (newline ∷ [])) more
      ≡ some (some (filled stale (l ++ (newline ∷ [])) more))
unfolding line_of
line_of-line stale [] more = refl
line_of-line stale (c ∷ l) more = refl

read-line :
    (stale l more : Bytes)
    → IsLine l
    → line_read stale (l ++ (newline ∷ []), more) ≡ line_of stale (l ++ (newline ∷ [])) more
unfolding line_read c_string
read-line stale [] more h = refl
read-line stale (c ∷ l) more h = ap (λ b. line_of stale b more) (c_string-line (c ∷ l) h)

pub get_line-line :
    (len : ℕ) (stale l more : Bytes)
    → IsLine l
    → length l + 1 < len
    → get_line len stale (l ++ (newline ∷ more)) ≡ some (some (l ++ (0 ∷ 0 ∷ stale), more))
unfolding get_line
get_line-line len stale l more h k =
    ap (line_read stale) (fgets-line (len - 1) l more h (omega arith))
    ∙ read-line stale l more h
    ∙ line_of-line stale l more
    ∙ ap (λ r. some (some r)) (filled-line stale l more)

write_line-append :
    (args : List Bytes) (rest : Bytes) → write_line args rest ≡ write_line args [] ++ rest
unfolding write_line
write_line-append [] rest = refl
write_line-append (a ∷ args) rest =
    ap (λ t. 32 ∷ quote_mark ∷ t)
      (ap (λ t. escape a ++ (quote_mark ∷ t)) (write_line-append args rest)
        ∙ sym (append_assoc (escape a) (quote_mark ∷ write_line args []) rest))

append-IsLine : (l m : Bytes) → IsLine l → IsLine m → IsLine (l ++ m)
append-IsLine [] m hl hm = hm
append-IsLine (c ∷ l) m (h, hl) hm = (h, append-IsLine l m hl hm)

escape-IsLine : (a : Bytes) → IsPlain a → IsLine (escape a)
unfolding escape is_plain
escape-IsLine [] h = tt
escape-IsLine (c ∷ a) (p, h) = elim (Bool-cases (c == quote_mark)) [
  | inl quote ↦ rw quote ((refl, refl), ((refl, refl), escape-IsLine a h))
  | inr other ↦ rw other ((ground arith, ground arith), escape-IsLine a h)
]

write_line-IsLine : (args : List Bytes) → All IsPlain args → IsLine (write_line args [])
unfolding write_line
write_line-IsLine [] h = tt
write_line-IsLine (a ∷ args) (p, h) = (
  (refl, refl),
  (
    (refl, refl),
    append-IsLine (escape a) _ (escape-IsLine a p) ((refl, refl), write_line-IsLine args h),
  ),
)

length-write_line : (args : List Bytes) → length args ≤ length (write_line args [])
unfolding write_line
length-write_line [] = omega arith
length-write_line (a ∷ args) =
    omega
      (arith, length-write_line args, length-append (escape a) (quote_mark ∷ write_line args []))

split-buffer :
    (args : List Bytes) (stale : Bytes)
    → All IsPlain args
    → let buffer = write_line args [] ++ (0 ∷ 0 ∷ stale) in
      split_line (length buffer) buffer ≡ some args
split-buffer args stale h =
    subst (λ b. split_line (length b) b ≡ some args) (write_line-append args (0 ∷ 0 ∷ stale))
      (split_line-write_line _ args (0 ∷ stale) h (
        omega (
          arith,
          length-write_line args,
          ap length (write_line-append args (0 ∷ 0 ∷ stale)),
          length-append (write_line args []) (0 ∷ 0 ∷ stale),
        )))

module _ {Key P H W : Type 0} where
  processed-line :
      (command : List Bytes → Shell Key P H W → Option (Shell Key P H W)) (s : Shell Key P H W)
      (args : List Bytes) (stale more : Bytes)
      → All IsPlain args
      → processed command s (some (write_line args [] ++ (0 ∷ 0 ∷ stale), more)) ≡ (
          run_arguments command args (echo_line (write_line args []) s) >>= λ r.
          some (r.0, more, r.1))
  unfolding processed
  processed-line command s args stale more h =
      rw
        (
          split-buffer args stale h,
          c_string-text (write_line args []) (0 ∷ stale) (write_line-IsLine args h),
        )
        refl

-- A line of a file with the arguments each in quotes behind a space, a quote inside one escaped by a
-- backslash, is at most 2046 bytes and a newline long, and no argument holds a byte 0, a newline or
-- a backslash. Then `process_line` runs exactly these arguments, goes on behind the newline, and
-- the line is shown as it stands where lines are shown.
pub process_line-write_line :
    {Key P H W : Type 0} (command : List Bytes → Shell Key P H W → Option (Shell Key P H W))
    (s : Shell Key P H W) (args : List Bytes) (stale more : Bytes)
    → All IsPlain args
    → length (write_line args []) + 1 < line_length
    → process_line command stale (write_line args [] ++ (newline ∷ more)) s ≡ (
        run_arguments command args (echo_line (write_line args []) s) >>= λ r.
        some (r.0, more, r.1))
unfolding process_line
process_line-write_line command s args stale more h k =
    rw (get_line-line line_length stale _ more (write_line-IsLine args h) k)
      (processed-line command s args stale more h)
