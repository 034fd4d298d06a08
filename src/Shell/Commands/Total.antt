-- ===== src/Shell/Commands/Total.antt =====
-- scutil/scutil.c, `process_line` on any line that fits into its buffer.
use configd_extra.Base.{
  ℕ, zero, suc, ◌+◌, ◌≤◌, ◌<◌, ◌≡◌, refl, ◌∙◌, Bool, true, false, not, List, [], ◌∷◌, ◌++◌, Option,
  some, Bytes, length, if◌then◌else◌, arith, All, Bool-cases, inl, inr, bind_some, elim_some,
  length-append,
}
use configd_extra.Shell.Commands.{
  line_length, is_comment, run_arguments, echo_line, processed, process_line, read_lines,
  do_read_file,
}
use configd_extra.Shell.Commands.Arguments.{IsLine, get_line-line}
use configd_extra.Shell.Commands.Files.{entered, read_end}
use configd_extra.Shell.Line.{newline}
use configd_extra.Shell.Line.Split.{IsText, split_line-total}
use configd_extra.Shell.State.{Shell}

-- Lines without their newlines, and the file of them.
unfoldable pub text_file : List Bytes → Bytes
text_file [] = []
text_file (l ∷ lines) = l ++ (newline ∷ text_file lines)

abbrev pub FitsBuffer : Bytes → Type 0
FitsBuffer l = IsLine l × (length l + 1 < line_length)

line-IsText : (l : Bytes) → IsLine l → IsText l
line-IsText [] h = tt
line-IsText (c ∷ l) ((_, z), h) = (z, line-IsText l h)

length-text_file : (lines : List Bytes) → length lines ≤ length (text_file lines)
unfolding text_file
length-text_file [] = omega arith
length-text_file (l ∷ lines) =
    omega (arith, length-text_file lines, length-append l (newline ∷ text_file lines))

if_true : {A : Type 0} {b : Bool} (x y : A) → b ≡ true → (if b then x else y) ≡ x
if_true x y e = rw e refl

if_false : {A : Type 0} {b : Bool} (x y : A) → b ≡ false → (if b then x else y) ≡ y
if_false x y e = rw e refl

module _ {Key P H W : Type 0} (command : List Bytes → Shell Key P H W → Option (Shell Key P H W))
    (returns : (args : List Bytes) (s : Shell Key P H W)
      → (s' : Shell Key P H W) × (command args s ≡ some s')) where
  run_arguments-total :
      (args : List Bytes) (s : Shell Key P H W)
      → (ok : Bool) × (s' : Shell Key P H W) × (run_arguments command args s ≡ some (ok, s'))
  unfolding run_arguments
  run_arguments-total [] s = (true, s, refl)
  run_arguments-total (a ∷ args) s = elim (Bool-cases (is_comment a)) [
    | inl comment ↦ (not s.term_requested, s, rw comment refl)
    | inr plain ↦
        let (s', e) = returns (a ∷ args) s in
        (not s'.term_requested, s', rw plain (bind_some _ _ s' e))
  ]

  -- The line is split, whatever it holds, and its command run.
  process_line-total :
      (s : Shell Key P H W) (l stale more : Bytes)
      → FitsBuffer l
      → (ok : Bool) × (s' : Shell Key P H W) × (process_line command stale (l ++ (newline ∷ more)) s
          ≡ some (ok, more, s'))
  unfolding process_line processed
  process_line-total s l stale more (h, k) =
      let (args, e) = split_line-total l stale (line-IsText l h) in
      let (ok, s', r) = run_arguments-total args (echo_line _ s) in
      (
        ok,
        s',
        bind_some _ _ _ (get_line-line line_length stale l more h k)
            ∙ bind_some _ _ args e
            ∙ bind_some _ _ (ok, s') r,
      )

  read_next :
      (stale input more : Bytes) (fuel : ℕ) (ok : Bool) (s s' : Shell Key P H W)
      → process_line command stale input s ≡ some (ok, more, s')
      → read_lines command stale (suc fuel) input s
        ≡ (if ok then read_lines command stale fuel more s' else some s')
  unfolding read_lines
  read_next stale input more fuel ok s s' e = bind_some _ _ (ok, more, s') e

  read_lines-total :
      (stale : Bytes) (fuel : ℕ) (lines : List Bytes) (s : Shell Key P H W)
      → All FitsBuffer lines
      → length lines < fuel
      → (s' : Shell Key P H W) × (read_lines command stale fuel (text_file lines) s ≡ some s')
  unfolding text_file
  read_lines-total stale zero lines s h k = absurd (omega arith)
  read_lines-total stale (suc fuel) [] s h k = (s, read_end command stale fuel s)
  read_lines-total stale (suc fuel) (l ∷ lines) s (fits, h) k =
      let (ok, s1, e) = process_line-total s l stale (text_file lines) fits in
      let step = read_next stale _ (text_file lines) fuel ok s s1 e in
      elim (Bool-cases ok) [
        | inl more ↦
            let (s2, r) = read_lines-total stale fuel lines s1 h (omega arith) in
            (s2, step ∙ if_true _ _ more ∙ r)
        | inr done ↦ (s1, step ∙ if_false _ _ done)
      ]

-- Let every command return. Then `f.read` returns on any file that can be opened and whose lines end
-- with a newline and hold at most 2046 other bytes, none of them 0, whatever quotes and backslashes
-- are in them and whatever the line buffer held before: every line is read and split inside its
-- buffer, and the loop ends.
pub do_read_file-total :
    {Key P H W : Type 0} (command : List Bytes → Shell Key P H W → Option (Shell Key P H W))
    → ((args : List Bytes) (s : Shell Key P H W)
        → (s' : Shell Key P H W) × (command args s ≡ some s'))
    → (stale : Bytes) (fopen : Bytes → Option Bytes) (name : Bytes) (args : List Bytes)
      (lines : List Bytes) (s : Shell Key P H W)
    → fopen name ≡ some (text_file lines)
    → All FitsBuffer lines
    → (s' : Shell Key P H W) × (do_read_file command stale fopen (name ∷ args) s ≡ some s')
unfolding do_read_file
do_read_file-total command returns stale fopen name args lines s e h =
    let (s', r) =
      read_lines-total command returns stale (length (text_file lines) + 1) lines (entered name s) h
        (omega (arith, length-text_file lines)) in
    (s', elim_some (fopen name) _ _ (text_file lines) e ∙ r)
