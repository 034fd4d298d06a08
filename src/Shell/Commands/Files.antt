-- ===== src/Shell/Commands/Files.antt =====
-- scutil/commands.c, `do_readFile` on a file of lines with quoted arguments.
use configd_extra.Base.{
  ℕ, zero, suc, ◌+◌, ◌≤◌, ◌<◌, ◌≡◌, refl, ap, ◌∙◌, Bool, false, List, [], ◌∷◌, ◌++◌, Option, none,
  some, Bytes, length, arith, All, if◌then◌else◌, ◌>>=◌, length-append, elim_some, codes,
}
use configd_extra.Shell.Commands.{
  line_length, run_arguments, echo_line, process_line, read_lines, do_read_file, processed,
}
use configd_extra.Shell.Commands.Arguments.{process_line-write_line}
use configd_extra.Shell.Line.{newline, fgets, get_line, line_read}
use configd_extra.Shell.Line.RoundTrip.{IsPlain, write_line}
use configd_extra.Shell.State.{Shell, about_command, print}

-- Lines, each as its arguments in quotes and a newline.
unfoldable pub write_file : List (List Bytes) → Bytes
write_file [] = []
write_file (args ∷ lines) = write_line args [] ++ (newline ∷ write_file lines)

-- The arguments can be quoted, and the line fits into the buffer.
abbrev pub FitsLine : List Bytes → Type 0
FitsLine args = All IsPlain args × (length (write_line args []) + 1 < line_length)

length-write_file : (lines : List (List Bytes)) → length lines ≤ length (write_file lines)
unfolding write_file
length-write_file [] = omega arith
length-write_file (args ∷ lines) = omega (
  arith,
  length-write_file lines,
  length-append (write_line args []) (newline ∷ write_file lines),
)

bind_same :
    {A B : Type 0} (m : Option A) (f g : A → Option B)
    → ((a : A) → f a ≡ g a)
    → (m >>= f) ≡ (m >>= g)
bind_same none f g h = refl
bind_same (some a) f g h = h a

module _ {Key P H W : Type 0}
    (command : List Bytes → Shell Key P H W → Option (Shell Key P H W)) where
  -- The lines one after the other, until one asks to stop.
  unfoldable pub run_lines : List (List Bytes) → Shell Key P H W → Option (Shell Key P H W)
  run_lines [] s = some s
  run_lines (args ∷ lines) s =
      run_arguments command args (echo_line (write_line args []) s) >>= λ r.
      (let rest = run_lines lines r.1 in if r.0 then rest else some r.1)

  read_step :
      (stale input more : Bytes) (fuel : ℕ) (s : Shell Key P H W)
      (m : Option (Bool × Shell Key P H W))
      → process_line command stale input s ≡ (m >>= λ r. some (r.0, more, r.1))
      → read_lines command stale (suc fuel) input s
        ≡ (m >>= λ r. if r.0 then read_lines command stale fuel more r.1 else some r.1)
  unfolding read_lines
  read_step stale input more fuel s none e = rw e refl
  read_step stale input more fuel s (some (ok, s')) e = rw e refl

  process_end :
      (stale : Bytes) (s : Shell Key P H W) → process_line command stale [] s ≡ some (false, [], s)
  unfolding process_line processed get_line line_read fgets
  process_end stale s = refl

  pub read_end :
      (stale : Bytes) (fuel : ℕ) (s : Shell Key P H W)
      → read_lines command stale (suc fuel) [] s ≡ some s
  unfolding read_lines
  read_end stale fuel s = rw (process_end stale s) refl

  read_lines-write_file :
      (stale : Bytes) (fuel : ℕ) (lines : List (List Bytes)) (s : Shell Key P H W)
      → All FitsLine lines
      → length lines < fuel
      → read_lines command stale fuel (write_file lines) s ≡ run_lines lines s
  unfolding write_file run_lines
  read_lines-write_file stale zero lines s h k = absurd (omega arith)
  read_lines-write_file stale (suc fuel) [] s h k = read_end stale fuel s
  read_lines-write_file stale (suc fuel) (args ∷ lines) s ((plain, fits), h) k =
      read_step stale _ (write_file lines) fuel s _
        (process_line-write_line command s args stale (write_file lines) plain fits)
      ∙ bind_same (run_arguments command args (echo_line (write_line args []) s)) _ _ (λ r.
        ap (λ o. if r.0 then o else some r.1)
          (read_lines-write_file stale fuel lines r.1 h (omega arith)))

-- The state in which the lines of a file are run.
abbrev pub entered : {Key P H W : Type 0} → Bytes → Shell Key P H W → Shell Key P H W
entered name s =
    let t = print (about_command (codes "f.read: reading file ") name) s in
    record t { nesting = t.nesting + 1 }

-- A file that can be opened holds lines, each with its arguments in quotes behind a space, of at most
-- 2046 bytes, where no argument holds a byte 0, a newline or a backslash. `f.read` runs the lines one
-- after the other with just these arguments, one level deeper than before, until the file ends or a
-- line asks to stop.
pub do_read_file-write_file :
    {Key P H W : Type 0} (command : List Bytes → Shell Key P H W → Option (Shell Key P H W))
    (stale : Bytes) (fopen : Bytes → Option Bytes) (name : Bytes) (args : List Bytes)
    (lines : List (List Bytes)) (s : Shell Key P H W)
    → fopen name ≡ some (write_file lines)
    → All FitsLine lines
    → do_read_file command stale fopen (name ∷ args) s ≡ run_lines command lines (entered name s)
unfolding do_read_file
do_read_file-write_file command stale fopen name args lines s e h =
    elim_some (fopen name) _ _ (write_file lines) e
    ∙ read_lines-write_file command stale (length (write_file lines) + 1) lines (entered name s) h
        (omega (arith, length-write_file lines))
