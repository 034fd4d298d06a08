-- ===== src/Shell/Tests.antt =====
-- Runs of the shell on small concrete libraries, and the theorems there.
use configd_extra.Base.{
  ℕ, ◌+◌, ◌≤◌, ◌<◌, ◌≡◌, refl, Bool, true, false, List, [], ◌∷◌, ◌++◌, Option, none, some, Bytes,
  codes, equal, length, ◌>>=◌, arith, ◌⊎◌, All,
}
use configd_extra.Shell.Cache.{wanted_block, do_block, is_active}
use configd_extra.Shell.Cache.Block.{CacheLaws, do_block-is_active}
use configd_extra.Shell.Commands.{
  Runs, do_command, run_handler, run_arguments, do_read_file, process_line, echo_line, line_length,
}
use configd_extra.Shell.Commands.Arguments.{process_line-write_line}
use configd_extra.Shell.Commands.Files.{
  write_file, FitsLine, run_lines, entered, do_read_file-write_file,
}
use configd_extra.Shell.Commands.Total.{text_file, FitsBuffer, do_read_file-total}
use configd_extra.Shell.Commands.Safe.{OthersSafe, do_command-Consistent}
use configd_extra.Shell.Dictionary.{do_dict_set_key}
use configd_extra.Shell.Dictionary.Data.{hex_text, do_dict_set_key-hex_text}
use configd_extra.Shell.Line.{fgets, c_string, split_line, newline, get_string}
use configd_extra.Shell.Line.Bounds.{get_string-total}
use configd_extra.Shell.Line.Ends.{has_nul}
use configd_extra.Shell.Line.Split.{IsText, split_line-total}
use configd_extra.Shell.Line.RoundTrip.{IsPlain, is_plain, write_line, escape}
use configd_extra.Shell.Session.{do_notify_add, do_notify_remove, contains}
use configd_extra.Shell.Session.Safe.{IsConsistent, return-Safe, Linked}
use configd_extra.Shell.Session.Watched.{HasLists, do_notify_remove-do_notify_add}
use configd_extra.Shell.State.{Shell, Converts}
use configd_extra.Shell.Stdin.{
  copy_string_from_stdin, trim_input, chomp_input, trim_front, trim_back,
}
use configd_extra.Shell.Stdin.Trimmed.{padded, IsInLine, copy_string_from_stdin-padded}
use configd_extra.Shell.Scan.{is_space}
use configd_extra.Shell.Table.{commands_store}
use configd_extra.Shell.Libraries.{empty, entry, data_of, array, Plist, cf, api}

abbrev Sh : Type 0
Sh = Shell Bytes Plist ℕ Bool

-- An open session that watches one key.
abbrev shell : Sh
shell = record {
  value = some empty;
  store = some 1;
  watched_keys = some (codes "State:/a" ∷ []);
  watched_patterns = some [];
  notify_source = false;
  notify_loop = false;
  do_dispatch = false;
  term_requested = false;
  enable_private_api = false;
  nesting = 0;
  world = false;
  out = [];
}

shell-IsConsistent : IsConsistent shell
unfolding IsConsistent Linked
shell-IsConsistent = tt

converts : (a : Bytes) → Converts cf a
unfolding Converts
converts a = refl

abbrev others : Runs Bytes Plist ℕ Bool
others f args s = some s

others-OthersSafe : OthersSafe cf others
others-OthersSafe f args s n c h = return-Safe s h

do_command-Consistent_example :
    (s' : Sh) × (do_command
        (run_handler cf api others)
        commands_store
        (codes "N.add" ∷ codes "State:/b" ∷ [])
        shell
      ≡ some s')
    × IsConsistent s'
do_command-Consistent_example =
    do_command-Consistent cf api others others-OthersSafe (λ w. refl) (converts (codes ".*"))
      (codes "N.add") (codes "State:/b" ∷ []) shell (converts (codes "State:/b"), tt)
      shell-IsConsistent

shell-HasLists : HasLists cf api shell (codes "State:/a" ∷ []) [] (some 1)
shell-HasLists = record { keys = refl; patterns = refl; session = refl }

is_new : contains cf (codes "State:/a" ∷ []) (codes "State:/b") ≡ false
unfolding contains equal
is_new = refl

self_equal : equal (codes "State:/b") (codes "State:/b") ≡ true
unfolding equal
self_equal = refl

do_notify_remove-do_notify_add_example :
    (s' s'' : Sh) × (do_notify_add cf api (codes "State:/b" ∷ []) shell ≡ some s')
    × HasLists cf api s' (codes "State:/a" ∷ codes "State:/b" ∷ []) [] (some 1)
    × (do_notify_remove cf api (codes "State:/b" ∷ []) s' ≡ some s'')
    × HasLists cf api s'' (codes "State:/a" ∷ []) [] (some 1)
do_notify_remove-do_notify_add_example =
    do_notify_remove-do_notify_add cf api shell (codes "State:/a" ∷ []) [] 1 (codes "State:/b") []
      shell-HasLists (converts (codes "State:/b")) self_equal is_new

cache-CacheLaws : CacheLaws cf api
cache-CacheLaws = record { after_open = λ w o. refl; after_close = λ w o. refl }

begins : wanted_block cf api [] shell ≡ some true
unfolding wanted_block is_active
begins = refl

do_block-is_active_example :
    (s' : Sh) × (do_block cf api [] shell ≡ some s')
    × (is_active cf api s' ≡ true)
    × (s'.store ≡ some 1)
    × (is_active cf api shell ≡ true → s'.world ≡ false)
do_block-is_active_example = do_block-is_active cf api cache-CacheLaws [] 1 shell true refl begins

do_dict_set_key-hex_text_example :
    do_dict_set_key cf (codes "MAC" ∷ codes "%" ∷ hex_text (0 ∷ 171 ∷ 255 ∷ []) ∷ []) shell
    ≡ some
        (record shell { value = some (entry (codes "MAC") (data_of (0 ∷ 171 ∷ 255 ∷ [])) empty) })
do_dict_set_key-hex_text_example =
    do_dict_set_key-hex_text cf shell empty (codes "MAC") (0 ∷ 171 ∷ 255 ∷ []) refl refl
      (converts (codes "MAC")) (omega arith, (omega arith, (omega arith, tt)))

abbrev a_line : Bytes
a_line = codes "add \"a b\"" ++ (0 ∷ [])

a_line-has_nul : has_nul a_line ≡ true
unfolding has_nul
a_line-has_nul = refl

get_string-total_example :
    (get_string a_line ≡ some none)
    ⊎ ((t line : Bytes) × (get_string a_line ≡ some (some (t, line)))
        × (length line ≤ 10)
        × (length t ≤ 10))
get_string-total_example = get_string-total a_line a_line-has_nul

abbrev two_arguments : List Bytes
two_arguments = codes "n.add" ∷ codes "a \" b" ∷ []

two_arguments-IsPlain : All IsPlain two_arguments
unfolding is_plain
two_arguments-IsPlain = search arith

is_short : length (write_line two_arguments []) + 1 < line_length
unfolding write_line escape
is_short = omega arith

abbrev echo : List Bytes → Sh → Option Sh
echo args s = some (record s { value = some (array args) })

process_line-write_line_example :
    process_line echo [] (write_line two_arguments [] ++ (newline ∷ codes "quit")) shell ≡ (
      run_arguments echo two_arguments (echo_line (write_line two_arguments []) shell) >>= λ r.
      some (r.0, codes "quit", r.1))
process_line-write_line_example =
    process_line-write_line echo shell two_arguments [] (codes "quit") two_arguments-IsPlain
      is_short

abbrev two_lines : List (List Bytes)
two_lines = two_arguments ∷ (codes "quit" ∷ []) ∷ []

two_lines-FitsLine : All FitsLine two_lines
unfolding write_line escape is_plain
two_lines-FitsLine = ((search arith, omega arith), ((search arith, omega arith), tt))

do_read_file-write_file_example :
    do_read_file echo [] (λ name. some (write_file two_lines)) (codes "f" ∷ []) shell
    ≡ run_lines echo two_lines (entered (codes "f") shell)
do_read_file-write_file_example =
    do_read_file-write_file echo [] (λ name. some (write_file two_lines)) (codes "f") [] two_lines
      shell refl two_lines-FitsLine

not_space : is_space 97 ≡ false
unfolding is_space
not_space = refl

a_a-IsInLine : All IsInLine (codes "a a")
unfolding IsInLine
a_a-IsInLine = search arith

copy_string_from_stdin-padded_example :
    copy_string_from_stdin true (padded (codes "a a") 2 ++ codes "next") ≡ some (some (codes "a a"))
copy_string_from_stdin-padded_example =
    copy_string_from_stdin-padded true (codes "a ") 97 97 2 (codes "next") a_a-IsInLine
      (omega arith) refl not_space not_space

-- A space at the front makes the text empty.
space_in_front : copy_string_from_stdin false (codes " a\n") ≡ some (some [])
unfolding copy_string_from_stdin trim_input fgets c_string chomp_input trim_front trim_back is_space
space_in_front = refl

-- A quoted string without its closing quote.
open_quote-IsText : IsText (codes "add \"a")
open_quote-IsText = search arith

split_line-total_example :
    (args : List Bytes) × (split_line
        (length (codes "add \"a" ++ (0 ∷ 0 ∷ 7 ∷ [])))
        (codes "add \"a" ++ (0 ∷ 0 ∷ 7 ∷ []))
      ≡ some args)
split_line-total_example = split_line-total (codes "add \"a") (7 ∷ []) open_quote-IsText

abbrev odd_lines : List Bytes
odd_lines = codes "add \"a" ∷ codes "\\" ∷ []

odd_lines-FitsBuffer : All FitsBuffer odd_lines
odd_lines-FitsBuffer = ((search arith, omega arith), ((search arith, omega arith), tt))

do_read_file-total_example :
    (s' : Sh) × (do_read_file echo [] (λ name. some (text_file odd_lines)) (codes "f" ∷ []) shell
      ≡ some s')
do_read_file-total_example =
    do_read_file-total echo (λ args s. (record s { value = some (array args) }, refl)) []
      (λ name. some (text_file odd_lines)) (codes "f") [] odd_lines shell refl odd_lines-FitsBuffer
