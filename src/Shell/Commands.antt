-- ===== src/Shell/Commands.antt =====
-- scutil/commands.c: the dispatch of a command, help, and the reading of files; and `process_line`
-- of scutil/scutil.c, which runs the command of a line.
pub mod Arguments
pub mod Files
pub mod Total
pub mod Safe
use configd_extra.Base.{
  ℕ, zero, suc, ◌+◌, Bool, true, false, not, ◌&&◌, List, [], ◌∷◌, Option, none, some, Bytes, codes,
  if◌then◌else◌, ◌>>=◌, length, ltb, ◌==◌,
}
use configd_extra.Base.Int.{ℤ, pos, negsuc, ltb_ℤ}
use configd_extra.Shell.Cache.{
  do_block, do_list, do_add, do_get, do_set, do_show, do_remove, do_notify,
}
use configd_extra.Shell.Dictionary.{do_dict_init, do_dict_show, do_dict_set_key, do_dict_remove_key}
use configd_extra.Shell.Line.{get_line, split_line, c_string}
use configd_extra.Shell.Scan.{equal_nocase}
use configd_extra.Shell.Session.{
  do_open, do_close, do_notify_list, do_notify_add, do_notify_remove, do_notify_changes,
}
use configd_extra.Shell.State.{Cf, StoreApi, Shell, Message, text, about_command, at_level, print}
use configd_extra.Shell.Table.{Handler, Command, commands_store}

abbrev pub line_length : ℕ
line_length = 2048

abbrev pub in_group : Option ℕ → ℕ → Bool
in_group none g = false
in_group (some h) g = h == g

-- The guard for a comment, `*argv[0] != '#'`.
unfoldable pub is_comment : Bytes → Bool
is_comment [] = false
is_comment (c ∷ a) = c == 35

-- What a handler does with the arguments behind the command; `none` is a fault.
abbrev pub Runs : (Key P H W : Type 0) → Type 0
Runs Key P H W = Handler → List Bytes → Shell Key P H W → Option (Shell Key P H W)

module _ {Key P H W : Type 0} where
  -- The check of the number of arguments, and the call.
  unfoldable pub run_command :
      Runs Key P H W → Command → Bytes → List Bytes → Shell Key P H W → Option (Shell Key P H W)
  run_command run c cmd args s =
      if ltb (length args) c.min_args
      then some (print (about_command cmd (codes ": too few arguments\n")) s)
      else if ltb c.max_args (length args)
      then some (print (about_command cmd (codes ": too many arguments\n")) s)
      else run c.func args s

  -- A private command is passed over while access to it is not enabled.
  unfoldable pub is_private : Command → Shell Key P H W → Bool
  is_private c s = ltb_ℤ (pos 1) c.ctype && not s.enable_private_api

  -- The loop over the table.
  unfoldable pub dispatch :
      Runs Key P H W
      → List Command
      → Bytes
      → List Bytes
      → Shell Key P H W
      → Option (Shell Key P H W)
  dispatch run [] cmd args s =
      some (print (about_command cmd (codes ": unknown, type \"help\" for command info\n")) s)
  dispatch run (c ∷ commands) cmd args s =
      let rest = dispatch run commands cmd args s in
      if is_private c s
      then rest
      else if equal_nocase cmd c.cmd
      then run_command run c cmd args s
      else rest

  unfoldable pub do_command :
      Runs Key P H W → List Command → List Bytes → Shell Key P H W → Option (Shell Key P H W)
  do_command run commands [] s = none
  do_command run commands (cmd ∷ args) s = dispatch run commands cmd args s

  -- `commands[i].usage` is not `NULL` for a command that is shown.
  unfoldable pub print_usage : Option Bytes → Shell Key P H W → Option (Shell Key P H W)
  print_usage none s = none
  print_usage (some usage) s = some (print (text usage) s)

  unfoldable pub is_hidden : Command → Shell Key P H W → Bool
  is_hidden c s =
      if ltb_ℤ c.ctype (pos 0) then true else ltb_ℤ (pos 0) c.ctype && not s.enable_private_api

  -- The loop of `do_help`, with the current group.
  unfoldable pub help_loop : Option ℕ → List Command → Shell Key P H W → Option (Shell Key P H W)
  help_loop g [] s = some (print (text (codes "\n")) s)
  help_loop g (c ∷ commands) s = if is_hidden c s then help_loop g commands s else (do
    s' ← print_usage c.usage (if in_group g c.group then s else print (text (codes "\n")) s)
    help_loop (some c.group) commands s')

  unfoldable pub do_help : List Command → Shell Key P H W → Option (Shell Key P H W)
  do_help commands s = help_loop none commands (print (text (codes "\nAvailable commands:\n")) s)

  unfoldable pub do_quit : List Bytes → Shell Key P H W → Option (Shell Key P H W)
  do_quit args s = some (record s { term_requested = true })

  -- A line's arguments are run as a command, if there are any.
  unfoldable pub run_arguments :
      (List Bytes → Shell Key P H W → Option (Shell Key P H W))
      → List Bytes
      → Shell Key P H W
      → Option (Bool × Shell Key P H W)
  run_arguments command [] s = some (true, s)
  run_arguments command (a ∷ args) s =
      if is_comment a
      then some (not s.term_requested, s)
      else do s' ← command (a ∷ args) s; some (not s'.term_requested, s')

  -- Inside a file the line is printed.
  unfoldable pub echo_line : Bytes → Shell Key P H W → Shell Key P H W
  echo_line line s = if ltb 0 s.nesting then print (at_level s.nesting line) s else s

  unfoldable pub processed :
      (List Bytes → Shell Key P H W → Option (Shell Key P H W))
      → Shell Key P H W
      → Option (Bytes × Bytes)
      → Option (Bool × Bytes × Shell Key P H W)
  processed command s none = some (false, [], s)
  processed command s (some (line, rest)) = do
    args ← split_line (length line) line
    (ok, s') ← run_arguments command args (echo_line (c_string line) s)
    some (ok, rest, s')

  -- `process_line` on a file: whether to go on, the rest of the file, and the state. The fuel of
  -- `split_line` is the length of the buffer, which each call of `getString` shortens.
  unfoldable pub process_line :
      (List Bytes → Shell Key P H W → Option (Shell Key P H W))
      → Bytes
      → Bytes
      → Shell Key P H W
      → Option (Bool × Bytes × Shell Key P H W)
  process_line command stale input s = do
    r ← get_line line_length stale input
    processed command s r

  -- The loop of `do_readFile`, on the lines left.
  unfoldable pub read_lines :
      (List Bytes → Shell Key P H W → Option (Shell Key P H W))
      → Bytes
      → ℕ
      → Bytes
      → Shell Key P H W
      → Option (Shell Key P H W)
  read_lines command stale zero input s = none
  read_lines command stale (suc fuel) input s = do
    (ok, rest, s') ← process_line command stale input s
    if ok then read_lines command stale fuel rest s' else some s'

  -- The system's own text for an error is left out of the message.
  -- `nesting` is counted up and not down again. A line takes at least one byte of the file, or is
  -- its end.
  unfoldable pub do_read_file :
      (List Bytes → Shell Key P H W → Option (Shell Key P H W))
      → Bytes
      → (Bytes → Option Bytes)
      → List Bytes
      → Shell Key P H W
      → Option (Shell Key P H W)
  do_read_file command stale fopen [] s = none
  do_read_file command stale fopen (name ∷ args) s = elim (fopen name) [
    | none ↦ some (print (text (codes "f.read: could not open file")) s)
    | some input ↦
        let s' = print (about_command (codes "f.read: reading file ") name) s in
        read_lines command stale (length input + 1) input (record s' { nesting = s'.nesting + 1 })
  ]

-- `f.read` and the handlers that wait on the run loop are parameters.
module _ {Key P H W : Type 0} (cf : Cf Key P) (api : StoreApi Key P H W)
    (others : Runs Key P H W) where
  unfoldable pub run_handler : Handler → List Bytes → Shell Key P H W → Option (Shell Key P H W)
  run_handler Handler.do_help args s = do_help commands_store s
  run_handler Handler.do_quit args s = do_quit args s
  run_handler Handler.do_dict_init args s = do_dict_init cf args s
  run_handler Handler.do_dict_show args s = do_dict_show cf args s
  run_handler Handler.do_dict_set_key args s = do_dict_set_key cf args s
  run_handler Handler.do_dict_remove_key args s = do_dict_remove_key cf args s
  run_handler Handler.do_open args s = do_open cf api args s
  run_handler Handler.do_close args s = do_close cf api args s
  run_handler Handler.do_block args s = do_block cf api args s
  run_handler Handler.do_list args s = do_list cf api args s
  run_handler Handler.do_add args s = do_add cf api args s
  run_handler Handler.do_get args s = do_get cf api args s
  run_handler Handler.do_set args s = do_set cf api args s
  run_handler Handler.do_show args s = do_show cf api args s
  run_handler Handler.do_remove args s = do_remove cf api args s
  run_handler Handler.do_notify args s = do_notify cf api args s
  run_handler Handler.do_notify_list args s = do_notify_list cf api args s
  run_handler Handler.do_notify_add args s = do_notify_add cf api args s
  run_handler Handler.do_notify_remove args s = do_notify_remove cf api args s
  run_handler Handler.do_notify_changes args s = do_notify_changes cf api args s
  run_handler Handler.do_read_file args s = others Handler.do_read_file args s
  run_handler Handler.do_notify_watch args s = others Handler.do_notify_watch args s
  run_handler Handler.do_notify_wait args s = others Handler.do_notify_wait args s
  run_handler Handler.do_notify_file args s = others Handler.do_notify_file args s
  run_handler Handler.do_notify_cancel args s = others Handler.do_notify_cancel args s
  run_handler Handler.do_snapshot args s = others Handler.do_snapshot args s
