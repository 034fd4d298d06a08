-- ===== src/Shell/Commands/Safe.antt =====
-- scutil/commands.c: a command of the table runs to its end.
use configd_extra.Base.{
  ℕ, ◌≤◌, true, List, [], ◌∷◌, Option, none, some, Bytes, if◌then◌else◌, ◌≡◌, refl, ltb, length,
  arith, codes, ◌>>=◌, All, Bool-cases, ◌⊎◌, inl, inr,
}
use configd_extra.Base.Int.{pos, ltb_ℤ}
use configd_extra.Shell.Cache.Consistent.{
  do_block-Safe, do_list-Safe, do_add-Safe, do_get-Safe, do_set-Safe, do_show-Safe, do_remove-Safe,
  do_notify-Safe,
}
use configd_extra.Shell.Commands.{
  Runs, run_command, dispatch, do_command, print_usage, is_hidden, help_loop, do_help, do_quit,
  run_handler,
}
use configd_extra.Shell.Dictionary.Consistent.{
  do_dict_init-Safe, do_dict_show-Safe, do_dict_set_key-Safe, do_dict_remove_key-Safe,
}
use configd_extra.Shell.Session.Consistent.{
  do_open-Safe, do_close-Safe, do_notify_list-Safe, do_notify_add-Safe, do_notify_remove-Safe,
  do_notify_changes-Safe,
}
use configd_extra.Shell.Session.Safe.{
  IsConsistent, HasNoCache, if-Consistent, Safe, Safe-result, print-Consistent, print-Safe, if-Safe,
  bind-Safe,
}
use configd_extra.Shell.State.{Cf, Converts, StoreApi, Shell, text, print}
use configd_extra.Shell.Table.{Handler, Command, commands_store}

-- The arguments that a handler reads without a test, and whether it is modelled here.
unfoldable pub needed : Handler → ℕ
needed Handler.do_dict_set_key = 1
needed Handler.do_dict_remove_key = 1
needed Handler.do_add = 1
needed Handler.do_get = 1
needed Handler.do_set = 1
needed Handler.do_show = 1
needed Handler.do_remove = 1
needed Handler.do_notify = 1
needed Handler.do_notify_add = 1
needed Handler.do_notify_remove = 1
needed Handler.do_read_file = 1
needed _ = 0

-- A row of the table asks for the arguments that its handler reads, and a row that help may show
-- has a usage.
unfoldable pub IsSound : Command → Type 0
IsSound c =
    (needed c.func ≤ c.min_args)
    × ((ltb_ℤ c.ctype (pos 0) ≡ true) ⊎ ((u : Bytes) × (c.usage ≡ some u)))

commands_store-IsSound : All IsSound commands_store
unfolding commands_store IsSound needed
commands_store-IsSound = search arith

module _ {Key P H W : Type 0} where
  usage-Safe :
      (c : Command) (s t : Shell Key P H W) (o : Option (Shell Key P H W))
      (k : Shell Key P H W → Option (Shell Key P H W))
      → IsSound c
      → IsConsistent t
      → Safe o
      → ((u : Shell Key P H W) → IsConsistent u → Safe (k u))
      → Safe (if is_hidden c s then o else (print_usage c.usage t >>= k))
  unfolding is_hidden IsSound print_usage
  usage-Safe c s t o k (_, inl hidden) ht ho hk = rw hidden ho
  usage-Safe c s t o k (_, inr (u, e)) ht ho hk = if-Safe _ _ _ ho (
      bind-Safe (print_usage c.usage t) k (print (text u) t) (rw e refl)
        (hk _ (print-Consistent _ t ht)))

  help_loop-Safe :
      (g : Option ℕ) (cs : List Command) (s : Shell Key P H W)
      → All IsSound cs
      → IsConsistent s
      → Safe (help_loop g cs s)
  unfolding help_loop
  help_loop-Safe g [] s sound h = print-Safe _ s h
  help_loop-Safe g (c ∷ cs) s (sound, rest) h =
      usage-Safe c s _ _ _ sound (if-Consistent _ _ _ h (print-Consistent _ s h))
        (help_loop-Safe g cs s rest h) (λ u hu. help_loop-Safe (some c.group) cs u rest hu)

  run_command-Safe :
      (run : Runs Key P H W) (c : Command) (cmd : Bytes) (args : List Bytes) (s : Shell Key P H W)
      → IsSound c
      → ((f : Handler) → needed f ≤ length args → Safe (run f args s))
      → IsConsistent s
      → Safe (run_command run c cmd args s)
  unfolding run_command IsSound
  run_command-Safe run c cmd args s (enough, _) runs h =
      elim (Bool-cases (ltb (length args) c.min_args)) [
        | inl few ↦ rw few (print-Safe _ s h)
        | inr many ↦ rw many (if-Safe _ _ _ (print-Safe _ s h) (runs c.func (ground arith)))
      ]

  dispatch-Safe :
      (run : Runs Key P H W) (cs : List Command) (cmd : Bytes) (args : List Bytes)
      (s : Shell Key P H W)
      → All IsSound cs
      → ((f : Handler) → needed f ≤ length args → Safe (run f args s))
      → IsConsistent s
      → Safe (dispatch run cs cmd args s)
  unfolding dispatch
  dispatch-Safe run [] cmd args s sound runs h = print-Safe _ s h
  dispatch-Safe run (c ∷ cs) cmd args s (sound, rest) runs h =
      let r = dispatch-Safe run cs cmd args s rest runs h in
      if-Safe _ _ _ r (if-Safe _ _ _ (run_command-Safe run c cmd args s sound runs h) r)

abbrev pub OthersSafe : {Key P H W : Type 0} → Cf Key P → Runs Key P H W → Type 0
OthersSafe {Key = Key} {P = P} {H = H} {W = W} cf others =
    (f : Handler) (args : List Bytes) (s : Shell Key P H W)
    → needed f ≤ length args
    → All (Converts cf) args
    → IsConsistent s
    → Safe (others f args s)

module _ {Key P H W : Type 0} (cf : Cf Key P) (api : StoreApi Key P H W)
    (others : Runs Key P H W) where
  do_help-Safe : (s : Shell Key P H W) → IsConsistent s → Safe (do_help commands_store s)
  unfolding do_help
  do_help-Safe s h =
      help_loop-Safe none commands_store _ commands_store-IsSound (print-Consistent _ s h)

  do_quit-Safe : (args : List Bytes) (s : Shell Key P H W) → IsConsistent s → Safe (do_quit args s)
  unfolding do_quit Safe IsConsistent
  do_quit-Safe args s h = h

  run_handler-Safe :
      OthersSafe cf others
      → HasNoCache cf api
      → Converts cf (codes ".*")
      → (f : Handler) (args : List Bytes) (s : Shell Key P H W) → needed f ≤ length args
      → All (Converts cf) args
      → IsConsistent s
      → Safe (run_handler cf api others f args s)
  unfolding run_handler needed
  run_handler-Safe o law any Handler.do_help args s n c h = do_help-Safe s h
  run_handler-Safe o law any Handler.do_quit args s n c h = do_quit-Safe args s h
  run_handler-Safe o law any Handler.do_dict_init args s n c h = do_dict_init-Safe cf args s h
  run_handler-Safe o law any Handler.do_dict_show args s n c h = do_dict_show-Safe cf args s h
  run_handler-Safe o law any Handler.do_dict_set_key [] s n c h = absurd (omega arith)
  run_handler-Safe o law any Handler.do_dict_set_key (a ∷ args) s n c h =
      do_dict_set_key-Safe cf a args s c h
  run_handler-Safe o law any Handler.do_dict_remove_key [] s n c h = absurd (omega arith)
  run_handler-Safe o law any Handler.do_dict_remove_key (a ∷ args) s n c h =
      do_dict_remove_key-Safe cf a args s c.0 h
  run_handler-Safe o law any Handler.do_open args s n c h = do_open-Safe cf api args s
  run_handler-Safe o law any Handler.do_close args s n c h = do_close-Safe cf api args s h
  run_handler-Safe o law any Handler.do_block args s n c h = do_block-Safe cf api law args s h
  run_handler-Safe o law any Handler.do_list args s n c h = do_list-Safe cf api law any args s c h
  run_handler-Safe o law any Handler.do_add [] s n c h = absurd (omega arith)
  run_handler-Safe o law any Handler.do_add (a ∷ args) s n c h = do_add-Safe cf api a args s c.0 h
  run_handler-Safe o law any Handler.do_get [] s n c h = absurd (omega arith)
  run_handler-Safe o law any Handler.do_get (a ∷ args) s n c h = do_get-Safe cf api a args s c.0 h
  run_handler-Safe o law any Handler.do_set [] s n c h = absurd (omega arith)
  run_handler-Safe o law any Handler.do_set (a ∷ args) s n c h = do_set-Safe cf api a args s c.0 h
  run_handler-Safe o law any Handler.do_show [] s n c h = absurd (omega arith)
  run_handler-Safe o law any Handler.do_show (a ∷ args) s n c h =
      do_show-Safe cf api law a args s c.0 h
  run_handler-Safe o law any Handler.do_remove [] s n c h = absurd (omega arith)
  run_handler-Safe o law any Handler.do_remove (a ∷ args) s n c h =
      do_remove-Safe cf api a args s c.0 h
  run_handler-Safe o law any Handler.do_notify [] s n c h = absurd (omega arith)
  run_handler-Safe o law any Handler.do_notify (a ∷ args) s n c h =
      do_notify-Safe cf api a args s c.0 h
  run_handler-Safe o law any Handler.do_notify_list args s n c h =
      do_notify_list-Safe cf api args s h
  run_handler-Safe o law any Handler.do_notify_add [] s n c h = absurd (omega arith)
  run_handler-Safe o law any Handler.do_notify_add (a ∷ args) s n c h =
      do_notify_add-Safe cf api a args s c.0 h
  run_handler-Safe o law any Handler.do_notify_remove [] s n c h = absurd (omega arith)
  run_handler-Safe o law any Handler.do_notify_remove (a ∷ args) s n c h =
      do_notify_remove-Safe cf api a args s c.0 h
  run_handler-Safe o law any Handler.do_notify_changes args s n c h =
      do_notify_changes-Safe cf api args s h
  run_handler-Safe o law any Handler.do_read_file args s n c h = o Handler.do_read_file args s n c h
  run_handler-Safe o law any Handler.do_notify_watch args s n c h =
      o Handler.do_notify_watch args s n c h
  run_handler-Safe o law any Handler.do_notify_wait args s n c h =
      o Handler.do_notify_wait args s n c h
  run_handler-Safe o law any Handler.do_notify_file args s n c h =
      o Handler.do_notify_file args s n c h
  run_handler-Safe o law any Handler.do_notify_cancel args s n c h =
      o Handler.do_notify_cancel args s n c h
  run_handler-Safe o law any Handler.do_snapshot args s n c h = o Handler.do_snapshot args s n c h

-- The handlers that are parameters must themselves run to an end, with as many arguments as they
-- read and a string for each of them, and keep the lists of watched keys of an open session. The
-- library must say that there is no cache without a session, and there must be a string for the
-- pattern ".*". Then any command with any arguments for which there are strings (their bytes are UTF-8;
-- there is at least the command) runs to its end from a state that has those lists, with no read of
-- a missing argument, no list or key that is `NULL` and no read through a `store` that is `NULL`, and
-- leaves such a state.
pub do_command-Consistent :
    {Key P H W : Type 0} (cf : Cf Key P) (api : StoreApi Key P H W) (others : Runs Key P H W)
    → OthersSafe cf others
    → HasNoCache cf api
    → Converts cf (codes ".*")
    → (cmd : Bytes) (args : List Bytes) (s : Shell Key P H W) → All (Converts cf) args
    → IsConsistent s
    → (s' : Shell Key P H W) × (do_command (run_handler cf api others) commands_store (cmd ∷ args) s
        ≡ some s')
      × IsConsistent s'
unfolding do_command
do_command-Consistent cf api others o law any cmd args s c h = Safe-result _ (
    dispatch-Safe (run_handler cf api others) commands_store cmd args s commands_store-IsSound
      (λ f n. run_handler-Safe cf api others o law any f args s n c h) h)
