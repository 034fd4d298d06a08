-- ===== src/Prefs/Commands/Kept.antt =====
-- scutil/prefs.c: no command gives up changes that are not committed.
use configd_extra.Base.{
  ◌≤◌, ◌≡◌, refl, Bool, true, false, ◌∷◌, [], List, Option, none, some, Bytes, length, All, arith,
  codes,
}
use configd_extra.Prefs.State.{
  Plists, PrefsApi, Preferences, Ends, returned, exited, faulted, ◌>>=◌,
}
use configd_extra.Prefs.Session.{
  is_bang, do_prefs_open, do_prefs_lock, do_prefs_apply, do_prefs_unlock, do_prefs_close,
  do_prefs_quit, do_prefs_synchronize,
}
use configd_extra.Prefs.Paths.{do_prefs_set, do_prefs_remove, first_path}
use configd_extra.Shell.State.{Shell, Converts, Message as ShellMessage}
use configd_extra.Prefs.Shared.{say_all, taken_over, dictionary_command}
use configd_extra.Prefs.Shared.Filled.{
  Filled, do_dict_init-Filled, do_dict_show-Filled, do_dict_set_key-Filled,
  do_dict_remove_key-Filled,
}
use configd_extra.Prefs.Table.{PrefsCommand, prefs_min_args}
use configd_extra.Prefs.Commands.{run_prefs, run_all}
use configd_extra.Prefs.Commands.Pending.{
  IsPending, Pends, say-Pending, world-Pending, handled-Pending, refused-Pending,
  report_error-Pending, do_prefs_list-Pends, do_prefs_get-Pends, with_string-Pends, changed-Pending,
  value-Pends, set_over-Pends,
}

unfoldable pub commits : PrefsCommand → Bool
commits PrefsCommand.do_prefs_commit = true
commits _ = false

-- A command with enough arguments, and strings for them and for the path "/", that is not `commit` and
-- does not have "!" as its first argument.
unfoldable pub IsHarmless : {Key P : Type 0} → Plists Key P → PrefsCommand × List Bytes → Type 0
IsHarmless lists (c, args) =
    (prefs_min_args c ≤ length args)
    × (is_bang args ≡ false)
    × (commits c ≡ false)
    × Converts lists.cf (codes "/")
    × All (Converts lists.cf) args

-- A path of the preferences has a dictionary, or no value.
abbrev pub DictionaryPaths : {Key P H W : Type 0} → Plists Key P → PrefsApi Key P H W → Type 0
DictionaryPaths {Key = Key} {P = P} {H = H} {W = W} lists api =
    (w : W) (o : Option H) (k : Key) (v : P)
    → (api.path_get_value w o k).1 ≡ some v
    → lists.cf.is_dictionary v ≡ true

module _ {Key P H W : Type 0} (lists : Plists Key P) (api : PrefsApi Key P H W) where
  do_prefs_open-Pending :
      (h : H) (args : List Bytes) (s : Preferences Key P H W)
      → is_bang args ≡ false
      → IsPending h s
      → IsPending h (do_prefs_open lists api args s)
  unfolding do_prefs_open IsPending
  do_prefs_open-Pending h args s e p =
      handled-Pending h s s.prefs _ _ p.0 (refused-Pending h args _ s _ e p)

  do_prefs_set-Pends :
      DictionaryPaths lists api
      → (h : H) (a : Bytes) (args : List Bytes) (s : Preferences Key P H W) → Converts lists.cf a
      → All (Converts lists.cf) args
      → IsPending h s
      → Pends h (do_prefs_set lists api (a ∷ args) s)
  unfolding do_prefs_set IsPending
  do_prefs_set-Pends dict h a args s c cs p = value-Pends lists api h s.value _ p.4 (λ d.
      with_string-Pends lists api h a _ c (λ k.
        set_over-Pends lists api h _ args d _ _ cs (dict _ _ _)
          (world-Pending h (api.path_get_value s.world s.prefs k).0 s p)))

  first_path-Converts :
      (args : List Bytes)
      → Converts lists.cf (codes "/")
      → All (Converts lists.cf) args
      → Converts lists.cf (first_path args)
  first_path-Converts [] root texts = root
  first_path-Converts (a ∷ args) root (text, texts) = text

  say_all-Pending :
      (h : H) (l : List (ShellMessage Key P)) (s : Preferences Key P H W)
      → IsPending h s
      → IsPending h (say_all l s)
  unfolding say_all
  say_all-Pending h [] s p = p
  say_all-Pending h (m ∷ l) s p = say-Pending h _ _ _ (say_all-Pending h l s p)

  taken_over-Pends :
      (h : H) (o : Option (Shell Key P H W)) (s : Preferences Key P H W)
      → Filled o
      → IsPending h s
      → Pends h (taken_over o s)
  unfolding Filled Pends IsPending
  taken_over-Pends h none s f p = absurd f
  taken_over-Pends h (some t) s f (p, c, i, r, v) = say_all-Pending h t.out _ (p, c, i, r, f)

  value-Pending : (h : H) (s : Preferences Key P H W) → IsPending h s → (v : P) × (s.value ≡ some v)
  unfolding IsPending
  value-Pending h s p = p.4

  run_prefs-Pends :
      DictionaryPaths lists api
      → (h : H) (c : PrefsCommand) (args : List Bytes) (s : Preferences Key P H W)
      → IsHarmless lists (c, args)
      → IsPending h s
      → Pends h (run_prefs lists api c args s)
  unfolding run_prefs IsHarmless prefs_min_args commits Pends do_prefs_lock do_prefs_apply
      do_prefs_unlock do_prefs_close do_prefs_quit do_prefs_synchronize do_prefs_remove
      dictionary_command
  run_prefs-Pends dict h PrefsCommand.do_prefs_open args s (n, e, c, root, texts) p =
      do_prefs_open-Pending h args s e p
  run_prefs-Pends dict h PrefsCommand.do_prefs_lock args s (n, e, c, root, texts) p =
      report_error-Pending lists api h _ s p
  run_prefs-Pends dict h PrefsCommand.do_prefs_commit args s (n, e, c, root, texts) p = absurd (cc)
  run_prefs-Pends dict h PrefsCommand.do_prefs_apply args s (n, e, c, root, texts) p =
      report_error-Pending lists api h _ s p
  run_prefs-Pends dict h PrefsCommand.do_prefs_unlock args s (n, e, c, root, texts) p =
      report_error-Pending lists api h _ s p
  run_prefs-Pends dict h PrefsCommand.do_prefs_close args s (n, e, c, root, texts) p =
      refused-Pending h args _ s _ e p
  run_prefs-Pends dict h PrefsCommand.do_prefs_quit args s (n, e, c, root, texts) p =
      refused-Pending h args _ s _ e p
  run_prefs-Pends dict h PrefsCommand.do_prefs_synchronize args s (n, e, c, root, texts) p =
      world-Pending h _ s p
  run_prefs-Pends dict h PrefsCommand.do_prefs_list args s (n, e, c, root, texts) p =
      do_prefs_list-Pends lists api h args s (first_path-Converts args root texts) p
  run_prefs-Pends dict h PrefsCommand.do_prefs_get [] s (n, e, c, root, texts) p =
      absurd (omega arith)
  run_prefs-Pends dict h PrefsCommand.do_prefs_get (a ∷ args) s (n, e, c, root, (text, texts)) p =
      do_prefs_get-Pends lists api h a args s text p
  run_prefs-Pends dict h PrefsCommand.do_prefs_set [] s (n, e, c, root, texts) p =
      absurd (omega arith)
  run_prefs-Pends dict h PrefsCommand.do_prefs_set (a ∷ args) s (n, e, c, root, (text, texts)) p =
      do_prefs_set-Pends dict h a args s text texts p
  run_prefs-Pends dict h PrefsCommand.do_prefs_remove [] s (n, e, c, root, texts) p =
      absurd (omega arith)
  run_prefs-Pends dict h PrefsCommand.do_prefs_remove (a ∷ args) s (n, e, c, root, (text, texts))
        p =
      with_string-Pends lists api h a _ text (λ k. changed-Pending lists api h _ s p)
  run_prefs-Pends dict h PrefsCommand.do_dict_init args s (n, e, c, root, texts) p =
      taken_over-Pends h _ s (do_dict_init-Filled lists.cf args _) p
  run_prefs-Pends dict h PrefsCommand.do_dict_show args s (n, e, c, root, texts) p =
      taken_over-Pends h _ s (do_dict_show-Filled lists.cf args _ (value-Pending h s p)) p
  run_prefs-Pends dict h PrefsCommand.do_dict_set_key [] s (n, e, c, root, texts) p =
      absurd (omega arith)
  run_prefs-Pends dict h PrefsCommand.do_dict_set_key (a ∷ args) s (n, e, c, root, texts) p =
      taken_over-Pends h _ s (do_dict_set_key-Filled lists.cf a args _ texts (value-Pending h s p))
        p
  run_prefs-Pends dict h PrefsCommand.do_dict_remove_key [] s (n, e, c, root, texts) p =
      absurd (omega arith)
  run_prefs-Pends dict h PrefsCommand.do_dict_remove_key (a ∷ args) s (n, e, c, root, (text, texts))
        p =
      taken_over-Pends h _ s
        (do_dict_remove_key-Filled lists.cf a args _ text (value-Pending h s p)) p

  bind-Pends :
      (h : H) (r : Ends (Preferences Key P H W))
      (f : Preferences Key P H W → Ends (Preferences Key P H W))
      → Pends h r
      → ((s : Preferences Key P H W) → IsPending h s → Pends h (f s))
      → Pends h (r >>= f)
  unfolding Pends
  bind-Pends h (returned s) f p g = g s p
  bind-Pends h (exited n s) f p g = absurd p
  bind-Pends h faulted f p g = absurd p

  run_all-Pends :
      DictionaryPaths lists api
      → (h : H) (commands : List (PrefsCommand × List Bytes)) (s : Preferences Key P H W)
      → All (IsHarmless lists) commands
      → IsPending h s
      → Pends h (run_all lists api commands s)
  unfolding run_all Pends
  run_all-Pends dict h [] s quiet p = p
  run_all-Pends dict h ((c, args) ∷ commands) s (q, quiet) p =
      bind-Pends h _ _ (run_prefs-Pends dict h c args s q p)
        (λ t pt. run_all-Pends dict h commands t quiet pt)

  Pends-result :
      (h : H) (r : Ends (Preferences Key P H W))
      → Pends h r
      → (t : Preferences Key P H W) × (r ≡ returned t) × IsPending h t
  unfolding Pends
  Pends-result h (returned s) p = (s, refl, p)
  Pends-result h (exited n s) p = absurd p
  Pends-result h faulted p = absurd p

  -- A path of the preferences must have a dictionary or no value, as SCPreferencesPathGetValue says.
  -- The session is open on a terminal, with changes that are not committed, with a dictionary as
  -- `value`, and is not to end. Then any sequence of the commands of the table that work on the
  -- preferences or on the dictionary (all but `help` and `f.read`), each with at least the arguments
  -- it needs and with strings for them and for the path "/", none of them `commit` and none with "!"
  -- as its first argument, returns with the same session still open, its changes still to commit, and
  -- the shell not to end: `close`, `quit` and `open` among them are refused.
  pub run_all-Pending :
      DictionaryPaths lists api
      → (h : H) (commands : List (PrefsCommand × List Bytes)) (s : Preferences Key P H W)
      → All (IsHarmless lists) commands
      → IsPending h s
      → (t : Preferences Key P H W) × (run_all lists api commands s ≡ returned t) × IsPending h t
  run_all-Pending dict h commands s quiet p =
      Pends-result h _ (run_all-Pends dict h commands s quiet p)
