-- ===== src/Prefs/Shared.antt =====
-- scutil/dictionary.c as the shell on preferences has it: the commands on dictionaries, which read and
-- write `value` and print, and touch nothing else of the shell.
pub mod Filled
use configd_extra.Base.{false, List, [], ◌∷◌, Option, none, some}
use configd_extra.Shell.State.{Shell, Message as ShellMessage}
use configd_extra.Prefs.State.{Preferences, Message, stdout, say, Ends, returned, faulted}

module _ {Key P : Type 0} where
  -- A message of scutil/dictionary.c, which prints texts and values only.
  abbrev pub message_of : ShellMessage Key P → Message Key P
  message_of (ShellMessage.text a) = Message.text a
  message_of (ShellMessage.shown v) = Message.shown v
  message_of (ShellMessage.about_command a b) = Message.about_name b a
  message_of (ShellMessage.status n) = Message.status [] n
  message_of (ShellMessage.at_level n line) = Message.text line
  message_of (ShellMessage.numbered label i k) = Message.named label k

module _ {Key P H W : Type 0} where
  -- The variables of the shell with this dictionary, and with no session of the dynamic store.
  abbrev pub as_shell : Preferences Key P H W → Shell Key P H W
  as_shell s = record {
    value = s.value;
    store = none;
    watched_keys = none;
    watched_patterns = none;
    notify_source = false;
    notify_loop = false;
    do_dispatch = false;
    term_requested = s.term_requested;
    enable_private_api = false;
    nesting = 0;
    world = s.world;
    out = [];
  }

  -- The messages, the last one first.
  unfoldable pub say_all : List (ShellMessage Key P) → Preferences Key P H W → Preferences Key P H W
  say_all [] s = s
  say_all (m ∷ l) s = say stdout (message_of m) (say_all l s)

  -- The dictionary and the messages that a command leaves.
  abbrev pub taken_over :
      Option (Shell Key P H W) → Preferences Key P H W → Ends (Preferences Key P H W)
  taken_over none s = faulted
  taken_over (some t) s = returned (say_all t.out (record s { value = t.value }))

  unfoldable pub dictionary_command :
      (Shell Key P H W → Option (Shell Key P H W))
      → Preferences Key P H W
      → Ends (Preferences Key P H W)
  dictionary_command handler s = taken_over (handler (as_shell s)) s
