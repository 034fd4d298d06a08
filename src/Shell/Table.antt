-- ===== src/Shell/Table.antt =====
-- The table `commands_store` of scutil/commands.c, with the functions by name.
use configd_extra.Base.{ℕ, List, [], ◌∷◌, Option, none, some, Bytes, codes}
use configd_extra.Base.Int.{ℤ, pos, negsuc}

pub data Handler : Type 0 where
  do_help : Handler
  do_read_file : Handler
  do_quit : Handler
  do_dict_init : Handler
  do_dict_show : Handler
  do_dict_set_key : Handler
  do_dict_remove_key : Handler
  do_open : Handler
  do_close : Handler
  do_block : Handler
  do_list : Handler
  do_add : Handler
  do_get : Handler
  do_set : Handler
  do_show : Handler
  do_remove : Handler
  do_notify : Handler
  do_notify_list : Handler
  do_notify_add : Handler
  do_notify_remove : Handler
  do_notify_changes : Handler
  do_notify_watch : Handler
  do_notify_wait : Handler
  do_notify_file : Handler
  do_notify_cancel : Handler
  do_snapshot : Handler

-- `cmdInfo`
pub record Command : Type 0 where
  pub cmd : Bytes
  pub min_args : ℕ
  pub max_args : ℕ
  pub func : Handler
  pub group : ℕ
  pub ctype : ℤ
  pub usage : Option Bytes

abbrev pub command : Bytes → ℕ → ℕ → Handler → ℕ → ℤ → Option Bytes → Command
command cmd min_args max_args func group ctype usage = record {
  cmd = cmd;
  min_args = min_args;
  max_args = max_args;
  func = func;
  group = group;
  ctype = ctype;
  usage = usage;
}

unfoldable pub commands_store : List Command
commands_store =
    command (codes "help") 0 0 do_help 0 (pos 0)
      (some (codes " help                          : list available commands"))
    ∷ command (codes "f.read") 1 1 do_read_file 0 (pos 0)
        (some (codes " f.read file                   : process commands from file"))
    ∷ command (codes "quit") 0 0 do_quit 0 (pos 0)
        (some (codes " quit                          : quit"))
    ∷ command (codes "q") 0 0 do_quit 0 (negsuc 0) none
    ∷ command (codes "exit") 0 0 do_quit 0 (negsuc 0) none
    ∷ command (codes "d.init") 0 0 do_dict_init 1 (pos 0)
        (some (codes " d.init                        : initialize (empty) dictionary"))
    ∷ command (codes "d.show") 0 0 do_dict_show 1 (pos 0)
        (some (codes " d.show                        : show dictionary contents"))
    ∷ command (codes "d.add") 2 101 do_dict_set_key 1 (pos 0) (
        some (
          codes
            " d.add key [*#?%] val [v2 ...]  : add information to dictionary\n       (*=array, #=number, ?=boolean, %=hex data)"))
    ∷ command (codes "d.remove") 1 1 do_dict_remove_key 1 (pos 0)
        (some (codes " d.remove key                  : remove key from dictionary"))
    ∷ command (codes "open") 0 1 do_open 2 (pos 1)
        (some (codes " open [\"temporary\"]            : open a session with \"configd\""))
    ∷ command (codes "close") 0 0 do_close 2 (pos 1)
        (some (codes " close                         : close current \"configd\" session"))
    ∷ command (codes "block") 0 1 do_block 3 (pos 1)
        (some (codes " block [\"begin\" | \"end\"]     : block multiple data store transactions"))
    ∷ command (codes "list") 0 2 do_list 4 (pos 0)
        (some (codes " list [pattern]                : list keys in data store"))
    ∷ command (codes "add") 1 2 do_add 4 (pos 0)
        (some (codes " add key [\"temporary\"]         : add key in data store w/current dict"))
    ∷ command (codes "get") 1 1 do_get 4 (pos 0)
        (some (codes " get key                       : get dict from data store w/key"))
    ∷ command (codes "set") 1 1 do_set 4 (pos 0)
        (some (codes " set key                       : set key in data store w/current dict"))
    ∷ command (codes "show") 1 2 do_show 4 (pos 0)
        (some (codes " show key [\"pattern\"]          : show values in data store w/key"))
    ∷ command (codes "remove") 1 1 do_remove 4 (pos 0)
        (some (codes " remove key                    : remove key from data store"))
    ∷ command (codes "notify") 1 1 do_notify 4 (pos 0)
        (some (codes " notify key                    : notify key in data store"))
    ∷ command (codes "n.list") 0 1 do_notify_list 5 (pos 0)
        (some (codes " n.list [\"pattern\"]            : list notification keys"))
    ∷ command (codes "n.add") 1 2 do_notify_add 5 (pos 0)
        (some (codes " n.add key [\"pattern\"]         : add notification key"))
    ∷ command (codes "n.remove") 1 2 do_notify_remove 5 (pos 0)
        (some (codes " n.remove key [\"pattern\"]      : remove notification key"))
    ∷ command (codes "n.changes") 0 0 do_notify_changes 5 (pos 0)
        (some (codes " n.changes                     : list changed keys"))
    ∷ command (codes "n.watch") 0 0 do_notify_watch 5 (pos 0)
        (some (codes " n.watch                       : watch for changes"))
    ∷ command (codes "n.wait") 0 0 do_notify_wait 5 (pos 2)
        (some (codes " n.wait                        : wait for changes"))
    ∷ command (codes "n.file") 0 1 do_notify_file 5 (pos 2)
        (some (codes " n.file [identifier]           : watch for changes via file"))
    ∷ command (codes "n.cancel") 0 1 do_notify_cancel 5 (pos 0)
        (some (codes " n.cancel                      : cancel notification requests"))
    ∷ command (codes "snapshot") 0 1 do_snapshot 99 (pos 2)
        (some (codes " snapshot [file]               : save snapshot of store and session data"))
    ∷ []
