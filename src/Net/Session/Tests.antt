-- ===== src/Net/Session/Tests.antt =====
-- Commands on the network configuration on concrete libraries, and instances of their theorems.
use configd_extra.Base.{
  ℕ, suc, ◌≡◌, refl, true, false, inr, List, [], ◌∷◌, Option, none, some, Bytes, codes, equal,
  if◌then◌else◌,
}
use configd_extra.Shell.Libraries.{Plist, empty}
use configd_extra.Prefs.Libraries.{lists, api}
use configd_extra.Net.Session.{NetApi, NetState, nothing_selected}
use configd_extra.Net.Session.Closed.{
  NetCommand, net_open, net_commit, net_close_command, net_quit, other, IsTidy, Keeps, run_net_all,
  run_net_all-IsTidy,
}
use configd_extra.Net.Keys.{set_column, do_net}
use configd_extra.Net.Keys.Faults.{is_set, is_plural_name, faults, do_net-faults}

-- Objects are numbers, and the world is the number of the objects that were released.
abbrev net : NetApi Bytes ℕ ℕ ℕ
net = record {
  release_object = λ w r. suc w;
  copy_current = λ w h. (w, some 7);
  set_name = λ w r. none;
  set_id = λ w r. codes "0";
}

abbrev NetSession : Type 0
NetSession = NetState Bytes Plist ℕ ℕ ℕ

abbrev state : NetSession
state = record {
  shared = record {
    prefs = some 2;
    ni_prefs = none;
    prefs_path = none;
    authorization = none;
    prefs_changed = true;
    value = some empty;
    term_requested = false;
    interactive = true;
    world = 0;
    out = [];
  };
  selected = record (nothing_selected) { net_set = some 3; services = some 4 };
}

-- "select set": there must be preferences.
abbrev select_at : Option ℕ → NetSession → NetSession
select_at none s = s
select_at (some h) s = record s { selected = record (s.selected) { net_set = some 9 } }

abbrev select_set : NetSession → NetSession
select_set s = select_at s.shared.prefs s

select_at-IsTidy :
    (o : Option ℕ) (s : NetSession) → s.shared.prefs ≡ o → IsTidy s → IsTidy (select_at o s)
unfolding IsTidy
select_at-IsTidy none s e t = t
select_at-IsTidy (some h) s e t = inr (h, e)

select_set-IsTidy : (s : NetSession) → IsTidy s → IsTidy (select_set s)
select_set-IsTidy s t = select_at-IsTidy s.shared.prefs s refl t

abbrev commands : List (NetCommand NetSession)
commands =
    net_close_command []
    ∷ other select_set
    ∷ net_commit []
    ∷ net_close_command (codes "!" ∷ [])
    ∷ net_open []
    ∷ net_quit []
    ∷ []

run_net_all-IsTidy_example : IsTidy (run_net_all lists api net commands state)
unfolding IsTidy Keeps
run_net_all-IsTidy_example =
    run_net_all-IsTidy lists api net commands state
      (tt, (select_set-IsTidy, (tt, (tt, (tt, (tt, tt)))))) (inr (2, refl))

do_net-faults_example :
    faults (do_net set_column (codes "services" ∷ (codes "order" ∷ [])))
    ≡ (if is_set set_column then is_plural_name (codes "services") else false)
do_net-faults_example = do_net-faults set_column (codes "services") (codes "order" ∷ [])

is_plural_name_services : is_plural_name (codes "services") ≡ true
unfolding is_plural_name equal
is_plural_name_services = refl
