-- ===== src/Net/Session.antt =====
-- scutil/net.c: the objects that the commands on the network configuration select, and the commands of
-- the session.
mod Opened
pub mod Closed
mod Tests
use configd_extra.Base.{
  Bool, true, false, List, [], ◌∷◌, Option, none, some, Bytes, codes, if◌then◌else◌,
}
use configd_extra.Prefs.State.{Plists, PrefsApi, Preferences, stdout, status, named, say}
use configd_extra.Prefs.Session.{
  prefs_commit_required, prefs_open, prefs_close, first_argument, report_error,
}

-- `R` stands for the objects of SCNetworkConfiguration and for arrays of them.
pub record Selected (R : Type 0) : Type 0 where
  pub net_interface : Option R
  pub net_service : Option R
  pub net_protocol : Option R
  pub net_set : Option R
  pub interfaces : Option R
  pub services : Option R
  pub protocols : Option R
  pub sets : Option R
  pub new_interfaces : Option R

-- `CFRelease`, `SCNetworkSetCopyCurrent`, `SCNetworkSetGetName` and `SCNetworkSetGetSetID`.
pub record NetApi (Key H W R : Type 0) : Type 0 where
  pub release_object : W → R → W
  pub copy_current : W → Option H → W × Option R
  pub set_name : W → R → Option Key
  pub set_id : W → R → Key

pub record NetState (Key P H W R : Type 0) : Type 0 where
  pub shared : Preferences Key P H W
  pub selected : Selected R

abbrev pub nothing_selected : {R : Type 0} → Selected R
nothing_selected = record {
  net_interface = none;
  net_service = none;
  net_protocol = none;
  net_set = none;
  interfaces = none;
  services = none;
  protocols = none;
  sets = none;
  new_interfaces = none;
}

module _ {Key P H W R : Type 0} (lists : Plists Key P) (api : PrefsApi Key P H W)
    (net : NetApi Key H W R) where
  unfoldable pub release_one : Option R → W → W
  release_one none w = w
  release_one (some r) w = net.release_object w r

  -- `_net_close`, where a variable that is `NULL` stays so.
  unfoldable pub release_selected : Selected R → W → W
  release_selected x w = release_one x.new_interfaces (
      release_one x.sets (
        release_one x.protocols (
          release_one x.services (
            release_one x.interfaces (
              release_one x.net_set (
                release_one x.net_protocol
                  (release_one x.net_service (release_one x.net_interface w))))))))

  unfoldable pub net_close : NetState Key P H W R → NetState Key P H W R
  net_close s = record {
    shared = record (s.shared) { world = release_selected s.selected s.shared.world };
    selected = nothing_selected;
  }

  -- `_net_close` and `_prefs_close`.
  unfoldable pub close_both : NetState Key P H W R → NetState Key P H W R
  close_both s = let t = net_close s in record t { shared = prefs_close lists api t.shared }

  abbrev pub say_selected : W → R → Preferences Key P H W → Preferences Key P H W
  say_selected w r p = elim (net.set_name w r) [
    | some name ↦ say stdout (named (codes "set \"%@\" selected\n") name) p
    | none ↦ say stdout (named (codes "set ID \"%@\" selected\n") (net.set_id w r)) p
  ]

  -- The current set is selected.
  unfoldable pub select_current : NetState Key P H W R → NetState Key P H W R
  select_current s =
      let (w, set) = net.copy_current s.shared.world s.shared.prefs in
      let p = record (s.shared) { world = w } in
      elim set [
        | none ↦ record { shared = p; selected = record (s.selected) { net_set = none } }
        | some r ↦ record {
          shared = say_selected w r p;
          selected = record (s.selected) { net_set = some r };
        }
      ]

  -- `do_net_open` behind its test of an open session.
  unfoldable pub open_net : List Bytes → NetState Key P H W R → NetState Key P H W R
  open_net args s =
      let (ok, p) =
        prefs_open lists api (codes "scutil --net") (first_argument lists api args) s.shared in
      if ok then select_current (record s { shared = p }) else record s {
        shared = say stdout (status (codes "Could not open prefs: %s\n") (api.sc_error p.world)) p;
      }

  -- The command, if it is not refused.
  unfoldable pub unless_required :
      Bytes
      → List Bytes
      → (NetState Key P H W R → NetState Key P H W R)
      → NetState Key P H W R
      → NetState Key P H W R
  unless_required command args next s =
      let (required, p) = prefs_commit_required args (some command) s.shared in
      let t = record s { shared = p } in if required then t else next t

  unfoldable pub do_net_open : List Bytes → NetState Key P H W R → NetState Key P H W R
  do_net_open args s = elim s.shared.prefs [
    | none ↦ open_net args s
    | some h ↦ unless_required (codes "close") args (λ t. open_net args (close_both t)) s
  ]

  unfoldable pub do_net_commit : List Bytes → NetState Key P H W R → NetState Key P H W R
  do_net_commit args s =
      let (w, ok) = api.commit_changes s.shared.world s.shared.prefs in
      let p = report_error lists api (w, ok) s.shared in
      record s { shared = if ok then record p { prefs_changed = false } else p }

  unfoldable pub do_net_apply : List Bytes → NetState Key P H W R → NetState Key P H W R
  do_net_apply args s = record s {
    shared = report_error lists api (api.apply_changes s.shared.world s.shared.prefs) s.shared;
  }

  unfoldable pub do_net_close : List Bytes → NetState Key P H W R → NetState Key P H W R
  do_net_close args s = unless_required (codes "close") args close_both s

  unfoldable pub do_net_quit : List Bytes → NetState Key P H W R → NetState Key P H W R
  do_net_quit args s =
      unless_required (codes "quit") args
        (λ t.
          let u = close_both t in record u { shared = record (u.shared) { term_requested = true } })
        s
