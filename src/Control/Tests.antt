-- ===== src/Control/Tests.antt =====
-- The settings on a small library, and instances of their theorems.
use configd_extra.Base.{
  ◌≡◌, refl, Bool, true, [], ◌∷◌, ◌++◌, Option, none, some, Bytes, codes, equal, sym, ap,
  if◌then◌else◌, arith,
}
use configd_extra.Shell.Scan.{equal_nocase, lower}
use configd_extra.Control.State.{ControlApi, Control, Names, set_boolean, save, refresh}
use configd_extra.Control.Verbose.{
  is_verbose, set_verbose, managed_boolean, managed_prefs_get, prefs_get, prefs_init,
  prefs_get_boolean,
}
use configd_extra.Control.Verbose.RoundTrip.{ControlLaws, or_managed, is_verbose-set_verbose}
use configd_extra.Control.Switches.{
  scan_verbose, means_off, means_on, on_off_str, do_log, saved_or_failed,
}
use configd_extra.Control.Switches.Printed.{FileLaws, fresh, do_log-do_log}
use mathlib.Core.Option.{some-injective}

-- The state is the own value and the managed one; a session is its identifier.
abbrev World : Type 0
World = Option Bool × Option Bool

abbrev get : World → Option Bytes → Bytes → Option Bool
get w none k = none
get w (some i) k = if equal i (codes "own") then w.0 else w.1

abbrev put : World → Bytes → Option Bool → World
put w i v = if equal i (codes "own") then (v, w.1) else (w.0, v)

abbrev api : ControlApi Bytes Bool Bytes World
api = record {
  as_boolean = λ v. some v;
  of_boolean = λ b. b;
  create = λ w p i. (w, some i);
  create_removing = λ w p i. (w, some i);
  get_value = get;
  set_value = λ w h k v. put w h (some v);
  remove_value = λ w h k. put w h none;
  commit_changes = λ w h. (w, true);
  synchronize = λ w h. w;
}

get-put : (w : World) (h : Bytes) (v : Option Bool) (k : Bytes) → get (put w h v) (some h) k ≡ v
get-put w h v k = ground arith

laws : ControlLaws api
laws = record {
  as_of = λ b. refl;
  get_set = λ w h k v. get-put w h (some v) k;
  get_remove = λ w h k. get-put w h none k;
  get_create = λ w p i h k. refl;
  get_commit = λ w h k e. refl;
}

files : FileLaws api
files = record {
  id_of = λ h. h;
  file = λ w i k. get w (some i) k;
  create_id = λ w p i h e. sym (some-injective _ _ e);
  get_created = λ w p i h k e. ap (λ o. get w o k) (sym e);
  file_create = λ w p i j k. refl;
  file_commit = λ w h k e. refl;
}

abbrev names : Names Bytes
names = record {
  process = codes "IPMonitorControlPrefs";
  own_id = codes "own";
  managed_id = codes "managed";
  setting = codes "Verbose";
}

abbrev start : Control Bytes World
start = record { own = none; managed = none; world = (none, none) }

is_verbose-set_verbose_example :
    (is_verbose api names true (set_verbose api names true true start).1).0
    ≡ or_managed (managed_boolean api names true (set_verbose api names true true start).1).0 true
unfolding set_verbose save set_boolean prefs_get prefs_init equal
is_verbose-set_verbose_example = is_verbose-set_verbose api names true laws true start refl

do_log-do_log_example :
    let next =
      fresh {H = Bytes}
        (do_log api names true (codes "IPMonitor") (codes "YES" ∷ []) start).control.world in
    let t = do_log api names true (codes "IPMonitor") [] next in
    (t.exit_status ≡ 0) × (t.printed ≡ codes "IPMonitor log is " ++ (on_off_str true ++ codes "\n"))
unfolding set_verbose save set_boolean prefs_get prefs_init equal do_log scan_verbose means_off
    means_on equal_nocase lower saved_or_failed managed_boolean managed_prefs_get is_verbose
    prefs_get_boolean refresh
do_log-do_log_example =
    do_log-do_log api names laws files true (codes "YES") true [] (none, none) (codes "own") refl
      refl refl refl
