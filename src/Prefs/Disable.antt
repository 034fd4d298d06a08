-- ===== src/Prefs/Disable.antt =====
-- scutil/prefs.c, `copy_configured_interface` and `do_disable_until_needed`.
pub mod Found
use configd_extra.Base.{
  Bool, true, false, ◌||◌, List, [], ◌∷◌, ◌++◌, Option, none, some, Bytes, codes, equal,
  if◌then◌else◌,
}
use configd_extra.Shell.Scan.{equal_nocase}
use configd_extra.Prefs.State.{
  with_string, Plists, PrefsApi, stdout, stderr, text, status, about_name, Preferences, say, Ends,
  returned, exited, faulted, ◌>>=◌,
}
use configd_extra.Prefs.Session.{prefs_open, prefs_save, prefs_close}

-- A service of the current set: whether it is enabled, its interface, and the BSD name of that.
pub record Service (I Key : Type 0) : Type 0 where
  pub enabled : Bool
  pub interface : Option I
  pub bsd_name : I → Option Key

-- SCNetworkConfiguration. `none` for the services is no current set, or no array of services. The
-- setting of `set_disable` is `NULL` for the default.
pub record DisableApi (I Key H W : Type 0) : Type 0 where
  pub services : W → H → Option (List (Service I Key))
  pub get_disable : W → I → Bool
  pub set_disable : W → I → Option Bool → W × Bool

-- The setting that an argument asks for, and its name in messages; `none` inside is the default.
unfoldable pub scan_setting : Bytes → Option (Option Bool × Bytes)
scan_setting a =
    if equal_nocase a (codes "on")
    then some (some true, a)
    else if equal_nocase a (codes "off")
    then some (some false, a)
    else if equal a [] || equal_nocase a (codes "default")
    then some (none, codes "default")
    else none

-- Whether the name is there and equal.
unfoldable pub is_named : {Key : Type 0} → (Key → Key → Bool) → Key → Option Key → Bool
is_named key_equal name none = false
is_named key_equal name (some this) = key_equal this name

module _ {I Key : Type 0} (key_equal : Key → Key → Bool) where
  unfoldable pub interface_of : Service I Key → Key → Option I
  interface_of s name = elim s.interface [
    | none ↦ none
    | some i ↦ if is_named key_equal name (s.bsd_name i) then some i else none
  ]

  -- The loop over the services.
  unfoldable pub find_interface : List (Service I Key) → Key → Option I
  find_interface [] name = none
  find_interface (s ∷ l) name =
      let rest = find_interface l name in
      if s.enabled then elim (interface_of s name) [ none ↦ rest | some i ↦ some i ] else rest

module _ {I Key P H W : Type 0} (lists : Plists Key P) (api : PrefsApi Key P H W)
    (net : DisableApi I Key H W) where
  unfoldable pub copy_configured_interface : W → Option H → Key → Option I
  copy_configured_interface w none name = none
  copy_configured_interface w (some h) name = elim (net.services w h) [
    | none ↦ none
    | some l ↦ find_interface lists.cf.key_equal l name
  ]

  abbrev pub on_off : Bool → Bytes
  on_off on = if on then codes "on" else codes "off"

  -- The interface's setting is printed, or changed and saved.
  unfoldable pub show_disable : Bytes → I → Preferences Key P H W → Ends (Preferences Key P H W)
  show_disable name i s = exited 0 (
      prefs_close lists api (
        say stdout
          (about_name name (
            codes " disable-until-needed is "
            ++ (on_off (net.get_disable s.world i) ++ codes "\n")))
          s))

  unfoldable pub change_disable :
      I → Option Bool × Bytes → Preferences Key P H W → Ends (Preferences Key P H W)
  change_disable i (v, shown) s =
      let (w, ok) = net.set_disable s.world i v in
      let t = record s { world = w } in
      if ok
      then (do u ← prefs_save lists api t; exited 0 (prefs_close lists api u))
      else exited 1 (say stderr (about_name shown (codes "failed to turn disable-until-needed ")) t)

  unfoldable pub disable_interface :
      Bytes → Option (Option Bool × Bytes) → Preferences Key P H W → Ends (Preferences Key P H W)
  disable_interface name setting s =
      let (ok, t) = prefs_open lists api (codes "scutil --disable-until-needed") none s in
      if ok
      then with_string lists name (λ k. elim (copy_configured_interface t.world t.prefs k) [
        | none ↦ exited 1 (say stderr (about_name name (codes " is not configured\n")) t)
        | some i ↦ elim setting [ none ↦ show_disable name i t | some v ↦ change_disable i v t ]
      ])
      else exited 1
          (say stdout (status (codes "Could not open prefs: %s\n") (api.sc_error t.world)) t)

  unfoldable pub disable_usage : Preferences Key P H W → Ends (Preferences Key P H W)
  disable_usage s = exited 1 (
      say stderr
        (text (codes "usage: scutil --disable-until-needed <interfaceName> [on|off|default]\n")) s)

  unfoldable pub do_disable_until_needed :
      List Bytes → Preferences Key P H W → Ends (Preferences Key P H W)
  do_disable_until_needed [] s = disable_usage s
  do_disable_until_needed (name ∷ []) s = disable_interface name none s
  do_disable_until_needed (name ∷ a ∷ []) s = elim (scan_setting a) [
    | none ↦ disable_usage s
    | some setting ↦ disable_interface name (some setting) s
  ]
  do_disable_until_needed (name ∷ a ∷ b ∷ args) s = disable_usage s
