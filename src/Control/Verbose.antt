-- ===== src/Control/Verbose.antt =====
-- Plugins/common/IPMonitorControlPrefs.c.
pub mod RoundTrip
use configd_extra.Base.{Bool, true, false, Option, none, some, if◌then◌else◌}
use configd_extra.Control.State.{
  ControlApi, Control, Names, boolean_value, set_boolean, save, refresh, or_false,
}

module _ {Key P H W : Type 0} (api : ControlApi Key P H W) (names : Names Key)
    (target_iphone : Bool) where
  -- `IPMonitorControlPrefsInit` without a run loop.
  unfoldable pub prefs_init : Control H W → Control H W
  prefs_init c =
      let (w, o) = api.create c.world names.process names.own_id in record c { own = o; world = w }

  unfoldable pub prefs_get : Control H W → Control H W
  prefs_get c = elim c.own [ none ↦ prefs_init c | some h ↦ c ]

  unfoldable pub managed_prefs_get : Control H W → Control H W
  managed_prefs_get c = elim c.managed [
    | none ↦
        let (w, o) = api.create c.world names.process names.managed_id in
        record c { managed = o; world = w }
    | some h ↦ c
  ]

  -- The value in the managed preferences.
  unfoldable pub managed_boolean : Control H W → Option Bool × Control H W
  managed_boolean c =
      if target_iphone
      then (let t = managed_prefs_get c in (boolean_value api t.world t.managed names.setting, t))
      else (none, c)

  unfoldable pub prefs_get_boolean : Control H W → Option Bool × Control H W
  prefs_get_boolean c =
      let (b, t) = managed_boolean c in
      elim b [
        | some v ↦ (some v, t)
        | none ↦ let u = prefs_get t in (boolean_value api u.world u.own names.setting, u)
      ]

  unfoldable pub is_verbose : Control H W → Bool × Control H W
  is_verbose c = let (b, t) = prefs_get_boolean c in (or_false b, refresh api target_iphone t)

  unfoldable pub set_verbose : Bool → Control H W → Bool × Control H W
  set_verbose verbose c =
      save api (set_boolean api names.setting (if verbose then some true else none) (prefs_get c))
