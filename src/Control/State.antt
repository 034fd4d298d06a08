-- ===== src/Control/State.antt =====
-- Plugins/common/: the static variables of the two files, and SCPreferences as a parameter.
use configd_extra.Base.{Bool, true, false, Option, none, some}

-- The two results of `isA_CFBoolean` on a value: a Boolean, or `NULL`.
pub record ControlApi (Key P H W : Type 0) : Type 0 where
  pub as_boolean : P → Option Bool
  pub of_boolean : Bool → P
  pub create : W → Key → Key → W × Option H
  pub create_removing : W → Key → Key → W × Option H
  pub get_value : W → Option H → Key → Option P
  pub set_value : W → H → Key → P → W
  pub remove_value : W → H → Key → W
  pub commit_changes : W → H → W × Bool
  pub synchronize : W → H → W

-- `own` is `S_prefs`, `managed` is `S_managed_prefs`.
pub record Control (H W : Type 0) : Type 0 where
  pub own : Option H
  pub managed : Option H
  pub world : W

-- The names that a file uses: the process, its own preferences, the managed ones, and the setting.
pub record Names (Key : Type 0) : Type 0 where
  pub process : Key
  pub own_id : Key
  pub managed_id : Key
  pub setting : Key

-- The value of a setting that may not be there.
abbrev pub or_false : Option Bool → Bool
or_false none = false
or_false (some b) = b

module _ {Key P H W : Type 0} (api : ControlApi Key P H W) where
  -- `SCPreferencesGetValue` through `isA_CFBoolean`.
  abbrev pub boolean_value : W → Option H → Key → Option Bool
  boolean_value w o k = elim (api.get_value w o k) [ none ↦ none | some v ↦ api.as_boolean v ]

  -- A change of the own preferences, if they are open.
  unfoldable pub set_boolean : Key → Option Bool → Control H W → Control H W
  set_boolean k b c = elim c.own [
    | none ↦ c
    | some h ↦ elim b [
      | none ↦ record c { world = api.remove_value c.world h k }
      | some v ↦ record c { world = api.set_value c.world h k (api.of_boolean v) }
    ]
  ]

  unfoldable pub save : Control H W → Bool × Control H W
  save c = elim c.own [
    | none ↦ (false, c)
    | some h ↦
        let (w, saved) = api.commit_changes c.world h in
        (saved, record c { world = api.synchronize w h })
  ]

  abbrev pub synchronized : W → Option H → W
  synchronized w none = w
  synchronized w (some h) = api.synchronize w h

  -- `target_iphone` is whether the managed preferences are compiled in.
  unfoldable pub refresh : Bool → Control H W → Control H W
  refresh false c = record c { world = synchronized c.world c.own }
  refresh true c = record c { world = synchronized (synchronized c.world c.own) c.managed }
