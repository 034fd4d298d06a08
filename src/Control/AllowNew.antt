-- ===== src/Control/AllowNew.antt =====
-- Plugins/common/InterfaceNamerControlPrefs.c. It opens preferences that are removed when they are empty,
-- and asks only preferences that are open.
use configd_extra.Base.{Bool, true, Option, none, some, if◌then◌else◌}
use configd_extra.Control.State.{
  ControlApi, Control, Names, boolean_value, set_boolean, save, refresh, or_false,
}

module _ {Key P H W : Type 0} (api : ControlApi Key P H W) (names : Names Key)
    (target_iphone : Bool) where
  -- `InterfaceNamerControlPrefsInit` without a run loop.
  unfoldable pub namer_init : Control H W → Control H W
  namer_init c =
      let (w, o) = api.create_removing c.world names.process names.own_id in
      record c { own = o; world = w }

  unfoldable pub namer_get : Control H W → Control H W
  namer_get c = elim c.own [ none ↦ namer_init c | some h ↦ c ]

  unfoldable pub namer_managed_get : Control H W → Control H W
  namer_managed_get c = elim c.managed [
    | none ↦
        let (w, o) = api.create_removing c.world names.process names.managed_id in
        record c { managed = o; world = w }
    | some h ↦ c
  ]

  -- The value of preferences that are open.
  unfoldable pub open_boolean : W → Option H → Option Bool
  open_boolean w none = none
  open_boolean w (some h) = boolean_value api w (some h) names.setting

  unfoldable pub namer_get_boolean : Control H W → Option Bool × Control H W
  namer_get_boolean c =
      let t = if target_iphone then namer_managed_get c else c in
      let b = if target_iphone then open_boolean t.world t.managed else none in
      elim b [
        | some v ↦ (some v, t)
        | none ↦ let u = namer_get t in (open_boolean u.world u.own, u)
      ]

  unfoldable pub allow_new_interfaces : Control H W → Bool × Control H W
  allow_new_interfaces c =
      let (b, t) = namer_get_boolean c in (or_false b, refresh api target_iphone t)

  unfoldable pub set_allow_new_interfaces : Bool → Control H W → Bool × Control H W
  set_allow_new_interfaces allow c =
      save api (set_boolean api names.setting (if allow then some true else none) (namer_get c))
