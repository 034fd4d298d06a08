-- ===== src/Control/Verbose/RoundTrip.antt =====
-- Plugins/common/IPMonitorControlPrefs.c: a setting that was saved is read back.
use configd_extra.Base.{
  ◌≡◌, refl, sym, ◌∙◌, Bool, true, false, Option, none, some, if◌then◌else◌, arith,
}
use configd_extra.Control.State.{
  ControlApi, Control, Names, boolean_value, set_boolean, save, or_false,
}
use configd_extra.Control.Verbose.{
  prefs_get, managed_prefs_get, managed_boolean, prefs_get_boolean, is_verbose, set_verbose,
}

-- What SCPreferences documents: a value that was set is the value, one that was removed is not there,
-- a session that is opened leaves the values of the others, and after a commit that succeeded the
-- session has its values, also when it is synchronized with the file.
pub record ControlLaws {Key P H W : Type 0} (api : ControlApi Key P H W) : Type 0 where
  pub as_of : (b : Bool) → api.as_boolean (api.of_boolean b) ≡ some b
  pub get_set :
      (w : W) (h : H) (k : Key) (v : P) → api.get_value (api.set_value w h k v) (some h) k ≡ some v
  pub get_remove :
      (w : W) (h : H) (k : Key) → api.get_value (api.remove_value w h k) (some h) k ≡ none
  pub get_create :
      (w : W) (p i : Key) (h : H) (k : Key)
      → api.get_value (api.create w p i).0 (some h) k ≡ api.get_value w (some h) k
  pub get_commit :
      (w : W) (h : H) (k : Key)
      → (api.commit_changes w h).1 ≡ true
      → api.get_value (api.synchronize (api.commit_changes w h).0 h) (some h) k
        ≡ api.get_value w (some h) k

-- A managed value comes before the own one.
abbrev pub or_managed : Option Bool → Bool → Bool
or_managed none b = b
or_managed (some v) b = v

module _ {Key P H W : Type 0} (api : ControlApi Key P H W) (names : Names Key)
    (target_iphone : Bool) where
  -- The setting in the session `h` is `b`.
  unfoldable pub Holds : H → Bool → Control H W → Type 0
  Holds h b c = (c.own ≡ some h) × (or_false (boolean_value api c.world (some h) names.setting) ≡ b)

  pub set_boolean-Holds :
      ControlLaws api
      → (b : Bool) (c : Control H W) (h : H) → c.own ≡ some h
      → Holds h b (set_boolean api names.setting (if b then some true else none) c)
  unfolding Holds set_boolean
  set_boolean-Holds laws true c h e =
      ground (arith, laws.get_set c.world h names.setting (api.of_boolean true), laws.as_of true)
  set_boolean-Holds laws false c h e = ground (arith, laws.get_remove c.world h names.setting)

  save-Holds :
      ControlLaws api
      → (b : Bool) (c : Control H W) (h : H) → Holds h b c
      → (save api c).0 ≡ true
      → Holds h b (save api c).1
  unfolding Holds save
  save-Holds laws b c h (e, v) ok = ground (arith, laws.get_commit c.world h names.setting)

  pub save-own :
      (o : Option H) (c : Control H W)
      → c.own ≡ o
      → (save api c).0 ≡ true
      → (h : H) × (c.own ≡ some h)
  unfolding save
  save-own none c e ok = absurd (ground arith)
  save-own (some h) c e ok = (h, e)

  pub set_boolean-own :
      (k : Key) (b : Option Bool) (c : Control H W) → (set_boolean api k b c).own ≡ c.own
  unfolding set_boolean
  set_boolean-own k b c = ground arith

  set_verbose-Holds :
      ControlLaws api
      → (b : Bool) (c : Control H W) → (set_verbose api names target_iphone b c).0 ≡ true
      → (h : H) × Holds h b (set_verbose api names target_iphone b c).1
  unfolding set_verbose
  set_verbose-Holds laws b c ok =
      let t =
        set_boolean api names.setting (if b then some true else none)
          (prefs_get api names target_iphone c) in
      let (h, e) = save-own t.own t refl ok in
      (
        h,
        save-Holds laws b t h
            (set_boolean-Holds laws b _ h (sym (set_boolean-own names.setting _ _) ∙ e)) ok,
      )

  managed_boolean-Holds :
      ControlLaws api
      → (h : H) (b : Bool) (c : Control H W) → Holds h b c
      → Holds h b (managed_boolean api names target_iphone c).1
  unfolding managed_boolean managed_prefs_get Holds
  managed_boolean-Holds laws h b c (e, v) =
      ground (arith, laws.get_create c.world names.process names.managed_id h names.setting)

  own_boolean :
      (h : H) (b : Bool) (m : Option Bool) (t : Control H W)
      → Holds h b t
      → or_false
          (elim m as (λ x. Option Bool × Control H W) [
            | some v ↦ (some v, t)
            | none ↦
                let u = prefs_get api names target_iphone t in
                (boolean_value api u.world u.own names.setting, u)
          ]).0
        ≡ or_managed m b
  unfolding Holds prefs_get
  own_boolean h b none t (e, v) = ground arith
  own_boolean h b (some x) t p = refl

  is_verbose-Holds :
      ControlLaws api
      → (h : H) (b : Bool) (c : Control H W) → Holds h b c
      → (is_verbose api names target_iphone c).0
        ≡ or_managed (managed_boolean api names target_iphone c).0 b
  unfolding is_verbose prefs_get_boolean
  is_verbose-Holds laws h b c p =
      own_boolean h b (managed_boolean api names target_iphone c).0 _
        (managed_boolean-Holds laws h b c p)

  -- SCPreferences does what it documents. When `IPMonitorControlPrefsSetVerbose` has saved a value,
  -- `IPMonitorControlPrefsIsVerbose` right after gives it, in each of the two builds, unless there is a
  -- managed value: then it gives that.
  pub is_verbose-set_verbose :
      ControlLaws api
      → (b : Bool) (c : Control H W) → (set_verbose api names target_iphone b c).0 ≡ true
      → let t = (set_verbose api names target_iphone b c).1 in
        (is_verbose api names target_iphone t).0
        ≡ or_managed (managed_boolean api names target_iphone t).0 b
  is_verbose-set_verbose laws b c ok =
      let (h, p) = set_verbose-Holds laws b c ok in is_verbose-Holds laws h b _ p
