-- ===== src/Net/Session/Opened.antt =====
-- scutil/prefs.c as scutil/net.c uses it: when the preferences are open.
use configd_extra.Base.{
  ◌≡◌, refl, Bool, true, false, not, ◌&&◌, ◌⊎◌, inl, inr, List, Option, none, some, Bytes,
  if◌then◌else◌,
}
use configd_extra.Prefs.State.{Plists, PrefsApi, Preferences, say, Stream, Message}
use configd_extra.Prefs.Session.{
  prefs_commit_required, is_bang, opened_prefs, prefs_close, release_prefs, release_interfaces,
  release_authorization, report_error,
}

module _ {Key P H W : Type 0} where
  pub say_prefs :
      (to : Stream) (m : Message Key P) (s : Preferences Key P H W) → (say to m s).prefs ≡ s.prefs
  unfolding say
  say_prefs to m s = refl

  pub if_prefs :
      (b : Bool) (x y : Bool × Preferences Key P H W) (o : Option H)
      → x.1.prefs ≡ o
      → y.1.prefs ≡ o
      → (if b then x else y).1.prefs ≡ o
  if_prefs true x y o e f = e
  if_prefs false x y o e f = f

  pub required_prefs :
      (args : List Bytes) (command : Option Bytes) (s : Preferences Key P H W)
      → (prefs_commit_required args command s).1.prefs ≡ s.prefs
  unfolding prefs_commit_required say
  required_prefs args command s =
      if_prefs s.prefs_changed _ _ s.prefs
        (if_prefs (s.interactive && not (is_bang args)) _ _ s.prefs refl refl) refl

  pub either_prefs :
      {A : Type 0} (a : Option A) (x : Preferences Key P H W) (f : A → Preferences Key P H W)
      (o : Option H)
      → (a ≡ none → x.prefs ≡ o)
      → ((h : A) → (f h).prefs ≡ o)
      → (elim a as (λ q. Preferences Key P H W) [ none ↦ x | some h ↦ f h ]).prefs ≡ o
  either_prefs none x f o e g = e refl
  either_prefs (some h) x f o e g = g h

module _ {Key P H W : Type 0} (lists : Plists Key P) (api : PrefsApi Key P H W) where
  pub report_error_prefs :
      (r : W × Bool) (s : Preferences Key P H W) → (report_error lists api r s).prefs ≡ s.prefs
  unfolding report_error say
  report_error_prefs (w, true) s = refl
  report_error_prefs (w, false) s = refl

  pub release_interfaces_prefs :
      (s : Preferences Key P H W) → s.prefs ≡ none → (release_interfaces lists api s).prefs ≡ none
  unfolding release_interfaces
  release_interfaces_prefs s e = either_prefs s.ni_prefs _ _ none (λ a. e) (λ h. e)

  pub release_authorization_prefs :
      (s : Preferences Key P H W)
      → s.prefs ≡ none
      → (release_authorization lists api s).prefs ≡ none
  unfolding release_authorization
  release_authorization_prefs s e = either_prefs s.authorization _ _ none (λ a. e) (λ h. e)

  pub release_prefs_prefs : (s : Preferences Key P H W) → (release_prefs lists api s).prefs ≡ none
  unfolding release_prefs
  release_prefs_prefs s = either_prefs s.prefs _ _ none (λ e. e) (λ h. refl)

  pub prefs_close_prefs : (s : Preferences Key P H W) → (prefs_close lists api s).prefs ≡ none
  unfolding prefs_close
  prefs_close_prefs s =
      let a = release_prefs lists api (record s { prefs_path = none }) in
      release_authorization_prefs (release_interfaces lists api a)
        (release_interfaces_prefs a (release_prefs_prefs (record s { prefs_path = none })))

  pub at_session :
      (o : Option H) (s : Preferences Key P H W)
      → s.prefs ≡ o
      → (((opened_prefs lists api s).0 ≡ false) × ((opened_prefs lists api s).1.prefs ≡ none))
        ⊎ (((opened_prefs lists api s).0 ≡ true)
            × ((h : H) × ((opened_prefs lists api s).1.prefs ≡ some h)))
  unfolding opened_prefs
  at_session none s e = rw (e, opened_prefs) (inl (refl, e))
  at_session (some h) s e = rw (e, opened_prefs) (inr (refl, (h, e)))

  pub opened_prefs_lem :
      (s : Preferences Key P H W)
      → (((opened_prefs lists api s).0 ≡ false) × ((opened_prefs lists api s).1.prefs ≡ none))
        ⊎ (((opened_prefs lists api s).0 ≡ true)
            × ((h : H) × ((opened_prefs lists api s).1.prefs ≡ some h)))
  unfolding opened_prefs
  opened_prefs_lem s = at_session s.prefs s refl
