-- ===== src/Net/Session/Closed.antt =====
-- scutil/net.c: nothing stays selected when the preferences are closed.
use configd_extra.Base.{
  ◌≡◌, refl, ◌∙◌, Bool, true, false, ◌⊎◌, inl, inr, List, [], ◌∷◌, All, Option, none, some, Bytes,
  codes, if◌then◌else◌,
}
use configd_extra.Prefs.State.{Plists, PrefsApi, Preferences, say, Message, stdout, status}
use configd_extra.Prefs.Session.{prefs_commit_required, prefs_open, report_error, first_argument}
use configd_extra.Net.Session.{
  NetApi, NetState, nothing_selected, net_close, close_both, release_selected, say_selected,
  select_current, open_net, unless_required, do_net_open, do_net_commit, do_net_apply, do_net_close,
  do_net_quit,
}
use configd_extra.Net.Session.Opened.{
  required_prefs, either_prefs, report_error_prefs, prefs_close_prefs, opened_prefs_lem,
}

-- The commands of the session, and any other command.
pub data NetCommand (S : Type 0) : Type 0 where
  net_open : List Bytes → NetCommand S
  net_commit : List Bytes → NetCommand S
  net_apply : List Bytes → NetCommand S
  net_close_command : List Bytes → NetCommand S
  net_quit : List Bytes → NetCommand S
  other : (S → S) → NetCommand S

module _ {Key P H W R : Type 0} where
  -- Preferences are open, or nothing is selected.
  unfoldable pub IsTidy : NetState Key P H W R → Type 0
  IsTidy s =
      ((s.shared.prefs ≡ none) × (s.selected ≡ nothing_selected))
      ⊎ ((h : H) × (s.shared.prefs ≡ some h))

  unfoldable pub Keeps : NetCommand (NetState Key P H W R) → Type 0
  Keeps (net_open args) = Unit
  Keeps (net_commit args) = Unit
  Keeps (net_apply args) = Unit
  Keeps (net_close_command args) = Unit
  Keeps (net_quit args) = Unit
  Keeps (other f) = (s : NetState Key P H W R) → IsTidy s → IsTidy (f s)

module _ {Key P H W R : Type 0} (lists : Plists Key P) (api : PrefsApi Key P H W)
    (net : NetApi Key H W R) where
  if-IsTidy :
      (b : Bool) (s t : NetState Key P H W R)
      → (b ≡ true → IsTidy s)
      → (b ≡ false → IsTidy t)
      → IsTidy (if b then s else t)
  if-IsTidy true s t f g = f refl
  if-IsTidy false s t f g = g refl

  prefs-IsTidy :
      (s t : NetState Key P H W R)
      → t.shared.prefs ≡ s.shared.prefs
      → t.selected ≡ s.selected
      → IsTidy s
      → IsTidy t
  unfolding IsTidy
  prefs-IsTidy s t e f (inl (a, b)) = inl (e ∙ a, f ∙ b)
  prefs-IsTidy s t e f (inr (h, a)) = inr (h, e ∙ a)

  close_both-Closed :
      (s : NetState Key P H W R)
      → ((close_both lists api net s).shared.prefs ≡ none)
        × ((close_both lists api net s).selected ≡ nothing_selected)
  unfolding close_both net_close
  close_both-Closed s = (
    prefs_close_prefs lists api
        (record (s.shared) { world = release_selected lists api net s.selected s.shared.world }),
    refl,
  )

  unless_required-IsTidy :
      (command : Bytes) (args : List Bytes) (next : NetState Key P H W R → NetState Key P H W R)
      (s : NetState Key P H W R)
      → IsTidy s
      → ((t : NetState Key P H W R) → IsTidy (next t))
      → IsTidy (unless_required lists api net command args next s)
  unfolding unless_required
  unless_required-IsTidy command args next s e f =
      let t = record s { shared = (prefs_commit_required args (some command) s.shared).1 } in
      if-IsTidy (prefs_commit_required args (some command) s.shared).0 t (next t)
        (λ a. prefs-IsTidy s t (required_prefs args (some command) s.shared) refl e) (λ a. f t)

  either_shared :
      (a : Option R) (x : NetState Key P H W R) (f : R → NetState Key P H W R) (o : Option H)
      → x.shared.prefs ≡ o
      → ((r : R) → (f r).shared.prefs ≡ o)
      → (elim a as (λ q. NetState Key P H W R) [ none ↦ x | some h ↦ f h ]).shared.prefs ≡ o
  either_shared none x f o e g = e
  either_shared (some r) x f o e g = g r

  say_selected_prefs :
      (w : W) (r : R) (p : Preferences Key P H W)
      → (say_selected lists api net w r p).prefs ≡ p.prefs
  unfolding say
  say_selected_prefs w r p = either_prefs (net.set_name w r) _ _ p.prefs (λ e. refl) (λ name. refl)

  select_current-prefs :
      (s : NetState Key P H W R) → (select_current lists api net s).shared.prefs ≡ s.shared.prefs
  unfolding select_current
  select_current-prefs s =
      let (w, set) = net.copy_current s.shared.world s.shared.prefs in
      either_shared set _ _ s.shared.prefs refl
        (λ r. say_selected_prefs w r (record (s.shared) { world = w }))

  after_open :
      (r : Bool × Preferences Key P H W) (m : Message Key P) (s : NetState Key P H W R)
      → s.selected ≡ nothing_selected
      → ((r.0 ≡ false) × (r.1.prefs ≡ none)) ⊎ ((r.0 ≡ true) × ((h : H) × (r.1.prefs ≡ some h)))
      → IsTidy (
          if r.0
          then select_current lists api net (record s { shared = r.1 })
          else record s { shared = say stdout m r.1 })
  unfolding IsTidy say
  after_open (b, p) m s e (inl (f, g)) = rw f (inl (g, e))
  after_open (b, p) m s e (inr (f, (h, g))) =
      rw f (inr (h, select_current-prefs (record s { shared = p }) ∙ g))

  prefs_open_lem :
      (name : Bytes) (path : Option Bytes) (s : Preferences Key P H W)
      → (((prefs_open lists api name path s).0 ≡ false)
          × ((prefs_open lists api name path s).1.prefs ≡ none))
        ⊎ (((prefs_open lists api name path s).0 ≡ true)
            × ((h : H) × ((prefs_open lists api name path s).1.prefs ≡ some h)))
  unfolding prefs_open
  prefs_open_lem name path s = opened_prefs_lem lists api _

  open_net-IsTidy :
      (args : List Bytes) (s : NetState Key P H W R)
      → s.selected ≡ nothing_selected
      → IsTidy (open_net lists api net args s)
  unfolding open_net
  open_net-IsTidy args s e =
      let path = first_argument lists api args in
      after_open (prefs_open lists api (codes "scutil --net") path s.shared)
        (status (codes "Could not open prefs: %s\n")
          (api.sc_error (prefs_open lists api (codes "scutil --net") path s.shared).1.world))
        s e (prefs_open_lem (codes "scutil --net") path s.shared)

  closed-IsTidy : (s : NetState Key P H W R) → IsTidy (close_both lists api net s)
  unfolding IsTidy
  closed-IsTidy s = inl (close_both-Closed s)

  option-IsTidy :
      (a : Option H) (x : NetState Key P H W R) (f : H → NetState Key P H W R)
      → (a ≡ none → IsTidy x)
      → ((h : H) → IsTidy (f h))
      → IsTidy (elim a as (λ q. NetState Key P H W R) [ none ↦ x | some h ↦ f h ])
  option-IsTidy none x f e g = e refl
  option-IsTidy (some h) x f e g = g h

  closed_selects_nothing :
      (s : NetState Key P H W R) → IsTidy s → s.shared.prefs ≡ none → s.selected ≡ nothing_selected
  unfolding IsTidy
  closed_selects_nothing s (inl (e, f)) n = f
  closed_selects_nothing s (inr (h, e)) n = absurd (cc)

  do_net_open-IsTidy :
      (args : List Bytes) (s : NetState Key P H W R)
      → IsTidy s
      → IsTidy (do_net_open lists api net args s)
  unfolding do_net_open
  do_net_open-IsTidy args s e =
      option-IsTidy s.shared.prefs _ _ (λ n. open_net-IsTidy args s (closed_selects_nothing s e n))
        (λ h.
          unless_required-IsTidy (codes "close") args
            (λ t. open_net lists api net args (close_both lists api net t)) s e
            (λ t. open_net-IsTidy args (close_both lists api net t) (close_both-Closed t).1))

  unchanged_prefs :
      (b : Bool) (p : Preferences Key P H W)
      → (if b then record p { prefs_changed = false } else p).prefs ≡ p.prefs
  unchanged_prefs true p = refl
  unchanged_prefs false p = refl

  unfoldable pub run_net :
      NetCommand (NetState Key P H W R) → NetState Key P H W R → NetState Key P H W R
  run_net (net_open args) s = do_net_open lists api net args s
  run_net (net_commit args) s = do_net_commit lists api net args s
  run_net (net_apply args) s = do_net_apply lists api net args s
  run_net (net_close_command args) s = do_net_close lists api net args s
  run_net (net_quit args) s = do_net_quit lists api net args s
  run_net (other f) s = f s

  unfoldable pub run_net_all :
      List (NetCommand (NetState Key P H W R)) → NetState Key P H W R → NetState Key P H W R
  run_net_all [] s = s
  run_net_all (c ∷ l) s = run_net_all l (run_net c s)

  run_net-IsTidy :
      (c : NetCommand (NetState Key P H W R)) (s : NetState Key P H W R)
      → Keeps c
      → IsTidy s
      → IsTidy (run_net c s)
  unfolding run_net Keeps do_net_commit do_net_apply do_net_close do_net_quit
  run_net-IsTidy (net_open args) s k e = do_net_open-IsTidy args s e
  run_net-IsTidy (net_commit args) s k e =
      (let (w, ok) = api.commit_changes s.shared.world s.shared.prefs in
        prefs-IsTidy s (do_net_commit lists api net args s)
          (unchanged_prefs ok (report_error lists api (w, ok) s.shared)
            ∙ report_error_prefs lists api (w, ok) s.shared)
          refl e)
  run_net-IsTidy (net_apply args) s k e =
      prefs-IsTidy s (do_net_apply lists api net args s)
        (report_error_prefs lists api (api.apply_changes s.shared.world s.shared.prefs) s.shared)
        refl e
  run_net-IsTidy (net_close_command args) s k e =
      unless_required-IsTidy (codes "close") args (close_both lists api net) s e closed-IsTidy
  run_net-IsTidy (net_quit args) s k e =
      unless_required-IsTidy (codes "quit") args _ s e
        (λ t. prefs-IsTidy (close_both lists api net t) _ refl refl (closed-IsTidy t))
  run_net-IsTidy (other f) s k e = k s e

  -- If preferences are open or nothing is selected, then this holds after any sequence of the commands of the session
  -- and of other commands that keep it: when the preferences are closed, by "close", by "quit" or by an "open" that
  -- fails, no interface, service, protocol or set stays selected.
  pub run_net_all-IsTidy :
      (l : List (NetCommand (NetState Key P H W R))) (s : NetState Key P H W R)
      → All Keeps l
      → IsTidy s
      → IsTidy (run_net_all l s)
  unfolding run_net_all
  run_net_all-IsTidy [] s k e = e
  run_net_all-IsTidy (c ∷ l) s (k, ks) e =
      run_net_all-IsTidy l (run_net c s) ks (run_net-IsTidy c s k e)
