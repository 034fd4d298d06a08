-- ===== src/Shell/Session/Watched.antt =====
-- scutil/notifications.c: `n.add` and `n.remove` on the lists of watched keys.
use configd_extra.Base.{
  elim_some, Bool, true, false, List, [], ◌∷◌, ◌++◌, Option, none, some, Bytes, if◌then◌else◌, ◌≡◌,
  refl, length, ◌==◌, ◌>>=◌, Bool-cases, inl, inr, arith, ap, ◌∙◌,
}
use configd_extra.Shell.Session.{
  contains, remove_first, watched, set_watched, post_watched, add_watched, remove_found,
  remove_watched, with_key, do_notify_add, do_notify_remove, report, print_error,
}
use configd_extra.Shell.State.{Cf, Converts, created-Converts, StoreApi, Shell, print}

bind_some : {A B : Type 0} (o : Option A) (f : A → Option B) (a : A) → o ≡ some a → (o >>= f) ≡ f a
bind_some o f a e = rw e refl

module _ {Key P : Type 0} (cf : Cf Key P) where
  contains_tail :
      (x : Key) (ks : List Key) (k : Key)
      → contains cf (x ∷ ks) k ≡ false
      → (cf.key_equal x k ≡ false) × (contains cf ks k ≡ false)
  unfolding contains
  contains_tail x ks k h = elim (Bool-cases (cf.key_equal x k)) [
    | inl same ↦ absurd (cc)
    | inr other ↦ (other, ground arith)
  ]

  remove_first-append :
      (ks : List Key) (k : Key)
      → cf.key_equal k k ≡ true
      → contains cf ks k ≡ false
      → remove_first cf (ks ++ (k ∷ [])) k ≡ some ks
  unfolding remove_first
  remove_first-append [] k e h = rw e refl
  remove_first-append (x ∷ ks) k e h =
      let (other, rest) = contains_tail x ks k h in rw (other, remove_first-append ks k e rest) refl

module _ {Key P H W : Type 0} (cf : Cf Key P) (api : StoreApi Key P H W) where
  -- The state has these two lists, and this session.
  pub record HasLists (s : Shell Key P H W) (a b : List Key) (o : Option H) : Type 0 where
    pub keys : s.watched_keys ≡ some a
    pub patterns : s.watched_patterns ≡ some b
    pub session : s.store ≡ o

  report-HasLists :
      (s : Shell Key P H W) (a b : List Key) (o : Option H) (r : W × Bool)
      → HasLists s a b o
      → HasLists (report api s r) a b o
  unfolding report print_error print
  report-HasLists s a b o (w, true) h = record {
    keys = h.keys;
    patterns = h.patterns;
    session = h.session;
  }
  report-HasLists s a b o (w, false) h = record {
    keys = h.keys;
    patterns = h.patterns;
    session = h.session;
  }

  post-HasLists :
      (s : Shell Key P H W) (a b : List Key) (o : Option H)
      → HasLists s a b o
      → (s' : Shell Key P H W) × (post_watched cf api s ≡ some s') × HasLists s' a b o
  unfolding post_watched
  post-HasLists s a b o h = (
    report api s (api.set_notification_keys s.world s.store a b),
    bind_some _ _ a h.keys ∙ bind_some _ _ b h.patterns,
    report-HasLists s a b o _ h,
  )

  -- The lists with the one that is chosen replaced.
  set-HasLists :
      (r : Bool) (x : List Key) (s : Shell Key P H W) (a b : List Key) (o : Option H)
      → HasLists s a b o
      → HasLists (set_watched cf api r x s) (if r then a else x) (if r then x else b) o
  unfolding set_watched
  set-HasLists true x s a b o h = record { keys = h.keys; patterns = refl; session = h.session }
  set-HasLists false x s a b o h = record {
    keys = refl;
    patterns = h.patterns;
    session = h.session;
  }

  watched-HasLists :
      (r : Bool) (s : Shell Key P H W) (a b : List Key) (o : Option H)
      → HasLists s a b o
      → watched cf api r s ≡ some (if r then b else a)
  unfolding watched
  watched-HasLists true s a b o h = h.patterns
  watched-HasLists false s a b o h = h.keys

  add_watched-HasLists :
      (r : Bool) (k : Key) (s : Shell Key P H W) (a b : List Key) (o : Option H)
      → HasLists s a b o
      → contains cf (if r then b else a) k ≡ false
      → let x = (if r then b else a) ++ (k ∷ []) in
        (s' : Shell Key P H W) × (add_watched cf api r k s ≡ some s')
        × HasLists s' (if r then a else x) (if r then x else b) o
  unfolding add_watched
  add_watched-HasLists r k s a b o h new =
      let x = (if r then b else a) ++ (k ∷ []) in
      let (s', e, h') = post-HasLists _ _ _ o (set-HasLists r x s a b o h) in
      (s', bind_some _ _ _ (watched-HasLists r s a b o h) ∙ rw new e, h')

  remove_watched-HasLists :
      (r : Bool) (k : Key) (s : Shell Key P H W) (a b x : List Key) (o : Option H)
      → HasLists s a b o
      → remove_first cf (if r then b else a) k ≡ some x
      → (s' : Shell Key P H W) × (remove_watched cf api r k s ≡ some s')
        × HasLists s' (if r then a else x) (if r then x else b) o
  unfolding remove_watched remove_found
  remove_watched-HasLists r k s a b x o h found =
      let (s', e, h') = post-HasLists _ _ _ o (set-HasLists r x s a b o h) in
      (s', bind_some _ _ _ (watched-HasLists r s a b o h) ∙ rw found e, h')

  -- The choice of a list, after the choice has been replaced.
  chosen :
      (r : Bool) (a b x : List Key) → (if r then (if r then x else b) else (if r then a else x)) ≡ x
  chosen true a b x = refl
  chosen false a b x = refl

  restored-HasLists :
      (r : Bool) (s : Shell Key P H W) (a b x : List Key) (o : Option H)
      → HasLists s
          (if r then (if r then a else x) else (if r then b else a))
          (if r then (if r then b else a) else (if r then x else b))
          o
      → HasLists s a b o
  restored-HasLists true s a b x o h = h
  restored-HasLists false s a b x o h = h

  handled :
      (act : Bool → Key → Shell Key P H W → Option (Shell Key P H W)) (s : Shell Key P H W)
      (t : Option (Shell Key P H W)) (name : Bytes) (args : List Bytes) (h : H)
      → Converts cf name
      → s.store ≡ some h
      → elim s.store [ none ↦ t | some g ↦ with_key cf api act (name ∷ args) s ]
        ≡ act (length args == 1) (cf.create_string name) s
  unfolding with_key
  handled act s t name args h c e =
      elim_some s.store _ t h e ∙ bind_some _ _ _ (created-Converts cf name c)

  -- In an open session with the lists `a` of keys and `b` of patterns, `n.add` with a key that is
  -- not in the list it is for (the patterns, if there is one more argument) puts it at the end of
  -- that list and leaves the other one. `n.remove` with the same arguments then gives both lists
  -- back as they were. There must be a string for the key's name, and it must be equal to itself.
  pub do_notify_remove-do_notify_add :
      (s : Shell Key P H W) (a b : List Key) (h : H) (name : Bytes) (args : List Bytes)
      → HasLists s a b (some h)
      → Converts cf name
      → cf.key_equal (cf.create_string name) (cf.create_string name) ≡ true
      → contains cf (if length args == 1 then b else a) (cf.create_string name) ≡ false
      → let r = length args == 1 in
        let x = (if r then b else a) ++ (cf.create_string name ∷ []) in
        (s' s'' : Shell Key P H W) × (do_notify_add cf api (name ∷ args) s ≡ some s')
        × HasLists s' (if r then a else x) (if r then x else b) (some h)
        × (do_notify_remove cf api (name ∷ args) s' ≡ some s'')
        × HasLists s'' a b (some h)
  unfolding do_notify_add do_notify_remove
  do_notify_remove-do_notify_add s a b h name args lists c same new =
      let r = length args == 1 in
      let k = cf.create_string name in
      let x = (if r then b else a) ++ (k ∷ []) in
      let (s', e, lists') = add_watched-HasLists r k s a b (some h) lists new in
      let (s'', e', lists'') =
        remove_watched-HasLists r k s' _ _ (if r then b else a) (some h) lists' (
          ap (λ l. remove_first cf l k) (chosen r a b x)
          ∙ remove_first-append cf (if r then b else a) k same new) in
      (
        s',
        s'',
        handled _ s _ name args h c lists.session ∙ e,
        lists',
        handled _ s' _ name args h c lists'.session ∙ e',
        restored-HasLists r s'' a b x (some h) lists'',
      )
