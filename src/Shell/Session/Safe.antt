-- ===== src/Shell/Session/Safe.antt =====
-- scutil/: while a session is open there are both lists of watched keys; the steps that the handlers
-- share keep it so.
use configd_extra.Base.{
  Bool, true, false, List, Option, none, some, if◌then◌else◌, ◌≡◌, refl, ◌>>=◌, Bytes, ap, ◌∙◌,
}
use configd_extra.Shell.Session.{print_error, report}
use configd_extra.Shell.State.{
  Cf, Converts, created, created-Converts, StoreApi, Shell, Message, print,
}

-- `watchedKeys` and `watchedPatterns` for a value of `store`.
unfoldable pub Linked : {Key H : Type 0} → Option H → Option (List Key) → Option (List Key) → Type 0
Linked none a b = Unit
Linked (some h) (some a) (some b) = Unit
Linked (some h) (some a) none = ⊥
Linked (some h) none b = ⊥

pub Linked-of :
    {Key H : Type 0} (o : Option H) (a b : Option (List Key)) (x y : List Key)
    → a ≡ some x
    → b ≡ some y
    → Linked o a b
unfolding Linked
Linked-of none a b x y ea eb = tt
Linked-of (some h) a b x y ea eb = rw (ea, eb) tt

pub Linked-lists :
    {Key H : Type 0} (o : Option H) (a b : Option (List Key)) (h : H)
    → o ≡ some h
    → Linked o a b
    → (x : List Key) × (y : List Key) × (a ≡ some x) × (b ≡ some y)
unfolding Linked
Linked-lists (some g) (some a) (some b) h e l = (a, b, refl, refl)
Linked-lists (some g) (some a) none h e l = absurd l
Linked-lists (some g) none b h e l = absurd l
Linked-lists none a b h e l = absurd (cc)

module _ {Key P H W : Type 0} where
  unfoldable pub IsConsistent : Shell Key P H W → Type 0
  IsConsistent s = Linked s.store s.watched_keys s.watched_patterns

  unfoldable pub Safe : Option (Shell Key P H W) → Type 0
  Safe none = ⊥
  Safe (some s) = IsConsistent s

  pub Safe-result :
      (o : Option (Shell Key P H W))
      → Safe o
      → (s : Shell Key P H W) × (o ≡ some s) × IsConsistent s
  unfolding Safe
  Safe-result (some s) safe = (s, refl, safe)
  Safe-result none safe = absurd safe

  pub bind-Safe :
      {A : Type 0} (o : Option A) (f : A → Option (Shell Key P H W)) (a : A)
      → o ≡ some a
      → Safe (f a)
      → Safe (o >>= f)
  bind-Safe o f a e h = rw e h

  -- Both lists of an open session.
  pub Consistent-lists :
      (s : Shell Key P H W) (h : H)
      → s.store ≡ some h
      → IsConsistent s
      → (a : List Key) × (b : List Key) × (s.watched_keys ≡ some a) × (s.watched_patterns ≡ some b)
  unfolding IsConsistent
  Consistent-lists s h e c = Linked-lists s.store _ _ h e c

  pub if-Consistent :
      (b : Bool) (s t : Shell Key P H W)
      → IsConsistent s
      → IsConsistent t
      → IsConsistent (if b then s else t)
  if-Consistent true s t hs ht = hs
  if-Consistent false s t hs ht = ht

  pub print-Consistent :
      (m : Message Key P) (s : Shell Key P H W) → IsConsistent s → IsConsistent (print m s)
  unfolding print IsConsistent
  print-Consistent m s h = h

  pub if-Safe :
      (b : Bool) (s t : Option (Shell Key P H W)) → Safe s → Safe t → Safe (if b then s else t)
  if-Safe true s t hs ht = hs
  if-Safe false s t hs ht = ht

  pub return-Safe : (s : Shell Key P H W) → IsConsistent s → Safe (some s)
  unfolding Safe
  return-Safe s h = h

  pub print-Safe :
      (m : Message Key P) (s : Shell Key P H W) → IsConsistent s → Safe (some (print m s))
  print-Safe m s h = return-Safe _ (print-Consistent m s h)

  pub world-Consistent :
      (w : W) (s : Shell Key P H W) → IsConsistent s → IsConsistent (record s { world = w })
  unfolding IsConsistent
  world-Consistent w s h = h

module _ {Key P H W : Type 0} (api : StoreApi Key P H W) where
  pub print_error-Consistent :
      (s : Shell Key P H W) → IsConsistent s → IsConsistent (print_error api s)
  unfolding print_error IsConsistent print
  print_error-Consistent s h = h

  pub report-Consistent :
      (s : Shell Key P H W) (r : W × Bool) → IsConsistent s → IsConsistent (report api s r)
  unfolding report IsConsistent print_error print
  report-Consistent s (w, true) h = h
  report-Consistent s (w, false) h = h

module _ {Key P H W : Type 0} (cf : Cf Key P) (api : StoreApi Key P H W) where
  -- A handler that makes a key of its argument first.
  pub created-Safe :
      (a : Bytes) (f : Key → Option (Shell Key P H W))
      → Converts cf a
      → ((k : Key) → Safe (f k))
      → Safe (created cf a >>= f)
  created-Safe a f c h = bind-Safe _ f _ (created-Converts cf a c) (h _)

  -- What the library says of its cache: with no session there is none.
  abbrev pub HasNoCache : Type 0
  HasNoCache = (w : W) → api.cache_is_active w none ≡ false

  session_or_else :
      (o : Option H) (b : Bool) (f : H → Option (Shell Key P H W)) (t : Option (Shell Key P H W))
      → (o ≡ none → b ≡ false)
      → ((h : H) → Safe (f h))
      → Safe t
      → Safe (if b then (o >>= f) else t)
  session_or_else (some h) true f t e hf ht = hf h
  session_or_else (some h) false f t e hf ht = ht
  session_or_else none b f t e hf ht = rw (e refl) ht

  -- A read through `storePrivate` while the cache is active.
  pub active-Safe :
      (w : W) (o : Option H) (f : H → Option (Shell Key P H W)) (t : Option (Shell Key P H W))
      → HasNoCache
      → ((h : H) → Safe (f h))
      → Safe t
      → Safe (if api.cache_is_active w o then (o >>= f) else t)
  active-Safe w o f t law = session_or_else o _ f t (λ e. ap (api.cache_is_active w) e ∙ law w)
