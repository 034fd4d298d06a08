-- ===== src/Shell/Cache/Block.antt =====
-- scutil/cache.c: blocks of operations.
use configd_extra.Base.{
  ◌≡◌, refl, Bool, true, false, not, List, Option, some, Bytes, if◌then◌else◌, ◌∙◌, ◌>>=◌,
  Bool-cases, inl, inr,
}
use configd_extra.Shell.Cache.{
  is_active, begin_block, end_block, close_block, set_block, wanted_block, do_block,
}
use configd_extra.Shell.State.{Cf, StoreApi, Shell, Message, status, need_lock, print}

not_both : (b c : Bool) → c ≡ b → c ≡ not b → ⊥
not_both true true e f = absurd (cc)
not_both true false e f = absurd (cc)
not_both false true e f = absurd (cc)
not_both false false e f = absurd (cc)

-- A test and a read, where both are settled.
if-bind :
    {A B : Type 0} (b : Bool) (o : Option A) (a : A) (f : A → Option B) (t : Option B)
    → b ≡ true
    → o ≡ some a
    → (if b then (o >>= f) else t) ≡ f a
if-bind b o a f t e e' = rw (e, e') refl

if-not {ℓ} : {A : Type ℓ} (b : Bool) (x y : A) → b ≡ false → (if b then x else y) ≡ y
if-not b x y e = rw e refl

module _ {Key P H W : Type 0} (cf : Cf Key P) (api : StoreApi Key P H W) where
  -- What the library says of the cache of a session: it is active from `_SCDynamicStoreCacheOpen`
  -- to `_SCDynamicStoreCacheClose`.
  pub record CacheLaws : Type 0 where
    pub after_open :
        (w : W) (h : H) → api.cache_is_active (api.cache_open w (some h)) (some h) ≡ true
    pub after_close :
        (w : W) (h : H) → api.cache_is_active (api.cache_close w (some h)) (some h) ≡ false

  unfoldable pub Reaches : Bool → Shell Key P H W → Shell Key P H W → Type 0
  Reaches b s s' =
      (is_active cf api s' ≡ b)
      × (s'.store ≡ s.store)
      × (is_active cf api s ≡ b → s'.world ≡ s.world)

  if-Reaches :
      (c b : Bool) (s t u : Shell Key P H W)
      → (c ≡ true → Reaches b s t)
      → (c ≡ false → Reaches b s u)
      → Reaches b s (if c then t else u)
  if-Reaches true b s t u ht hu = ht refl
  if-Reaches false b s t u ht hu = hu refl

  kept-Reaches :
      (b : Bool) (m : Message Key P) (s : Shell Key P H W)
      → is_active cf api s ≡ b
      → Reaches b s (print m s)
  unfolding Reaches print is_active
  kept-Reaches b m s e = (e, refl, λ _. refl)

  moved-Reaches :
      (b : Bool) (m : Message Key P) (w : W) (s : Shell Key P H W)
      → is_active cf api s ≡ not b
      → api.cache_is_active w s.store ≡ b
      → Reaches b s (print m (record s { world = w }))
  unfolding Reaches print is_active
  moved-Reaches b m w s e e' = (e', refl, λ h. absurd (not_both b _ h e))

  parts :
      (b : Bool) (s s' : Shell Key P H W)
      → Reaches b s s'
      → (is_active cf api s' ≡ b)
        × (s'.store ≡ s.store)
        × (is_active cf api s ≡ b → s'.world ≡ s.world)
  unfolding Reaches
  parts b s s' h = h

  begin_block-Reaches :
      CacheLaws
      → (h : H) (s : Shell Key P H W) → s.store ≡ some h
      → Reaches true s (begin_block cf api s)
  unfolding begin_block
  begin_block-Reaches laws h s e =
      if-Reaches (is_active cf api s) true _ _ _ (λ a. kept-Reaches true _ s a)
        (λ a. moved-Reaches true _ _ s a (rw e (laws.after_open _ h)))

  close_block-Reaches :
      CacheLaws
      → (h : H) (s : Shell Key P H W) → s.store ≡ some h
      → is_active cf api s ≡ true
      → Reaches false s (close_block cf api h s)
  unfolding close_block
  close_block-Reaches laws h s e a = moved-Reaches false _ _ s a (rw e (laws.after_close _ h))

  end_block-Reaches :
      CacheLaws
      → (h : H) (s : Shell Key P H W) → s.store ≡ some h
      → (s' : Shell Key P H W) × (end_block cf api s ≡ some s') × Reaches false s s'
  unfolding end_block
  end_block-Reaches laws h s e = elim (Bool-cases (is_active cf api s)) [
    | inl a ↦ (
      close_block cf api h s,
      if-bind (is_active cf api s) s.store h _ _ a e,
      close_block-Reaches laws h s e a,
    )
    | inr a ↦
        (print (status need_lock) s, if-not (is_active cf api s) _ _ a, kept-Reaches false _ s a)
  ]

  -- Let the cache of a session be active from its opening to its closing. Then in an open session
  -- `block`, with an argument that asks for a block to begin or to end or with none, which asks for
  -- the other of the two, runs to its end, leaves the cache as it was asked for and the session
  -- open. If the cache was so before, no call changes the library's state.
  pub do_block-is_active :
      CacheLaws
      → (args : List Bytes) (h : H) (s : Shell Key P H W) (b : Bool) → (s.store ≡ some h)
      → (wanted_block cf api args s ≡ some b)
      → (s' : Shell Key P H W) × (do_block cf api args s ≡ some s')
        × (is_active cf api s' ≡ b)
        × (s'.store ≡ some h)
        × (is_active cf api s ≡ b → s'.world ≡ s.world)
  unfolding do_block set_block
  do_block-is_active laws args h s true e w =
      let (a, st, k) = parts true s _ (begin_block-Reaches laws h s e) in
      (begin_block cf api s, rw w refl, a, st ∙ e, k)
  do_block-is_active laws args h s false e w =
      let (s', ends, r) = end_block-Reaches laws h s e in
      let (a, st, k) = parts false s s' r in (s', rw w ends, a, st ∙ e, k)
