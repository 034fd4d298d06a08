-- ===== src/Prefs/Shared/Filled.antt =====
-- scutil/dictionary.c: the commands on dictionaries keep `value` from being `NULL`.
use configd_extra.Base.{
  ◌≡◌, refl, Bool, true, false, List, ◌∷◌, Option, none, some, Bytes, ◌⊎◌, inl, inr, All,
  if◌then◌else◌, ◌>>=◌,
}
use configd_extra.Shell.Dictionary.{
  do_dict_init, do_dict_show, set_key, do_dict_set_key, remove_key, do_dict_remove_key,
  scan_argument, parse_flags, no_options,
}
use configd_extra.Shell.Dictionary.Consistent.{
  Returns, parse_flags-AllConvert, scan_argument-Returns,
}
use configd_extra.Shell.State.{Cf, Converts, created-Converts, Shell, Message, text, print}

module _ {Key P H W : Type 0} where
  abbrev pub HasValue : Shell Key P H W → Type 0
  HasValue s = (v : P) × (s.value ≡ some v)

  unfoldable pub Filled : Option (Shell Key P H W) → Type 0
  Filled none = ⊥
  Filled (some s) = HasValue s

  print-Filled : (m : Message Key P) (s : Shell Key P H W) → HasValue s → Filled (some (print m s))
  unfolding Filled print
  print-Filled m s h = h

  set-Filled : (v : P) (s : Shell Key P H W) → Filled (some (record s { value = some v }))
  unfolding Filled
  set-Filled v s = (v, refl)

  if-Filled :
      (b : Bool) (s t : Option (Shell Key P H W))
      → Filled s
      → Filled t
      → Filled (if b then s else t)
  if-Filled true s t hs ht = hs
  if-Filled false s t hs ht = ht

  bind-Filled :
      {A : Type 0} (o : Option A) (f : A → Option (Shell Key P H W)) (a : A)
      → o ≡ some a
      → Filled (f a)
      → Filled (o >>= f)
  bind-Filled o f a e h = rw e h

  value-Filled :
      (o : Option P) (f : P → Option (Shell Key P H W)) (t : Option (Shell Key P H W)) (v : P)
      → o ≡ some v
      → Filled (f v)
      → Filled (elim o [ none ↦ t | some w ↦ f w ])
  value-Filled o f t v e h = rw e h

  scanned-Filled :
      (o : Option (Bytes ⊎ P)) (f : P → P) (s : Shell Key P H W)
      → Returns o
      → HasValue s
      → Filled (
          o >>= λ r. elim r [
            | inl refused ↦ some (print (text refused) s)
            | inr val ↦ some (record s { value = some (f val) })
          ])
  unfolding Returns
  scanned-Filled (some (inl m)) f s h c = print-Filled _ s c
  scanned-Filled (some (inr v)) f s h c = set-Filled (f v) s
  scanned-Filled none f s h c = absurd h

module _ {Key P H W : Type 0} (cf : Cf Key P) where
  pub do_dict_init-Filled :
      (args : List Bytes) (s : Shell Key P H W) → Filled (do_dict_init cf args s)
  unfolding do_dict_init
  do_dict_init-Filled args s = set-Filled _ s

  pub do_dict_show-Filled :
      (args : List Bytes) (s : Shell Key P H W) → HasValue s → Filled (do_dict_show cf args s)
  unfolding do_dict_show
  do_dict_show-Filled args s (v, e) = value-Filled s.value _ _ v e (print-Filled _ s (v, e))

  pub do_dict_set_key-Filled :
      (a : Bytes) (args : List Bytes) (s : Shell Key P H W)
      → All (Converts cf) (a ∷ args)
      → HasValue s
      → Filled (do_dict_set_key cf (a ∷ args) s)
  unfolding do_dict_set_key set_key
  do_dict_set_key-Filled a args s (k, h) (v, e) = value-Filled s.value _ _ v e (
      if-Filled _ _ _
        (bind-Filled _ _ _ (created-Converts cf a k) (
          scanned-Filled (scan_argument cf (parse_flags no_options args))
            (cf.set_value v (cf.create_string a)) s
            (scan_argument-Returns cf _ (parse_flags-AllConvert cf no_options args h)) (v, e)))
        (print-Filled _ s (v, e)))

  pub do_dict_remove_key-Filled :
      (a : Bytes) (args : List Bytes) (s : Shell Key P H W)
      → Converts cf a
      → HasValue s
      → Filled (do_dict_remove_key cf (a ∷ args) s)
  unfolding do_dict_remove_key remove_key
  do_dict_remove_key-Filled a args s k (v, e) = value-Filled s.value _ _ v e (
      if-Filled _ _ _ (bind-Filled _ _ _ (created-Converts cf a k) (set-Filled _ s))
        (print-Filled _ s (v, e)))
