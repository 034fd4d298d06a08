-- ===== src/Shell/Dictionary/Consistent.antt =====
-- scutil/dictionary.c: the handlers keep the lists of watched keys of an open session.
use configd_extra.Base.{
  Bool, true, false, List, [], ◌∷◌, Option, none, some, Bytes, ◌⊎◌, inl, inr, All, equal, codes,
  if◌then◌else◌, ◌>>=◌,
}
use configd_extra.Shell.Scan.{scan_number}
use configd_extra.Shell.Dictionary.{
  do_dict_init, do_dict_show, set_key, do_dict_set_key, remove_key, do_dict_remove_key,
  scan_argument, parse_flags, no_options, Options, scan_value, scan_values, scan_array,
  scan_boolean, scan_data, is_odd,
}
use configd_extra.Shell.Session.Safe.{
  IsConsistent, Safe, return-Safe, print-Safe, if-Safe, bind-Safe,
}
use configd_extra.Shell.State.{Cf, Converts, created, created-Converts, Shell, text, print}

module _ {ℓ} {A : Type ℓ} where
  -- There is no fault.
  unfoldable pub Returns : Option A → Type 0
  Returns none = ⊥
  Returns (some a) = Unit

  some-Returns : (a : A) → Returns (some a)
  unfolding Returns
  some-Returns a = tt

  if-Returns : (b : Bool) (x y : Option A) → Returns x → Returns y → Returns (if b then x else y)
  if-Returns true x y hx hy = hx
  if-Returns false x y hx hy = hy

module _ {ℓ κ} {A : Type ℓ} {B : Type κ} where
  elim-Returns :
      (o : Option A) (x : B) (f : A → B)
      → Returns (elim o as (λ _. Option B) [ none ↦ some x | some a ↦ some (f a) ])
  elim-Returns none x f = some-Returns x
  elim-Returns (some a) x f = some-Returns (f a)

  either-Returns :
      (r : Bytes ⊎ A) (x : Bytes → Option B) (f : A → Option B)
      → ((m : Bytes) → Returns (x m))
      → ((a : A) → Returns (f a))
      → Returns (elim r as (λ _. Option B) [ inl m ↦ x m | inr a ↦ f a ])
  either-Returns (inl m) x f hx hf = hx m
  either-Returns (inr a) x f hx hf = hf a

bind-Returns :
    {A B : Type 0} (o : Option A) (f : A → Option B)
    → Returns o
    → ((a : A) → Returns (f a))
    → Returns (o >>= f)
unfolding Returns
bind-Returns (some a) f h k = k a
bind-Returns none f h k = absurd h

module _ {Key P : Type 0} (cf : Cf Key P) where
  -- The values that are left are ones for which there are strings.
  unfoldable pub AllConvert : Options × List Bytes → Type 0
  AllConvert r = All (Converts cf) r.1

  if-AllConvert :
      (b : Bool) (x y : Options × List Bytes)
      → AllConvert x
      → AllConvert y
      → AllConvert (if b then x else y)
  if-AllConvert true x y hx hy = hx
  if-AllConvert false x y hx hy = hy

  pair-AllConvert :
      (o : Options) (args : List Bytes) → All (Converts cf) args → AllConvert (o, args)
  unfolding AllConvert
  pair-AllConvert o args h = h

  pub parse_flags-AllConvert :
      (o : Options) (args : List Bytes) → All (Converts cf) args → AllConvert (parse_flags o args)
  unfolding parse_flags
  parse_flags-AllConvert o [] h = pair-AllConvert o [] h
  parse_flags-AllConvert o (a ∷ args) h =
      if-AllConvert (equal a (codes "*")) _ _ (parse_flags-AllConvert _ args h.1) (
        if-AllConvert (equal a (codes "-")) _ _ (pair-AllConvert o args h.1) (
          if-AllConvert (equal a (codes "?")) _ _ (parse_flags-AllConvert _ args h.1) (
            if-AllConvert (equal a (codes "%")) _ _ (parse_flags-AllConvert _ args h.1) (
              if-AllConvert (equal a (codes "#")) _ _ (parse_flags-AllConvert _ args h.1)
                (pair-AllConvert o (a ∷ args) h)))))

  created-Returns :
      {A : Type 0} (a : Bytes)
      → Converts cf a
      → (f : Key → A) → Returns (do k ← created cf a; some (f k))
  unfolding Returns
  created-Returns a c f = rw (created-Converts cf a c) tt

  scan_value-Returns : (o : Options) (a : Bytes) → Converts cf a → Returns (scan_value cf o a)
  unfolding scan_value
  scan_value-Returns o a c = if-Returns o.boolean _ _ (elim-Returns (scan_boolean a) _ _) (
      if-Returns o.data' _ _
        (if-Returns (is_odd a) _ _ (some-Returns _) (elim-Returns (scan_data a) _ _))
        (if-Returns o.numeric _ _ (elim-Returns (scan_number a) _ _) (created-Returns a c _)))

  scan_values-Returns :
      (o : Options) (args : List Bytes) (l : List P)
      → All (Converts cf) args
      → Returns (scan_values cf o args l)
  unfolding scan_values
  scan_values-Returns o [] l h = some-Returns _
  scan_values-Returns o (a ∷ args) l (c, h) =
      bind-Returns _ _ (scan_value-Returns o a c)
        (λ r. either-Returns r _ _ (λ m. some-Returns _) (λ v. scan_values-Returns o args _ h))

  scan_array-Returns :
      (o : Options) (args : List Bytes) → All (Converts cf) args → Returns (scan_array cf o args)
  unfolding scan_array
  scan_array-Returns o args h =
      bind-Returns _ _ (scan_values-Returns o args [] h) (λ r. some-Returns _)

  pub scan_argument-Returns :
      (r : Options × List Bytes) → AllConvert r → Returns (scan_argument cf r)
  unfolding scan_argument AllConvert
  scan_argument-Returns (o, []) h = if-Returns o.array _ _ (some-Returns _) (some-Returns _)
  scan_argument-Returns (o, a ∷ []) h =
      if-Returns o.array _ _ (scan_array-Returns o _ h) (scan_value-Returns o a h.0)
  scan_argument-Returns (o, a ∷ b ∷ args) h = scan_array-Returns o _ h

module _ {Key P H W : Type 0} (cf : Cf Key P) where
  value-Consistent :
      (v : Option P) (s : Shell Key P H W) → IsConsistent s → IsConsistent (record s { value = v })
  unfolding IsConsistent
  value-Consistent v s h = h

  pub do_dict_init-Safe :
      (args : List Bytes) (s : Shell Key P H W) → IsConsistent s → Safe (do_dict_init cf args s)
  unfolding do_dict_init
  do_dict_init-Safe args s c = return-Safe _ (value-Consistent _ s c)

  value-Safe :
      (o : Option P) (f : P → Option (Shell Key P H W)) (t : Option (Shell Key P H W))
      → Safe t
      → ((v : P) → Safe (f v))
      → Safe (elim o [ none ↦ t | some v ↦ f v ])
  value-Safe none f t ht hf = ht
  value-Safe (some v) f t ht hf = hf v

  pub do_dict_show-Safe :
      (args : List Bytes) (s : Shell Key P H W) → IsConsistent s → Safe (do_dict_show cf args s)
  unfolding do_dict_show
  do_dict_show-Safe args s c = value-Safe s.value _ _ (print-Safe _ s c) (λ v. print-Safe _ s c)

  scanned-Safe :
      (o : Option (Bytes ⊎ P)) (f : P → P) (s : Shell Key P H W)
      → Returns o
      → IsConsistent s
      → Safe (
          o >>= λ r. elim r [
            | inl refused ↦ some (print (text refused) s)
            | inr val ↦ some (record s { value = some (f val) })
          ])
  unfolding Returns
  scanned-Safe (some (inl m)) f s h c = print-Safe _ s c
  scanned-Safe (some (inr v)) f s h c = return-Safe _ (value-Consistent _ s c)
  scanned-Safe none f s h c = absurd h

  pub do_dict_set_key-Safe :
      (a : Bytes) (args : List Bytes) (s : Shell Key P H W)
      → All (Converts cf) (a ∷ args)
      → IsConsistent s
      → Safe (do_dict_set_key cf (a ∷ args) s)
  unfolding do_dict_set_key set_key
  do_dict_set_key-Safe a args s (k, h) c = value-Safe s.value _ _ (print-Safe _ s c) (λ old.
      if-Safe _ _ _
        (bind-Safe _ _ _ (created-Converts cf a k) (
          scanned-Safe (scan_argument cf (parse_flags no_options args))
            (cf.set_value old (cf.create_string a)) s
            (scan_argument-Returns cf _ (parse_flags-AllConvert cf no_options args h)) c))
        (print-Safe _ s c))

  pub do_dict_remove_key-Safe :
      (a : Bytes) (args : List Bytes) (s : Shell Key P H W)
      → Converts cf a
      → IsConsistent s
      → Safe (do_dict_remove_key cf (a ∷ args) s)
  unfolding do_dict_remove_key remove_key
  do_dict_remove_key-Safe a args s k c = value-Safe s.value _ _ (print-Safe _ s c) (λ old.
      if-Safe _ _ _
        (bind-Safe _ _ _ (created-Converts cf a k) (return-Safe _ (value-Consistent _ s c)))
        (print-Safe _ s c))
