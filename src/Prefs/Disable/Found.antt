-- ===== src/Prefs/Disable/Found.antt =====
-- scutil/prefs.c: which interface `copy_configured_interface` gives.
use configd_extra.Base.{
  ◌≡◌, refl, Bool, true, false, ◌⊎◌, inl, inr, List, [], ◌∷◌, ◌++◌, Option, none, some,
  if◌then◌else◌, ap, sym, subst, All, arith, Bool-cases, Option-cases,
}
use mathlib.Core.Option.{some-injective}
use configd_extra.Prefs.Disable.{Service, is_named, interface_of, find_interface}

module _ {I Key : Type 0} (key_equal : Key → Key → Bool) (name : Key) where
  -- The service is enabled, and its interface has the name.
  unfoldable pub Offers : Service I Key → I → Type 0
  Offers s i =
      (s.enabled ≡ true) × (s.interface ≡ some i) × (is_named key_equal name (s.bsd_name i) ≡ true)

  unfoldable pub OffersNone : Service I Key → Type 0
  OffersNone s = (i : I) → ¬ (Offers s i)

  -- For an interface: it is the one of a service of the list, and no service before it offers one. For
  -- none: no service offers one.
  unfoldable pub IsFirst : List (Service I Key) → Option I → Type 0
  IsFirst l none = All OffersNone l
  IsFirst l (some i) =
      (before : List (Service I Key)) × (s : Service I Key) × (after : List (Service I Key)) × (l
        ≡ before ++ s ∷ after)
      × Offers s i
      × All OffersNone before

  interface_of-Offers :
      (s : Service I Key)
      → s.enabled ≡ true
      → ((i : I) × (interface_of key_equal s name ≡ some i) × Offers s i)
        ⊎ ((interface_of key_equal s name ≡ none) × OffersNone s)
  unfolding interface_of Offers OffersNone
  interface_of-Offers s e = elim (Option-cases s.interface) [
    | inl missing ↦ inr (ground arith, λ i o. ground arith)
    | inr (i, there) ↦ elim (Bool-cases (is_named key_equal name (s.bsd_name i))) [
      | inl same ↦ inl (i, ground arith, (e, there, same))
      | inr other ↦ inr (ground arith, λ j o. ground arith)
    ]
  ]

  further :
      (s : Service I Key) (l : List (Service I Key)) (o : Option I)
      → OffersNone s
      → IsFirst l o
      → IsFirst (s ∷ l) o
  unfolding IsFirst
  further s l none n f = (n, f)
  further s l (some i) n (before, t, after, e, o, a) =
      (s ∷ before, t, after, ap (λ r. s ∷ r) e, o, (n, a))

  -- One round, by whether the service is enabled and what it offers.
  round-IsFirst :
      (s : Service I Key) (l : List (Service I Key)) (b : Bool) (o rest : Option I)
      → s.enabled ≡ b
      → (s.enabled ≡ true → ((i : I) × (o ≡ some i) × Offers s i) ⊎ ((o ≡ none) × OffersNone s))
      → IsFirst l rest
      → IsFirst (s ∷ l) (if b then (elim o [ none ↦ rest | some i ↦ some i ]) else rest)
  unfolding IsFirst Offers OffersNone
  round-IsFirst s l false o rest e c f = further s l rest (λ i offer. absurd (cc)) f
  round-IsFirst s l true none rest e c f = elim (c e) [
    | inl (i, wrong, offer) ↦ absurd (cc)
    | inr (same, n) ↦ further s l rest n f
  ]
  round-IsFirst s l true (some i) rest e c f = elim (c e) [
    | inl (j, same, offer) ↦
        ([], s, l, refl, subst (λ x. Offers s x) (some-injective _ _ (sym same)) offer, tt)
    | inr (wrong, n) ↦ absurd (cc)
  ]

  -- The loop over the services of the current set gives the interface of the first service that is
  -- enabled and whose interface has the name; and none if no service is such.
  pub find_interface-IsFirst :
      (l : List (Service I Key)) → IsFirst l (find_interface key_equal l name)
  unfolding find_interface IsFirst
  find_interface-IsFirst [] = tt
  find_interface-IsFirst (s ∷ l) =
      round-IsFirst s l s.enabled (interface_of key_equal s name) _ refl (interface_of-Offers s)
        (find_interface-IsFirst l)
