-- ===== src/Base/Arrays.antt =====
-- C arrays with checked access: `none` is an access out of bounds, or a failed assertion. The loop
-- over a run of slots and the copy of a run are the write of a whole list over a segment.
use Prim.Native.Nat.{ℕ, zero, suc, ◌+◌, ◌≤◌, ◌<◌}
use mathlib.Core.Path.{◌≡◌, refl, sym, ap, ◌∙◌}
use mathlib.Core.Logic.{◌⊎◌}
use mathlib.Core.List.{List, [], ◌∷◌}
use mathlib.Core.Option.{Option, none, some}
use native.Mathlib.Omega.{arith}
use configd_extra.Base.Tests.{ltb, if◌then◌else◌}
use configd_extra.Base.Lists.{length, get_elem?, set, length-set}
use configd_extra.Base.Segments.{segment, segment-suc, segment-set_below, get_elem?_total}

infixl 5 ◌>>=◌
abbrev pub ◌>>=◌ {ℓ κ} : {A : Type ℓ} {B : Type κ} → Option A → (A → Option B) → Option B
none >>= f = none
some a >>= f = f a

module _ {ℓ} {A : Type ℓ} where
  abbrev pub or_else : Option A → Option A → Option A
  or_else none b = b
  or_else (some a) b = some a

  pub or_else-none : (a : Option A) → or_else a none ≡ a
  or_else-none none = refl
  or_else-none (some a) = refl

  pub or_else_assoc : (a b c : Option A) → or_else (or_else a b) c ≡ or_else a (or_else b c)
  or_else_assoc none b c = refl
  or_else_assoc (some a) b c = refl

-- Binds and matches on an option that is known.
module _ {ℓ κ} {A : Type ℓ} {B : Type κ} (o : Option A) where
  pub bind_some : (f : A → Option B) (a : A) → o ≡ some a → (o >>= f) ≡ f a
  bind_some f a e = rw e refl

  pub elim_some :
      (f : A → B) (t : B) (a : A) → o ≡ some a → elim o [ none ↦ t | some v ↦ f v ] ≡ f a
  elim_some f t a e = rw e refl

  pub elim_none : (f : A → B) (t : B) → o ≡ none → elim o [ none ↦ t | some v ↦ f v ] ≡ t
  elim_none f t e = rw e refl

pub bind-eq-some {ℓ κ} :
    {A : Type ℓ} {B : Type κ} (m : Option A) (f : A → Option B) {b : B}
    → (m >>= f) ≡ some b
    → (a : A) × (m ≡ some a) × (f a ≡ some b)
bind-eq-some none f h = cc
bind-eq-some (some a) f h = (a, refl, h)

module _ {ℓ} {A : Type ℓ} where
  -- `l[i] = v`
  abbrev pub store : List A → ℕ → A → Option (List A)
  store l i v = if ltb i (length l) then some (set l i v) else none

  pub store-some : (l : List A) (i : ℕ) (v : A) → i < length l → store l i v ≡ some (set l i v)
  store-some l i v h = ground arith

  -- The elements `ys` written over those from index `a` on.
  abbrev pub splice : List A → ℕ → List A → List A
  splice [] a ys = []
  splice (x ∷ l) zero [] = x ∷ l
  splice (x ∷ l) zero (y ∷ ys) = y ∷ splice l zero ys
  splice (x ∷ l) (suc a) ys = x ∷ splice l a ys

  -- for (k = 0; k < n; k++) l[a + k] = f(l[a + k]);
  unfoldable pub each_slot : (A → Option A) → ℕ → List A → ℕ → Option (List A)
  each_slot f zero l a = some l
  each_slot f (suc n) l a = do
    x ← get_elem? l a
    y ← f x
    l' ← store l a y
    each_slot f n l' (a + 1)

  -- memcpy(&dst[d], &src[s], n * sizeof(*dst));
  unfoldable pub copy_slots : List A → ℕ → ℕ → List A → ℕ → Option (List A)
  copy_slots src s zero dst d = some dst
  copy_slots src s (suc n) dst d = do
    x ← get_elem? src s
    dst' ← store dst d x
    copy_slots src (s + 1) n dst' (d + 1)

  unfoldable pub traverse : (A → Option A) → List A → Option (List A)
  traverse f [] = some []
  traverse f (x ∷ xs) = do y ← f x; ys ← traverse f xs; some (y ∷ ys)

  splice-nil : (l : List A) (a : ℕ) → splice l a [] ≡ l
  splice-nil [] a = refl
  splice-nil (x ∷ l) zero = refl
  splice-nil (x ∷ l) (suc a) = ap (◌∷◌ x) (splice-nil l a)

  splice-set :
      (l : List A) (a b : ℕ) (y : A) (ys : List A)
      → b ≡ suc a
      → splice (set l a y) b ys ≡ splice l a (y ∷ ys)
  splice-set [] a b y ys e = refl
  splice-set (x ∷ l) zero b y ys e = rw e (refl)
  splice-set (x ∷ l) (suc a) b y ys e = rw e (ap (◌∷◌ x) (splice-set l a (suc a) y ys refl))

  pub segment_zero : (l : List A) (a : ℕ) → segment l a 0 ≡ []
  segment_zero l zero = refl
  segment_zero [] (suc a) = refl
  segment_zero (x ∷ l) (suc a) = segment_zero l a

  pub length-splice : (l : List A) (a : ℕ) (ys : List A) → length (splice l a ys) ≡ length l
  length-splice [] a ys = refl
  length-splice (x ∷ l) zero [] = refl
  length-splice (x ∷ l) zero (y ∷ ys) = ap suc (length-splice l zero ys)
  length-splice (x ∷ l) (suc a) ys = ap suc (length-splice l a ys)

  pub segment-splice_self :
      (l : List A) (a n : ℕ) (ys : List A)
      → n ≡ length ys
      → a + n ≤ length l
      → segment (splice l a ys) a n ≡ ys
  segment-splice_self [] zero zero [] e h = refl
  segment-splice_self (x ∷ l) zero zero [] e h = refl
  segment-splice_self l zero zero (y ∷ ys) e h = absurd (omega arith)
  segment-splice_self l zero (suc n) [] e h = absurd (omega arith)
  segment-splice_self [] zero (suc n) (y ∷ ys) e h = absurd (omega arith)
  segment-splice_self (x ∷ l) zero (suc n) (y ∷ ys) e h =
      ap (◌∷◌ y) (segment-splice_self l zero n ys (omega arith) (omega arith))
  segment-splice_self [] (suc a) n ys e h = absurd (omega arith)
  segment-splice_self (x ∷ l) (suc a) n ys e h = segment-splice_self l a n ys e (omega arith)

  -- Segments on either side of what is written stay as they were.
  pub segment-splice_other :
      (l : List A) (a b n : ℕ) (ys : List A)
      → (b + n ≤ a) ⊎ (a + length ys ≤ b)
      → segment (splice l a ys) b n ≡ segment l b n
  segment-splice_other [] a b n ys h = refl
  segment-splice_other (x ∷ l) zero b n [] h = refl
  segment-splice_other (x ∷ l) zero zero zero (y ∷ ys) h = refl
  segment-splice_other (x ∷ l) zero zero (suc n) (y ∷ ys) h = absurd (omega arith)
  segment-splice_other (x ∷ l) zero (suc b) n (y ∷ ys) h =
      segment-splice_other l zero b n ys (omega arith)
  segment-splice_other (x ∷ l) (suc a) zero zero ys h = refl
  segment-splice_other (x ∷ l) (suc a) zero (suc n) ys h =
      ap (◌∷◌ x) (segment-splice_other l a zero n ys (omega arith))
  segment-splice_other (x ∷ l) (suc a) (suc b) n ys h =
      segment-splice_other l a b n ys (omega arith)

  each_slot_step :
      (f : A → Option A) (n : ℕ) (l : List A) (a : ℕ) (x y : A) (zs : List A)
      → a < length l
      → get_elem? l a ≡ some x
      → f x ≡ some y
      → each_slot f n (set l a y) (a + 1) ≡ some (splice (set l a y) (a + 1) zs)
      → each_slot f (suc n) l a ≡ some (splice l a (y ∷ zs))
  unfolding each_slot
  each_slot_step f n l a x y zs h at fx ih =
      rw (at, fx, store-some l a y h, ih) (ap some (splice-set l a (a + 1) y zs (omega arith)))

  pub each_slot-splice :
      (f : A → Option A) (n : ℕ) (l : List A) (a : ℕ) (ys : List A)
      → a + n ≤ length l
      → traverse f (segment l a n) ≡ some ys
      → each_slot f n l a ≡ some (splice l a ys)
  unfolding each_slot traverse
  each_slot-splice f zero l a [] h e = ap some (sym (splice-nil l a))
  each_slot-splice f zero l a (y ∷ ys) h e =
      let bad : traverse f [] ≡ some (y ∷ ys) = rw (segment_zero l a) at e in absurd (cc bad)
  each_slot-splice f (suc n) l a ys h e =
      let (x, at) = get_elem?_total l a (omega arith) in
      let e' : traverse f (x ∷ segment l (a + 1) n) ≡ some ys =
        rw (segment-suc l a (a + 1) n x (omega arith) at) at e in
      let (y, fx, rest) = bind-eq-some (f x) _ e' in
      let (zs, fs, all) = bind-eq-some (traverse f (segment l (a + 1) n)) _ rest in
      let ih =
        each_slot-splice f n (set l a y) (a + 1) zs (omega (arith, length-set l a y))
          (rw (segment-set_below l (a + 1) n a y (omega arith)) fs) in
      each_slot_step f n l a x y zs (omega arith) at fx ih ∙ (cc all)

  copy_slots_step :
      (src : List A) (s n : ℕ) (dst : List A) (d : ℕ) (x : A) (xs : List A)
      → d < length dst
      → get_elem? src s ≡ some x
      → copy_slots src (s + 1) n (set dst d x) (d + 1) ≡ some (splice (set dst d x) (d + 1) xs)
      → copy_slots src s (suc n) dst d ≡ some (splice dst d (x ∷ xs))
  unfolding copy_slots
  copy_slots_step src s n dst d x xs h at ih =
      rw (at, store-some dst d x h, ih) (ap some (splice-set dst d (d + 1) x xs (omega arith)))

  pub copy_slots-splice :
      (src : List A) (s n : ℕ) (dst : List A) (d : ℕ)
      → s + n ≤ length src
      → d + n ≤ length dst
      → copy_slots src s n dst d ≡ some (splice dst d (segment src s n))
  unfolding copy_slots
  copy_slots-splice src s zero dst d h k = ap some (rw segment_zero (sym (splice-nil dst d)))
  copy_slots-splice src s (suc n) dst d h k =
      let (x, at) = get_elem?_total src s (omega arith) in
      rw (segment-suc src s (s + 1) n x (omega arith) at) (
        copy_slots_step src s n dst d x (segment src (s + 1) n) (omega arith) at (
          copy_slots-splice src (s + 1) n (set dst d x) (d + 1) (omega arith)
            (omega (arith, length-set dst d x))))
