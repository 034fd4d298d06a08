-- ===== src/Base/Segments.antt =====
-- The part of an array from one index on: reads, appends and writes seen through it.
use Prim.Native.Nat.{ℕ, zero, suc, ◌+◌, ◌≤◌, ◌<◌}
use mathlib.Core.Path.{◌≡◌, refl, ap}
use mathlib.Core.List.{List, [], ◌∷◌, ◌++◌}
use mathlib.Core.Option.{some}
use native.Mathlib.Omega.{arith}
use configd_extra.Base.Lists.{length, get_elem?, set, take}

module _ {ℓ} {A : Type ℓ} where
  -- The `n` elements from index `a` on.
  abbrev pub segment : List A → ℕ → ℕ → List A
  segment l zero n = take n l
  segment [] (suc a) n = []
  segment (x ∷ l) (suc a) n = segment l a n

  pub length-segment : (l : List A) (a n : ℕ) → a + n ≤ length l → length (segment l a n) ≡ n
  length-segment l zero zero h = refl
  length-segment [] zero (suc n) h = absurd (omega arith)
  length-segment (x ∷ l) zero (suc n) h = ap suc (length-segment l zero n (omega arith))
  length-segment [] (suc a) n h = absurd (omega arith)
  length-segment (x ∷ l) (suc a) n h = length-segment l a n (omega arith)

  -- An index inside the array has a value, and the segment from it on begins with that value.
  pub get_elem?_total : (l : List A) (a : ℕ) → a < length l → (x : A) × (get_elem? l a ≡ some x)
  get_elem?_total [] a h = absurd (omega arith)
  get_elem?_total (x ∷ l) zero h = (x, refl)
  get_elem?_total (x ∷ l) (suc a) h = get_elem?_total l a (omega arith)

  pub segment-suc :
      (l : List A) (a b n : ℕ) (x : A)
      → b ≡ suc a
      → get_elem? l a ≡ some x
      → segment l a (suc n) ≡ x ∷ segment l b n
  segment-suc [] a b n x e h = cc
  segment-suc (y ∷ l) zero b n x e h = rw e (cc)
  segment-suc (y ∷ l) (suc a) b n x e h = rw e (segment-suc l a (suc a) n x refl h)

  pub get_elem?-segment :
      (l : List A) (a n k i : ℕ) → k < n → i ≡ a + k → get_elem? (segment l a n) k ≡ get_elem? l i
  get_elem?-segment l a zero k i h e = absurd (omega arith)
  get_elem?-segment [] zero (suc n) k i h e = refl
  get_elem?-segment (x ∷ l) zero (suc n) zero zero h e = refl
  get_elem?-segment (x ∷ l) zero (suc n) zero (suc i) h e = absurd (omega arith)
  get_elem?-segment (x ∷ l) zero (suc n) (suc k) zero h e = absurd (omega arith)
  get_elem?-segment (x ∷ l) zero (suc n) (suc k) (suc i) h e =
      get_elem?-segment l zero n k i (omega arith) (omega arith)
  get_elem?-segment [] (suc a) (suc n) k i h e = refl
  get_elem?-segment (x ∷ l) (suc a) (suc n) k zero h e = absurd (omega arith)
  get_elem?-segment (x ∷ l) (suc a) (suc n) k (suc i) h e =
      get_elem?-segment l a (suc n) k i h (omega arith)

  -- Writing just past a segment appends to it.
  pub segment-set_end :
      (l : List A) (a n i : ℕ) (v : A)
      → i ≡ a + n
      → i < length l
      → segment (set l i v) a (suc n) ≡ segment l a n ++ (v ∷ [])
  segment-set_end [] a n i v e h = absurd (omega arith)
  segment-set_end (x ∷ l) zero zero zero v e h = refl
  segment-set_end (x ∷ l) zero zero (suc i) v e h = absurd (omega arith)
  segment-set_end (x ∷ l) zero (suc n) zero v e h = absurd (omega arith)
  segment-set_end (x ∷ l) zero (suc n) (suc i) v e h =
      ap (◌∷◌ x) (segment-set_end l zero n i v (omega arith) (omega arith))
  segment-set_end (x ∷ l) (suc a) n zero v e h = absurd (omega arith)
  segment-set_end (x ∷ l) (suc a) n (suc i) v e h =
      segment-set_end l a n i v (omega arith) (omega arith)

  pub segment-set_above :
      (l : List A) (a n i : ℕ) (v : A) → a + n ≤ i → segment (set l i v) a n ≡ segment l a n
  segment-set_above [] a n i v h = refl
  segment-set_above (x ∷ l) zero zero i v h = refl
  segment-set_above (x ∷ l) zero (suc n) zero v h = absurd (omega arith)
  segment-set_above (x ∷ l) zero (suc n) (suc i) v h =
      ap (◌∷◌ x) (segment-set_above l zero n i v (omega arith))
  segment-set_above (x ∷ l) (suc a) n zero v h = absurd (omega arith)
  segment-set_above (x ∷ l) (suc a) n (suc i) v h = segment-set_above l a n i v (omega arith)

  pub segment-set_below :
      (l : List A) (a n i : ℕ) (v : A) → i < a → segment (set l i v) a n ≡ segment l a n
  segment-set_below l zero n i v h = absurd (omega arith)
  segment-set_below [] (suc a) n i v h = refl
  segment-set_below (x ∷ l) (suc a) n zero v h = refl
  segment-set_below (x ∷ l) (suc a) n (suc i) v h = segment-set_below l a n i v (omega arith)

  -- Writing inside a segment writes its element.
  pub segment-set_inside :
      (l : List A) (a n k i : ℕ) (v : A)
      → k < n
      → i ≡ a + k
      → segment (set l i v) a n ≡ set (segment l a n) k v
  segment-set_inside [] zero n k i v h e = segment-set_nil n k v
    where
      segment-set_nil : (n k : ℕ) (v : A) → take {A = A} n [] ≡ set (take n []) k v
      segment-set_nil zero k v = refl
      segment-set_nil (suc n) k v = refl
  segment-set_inside [] (suc a) n k i v h e = refl
  segment-set_inside (x ∷ l) zero zero k i v h e = absurd (omega arith)
  segment-set_inside (x ∷ l) zero (suc n) zero zero v h e = refl
  segment-set_inside (x ∷ l) zero (suc n) zero (suc i) v h e = absurd (omega arith)
  segment-set_inside (x ∷ l) zero (suc n) (suc k) zero v h e = absurd (omega arith)
  segment-set_inside (x ∷ l) zero (suc n) (suc k) (suc i) v h e =
      ap (◌∷◌ x) (segment-set_inside l zero n k i v (omega arith) (omega arith))
  segment-set_inside (x ∷ l) (suc a) n k zero v h e = absurd (omega arith)
  segment-set_inside (x ∷ l) (suc a) n k (suc i) v h e =
      segment-set_inside l a n k i v h (omega arith)
