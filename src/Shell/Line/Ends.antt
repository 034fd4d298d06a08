-- ===== src/Shell/Line/Ends.antt =====
-- scutil/scutil.c, `getString`: the end of a string is found inside the array, behind at least as many
-- bytes as the copy keeps.
use configd_extra.Base.{
  ℕ, zero, suc, ◌+◌, ◌≤◌, ◌<◌, ◌≡◌, ◌≢◌, refl, Bool, true, false, not, ◌&&◌, [], ◌∷◌, Option, none,
  some, Bytes, length, ◌==◌, if◌then◌else◌, ◌>>=◌, arith,
}
use configd_extra.Shell.Line.{
  quote_mark, backslash, is_escaped, bit, Extent, extend, stop, find_end, is_dropped,
}
use configd_extra.Shell.Scan.{is_space}

-- A byte 0 is in the array.
unfoldable pub has_nul : Bytes → Bool
has_nul [] = false
has_nul (c ∷ p) = if c == 0 then true else has_nul p

-- How many of the first `n` bytes the copy keeps.
unfoldable pub kept : ℕ → Bytes → ℕ
kept zero p = 0
kept (suc n) [] = 0
kept (suc n) (c ∷ []) = suc (kept n [])
kept (suc n) (c ∷ d ∷ p) = bit (not (is_dropped c d)) + kept n (d ∷ p)

-- The end is inside the array, and at most as many bytes are kept as were counted.
unfoldable pub IsExtent : Bytes → Extent → Type 0
IsExtent p x =
    (kept x.size p + x.escaped ≤ x.size) × (x.size + length x.end ≡ length p) × (0 < length x.end)

unfoldable pub Found : Bytes → Option Extent → Type 0
Found p none = ⊥
Found p (some x) = IsExtent p x

pub if-Found :
    (p : Bytes) (b : Bool) (s t : Option Extent)
    → (b ≡ true → Found p s)
    → (b ≡ false → Found p t)
    → Found p (if b then s else t)
if-Found p true s t hs ht = hs refl
if-Found p false s t hs ht = ht refl

pub stop-Found : (c : ℕ) (p : Bytes) → Found (c ∷ p) (some (stop 0 (c ∷ p)))
unfolding Found IsExtent kept
stop-Found c p = omega arith

pub one-Found :
    (c d : ℕ) (p : Bytes) (o : Option Extent)
    → Found (d ∷ p) o
    → Found (c ∷ d ∷ p) (o >>= λ x. some (extend 1 0 x))
unfolding Found IsExtent kept
one-Found c d p none h = absurd h
one-Found c d p (some x) h = ground arith

pub kept_step : (n c : ℕ) (p : Bytes) → kept (suc n) (c ∷ p) ≤ suc (kept n p)
unfolding kept
kept_step n c [] = omega arith
kept_step n c (d ∷ p) = ground arith

pub two-Found :
    (c d : ℕ) (p : Bytes) (o : Option Extent)
    → (c == backslash) ≡ true
    → Found p o
    → Found (c ∷ d ∷ p) (o >>= λ x. some (extend 2 (bit (is_escaped d)) x))
unfolding Found IsExtent kept is_dropped
two-Found c d p none e h = absurd h
two-Found c d p (some x) e h = ground (arith, kept_step x.size d p)

pub has_nul_nil : has_nul [] ≢ true
unfolding has_nul
has_nul_nil e = absurd (cc)

pub premature-Found : (c d : ℕ) (p : Bytes) → Found (c ∷ d ∷ p) (some (stop 1 (d ∷ p)))
unfolding Found IsExtent kept
premature-Found c d p = ground arith

pub has_nul_tail :
    (c : ℕ) (p : Bytes) → has_nul (c ∷ p) ≡ true → (c == 0) ≡ false → has_nul p ≡ true
unfolding has_nul
has_nul_tail c p h e = ground arith

pub find_end-Found : (q : Bool) (p : Bytes) → has_nul p ≡ true → Found p (find_end q p)
unfolding find_end
find_end-Found q [] h = absurd (has_nul_nil h)
find_end-Found q (c ∷ []) h =
    if-Found _ (c == 0) _ _ (λ e. stop-Found c [])
      (λ e. absurd (has_nul_nil (has_nul_tail c [] h e)))
find_end-Found q (c ∷ d ∷ p) h =
    if-Found _ (c == 0) _ _ (λ e. stop-Found c (d ∷ p))
      (λ nonzero.
        if-Found _ (q && (c == quote_mark)) _ _ (λ e. stop-Found c (d ∷ p))
          (λ _.
            let tail = has_nul_tail c (d ∷ p) h nonzero in
            if-Found _ (c == backslash) _ _
              (λ e.
                if-Found _ (d == 0) _ _ (λ z. premature-Found c d p)
                  (λ z. two-Found c d p _ e (find_end-Found q p (has_nul_tail d p tail z))))
              (λ e.
                if-Found _ (not q && is_space c) _ _ (λ e. stop-Found c (d ∷ p))
                  (λ e. one-Found c d p _ (find_end-Found q (d ∷ p) tail)))))
