-- ===== src/Shell/Line/Progress.antt =====
-- scutil/scutil.c, `getString`: a string that does not start with white space has a byte.
use configd_extra.Base.{
  ℕ, ◌<◌, ◌≡◌, Bool, true, false, ◌∷◌, Option, none, some, Bytes, ◌==◌, if◌then◌else◌, ◌>>=◌, arith,
}
use configd_extra.Shell.Line.{backslash, Extent, extend, stop, find_end}
use configd_extra.Shell.Scan.{is_space}

unfoldable pub Moves : Option Extent → Type 0
Moves none = Unit
Moves (some x) = 0 < x.size

if-Moves : (b : Bool) (s t : Option Extent) → Moves s → Moves t → Moves (if b then s else t)
if-Moves true s t hs ht = hs
if-Moves false s t hs ht = ht

stop-Moves : (n : ℕ) (p : Bytes) → 0 < n → Moves (some (stop n p))
unfolding Moves
stop-Moves n p h = h

bind-Moves : (n k : ℕ) (o : Option Extent) → 0 < n → Moves (o >>= λ x. some (extend n k x))
unfolding Moves
bind-Moves n k none h = tt
bind-Moves n k (some x) h = omega arith

-- A string that does not start with white space has a byte.
pub find_end-Moves :
    (c d : ℕ) (p : Bytes)
    → (c == 0) ≡ false
    → is_space c ≡ false
    → Moves (find_end false (c ∷ d ∷ p))
unfolding find_end
find_end-Moves c d p z h =
    rw (z, h)
      (if-Moves (c == backslash) _ _
        (if-Moves (d == 0) _ _ (stop-Moves 1 _ (omega arith)) (bind-Moves 2 _ _ (omega arith)))
        (bind-Moves 1 0 _ (omega arith)))

pub Moves-size : (x : Extent) → Moves (some x) → 0 < x.size
unfolding Moves
Moves-size x h = h
