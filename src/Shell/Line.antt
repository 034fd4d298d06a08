-- ===== src/Shell/Line.antt =====
-- scutil/scutil.c: `getLine` and `getString`, which read a line of a file and split it into
-- arguments. A `char *` is the list of the bytes from it to the end of its array, so that a read
-- past the array is `none`; a byte 0 is the terminator.
pub mod Progress
pub mod Split
pub mod RoundTrip
pub mod Ends
pub mod Bounds
use configd_extra.Base.{
  ℕ, zero, suc, ◌+◌, ◌-◌, Bool, true, false, not, ◌&&◌, ◌||◌, List, [], ◌∷◌, ◌++◌, Option, none,
  some, Bytes, length, replicate, ltb, ◌==◌, if◌then◌else◌, ◌>>=◌,
}
use configd_extra.Shell.Scan.{is_space}

abbrev pub quote_mark : ℕ
quote_mark = 34

abbrev pub backslash : ℕ
backslash = 92

abbrev pub newline : ℕ
newline = 10

unfoldable pub skip_space : Bytes → Option Bytes
skip_space [] = none
skip_space (c ∷ p) = let rest = skip_space p in if is_space c then rest else some (c ∷ p)

-- A byte that a backslash escapes.
unfoldable pub is_escaped : ℕ → Bool
is_escaped c = (c == quote_mark) || is_space c

abbrev pub bit : Bool → ℕ
bit b = if b then 1 else 0

-- What the scan of a string found: `e - s`, `escaped`, and `e`.
pub record Extent : Type 0 where
  pub size : ℕ
  pub escaped : ℕ
  pub end : Bytes

abbrev pub extend : ℕ → ℕ → Extent → Extent
extend n k x = record { size = n + x.size; escaped = k + x.escaped; end = x.end }

abbrev pub stop : ℕ → Bytes → Extent
stop n e = record { size = n; escaped = 0; end = e }

-- The loop that looks for the end of a string.
unfoldable pub find_end : Bool → Bytes → Option Extent
find_end quoted [] = none
find_end quoted (c ∷ []) =
    if c == 0
    then some (stop 0 (c ∷ []))
    else if quoted && (c == quote_mark)
    then some (stop 0 (c ∷ []))
    else if c == backslash
    then none
    else if not quoted && is_space c
    then some (stop 0 (c ∷ []))
    else none
find_end quoted (c ∷ d ∷ p) =
    let one = find_end quoted (d ∷ p) in
    let two = find_end quoted p in
    if c == 0
    then some (stop 0 (c ∷ d ∷ p))
    else if quoted && (c == quote_mark)
    then some (stop 0 (c ∷ d ∷ p))
    else if c == backslash
    then (if d == 0
        then some (stop 1 (d ∷ p))
        else do x ← two; some (extend 2 (bit (is_escaped d)) x))
    else if not quoted && is_space c
    then some (stop 0 (c ∷ d ∷ p))
    else do x ← one; some (extend 1 0 x)

-- A backslash that is left out of the copy.
unfoldable pub is_dropped : ℕ → ℕ → Bool
is_dropped c d = (c == backslash) && is_escaped d

-- The copy of `n` bytes to index `i` of a block of `capacity` bytes, and the terminator behind it.
-- Every byte is stored; one that is left out is stored where the next one goes. `none` is an access
-- outside the array or the block.
unfoldable pub copy_string : ℕ → Bytes → ℕ → ℕ → Option Bytes
copy_string zero p capacity i = if ltb i capacity then some [] else none
copy_string (suc n) [] capacity i = none
copy_string (suc n) (c ∷ []) capacity i =
    let next = copy_string n [] capacity (i + 1) in
    if ltb i capacity && not (c == backslash) then (do s ← next; some (c ∷ s)) else none
copy_string (suc n) (c ∷ d ∷ p) capacity i =
    let same = copy_string n (d ∷ p) capacity i in
    let next = copy_string n (d ∷ p) capacity (i + 1) in
    if ltb i capacity then (if is_dropped c d then same else do s ← next; some (c ∷ s)) else none

unfoldable pub pass_quote : Bool → Bytes → Option Bytes
pass_quote false e = some e
pass_quote true [] = none
pass_quote true (c ∷ e) = some e

-- From the first byte of a string: the copy, and what `*line` becomes.
unfoldable pub read_string : Bool → Bytes → Option (Bytes × Bytes)
read_string quoted s = do
  x ← find_end quoted s
  string ← copy_string x.size s (x.size - x.escaped + 1) 0
  line ← pass_quote quoted x.end
  some (string, line)

unfoldable pub get_from : Bytes → Option (Option (Bytes × Bytes))
get_from [] = none
get_from (c ∷ s) =
    if c == 0
    then some none
    else if c == quote_mark
    then (do r ← read_string true s; some (some r))
    else do r ← read_string false (c ∷ s); some (some r)

-- The outer `none` is a fault, the inner one the `NULL` that is returned.
unfoldable pub get_string : Bytes → Option (Option (Bytes × Bytes))
get_string [] = none
get_string (c ∷ p) = if c == 0 then some none else do s ← skip_space (c ∷ p); get_from s

-- The loop of `process_line` that splits the line, on the calls left.
unfoldable pub split_line : ℕ → Bytes → Option (List Bytes)
split_line zero p = none
split_line (suc fuel) p = do
  r ← get_string p
  elim r [
    | none ↦ some []
    | some found ↦ let (arg, next) = found in do args ← split_line fuel next; some (arg ∷ args)
  ]

-- `fgets` for at most `n` bytes: those read, and the rest of the file.
unfoldable pub fgets : ℕ → Bytes → Bytes × Bytes
fgets zero input = ([], input)
fgets (suc n) [] = ([], [])
fgets (suc n) (c ∷ input) =
    let (line, rest) = fgets n input in if c == newline then (c ∷ [], input) else (c ∷ line, rest)

-- The bytes before the terminator.
unfoldable pub c_string : Bytes → Bytes
c_string [] = []
c_string (c ∷ p) = let rest = c_string p in if c == 0 then [] else c ∷ rest

-- A line without the newline that ends it, if one does.
unfoldable pub chomp : Bytes → Option Bytes
chomp [] = none
chomp (c ∷ []) = if c == newline then some [] else none
chomp (c ∷ d ∷ s) = do t ← chomp (d ∷ s); some (c ∷ t)

-- What remains behind the next newline.
unfoldable pub skip_line : Bytes → Bytes
skip_line [] = []
skip_line (c ∷ input) = let rest = skip_line input in if c == newline then input else rest

-- The buffer that `getLine` leaves (`stale` is what it held behind the line), and the rest of the
-- file. The newline becomes a second terminator; without one, the rest of the line is skipped.
unfoldable pub filled : Bytes → Bytes → Bytes → Bytes × Bytes
filled stale s rest = elim (chomp s) [
  | none ↦ (s ++ (0 ∷ stale), skip_line rest)
  | some t ↦ (t ++ (0 ∷ 0 ∷ stale), rest)
]

unfoldable pub line_of : Bytes → Bytes → Bytes → Option (Option (Bytes × Bytes))
line_of stale [] rest = none
line_of stale (c ∷ s) rest = some (some (filled stale (c ∷ s) rest))

unfoldable pub line_read : Bytes → Bytes × Bytes → Option (Option (Bytes × Bytes))
line_read stale ([], rest) = some none
line_read stale (c ∷ s, rest) = line_of stale (c_string (c ∷ s)) rest

-- `getLine` on a file. The outer `none` is the read of `buf[-1]` when the line starts with a byte 0,
-- the inner one the end of the file.
unfoldable pub get_line : ℕ → Bytes → Bytes → Option (Option (Bytes × Bytes))
get_line len stale input = line_read stale (fgets (len - 1) input)
