-- ===== src/Shell/Scan.antt =====
-- The functions of the C library that scutil reads its arguments with, on the bytes of C strings in
-- the C locale: `isspace`, `strcasecmp`, `strtoul` on the two characters that dictionary.c gives it,
-- and `sscanf` for "%d".
use configd_extra.Base.{
  ℕ, zero, suc, ◌+◌, ◌-◌, ◌*◌, ◌%◌, Bool, true, ◌&&◌, ◌||◌, [], ◌∷◌, map, Option, none, some, Bytes,
  equal, leb, ltb, ◌^◌, ◌==◌, if◌then◌else◌, ◌>>=◌,
}
use configd_extra.Base.Int.{ℤ, pos, negsuc}

unfoldable pub is_space : ℕ → Bool
is_space c = if c == 32 then true else leb 9 c && leb c 13

unfoldable pub lower : ℕ → ℕ
lower c = if leb 65 c && leb c 90 then c + 32 else c

-- `strcasecmp(a, b) == 0`
unfoldable pub equal_nocase : Bytes → Bytes → Bool
equal_nocase a b = equal (map lower a) (map lower b)

unfoldable pub hex_digit : ℕ → Option ℕ
hex_digit c =
    if leb 48 c && leb c 57
    then some (c - 48)
    else if leb 97 c && leb c 102
    then some (c - 87)
    else if leb 65 c && leb c 70
    then some (c - 55)
    else none

-- `strtoul` of two characters that are both read, and the low byte of its result: a digit may follow
-- white space or a sign, and `-` negates in `unsigned long`.
unfoldable pub hex_pair : ℕ → ℕ → Option ℕ
hex_pair c d =
    if is_space c || (c == 43)
    then hex_digit d
    else if c == 45
    then (do v ← hex_digit d; some ((256 - v) % 256))
    else do h ← hex_digit c; l ← hex_digit d; some (16 * h + l)

-- The value of the leading digits after `v`.
unfoldable pub scan_digits : ℕ → Bytes → ℕ
scan_digits v [] = v
scan_digits v (c ∷ s) = if leb 48 c && leb c 57 then scan_digits (10 * v + (c - 48)) s else v

-- `none` is no digit to convert.
unfoldable pub scan_unsigned : Bytes → Option ℕ
scan_unsigned [] = none
scan_unsigned (c ∷ s) = if leb 48 c && leb c 57 then some (scan_digits (c - 48) s) else none

abbrev pub negate : ℕ → ℤ
negate zero = pos 0
negate (suc n) = negsuc n

unfoldable pub scan_signed : Bytes → Option ℤ
scan_signed [] = none
scan_signed (c ∷ s) =
    if c == 45
    then (do v ← scan_unsigned s; some (negate v))
    else if c == 43
    then (do v ← scan_unsigned s; some (pos v))
    else do v ← scan_unsigned (c ∷ s); some (pos v)

-- The number of "%d", as it is written.
unfoldable pub scan_int : Bytes → Option ℤ
scan_int [] = none
scan_int (c ∷ s) = let rest = scan_int s in if is_space c then rest else scan_signed (c ∷ s)

-- `strtoimax`: a number that is too large for 64 bits is the largest one there is.
unfoldable pub clamp : ℤ → ℤ
clamp (pos n) = if ltb n (2 ^ 63) then pos n else pos (2 ^ 63 - 1)
clamp (negsuc n) = if ltb n (2 ^ 63) then negsuc n else negsuc (2 ^ 63 - 1)

-- The number that 32 bits are as an `int`.
unfoldable pub signed : ℕ → ℤ
signed v = if ltb v (2 ^ 31) then pos v else negsuc (2 ^ 32 - 1 - v)

-- The assignment of a number to an `int`, which keeps the low 32 bits.
unfoldable pub to_int : ℤ → ℤ
to_int (pos n) = signed (n % 2 ^ 32)
to_int (negsuc n) = signed (2 ^ 32 - 1 - n % 2 ^ 32)

-- `sscanf(s, "%d", &n) == 1` and `n`. The C standard leaves open what a number outside of `int` gives;
-- this is what the system's C library does.
unfoldable pub scan_number : Bytes → Option ℤ
scan_number s = do z ← scan_int s; some (to_int (clamp z))
