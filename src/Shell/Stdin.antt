-- ===== src/Shell/Stdin.antt =====
-- scutil/scutil.c, `_copyStringFromSTDIN`: the text for a line of stdin.
pub mod Trimmed
use configd_extra.Base.{
  ℕ, zero, suc, ◌+◌, ◌-◌, Bool, [], ◌∷◌, Option, none, some, Bytes, length, get_elem?, set, take,
  drop, ◌==◌, ◌&&◌, if◌then◌else◌, ◌>>=◌,
}
use configd_extra.Shell.Line.{c_string, fgets}
use configd_extra.Shell.Scan.{is_space}

-- The length without the newline that ends the line.
unfoldable pub chomp_input : Bytes → ℕ → Option ℕ
chomp_input buf zero = some 0
chomp_input buf (suc n) = do c ← get_elem? buf n; some (if c == 10 then n else suc n)

-- How many spaces are at the front: how far `modbuf` is moved, on the `modlen` bytes there are.
unfoldable pub trim_front : ℕ → Bytes → Option ℕ
trim_front zero buf = some 0
trim_front (suc modlen) [] = none
trim_front (suc modlen) (c ∷ buf) =
    let rest = trim_front modlen buf in if is_space c then (do n ← rest; some (n + 1)) else some 0

-- The loop for the spaces at the back, with `i + 1` rounds left: the new `modlen`, and `buf` with what
-- was cleared. It reads and clears `buf`, not `modbuf`.
unfoldable pub trim_back : ℕ → Bytes → Option (ℕ × Bytes)
trim_back zero buf = some (0, buf)
trim_back (suc i) buf =
    let shorter = trim_back i (set buf i 0) in
    do c ← get_elem? buf i; if is_space c then shorter else some (suc i, buf)

-- The bytes of the string that is returned for the bytes of the string in `buf`: `modlen` bytes from
-- `modbuf`. `default` is whether there is a prompt with a default value; `none` inside is that value.
unfoldable pub trim_input : Bool → Bytes → Option (Option Bytes)
trim_input default line = do
  len ← chomp_input line (length line)
  moved ← trim_front len line
  (modlen, buf) ← trim_back (len - moved) line
  some (if default && (len == 0) then none else some (take modlen (drop moved buf)))

-- `sizeof(buf)`
abbrev pub buf_size : ℕ
buf_size = 1024

-- `input` is what is on stdin, not at its end. `fgets` leaves room for the byte 0 that ends the string,
-- and `strlen` stops at the first one.
unfoldable pub copy_string_from_stdin : Bool → Bytes → Option (Option Bytes)
copy_string_from_stdin default input = trim_input default (c_string (fgets (buf_size - 1) input).0)
