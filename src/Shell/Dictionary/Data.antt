-- ===== src/Shell/Dictionary/Data.antt =====
-- scutil/dictionary.c: the hexadecimal digits that `d.add` reads for data.
use configd_extra.Base.{
  elim_some, ℕ, ◌+◌, ◌*◌, ◌/◌, ◌%◌, ◌<◌, ◌≡◌, refl, true, false, List, [], ◌∷◌, some, Bytes, All,
  if◌then◌else◌, ltb, ◌==◌, arith, ap, equal, codes, inr, ◌∙◌,
}
use configd_extra.Shell.Dictionary.{
  Options, no_options, parse_flags, scan_data, is_odd, scan_value, scan_argument, set_key,
  do_dict_set_key,
}
use configd_extra.Shell.Scan.{hex_digit, hex_pair, is_space}
use configd_extra.Shell.State.{Cf, Converts, created-Converts, Shell}

-- A digit below 16, in lower case.
unfoldable pub digit : ℕ → ℕ
digit v = if ltb v 10 then v + 48 else v + 87

unfoldable pub hex_text : Bytes → Bytes
hex_text [] = []
hex_text (b ∷ bytes) = digit (b / 16) ∷ digit (b % 16) ∷ hex_text bytes

hex_digit-digit : (v : ℕ) → v < 16 → hex_digit (digit v) ≡ some v
unfolding hex_digit digit
hex_digit-digit v h = ground arith

digit_plain :
    (v : ℕ)
    → v < 16
    → (is_space (digit v) ≡ false) × ((digit v == 43) ≡ false) × ((digit v == 45) ≡ false)
unfolding is_space digit
digit_plain v h = ground arith

hex_pair-digit : (h l : ℕ) → h < 16 → l < 16 → hex_pair (digit h) (digit l) ≡ some (16 * h + l)
unfolding hex_pair
hex_pair-digit h l hh hl =
    let (space, plus, minus) = digit_plain h hh in
    rw (space, plus, minus, hex_digit-digit h hh, hex_digit-digit l hl) refl

scan_data-hex_text :
    (bytes : Bytes) → All (λ b. b < 256) bytes → scan_data (hex_text bytes) ≡ some bytes
unfolding scan_data hex_text
scan_data-hex_text [] h = refl
scan_data-hex_text (b ∷ bytes) (k, h) =
    rw (hex_pair-digit (b / 16) (b % 16) (omega arith) (omega arith), scan_data-hex_text bytes h)
      (ap (λ v. some (v ∷ bytes)) (omega arith))

is_odd-hex_text : (bytes : Bytes) → is_odd (hex_text bytes) ≡ false
unfolding is_odd hex_text
is_odd-hex_text [] = refl
is_odd-hex_text (b ∷ bytes) = is_odd-hex_text bytes

-- No flag has two characters.
not_flag : (c : ℕ) (bytes : Bytes) → equal (hex_text bytes) (c ∷ []) ≡ false
unfolding equal hex_text
not_flag c [] = refl
not_flag c (b ∷ bytes) = ground arith

parse_flags-hex_text :
    (o : Options) (bytes : Bytes) → parse_flags o (hex_text bytes ∷ []) ≡ (o, hex_text bytes ∷ [])
unfolding parse_flags
parse_flags-hex_text o bytes =
    rw
      (
        not_flag 42 bytes,
        not_flag 45 bytes,
        not_flag 63 bytes,
        not_flag 37 bytes,
        not_flag 35 bytes,
      )
      refl

abbrev data_options : Options
data_options = record no_options { data' = true }

parse_percent :
    (o : Options) (args : List Bytes)
    → parse_flags o (codes "%" ∷ args) ≡ parse_flags (record o { data' = true }) args
unfolding parse_flags equal
parse_percent o args = refl

parse_flags-data :
    (bytes : Bytes)
    → parse_flags no_options (codes "%" ∷ hex_text bytes ∷ []) ≡ (data_options, hex_text bytes ∷ [])
parse_flags-data bytes =
    parse_percent no_options (hex_text bytes ∷ []) ∙ parse_flags-hex_text _ bytes

scan_argument-data :
    {Key P : Type 0} (cf : Cf Key P) (bytes : Bytes)
    → All (λ b. b < 256) bytes
    → scan_argument cf (data_options, hex_text bytes ∷ []) ≡ some (inr (cf.of_data bytes))
unfolding scan_argument scan_value
scan_argument-data cf bytes h = rw (is_odd-hex_text bytes, scan_data-hex_text bytes h) refl

-- `d.add key % digits` on a dictionary sets the key to data with the bytes that the digits, two in
-- lower case for each byte, stand for, and prints nothing. There must be a string for the key's
-- name.
pub do_dict_set_key-hex_text :
    {Key P H W : Type 0} (cf : Cf Key P) (s : Shell Key P H W) (old : P) (name bytes : Bytes)
    → s.value ≡ some old
    → cf.is_dictionary old ≡ true
    → Converts cf name
    → All (λ b. b < 256) bytes
    → do_dict_set_key cf (name ∷ codes "%" ∷ hex_text bytes ∷ []) s
      ≡ some
          (record s { value = some (cf.set_value old (cf.create_string name) (cf.of_data bytes)) })
unfolding do_dict_set_key set_key
do_dict_set_key-hex_text cf s old name bytes e d c h =
    elim_some s.value _ _ old e
    ∙ rw
        (
          d,
          set_key,
          created-Converts cf name c,
          parse_flags-data bytes,
          scan_argument-data cf bytes h,
        )
        refl
