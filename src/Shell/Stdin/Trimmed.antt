-- ===== src/Shell/Stdin/Trimmed.antt =====
-- scutil/scutil.c, `_copyStringFromSTDIN` on a line that does not start with a space.
use configd_extra.Base.{
  ℕ, zero, suc, ◌+◌, ◌≤◌, ◌<◌, ◌≡◌, refl, ap, sym, ◌∙◌, Bool, true, false, [], ◌∷◌, ◌++◌, Option,
  none, some, Bytes, length, length-append, get_elem?, set, take, replicate, ◌==◌, ◌&&◌,
  if◌then◌else◌, arith, All, bind_some, get_elem?-set_ne, length-replicate, append_assoc, subst,
}
use configd_extra.Shell.Scan.{is_space}
use configd_extra.Shell.Stdin.{
  chomp_input, trim_front, trim_back, trim_input, copy_string_from_stdin,
}
use configd_extra.Shell.Line.{c_string, fgets}

take-set : (m i : ℕ) (buf : Bytes) (v : ℕ) → m ≤ i → take m (set buf i v) ≡ take m buf
take-set zero i buf v h = refl
take-set (suc m) i [] v h = refl
take-set (suc m) zero (x ∷ buf) v h = absurd (omega arith)
take-set (suc m) (suc i) (x ∷ buf) v h = ap (◌∷◌ x) (take-set m i buf v (omega arith))

-- The bytes from `m` on are `n` spaces behind a byte that is none.
record IsPadded (buf : Bytes) (m n : ℕ) : Type 0 where
  last : ℕ
  last_at : get_elem? buf m ≡ some last
  last_plain : is_space last ≡ false
  padding : (k : ℕ) → k < n → get_elem? buf (m + 1 + k) ≡ some 32

trim_back-step :
    (i c : ℕ) (buf : Bytes)
    → get_elem? buf i ≡ some c
    → trim_back (suc i) buf ≡ (if is_space c then trim_back i (set buf i 0) else some (suc i, buf))
unfolding trim_back
trim_back-step i c buf e = bind_some _ _ c e

space : is_space 32 ≡ true
unfolding is_space
space = refl

trim_back-padded :
    (n m : ℕ) (buf : Bytes)
    → IsPadded buf m n
    → (buf' : Bytes) × (trim_back (m + 1 + n) buf ≡ some (m + 1, buf'))
      × (take (m + 1) buf' ≡ take (m + 1) buf)
trim_back-padded zero m buf p = (
  buf,
  ap (λ j. trim_back j buf) (omega arith)
      ∙ trim_back-step m p.last buf p.last_at
      ∙ rw p.last_plain (ap (λ j. some (j, buf)) (omega arith)),
  refl,
)
trim_back-padded (suc n) m buf p =
    let (buf', e, same) = trim_back-padded n m (set buf (m + 1 + n) 0) (record {
      last = p.last;
      last_at = get_elem?-set_ne buf 0 (omega arith) ∙ p.last_at;
      last_plain = p.last_plain;
      padding = λ k h. get_elem?-set_ne buf 0 (omega arith) ∙ p.padding k (omega arith);
    }) in
    (
      buf',
      ap (λ j. trim_back j buf) (omega arith)
          ∙ trim_back-step (m + 1 + n) 32 buf (p.padding n (omega arith))
          ∙ rw space e,
      same ∙ take-set (m + 1) (m + 1 + n) buf 0 (omega arith),
    )

get_elem?-append_self :
    (xs ys : Bytes) (i : ℕ) (y : ℕ) → i ≡ length xs → get_elem? (xs ++ (y ∷ ys)) i ≡ some y
get_elem?-append_self [] ys zero y e = refl
get_elem?-append_self [] ys (suc i) y e = absurd (omega arith)
get_elem?-append_self (x ∷ xs) ys zero y e = absurd (omega arith)
get_elem?-append_self (x ∷ xs) ys (suc i) y e = get_elem?-append_self xs ys i y (omega arith)

get_elem?-replicate : (n k : ℕ) (ys : Bytes) → k < n → get_elem? (replicate n 32 ++ ys) k ≡ some 32
get_elem?-replicate zero k ys h = absurd (omega arith)
get_elem?-replicate (suc n) zero ys h = refl
get_elem?-replicate (suc n) (suc k) ys h = get_elem?-replicate n k ys (omega arith)

get_elem?-append_above :
    (xs ys : Bytes) (i k : ℕ) → i ≡ length xs + k → get_elem? (xs ++ ys) i ≡ get_elem? ys k
get_elem?-append_above [] ys i k e = ap (get_elem? ys) (omega arith)
get_elem?-append_above (x ∷ xs) ys zero k e = absurd (omega arith)
get_elem?-append_above (x ∷ xs) ys (suc i) k e = get_elem?-append_above xs ys i k (omega arith)

take-append_self : (xs ys : Bytes) (n : ℕ) → n ≡ length xs → take n (xs ++ ys) ≡ xs
take-append_self [] ys zero e = refl
take-append_self [] ys (suc n) e = absurd (omega arith)
take-append_self (x ∷ xs) ys zero e = absurd (omega arith)
take-append_self (x ∷ xs) ys (suc n) e = ap (◌∷◌ x) (take-append_self xs ys n (omega arith))

chomp_newline : (buf : Bytes) (n : ℕ) → get_elem? buf n ≡ some 10 → chomp_input buf (suc n) ≡ some n
unfolding chomp_input
chomp_newline buf n e = bind_some _ _ 10 e

trim_front_plain :
    (n c : ℕ) (buf : Bytes)
    → get_elem? buf 0 ≡ some c
    → is_space c ≡ false
    → trim_front n buf ≡ some 0
unfolding trim_front
trim_front_plain zero c buf e h = refl
trim_front_plain (suc n) c [] e h = absurd (cc)
trim_front_plain (suc n) c (x ∷ buf) e h =
    rw (let same : is_space x ≡ false = subst (λ o. plain o) (sym e) h in same) refl
  where
    plain : Option ℕ → Type 0
    plain none = is_space 0 ≡ false
    plain (some x) = is_space x ≡ false

-- A text, spaces and a newline.
abbrev pub padded : Bytes → ℕ → Bytes
padded text n = text ++ (replicate n 32 ++ (10 ∷ []))

padded-IsPadded :
    (t : Bytes) (b n : ℕ) → is_space b ≡ false → IsPadded (padded (t ++ (b ∷ [])) n) (length t) n
padded-IsPadded t b n h = record {
  last = b;
  last_at =
      ap (λ l. get_elem? l (length t)) (append_assoc t (b ∷ []) (replicate n 32 ++ (10 ∷ [])))
      ∙ get_elem?-append_self t (replicate n 32 ++ (10 ∷ [])) (length t) b refl;
  last_plain = h;
  padding = λ k less.
      get_elem?-append_above (t ++ (b ∷ [])) (replicate n 32 ++ (10 ∷ [])) _ k
        (omega (arith, length-append t (b ∷ [])))
      ∙ get_elem?-replicate n k (10 ∷ []) less;
}

newline_at : (text : Bytes) (n : ℕ) → get_elem? (padded text n) (length text + n) ≡ some 10
newline_at text n =
    get_elem?-append_above text (replicate n 32 ++ (10 ∷ [])) (length text + n) n refl
    ∙ get_elem?-append_self (replicate n 32) [] n 10 (sym (length-replicate n 32))

length-padded : (text : Bytes) (n : ℕ) → length (padded text n) ≡ suc (length text + n)
length-padded text n = omega (
  arith,
  length-append text (replicate n 32 ++ (10 ∷ [])),
  length-append {A = ℕ} (replicate n 32) (10 ∷ []),
  length-replicate {A = ℕ} n 32,
)

first-append : (xs ys : Bytes) (c : ℕ) → get_elem? xs 0 ≡ some c → get_elem? (xs ++ ys) 0 ≡ some c
first-append [] ys c e = absurd (cc)
first-append (x ∷ xs) ys c e = e

returned :
    (default : Bool) (len : ℕ) (text : Bytes)
    → (len == 0) ≡ false
    → (if default && (len == 0) then none else some text) ≡ some text
returned true len text e = rw e refl
returned false len text e = refl

trim_input-padded :
    (default : Bool) (t : Bytes) (b c n : ℕ)
    → get_elem? (t ++ (b ∷ [])) 0 ≡ some c
    → is_space c ≡ false
    → is_space b ≡ false
    → trim_input default (padded (t ++ (b ∷ [])) n) ≡ some (some (t ++ (b ∷ [])))
unfolding trim_input
trim_input-padded default t b c n first hc hb =
    let text = t ++ (b ∷ []) in
    let line = padded text n in
    let len = length text + n in
    let counted = length-append t (b ∷ []) in
    let (buf, back, same) = trim_back-padded n (length t) line (padded-IsPadded t b n hb) in
    bind_some _ _ len
      (ap (chomp_input line) (length-padded text n) ∙ chomp_newline line len (newline_at text n))
    ∙ bind_some _ _ 0
        (trim_front_plain len c line (first-append text (replicate n 32 ++ (10 ∷ [])) c first) hc)
    ∙ bind_some _ _ (length t + 1, buf) (ap (λ j. trim_back j line) (omega (arith, counted)) ∙ back)
    ∙ ap some (
        returned default len (take (length t + 1) buf) (ground (arith, counted))
        ∙ ap some (
            same
            ∙ take-append_self text (replicate n 32 ++ (10 ∷ [])) (length t + 1)
                (omega (arith, counted))))

-- A byte that neither ends a string nor a line.
unfoldable pub IsInLine : ℕ → Type 0
IsInLine c = ((c == 0) ≡ false) × ((c == 10) ≡ false)

read_spaces :
    (n m : ℕ) (rest : Bytes)
    → n + 1 ≤ m
    → c_string (fgets m ((replicate n 32 ++ (10 ∷ [])) ++ rest)).0 ≡ replicate n 32 ++ (10 ∷ [])
unfolding c_string fgets
read_spaces zero zero rest h = absurd (omega arith)
read_spaces (suc n) zero rest h = absurd (omega arith)
read_spaces zero (suc m) rest h = refl
read_spaces (suc n) (suc m) rest h = ap (◌∷◌ 32) (read_spaces n m rest (omega arith))

-- A line that fits is read whole, and is the string.
read_padded :
    (text : Bytes) (n m : ℕ) (rest : Bytes)
    → All IsInLine text
    → length text + n + 1 ≤ m
    → c_string (fgets m (padded text n ++ rest)).0 ≡ padded text n
unfolding c_string fgets IsInLine
read_padded [] n m rest p h = read_spaces n m rest (omega arith)
read_padded (c ∷ text) n zero rest p h = absurd (omega arith)
read_padded (c ∷ text) n (suc m) rest ((e0, e10), p) h =
    rw (e10, e0) (ap (◌∷◌ c) (read_padded text n m rest p (omega arith)))

-- Let stdin have a line of a text that neither starts nor ends with white space and has no byte 0
-- and no newline, then any number of spaces, and a newline, all in at most 1023 bytes; anything may follow. The text
-- is what the line gives, whether or not there is a default value.
pub copy_string_from_stdin-padded :
    (default : Bool) (t : Bytes) (b c n : ℕ) (rest : Bytes)
    → All IsInLine (t ++ (b ∷ []))
    → length (t ++ (b ∷ [])) + n + 1 ≤ 1023
    → get_elem? (t ++ (b ∷ [])) 0 ≡ some c
    → is_space c ≡ false
    → is_space b ≡ false
    → copy_string_from_stdin default (padded (t ++ (b ∷ [])) n ++ rest)
      ≡ some (some (t ++ (b ∷ [])))
unfolding copy_string_from_stdin
copy_string_from_stdin-padded default t b c n rest plain fits first hc hb =
    ap (trim_input default) (read_padded (t ++ (b ∷ [])) n 1023 rest plain fits)
    ∙ trim_input-padded default t b c n first hc hb
