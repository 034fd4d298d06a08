-- ===== src/Net/Options/Judged.antt =====
-- scutil/net.c, `_process_options`: a value is taken for what it stands for.
use configd_extra.Base.{
  ℕ, zero, suc, ◌+◌, ◌*◌, ◌<◌, ◌≡◌, refl, sym, ap, subst, elim_some, ◌>>=◌, ◌∙◌, ◌⊎◌, inl, inr,
  Bool, true, false, List, [], ◌∷◌, ◌++◌, map, append_assoc, append-nil, Option, none, some, Bytes,
  All, equal, if◌then◌else◌, arith,
}
use configd_extra.Control.Switches.{means_off, means_on}
use configd_extra.Net.Options.Meaning.{
  IsWord, disable_word, no_word, off_word, zero_word, enable_word, yes_word, on_word, one_word,
  number_of, written, negated, with_sign, InInt, Picks, Chosen, array_of, string_of, Removes,
  IsText, Switches, Counts, Means,
}
use configd_extra.Net.Values.{
  Kind, is_other, is_help, is_choose_one, is_choose_multiple, is_bool, is_boolean, is_number,
  is_string, is_string_array, Choice, Dictionaries, Setting, Verdict, set_to, drop_key, fault,
  is_empty, find_selection, choose_each, judge, chosen_all, truth, number_value, choice_value,
  chosen_one,
}
use configd_extra.Shell.Scan.{
  lower, equal_nocase, scan_digits, scan_unsigned, scan_signed, scan_int, scan_number, is_space,
  clamp, signed, to_int, negate,
}

means_off_same : (a w : Bytes) → map lower a ≡ map lower w → means_off a ≡ means_off w
unfolding means_off equal_nocase
means_off_same a w e = rw e refl

means_on_same : (a w : Bytes) → map lower a ≡ map lower w → means_on a ≡ means_on w
unfolding means_on equal_nocase
means_on_same a w e = rw e refl

off_words : (w : Bytes) → IsWord false w → means_off w ≡ true
unfolding means_off equal_nocase equal lower
off_words w disable_word = refl
off_words w no_word = refl
off_words w off_word = refl
off_words w zero_word = refl

on_words : (w : Bytes) → IsWord true w → (means_off w ≡ false) × (means_on w ≡ true)
unfolding means_off means_on equal_nocase equal lower
on_words w enable_word = (refl, refl)
on_words w yes_word = (refl, refl)
on_words w on_word = (refl, refl)
on_words w one_word = (refl, refl)

scan_digits-map :
    (v : ℕ) (ds : List ℕ)
    → All (λ d. d < 10) ds
    → scan_digits v (map (λ d. 48 + d) ds) ≡ number_of v ds
unfolding scan_digits number_of
scan_digits-map v [] h = refl
scan_digits-map v (d ∷ ds) (k, h) = ground (arith, scan_digits-map (10 * v + d) ds h)

scan_unsigned-map :
    (d : ℕ) (ds : List ℕ)
    → All (λ e. e < 10) (d ∷ ds)
    → scan_unsigned (map (λ e. 48 + e) (d ∷ ds)) ≡ some (number_of 0 (d ∷ ds))
unfolding scan_unsigned number_of
scan_unsigned-map d ds (k, h) = ground (arith, scan_digits-map d ds h)

scan_int-written :
    (minus : Bool) (d : ℕ) (ds : List ℕ)
    → All (λ e. e < 10) (d ∷ ds)
    → scan_int (written minus (d ∷ ds)) ≡ some (with_sign minus (number_of 0 (d ∷ ds)))
unfolding scan_int scan_signed written is_space
scan_int-written true d ds h = rw (scan_unsigned-map d ds h) (negates (number_of 0 (d ∷ ds)))
  where
    negates : (n : ℕ) → some (negate n) ≡ some (negated n)
    negates zero = refl
    negates (suc n) = refl
scan_int-written false d ds (k, h) = ground (arith, scan_unsigned-map d ds (k, h))

to_int-clamp :
    (minus : Bool) (n : ℕ) → InInt minus n → to_int (clamp (with_sign minus n)) ≡ with_sign minus n
unfolding to_int clamp signed InInt
to_int-clamp false n h = ground arith
to_int-clamp true zero h = refl
to_int-clamp true (suc n) h = ground arith

module _ {ℓ} {A : Type ℓ} where
  if_true : (b : Bool) (x y : A) → b ≡ true → (if b then x else y) ≡ x
  if_true b x y e = rw e refl

  if_false : (b : Bool) (x y : A) → b ≡ false → (if b then x else y) ≡ y
  if_false b x y e = rw e refl

module _ {Key V D : Type 0} (cf : Dictionaries Key V D) where
  -- What an accepted value makes of its key.
  pub data Gives : Verdict V → Option V → Type 0 where
    sets : (v : V) → Gives (set_to v) (some v)
    drops : Gives drop_key none

  Gives-of : (r r' : Verdict V) (v v' : Option V) → r ≡ r' → v ≡ v' → Gives r' v' → Gives r v
  Gives-of r r' v v' e e' g = subst (λ x. Gives x v) (sym e) (subst (Gives r') (sym e') g)

  find_selection-Picks :
      (before after l : List (Choice Key)) (k : Key) (s : Choice Key)
      → l ≡ before ++ (s ∷ after)
      → All (λ x. cf.equal_nocase_key k x.selection ≡ false) before
      → cf.equal_nocase_key k s.selection ≡ true
      → find_selection cf l k ≡ some s
  unfolding find_selection
  find_selection-Picks [] after l k s e h same = ap (λ x. find_selection cf x k) e ∙ rw same refl
  find_selection-Picks (x ∷ before) after l k s e (h, hs) same =
      ap (λ y. find_selection cf y k) e
      ∙ rw (h, find_selection-Picks before after (before ++ (s ∷ after)) k s refl hs same) refl

  picked :
      (l : List (Choice Key)) (k : Key) (s : Choice Key)
      → Picks cf l k s
      → find_selection cf l k ≡ some s
  picked l k s p = find_selection-Picks p.before p.after l k s p.splits p.others_differ p.same

  choose_each-Chosen :
      (o : Setting Key D) (parts keys chosen : List Key)
      → Chosen cf o.choices parts keys
      → choose_each cf o parts chosen ≡ chosen_all cf (chosen ++ keys)
  unfolding choose_each Chosen
  choose_each-Chosen o [] keys chosen e =
      ap (chosen_all cf) (sym (append-nil chosen) ∙ ap (λ l. chosen ++ l) (sym e))
  choose_each-Chosen o (c ∷ parts) keys chosen (s, k, rest, p, available, has_key, more, e) =
      elim_some (find_selection cf o.choices c) _ _ s (picked o.choices c s p)
      ∙ if_false _ _ _ available
      ∙ elim_some s.key _ _ k has_key
      ∙ choose_each-Chosen o parts rest (chosen ++ (k ∷ [])) more
      ∙ ap (chosen_all cf) (append_assoc chosen (k ∷ []) rest ∙ ap (λ l. chosen ++ l) (sym e))

  chosen_all-Gives : (keys : List Key) → Gives (chosen_all cf keys) (array_of cf keys)
  chosen_all-Gives [] = drops
  chosen_all-Gives (k ∷ l) = sets _

  string_of-Gives : (o : Option Key) → Gives (choice_value cf o) (string_of cf o)
  string_of-Gives none = drops
  string_of-Gives (some k) = sets _

  truth-Gives :
      (value : Bool → V) (a : Bytes) (v : Option V)
      → Switches cf value a v
      → Gives (truth cf value a) v
  unfolding means_off means_on equal_nocase equal
  truth-Gives value a v (inl (e, e')) = Gives-of _ drop_key _ none (ap (truth cf value) e) e' drops
  truth-Gives value a v (inr (false, w, word, same, e)) =
      Gives-of _ (set_to (value false)) _ (some (value false))
        (if_true _ _ _ (means_off_same a w same ∙ off_words w word)) e (sets _)
  truth-Gives value a v (inr (true, w, word, same, e)) =
      let (off, on) = on_words w word in
      Gives-of _ (set_to (value true)) _ (some (value true))
        (if_false _ _ _ (means_off_same a w same ∙ off)
          ∙ if_true _ _ _ (means_on_same a w same ∙ on))
        e (sets _)

  removes :
      (a : Bytes) (v : Option V) (r : Verdict V)
      → Removes cf a v
      → Gives (if is_empty a then drop_key else r) v
  removes a v r (e, e') =
      Gives-of _ drop_key _ none (if_true _ _ _ (ap (λ b. is_empty b) e)) e' drops

  -- A text that is not empty, and its string.
  text_or_empty :
      (a : Bytes) (v w : Option V) (r : Verdict V)
      → Removes cf a v ⊎ (IsText cf a × (v ≡ w))
      → Gives r w
      → Gives
          (if is_empty a then drop_key else if cf.is_null (cf.create_string a) then fault else r)
          v
  text_or_empty a v w r (inl m) g = removes a v _ m
  text_or_empty a v w r (inr ((full, there), e)) g =
      Gives-of _ r _ w (if_false _ _ _ full ∙ if_false _ _ _ there) e g

  written_full :
      (minus : Bool) (d : ℕ) (ds : List ℕ)
      → (if is_empty (written minus (d ∷ ds))
          then drop_key
          else number_value cf (scan_number (written minus (d ∷ ds))))
        ≡ number_value cf (scan_number (written minus (d ∷ ds)))
  unfolding written
  written_full true d ds = refl
  written_full false d ds = refl

  number-Gives :
      (a : Bytes) (v : Option V)
      → Counts cf a v
      → Gives (if is_empty a then drop_key else number_value cf (scan_number a)) v
  unfolding scan_number
  number-Gives a v (inl m) = removes a v _ m
  number-Gives a v (inr (minus, d, ds, digits, fits, e, e')) =
      let n = number_of 0 (d ∷ ds) in
      Gives-of _ (set_to (cf.of_number (with_sign minus n))) _ _
        (ap (λ b. if is_empty b then drop_key else number_value cf (scan_number b)) e
          ∙ written_full minus d ds
          ∙ ap (number_value cf) (
              ap (λ o. o >>= λ z. some (to_int (clamp z))) (scan_int-written minus d ds digits)
              ∙ ap some (to_int-clamp minus n fits)))
        e' (sets _)

  -- The value of an option is taken for what it stands for.
  pub judge-Means :
      (k : Kind) (o : Setting Key D) (a : Bytes) (v : Option V)
      → Means cf k o a v
      → Gives (judge cf k o a) v
  unfolding judge Means
  judge-Means is_other o a v m = absurd m
  judge-Means is_help o a v m = absurd m
  judge-Means is_choose_one o a v (there, (s, p, available, e)) =
      Gives-of _ (choice_value cf s.key) _ _
        (if_false _ _ _ there ∙ ap (chosen_one cf o) (picked _ _ s p) ∙ if_false _ _ _ available) e
        (string_of-Gives s.key)
  judge-Means is_choose_multiple o a v (inl m) = removes a v _ m
  judge-Means is_choose_multiple o a v (inr (full, (keys, chosen, e))) =
      text_or_empty a v (array_of cf keys) _ (inr (full, e))
        (Gives-of _ _ _ _ (choose_each-Chosen o _ keys [] chosen) refl (chosen_all-Gives keys))
  judge-Means is_bool o a v m = truth-Gives _ a v m
  judge-Means is_boolean o a v m = truth-Gives _ a v m
  judge-Means is_number o a v m = number-Gives a v m
  judge-Means is_string o a v m = text_or_empty a v _ _ m (sets _)
  judge-Means is_string_array o a v m = text_or_empty a v _ _ m (sets _)
