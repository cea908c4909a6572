-- ===== src/Compiler/Lexer/Total.antt =====
-- Every token takes a character at least, and the tokens with the white space are the text.
use root_wire.Base.{
  ℕ, zero, suc, ◌+◌, ◌≤◌, ◌<◌, ◌≡◌, refl, ap, ◌∙◌, Bool, Option, none, some, [], ◌∷◌, ◌++◌, Result,
  ok, err, ◌>>=◌, ◌≢◌, ◌==◌, length, length-append, arith, append_assoc, Bool-cases, inl, inr,
  ==_iff,
}
use root_wire.Compiler.Syntax.{Text, Kind, Token, Unicode, Error, out_of_fuel, unexpected_character}
use root_wire.Compiler.Lexer.{
  Match, joined, run, some_run, then_dot, single, or_else, as_kind, match_ipv4, match_word,
  match_token, tokenize_from, tokenize, is_digit, is_word_char, is_letter, append_unless_space,
}

-- What matched and the rest are the text, and something matched.
abbrev Splits : Text → Match → Type 0
Splits text none = Unit
Splits text (some (matched, rest)) = (matched ++ rest ≡ text) × (0 < length matched)

run-append :
    (test : ℕ → Bool) (limit : ℕ) (text : Text)
    → (run test limit text).0 ++ (run test limit text).1 ≡ text
unfolding run
run-append test zero text = refl
run-append test (suc limit) [] = refl
run-append test (suc limit) (c ∷ text) = elim (Bool-cases (test c)) [
  | inl h ↦ rw h (ap (λ t. c ∷ t) (run-append test limit text))
  | inr h ↦ rw h refl
]

some_run-Splits :
    (test : ℕ → Bool) (limit : ℕ) (text : Text) → Splits text (some_run test limit text)
unfolding some_run
some_run-Splits test limit text = found (run test limit text) (run-append test limit text)
  where
    found :
        (r : Text × Text)
        → r.0 ++ r.1 ≡ text
        → Splits text (elim (r.0) [ [] ↦ none | c ∷ matched ↦ some (c ∷ matched, r.1) ])
    found ([], rest) h = tt
    found (c ∷ matched, rest) h = (h, omega arith)

joined-Splits :
    (matched text : Text) (m : Match)
    → Splits text m
    → Splits (matched ++ b'.' ∷ text) (joined matched m)
joined-Splits matched text none h = tt
joined-Splits matched text (some (matched', rest)) (p, q) = (
  append_assoc matched (b'.' ∷ matched') rest ∙ ap (λ t. matched ++ b'.' ∷ t) p,
  omega (arith, length-append matched (b'.' ∷ matched')),
)

then_dot-Splits :
    (text : Text) (m : Match) (next : Text → Match)
    → Splits text m
    → ((t : Text) → Splits t (next t))
    → Splits text (then_dot m next)
then_dot-Splits text none next h k = tt
then_dot-Splits text (some (matched, [])) next h k = tt
then_dot-Splits text (some (matched, c ∷ rest)) next (p, q) k = elim (Bool-cases (c == b'.')) [
  | inl e ↦ rw (e, ← p, (==_iff c b'.').0 e) (joined-Splits matched rest (next rest) (k rest))
  | inr e ↦ rw e tt
]

single-Splits : (c : ℕ) (text : Text) → Splits text (single c text)
unfolding single
single-Splits c [] = tt
single-Splits c (d ∷ text) = elim (Bool-cases (d == c)) [
  | inl e ↦ rw e (refl, omega arith)
  | inr e ↦ rw e tt
]

bind-ne-err {ℓ κ} :
    {A : Type ℓ} {B : Type κ} {e : Error} (r : Result Error A) (f : A → B)
    → r ≢ err e
    → (r >>= λ a. ok (f a)) ≢ err e
bind-ne-err (ok a) f h = cc
bind-ne-err (err e') f h = λ p. h (cc p)

-- The same of a token.
abbrev pub Takes : Text → Option (Token × Text) → Type 0
Takes text none = Unit
Takes text (some (t, rest)) = (t.text ++ rest ≡ text) × (0 < length t.text)

as_kind-Takes :
    (kind : Kind) (text : Text) (m : Match) → Splits text m → Takes text (as_kind kind m)
as_kind-Takes kind text none h = h
as_kind-Takes kind text (some (matched, rest)) h = h

or_else-Takes :
    (text : Text) (o p : Option (Token × Text))
    → Takes text o
    → Takes text p
    → Takes text (or_else o p)
or_else-Takes text none p h k = k
or_else-Takes text (some (t, rest)) p h k = h

match_word-Splits : (text : Text) → Splits text (match_word text)
unfolding match_word
match_word-Splits [] = tt
match_word-Splits (c ∷ text) = elim (Bool-cases (is_letter c)) [
  | inl e ↦ rw e (ap (λ t. c ∷ t) (run-append is_word_char (length text) text), omega arith)
  | inr e ↦ rw e tt
]

module _ (unicode : Unicode) where
  match_ipv4-Splits : (text : Text) → Splits text (match_ipv4 unicode text)
  unfolding match_ipv4
  match_ipv4-Splits text =
      let digits = λ (t : Text). some_run-Splits (is_digit unicode) 3 t in
      then_dot-Splits text _ _ (digits text) λ text₁.
        then_dot-Splits text₁ _ _ (digits text₁)
          λ text₂. then_dot-Splits text₂ _ _ (digits text₂) digits

  match_token-Takes : (text : Text) → Takes text (match_token unicode text)
  unfolding match_token
  match_token-Takes text =
      or_else-Takes text _ _ (as_kind-Takes Kind.ipv4 text _ (match_ipv4-Splits text)) (
        or_else-Takes text _ _
          (as_kind-Takes Kind.number text _ (some_run-Splits (is_digit unicode) (length text) text))
          (or_else-Takes text _ _ (as_kind-Takes Kind.word text _ (match_word-Splits text)) (
            or_else-Takes text _ _ (as_kind-Takes Kind.lparen text _ (single-Splits b'(' text)) (
              or_else-Takes text _ _ (as_kind-Takes Kind.rparen text _ (single-Splits b')' text)) (
                as_kind-Takes Kind.space text _
                  (some_run-Splits unicode.is_space (length text) text))))))

  tokenize_from-ne-out_of_fuel :
      (fuel pos : ℕ) (text : Text)
      → length text ≤ fuel
      → tokenize_from unicode fuel pos text ≢ err out_of_fuel
  unfolding tokenize_from
  tokenize_from-ne-out_of_fuel fuel pos [] h = cc
  tokenize_from-ne-out_of_fuel zero pos (c ∷ text) h = absurd (omega arith)
  tokenize_from-ne-out_of_fuel (suc fuel) pos (c ∷ text) h =
      found (tokenize_from-ne-out_of_fuel fuel) (match_token unicode (c ∷ text))
        (match_token-Takes (c ∷ text))
    where
      found :
          ((pos : ℕ) (text : Text)
            → length text ≤ fuel
            → tokenize_from unicode fuel pos text ≢ err out_of_fuel)
          → (o : Option (Token × Text)) → Takes (c ∷ text) o
          → (elim o [
            | none ↦ err (unexpected_character pos)
            | some (t, rest) ↦ tokenize_from unicode fuel (pos + length t.text) rest >>= λ tokens.
                ok (append_unless_space t tokens)
          ])
            ≢ err out_of_fuel
      found ih none k = cc
      found ih (some (t, rest)) (p, q) =
          bind-ne-err (tokenize_from unicode fuel (pos + length t.text) rest)
            (append_unless_space t)
            (ih _ rest (omega (arith, ap length p, length-append t.text rest)))

  -- The lexer stops: with its tokens, or at a character that starts none.
  pub tokenize-ne-out_of_fuel : (expr : Text) → tokenize unicode expr ≢ err out_of_fuel
  unfolding tokenize
  tokenize-ne-out_of_fuel expr = tokenize_from-ne-out_of_fuel (length expr) 0 expr (omega arith)
