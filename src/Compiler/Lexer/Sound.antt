-- ===== src/Compiler/Lexer/Sound.antt =====
-- The tokens of a text and the white space between them make up the text.
use root_wire.Base.{
  ℕ, zero, suc, ◌+◌, ◌≡◌, refl, Option, none, some, List, [], ◌∷◌, ◌++◌, ok, >>=-eq-ok, length, ◌≢◌,
}
use root_wire.Compiler.Syntax.{
  Text, Kind, ipv4, number, word, lparen, rparen, space, Token, token, Unicode,
}
use root_wire.Compiler.Lexer.{
  Match, or_else, as_kind, append_unless_space, is_digit, match_ipv4, match_token, tokenize_from,
  tokenize,
}
use root_wire.Compiler.Lexer.Shapes.{
  then_dot-Splits, Splits, SomePass, AtMost, some_run-Splits, whole_run-Splits, Dotted, IsWord,
  match_word-Splits, single-Splits,
}

module _ (unicode : Unicode) where
  abbrev pub Digits : Text → Type 0
  Digits = SomePass (is_digit unicode)

  abbrev pub Octet : Text → Type 0
  Octet = AtMost 3 Digits

  -- The texts of a kind of token.
  abbrev pub HasShape : Kind → Text → Type 0
  HasShape ipv4 = Dotted Octet (Dotted Octet (Dotted Octet Octet))
  HasShape number = Digits
  HasShape word = IsWord
  HasShape lparen = λ m. m ≡ b'(' ∷ []
  HasShape rparen = λ m. m ≡ b')' ∷ []
  HasShape space = SomePass unicode.is_space

  -- A token in front of the rest of a text.
  abbrev Stands : Text → Option (Token × Text) → Type 0
  Stands text none = Unit {0}
  Stands text (some (t, rest)) = (text ≡ t.text ++ rest) × HasShape t.kind t.text

  Stands-as_kind :
      (kind : Kind) (text : Text) (o : Match)
      → Splits (HasShape kind) text o
      → Stands text (as_kind kind o)
  Stands-as_kind kind text none s = tt
  Stands-as_kind kind text (some (m, rest)) s = s

  Stands-or_else :
      (text : Text) (a b : Option (Token × Text))
      → Stands text a
      → Stands text b
      → Stands text (or_else a b)
  Stands-or_else text none b h k = k
  Stands-or_else text (some found) b h k = h

  match_ipv4-Splits : (text : Text) → Splits (HasShape ipv4) text (match_ipv4 unicode text)
  unfolding match_ipv4
  match_ipv4-Splits text =
      then_dot-Splits Octet (Dotted Octet (Dotted Octet Octet)) text _ _ (some_run-Splits _ 3 text)
        λ t₁. then_dot-Splits Octet (Dotted Octet Octet) t₁ _ _ (some_run-Splits _ 3 t₁) λ t₂.
          then_dot-Splits Octet Octet t₂ _ _ (some_run-Splits _ 3 t₂) λ t₃. some_run-Splits _ 3 t₃

  match_token-Stands : (text : Text) → Stands text (match_token unicode text)
  unfolding match_token
  match_token-Stands text =
      Stands-or_else text _ _ (Stands-as_kind ipv4 text _ (match_ipv4-Splits text)) (
        Stands-or_else text _ _ (Stands-as_kind number text _ (whole_run-Splits _ _ text)) (
          Stands-or_else text _ _ (Stands-as_kind word text _ (match_word-Splits text)) (
            Stands-or_else text _ _ (Stands-as_kind lparen text _ (single-Splits _ text)) (
              Stands-or_else text _ _ (Stands-as_kind rparen text _ (single-Splits _ text))
                (Stands-as_kind space text _ (whole_run-Splits _ _ text))))))

  -- How a text is spelt by tokens: each in the shape of its kind, with white space anywhere between.
  pub data Spells : Text → List Token → Type 0 where
    ends : Spells [] []
    blank :
        {rest : Text} {ts : List Token} (m : Text)
        → HasShape space m
        → Spells rest ts
        → Spells (m ++ rest) ts
    lexeme :
        {rest : Text} {ts : List Token} (t : Token)
        → t.kind ≢ space
        → HasShape t.kind t.text
        → Spells rest ts
        → Spells (t.text ++ rest) (t ∷ ts)

  Spells-append :
      (kind : Kind) (m rest : Text) (ts : List Token)
      → HasShape kind m
      → Spells rest ts
      → Spells (m ++ rest) (append_unless_space (token kind m) ts)
  Spells-append ipv4 m rest ts h s = Spells.lexeme (token ipv4 m) (cc) h s
  Spells-append number m rest ts h s = Spells.lexeme (token number m) (cc) h s
  Spells-append word m rest ts h s = Spells.lexeme (token word m) (cc) h s
  Spells-append lparen m rest ts h s = Spells.lexeme (token lparen m) (cc) h s
  Spells-append rparen m rest ts h s = Spells.lexeme (token rparen m) (cc) h s
  Spells-append space m rest ts h s = Spells.blank m h s

  tokenize_from-Spells :
      (fuel pos : ℕ) (text : Text) (tokens : List Token)
      → tokenize_from unicode fuel pos text ≡ ok tokens
      → Spells text tokens
  unfolding tokenize_from
  tokenize_from-Spells fuel pos [] [] h = Spells.ends
  tokenize_from-Spells fuel pos [] (t ∷ tokens) h = cc
  tokenize_from-Spells zero pos (c ∷ text) tokens h = cc
  tokenize_from-Spells (suc fuel) pos (c ∷ text) tokens h =
      by_match (match_token unicode (c ∷ text)) refl (match_token-Stands (c ∷ text))
        (λ p t ts. tokenize_from-Spells fuel p t ts)
    where
      by_match :
          (o : Option (Token × Text))
          → match_token unicode (c ∷ text) ≡ o
          → Stands (c ∷ text) o
          → ((p : ℕ) (t : Text) (ts : List Token)
              → tokenize_from unicode fuel p t ≡ ok ts
              → Spells t ts)
          → Spells (c ∷ text) tokens
      by_match none e f ih = let k = rw (tokenize_from, e) at h in cc
      by_match (some (t, rest)) e (split, shape) ih =
          let (ts, q, k) =
            >>=-eq-ok (tokenize_from unicode fuel (pos + length t.text) rest)
              (λ tokens. ok (append_unless_space t tokens)) (rw (tokenize_from, e) at h) in
          let e' : append_unless_space t ts ≡ tokens = cc in
          rw (split, ← e') (Spells-append t.kind t.text rest ts shape (ih _ rest ts q))

  -- The tokens of a text spell it: written one behind another, with white space between them where
  -- the text has it, they make up the whole text, and each has the shape of its kind.
  pub tokenize-Spells :
      (expr : Text) (tokens : List Token) → tokenize unicode expr ≡ ok tokens → Spells expr tokens
  unfolding tokenize
  tokenize-Spells expr tokens h = tokenize_from-Spells (length expr) 0 expr tokens h
