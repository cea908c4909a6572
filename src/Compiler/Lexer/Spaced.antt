-- ===== src/Compiler/Lexer/Spaced.antt =====
-- The lexer reads back the tokens that are written out with spaces.
use root_wire.Base.{
  ℕ, zero, suc, ◌+◌, ◌≤◌, ◌<◌, ◌≡◌, refl, ap, ◌∙◌, Option, true, false, some, none, List, [], ◌∷◌,
  ◌++◌, ok, ◌>>=◌, length, length-append, arith, ◌≢◌,
}
use root_wire.Compiler.Syntax.{
  Text, Kind, ipv4, number, word, lparen, rparen, space, Token, token, Unicode,
}
use root_wire.Compiler.Lexer.{append_unless_space, match_token, is_digit, tokenize_from, tokenize}
use root_wire.Compiler.Lexer.Addresses.{Passes}
use root_wire.Compiler.Lexer.Sound.{HasShape, Spells, tokenize-Spells}
use root_wire.Compiler.Lexer.Spacing.{
  AsciiClasses, NoSpace, number-whole, word-whole, paren-whole, space-whole, ipv4-whole,
}
use root_wire.Compiler.Expression.{parse_expression, compile_expression}

-- The tokens with a space behind each.
abbrev pub spaced : List Token → Text
spaced [] = []
spaced (t ∷ tokens) = t.text ++ b' ' ∷ spaced tokens

module _ (unicode : Unicode) where
  -- Tokens that are no white space, each in the shape of its kind.
  abbrev pub AllShaped : List Token → Type 0
  AllShaped [] = Unit {0}
  AllShaped (t ∷ tokens) = (t.kind ≢ space) × HasShape unicode t.kind t.text × AllShaped tokens

  pub Spells-AllShaped :
      {text : Text} {tokens : List Token} → Spells unicode text tokens → AllShaped tokens
  Spells-AllShaped Spells.ends = tt
  Spells-AllShaped (Spells.blank m shape rest) = Spells-AllShaped rest
  Spells-AllShaped (Spells.lexeme t k shape rest) = (k, shape, Spells-AllShaped rest)

  module _ (laws : AsciiClasses unicode) where
    digit-NoSpace : (c : ℕ) → is_digit unicode c ≡ true → unicode.is_space c ≡ false
    unfolding is_digit
    digit-NoSpace c h = by_value (unicode.digit c) refl
      where
        by_value : (o : Option ℕ) → unicode.digit c ≡ o → unicode.is_space c ≡ false
        by_value none e = let k = rw (is_digit, e) at h in cc
        by_value (some d) e = laws.digit_no_space c d e

    -- A token begins with no white space.
    token-NoSpace :
        (kind : Kind) (m x : Text)
        → kind ≢ space
        → HasShape unicode kind m
        → NoSpace unicode (m ++ b' ' ∷ x) × (0 < length m)
    unfolding Passes
    token-NoSpace ipv4 m x k ([], m', e, (p, l), q) = absurd p
    token-NoSpace ipv4 m x k (c ∷ d, m', e, ((p, ps), l), q) = rw e (digit-NoSpace c p, omega arith)
    token-NoSpace number [] x k p = absurd p
    token-NoSpace number (c ∷ m) x k (p, ps) = (digit-NoSpace c p, omega arith)
    token-NoSpace word [] x k p = absurd p
    token-NoSpace word (c ∷ m) x k (l, p) = (laws.letter_no_space c l, omega arith)
    token-NoSpace lparen m x k e = rw e (laws.lparen_no_space, omega arith)
    token-NoSpace rparen m x k e = rw e (laws.rparen_no_space, omega arith)
    token-NoSpace space m x k e = absurd (k refl)

    token-whole :
        (t : Token) (x : Text)
        → t.kind ≢ space
        → HasShape unicode t.kind t.text
        → match_token unicode (t.text ++ b' ' ∷ x) ≡ some (t, b' ' ∷ x)
    token-whole t x k h = by_kind t.kind t.text k h
      where
        by_kind :
            (kind : Kind) (m : Text)
            → kind ≢ space
            → HasShape unicode kind m
            → match_token unicode (m ++ b' ' ∷ x) ≡ some (token kind m, b' ' ∷ x)
        by_kind ipv4 m k h = ipv4-whole unicode laws m x h
        by_kind number m k h = number-whole unicode laws m x h
        by_kind word m k h = word-whole unicode laws m x h
        by_kind lparen m k e = rw e (paren-whole unicode laws (b' ' ∷ x)).0
        by_kind rparen m k e = rw e (paren-whole unicode laws (b' ' ∷ x)).1
        by_kind space m k h = absurd (k refl)

    -- A round of the loop.
    tokenize_from-step :
        (fuel pos : ℕ) (text rest : Text) (t : Token)
        → 0 < length text
        → match_token unicode text ≡ some (t, rest)
        → tokenize_from unicode (suc fuel) pos text ≡ (
            tokenize_from unicode fuel (pos + length t.text) rest >>= λ tokens.
            ok (append_unless_space t tokens))
    unfolding tokenize_from
    tokenize_from-step fuel pos [] rest t l h = absurd (omega arith)
    tokenize_from-step fuel pos (c ∷ text) rest t l h = rw (tokenize_from, h)

    spaced-NoSpace : (tokens : List Token) → AllShaped tokens → NoSpace unicode (spaced tokens)
    spaced-NoSpace [] h = tt
    spaced-NoSpace (t ∷ tokens) (k, shape, h) =
        (token-NoSpace t.kind t.text (spaced tokens) k shape).0

    append-kept :
        (t : Token) (tokens : List Token)
        → t.kind ≢ space
        → append_unless_space t tokens ≡ t ∷ tokens
    append-kept t tokens k = by_kind t.kind k
      where
        by_kind :
            (kind : Kind)
            → kind ≢ space
            → append_unless_space (token kind t.text) tokens ≡ token kind t.text ∷ tokens
        by_kind ipv4 k = refl
        by_kind number k = refl
        by_kind word k = refl
        by_kind lparen k = refl
        by_kind rparen k = refl
        by_kind space k = absurd (k refl)

    -- Two rounds for a token and the space behind it.
    tokenize_from-token :
        (fuel pos : ℕ) (t : Token) (tokens : List Token)
        → AllShaped (t ∷ tokens)
        → ((fuel pos : ℕ)
            → length (spaced tokens) ≤ fuel
            → tokenize_from unicode fuel pos (spaced tokens) ≡ ok tokens)
        → length (spaced (t ∷ tokens)) ≤ fuel
        → tokenize_from unicode fuel pos (spaced (t ∷ tokens)) ≡ ok (t ∷ tokens)
    tokenize_from-token zero pos t tokens (k, shape, h) rest l =
        absurd (omega (arith, length-append t.text (b' ' ∷ spaced tokens)))
    tokenize_from-token (suc zero) pos t tokens (k, shape, h) rest l =
        let positive = (token-NoSpace t.kind t.text (spaced tokens) k shape).1 in
        absurd (omega (arith, positive, length-append t.text (b' ' ∷ spaced tokens)))
    tokenize_from-token (suc (suc fuel)) pos t tokens (k, shape, h) rest l =
        let positive = (token-NoSpace t.kind t.text (spaced tokens) k shape).1 in
        let long = length-append t.text (b' ' ∷ spaced tokens) in
        let blank = token space (b' ' ∷ []) in
        let first =
          tokenize_from-step (suc fuel) pos (t.text ++ b' ' ∷ spaced tokens) (b' ' ∷ spaced tokens)
            t (omega (arith, long)) (token-whole t (spaced tokens) k shape) in
        let second =
          tokenize_from-step fuel (pos + length t.text) (b' ' ∷ spaced tokens) (spaced tokens) blank
            (omega arith) (space-whole unicode laws (spaced tokens) (spaced-NoSpace tokens h)) in
        let third = rest fuel (pos + length t.text + 1) (omega (arith, long, positive)) in
        first
        ∙ ap (λ r. r >>= λ tokens. ok (append_unless_space t tokens))
            (second ∙ ap (λ r. r >>= λ tokens. ok (append_unless_space blank tokens)) third)
        ∙ ap ok (append-kept t tokens k)

    tokenize_from-spaced :
        (tokens : List Token) (fuel pos : ℕ)
        → AllShaped tokens
        → length (spaced tokens) ≤ fuel
        → tokenize_from unicode fuel pos (spaced tokens) ≡ ok tokens
    unfolding tokenize_from
    tokenize_from-spaced [] fuel pos h l = refl
    tokenize_from-spaced (t ∷ tokens) fuel pos (k, shape, h) l =
        tokenize_from-token fuel pos t tokens (k, shape, h)
          (λ fuel pos. tokenize_from-spaced tokens fuel pos h) l

    -- Any tokens in the shapes of their kinds, none of them white space, that are written out with a
    -- space behind each are read back by the lexer, one for one. The Unicode database is to have the
    -- ASCII characters in their classes.
    pub tokenize-spaced :
        (tokens : List Token) → AllShaped tokens → tokenize unicode (spaced tokens) ≡ ok tokens
    unfolding tokenize
    tokenize-spaced tokens h =
        tokenize_from-spaced tokens (length (spaced tokens)) 0 h (omega arith)

    -- A text that has tokens compiles as they do when each is set off by a space: to the same program,
    -- or to the same error.
    pub compile_expression-spaced :
        (expr : Text) (tokens : List Token)
        → tokenize unicode expr ≡ ok tokens
        → compile_expression unicode (spaced tokens) ≡ compile_expression unicode expr
    unfolding compile_expression parse_expression
    compile_expression-spaced expr tokens h =
        let again =
          tokenize-spaced tokens (Spells-AllShaped (tokenize-Spells unicode expr tokens h)) in
        rw (again, h)
