-- ===== src/Compiler/Lexer/Spacing.antt =====
-- Tokens in their shapes, each with a space behind it, are read back.
use root_wire.Base.{
  ℕ, ◌≤◌, ◌≡◌, refl, sym, ap, ◌∙◌, true, false, Option, none, some, [], ◌∷◌, ◌++◌, ◌==◌, length,
  length-append, arith, inl, inr, append_assoc,
}
use root_wire.Compiler.Syntax.{
  Text, ipv4, number, word, lparen, rparen, space, Token, token, Unicode,
}
use root_wire.Compiler.Lexer.{
  Match, run, some_run, then_dot, single, or_else, as_kind, match_word, is_digit, is_letter,
  is_word_char, match_ipv4, match_token,
}
use root_wire.Compiler.Lexer.Addresses.{Passes, is_digit-dot, digit-ne-dot}
use root_wire.Compiler.Lexer.Shapes.{IsWord}
use root_wire.Compiler.Lexer.Sound.{Digits, Octet, HasShape}
use root_wire.Compiler.Lexer.Runs.{
  then_dot-whole, then_dot-none, run-whole, run-next, some_run-whole, some_run-alone, some_run-none,
  or_else-none,
}

module _ (unicode : Unicode) where
  -- What the Unicode database says of the ASCII characters: that the space is white space, and that
  -- white space, letters and parentheses are no digits and no two of them the same.
  pub record AsciiClasses : Type 0 where
    pub space_is_space : unicode.is_space b' ' ≡ true
    pub space_no_digit : unicode.digit b' ' ≡ none
    pub letter_no_digit : (c : ℕ) → is_letter c ≡ true → unicode.digit c ≡ none
    pub lparen_no_digit : unicode.digit b'(' ≡ none
    pub rparen_no_digit : unicode.digit b')' ≡ none
    pub digit_no_space : (c d : ℕ) → unicode.digit c ≡ some d → unicode.is_space c ≡ false
    pub letter_no_space : (c : ℕ) → is_letter c ≡ true → unicode.is_space c ≡ false
    pub lparen_no_space : unicode.is_space b'(' ≡ false
    pub rparen_no_space : unicode.is_space b')' ≡ false

  is_digit-none : (c : ℕ) → unicode.digit c ≡ none → is_digit unicode c ≡ false
  unfolding is_digit
  is_digit-none c h = rw (is_digit, h)

  -- No digit in front: neither an address nor a number.
  match_ipv4-none :
      (c : ℕ) (x : Text) → is_digit unicode c ≡ false → match_ipv4 unicode (c ∷ x) ≡ none
  unfolding match_ipv4
  match_ipv4-none c x h = rw (match_ipv4, some_run-none (is_digit unicode) 3 c x h)

  behind_digits :
      (c : ℕ) (x : Text) (o : Option (Token × Text))
      → unicode.digit c ≡ none
      → or_else (as_kind word (match_word (c ∷ x))) (
          or_else (as_kind lparen (single b'(' (c ∷ x))) (
            or_else
              (as_kind rparen (single b')' (c ∷ x)))
              (as_kind space (some_run unicode.is_space (length (c ∷ x)) (c ∷ x)))))
        ≡ o
      → match_token unicode (c ∷ x) ≡ o
  unfolding match_token
  behind_digits c x o h k =
      let n = is_digit-none c h in
      or_else-none (ap (as_kind ipv4) (match_ipv4-none c x n)) (
        or_else-none (ap (as_kind number) (some_run-none (is_digit unicode) (length (c ∷ x)) c x n))
          k)

  pub number-whole :
      (laws : AsciiClasses) (m x : Text)
      → Digits unicode m
      → match_token unicode (m ++ b' ' ∷ x) ≡ some (token number m, b' ' ∷ x)
  unfolding match_token match_ipv4
  number-whole laws m x p =
      let digits = run_of m p in
      let n = is_digit-none b' ' laws.space_no_digit in
      let (d, c, z, e, k) = run-next (is_digit unicode) 3 m b' ' x digits n in
      let no_dot : (c == b'.') ≡ false = elim k [
        | inl digit ↦ digit-ne-dot unicode c digit
        | inr same ↦ rw same refl
      ] in
      let long : length m ≤ length (m ++ b' ' ∷ x) = omega (arith, length-append m (b' ' ∷ x)) in
      let r = some_run-whole (is_digit unicode) (length (m ++ b' ' ∷ x)) m b' ' x p long n in
      or_else-none
        (ap (as_kind ipv4) (then_dot-none (is_digit unicode) 3 (m ++ b' ' ∷ x) d z c _ e no_dot))
        (rw r)
    where
      run_of : (m : Text) → Digits unicode m → Passes (is_digit unicode) m
      run_of [] q = absurd q
      run_of (c ∷ m) q = q

  pub word-whole :
      (laws : AsciiClasses) (m x : Text)
      → IsWord m
      → match_token unicode (m ++ b' ' ∷ x) ≡ some (token word m, b' ' ∷ x)
  unfolding match_word is_word_char is_letter
  word-whole laws [] x p = absurd p
  word-whole laws (c ∷ m) x (l, p) =
      let e =
        run-whole is_word_char (length (m ++ b' ' ∷ x)) m b' ' x p
          (omega (arith, length-append m (b' ' ∷ x))) refl in
      behind_digits c (m ++ b' ' ∷ x) _ (laws.letter_no_digit c l) (rw (match_word, l, e))

  pub paren-whole :
      (laws : AsciiClasses) (x : Text)
      → (match_token unicode (b'(' ∷ x) ≡ some (token lparen (b'(' ∷ []), x))
        × (match_token unicode (b')' ∷ x) ≡ some (token rparen (b')' ∷ []), x))
  unfolding match_word is_letter single
  paren-whole laws x = (
    behind_digits b'(' x _ laws.lparen_no_digit refl,
    behind_digits b')' x _ laws.rparen_no_digit refl,
  )

  -- No white space in front.
  abbrev pub NoSpace : Text → Type 0
  NoSpace [] = Unit {0}
  NoSpace (c ∷ x) = unicode.is_space c ≡ false

  pub space-whole :
      (laws : AsciiClasses) (x : Text)
      → NoSpace x
      → match_token unicode (b' ' ∷ x) ≡ some (token space (b' ' ∷ []), x)
  unfolding match_word is_letter single some_run run Passes
  space-whole laws [] n =
      behind_digits b' ' [] _ laws.space_no_digit
        (ap (as_kind space) (some_run-alone unicode.is_space b' ' laws.space_is_space))
  space-whole laws (c ∷ x) n =
      let e =
        some_run-whole unicode.is_space (length (b' ' ∷ c ∷ x)) (b' ' ∷ []) c x
          (laws.space_is_space, tt) (omega arith) n in
      behind_digits b' ' (c ∷ x) _ laws.space_no_digit (ap (as_kind space) e)

  Octet-whole :
      (m d m' y : Text) (next : Text → Match)
      → m ≡ d ++ b'.' ∷ m'
      → Octet unicode d
      → next (m' ++ y) ≡ some (m', y)
      → then_dot (some_run (is_digit unicode) 3 (m ++ y)) next ≡ some (m, y)
  Octet-whole m d m' y next e (p, l) h =
      let found = some_run-whole (is_digit unicode) 3 d b'.' (m' ++ y) p l (is_digit-dot unicode) in
      let split : m ++ y ≡ d ++ b'.' ∷ (m' ++ y) =
        ap (λ m. m ++ y) e ∙ append_assoc d (b'.' ∷ m') y in
      ap (λ t. then_dot (some_run (is_digit unicode) 3 t) next) split
      ∙ then_dot-whole d (m' ++ y) m' _ next y found h
      ∙ ap (λ m. some (m, y)) (sym e)

  pub ipv4-whole :
      (laws : AsciiClasses) (m x : Text)
      → HasShape unicode ipv4 m
      → match_token unicode (m ++ b' ' ∷ x) ≡ some (token ipv4 m, b' ' ∷ x)
  unfolding match_token match_ipv4
  ipv4-whole laws m x (d₁, m₁, e₁, p₁, (d₂, m₂, e₂, p₂, (d₃, m₃, e₃, p₃, (p₄, l₄)))) =
      let y = b' ' ∷ x in
      let n = is_digit-none b' ' laws.space_no_digit in
      let octet = some_run (is_digit unicode) 3 in
      let last = some_run-whole (is_digit unicode) 3 m₃ b' ' x p₄ l₄ n in
      let third = Octet-whole m₂ d₃ m₃ y octet e₃ p₃ last in
      let second = Octet-whole m₁ d₂ m₂ y (λ t. then_dot (octet t) octet) e₂ p₂ third in
      let first =
        Octet-whole m d₁ m₁ y (λ u. then_dot (octet u) λ t. then_dot (octet t) octet) e₁ p₁
          second in
      rw first
