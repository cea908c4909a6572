-- ===== src/Compiler/Lexer.antt =====
-- src/rootwire/bpf_compiler.py, `_TOKEN_RE` and `_tokenize`: a text to its tokens.
pub mod Total
pub mod Shapes
pub mod Sound
pub mod Runs
pub mod Spacing
pub mod Spaced
mod Tests
pub mod Addresses
use root_wire.Base.{
  ℕ, zero, suc, ◌+◌, ◌-◌, Bool, true, false, Option, none, some, List, [], ◌∷◌, ◌++◌, Result, ok,
  err, ◌>>=◌, leb, ◌==◌, ◌||◌, ◌&&◌, if◌then◌else◌, length,
}
use root_wire.Compiler.Syntax.{
  Text, Kind, ipv4, number, word, lparen, rparen, space, Token, token, Unicode, Error,
  unexpected_character, out_of_fuel,
}

-- What a pattern matches at the start of a text, and the rest.
abbrev pub Match : Type 0
Match = Option (Text × Text)

-- `[a-zA-Z]`
unfoldable pub is_letter : ℕ → Bool
is_letter c = (leb b'a' c && leb c b'z') || (leb b'A' c && leb c b'Z')

-- `[a-zA-Z0-9]`
unfoldable pub is_word_char : ℕ → Bool
unfolding is_letter
is_word_char c = is_letter c || (leb b'0' c && leb c b'9')

-- The longest run of characters of a class, up to a limit.
unfoldable pub run : (ℕ → Bool) → ℕ → Text → Text × Text
run test zero text = ([], text)
run test (suc limit) [] = ([], [])
run test (suc limit) (c ∷ text) =
    let more = run test limit text in if test c then (c ∷ more.0, more.1) else ([], c ∷ text)

-- One character of the class at least.
unfoldable pub some_run : (ℕ → Bool) → ℕ → Text → Match
unfolding run
some_run test limit text = elim ((run test limit text).0) [
  | [] ↦ none
  | c ∷ matched ↦ some (c ∷ matched, (run test limit text).1)
]

abbrev pub joined : Text → Match → Match
joined matched none = none
joined matched (some (matched', rest)) = some (matched ++ b'.' ∷ matched', rest)

-- A pattern, a dot, and another pattern.
abbrev pub then_dot : Match → (Text → Match) → Match
then_dot none next = none
then_dot (some (matched, [])) next = none
then_dot (some (matched, c ∷ text)) next = if c == b'.' then joined matched (next text) else none

-- One character.
unfoldable pub single : ℕ → Text → Match
single c [] = none
single c (d ∷ text) = if d == c then some (d ∷ [], text) else none

-- The first of the alternatives that matches.
abbrev pub or_else : Option (Token × Text) → Option (Token × Text) → Option (Token × Text)
or_else none next = next
or_else (some found) next = some found

abbrev pub as_kind : Kind → Match → Option (Token × Text)
as_kind kind none = none
as_kind kind (some (matched, rest)) = some (token kind matched, rest)

-- `if kind != "space": tokens.append(…)`
abbrev pub append_unless_space : Token → List Token → List Token
append_unless_space t tokens = elim t.kind [ space ↦ tokens | _ ↦ t ∷ tokens ]

-- `[a-zA-Z][a-zA-Z0-9]*`
unfoldable pub match_word : Text → Match
unfolding is_word_char run
match_word [] = none
match_word (c ∷ text) =
    let more = run is_word_char (length text) text in
    if is_letter c then some (c ∷ more.0, more.1) else none

module _ (unicode : Unicode) where
  -- `\d`
  unfoldable pub is_digit : ℕ → Bool
  is_digit c = elim (unicode.digit c) [ none ↦ false | some d ↦ true ]

  -- `\d{1,3}\.\d{1,3}\.\d{1,3}\.\d{1,3}`: a shorter run of digits would be followed by a digit, so
  -- the first three runs match greedily or not at all.
  unfoldable pub match_ipv4 : Text → Match
  unfolding is_digit some_run
  match_ipv4 text = then_dot (some_run is_digit 3 text) λ text₁.
      then_dot (some_run is_digit 3 text₁)
        λ text₂. then_dot (some_run is_digit 3 text₂) λ text₃. some_run is_digit 3 text₃

  -- `_TOKEN_RE.match`: the alternatives in order.
  unfoldable pub match_token : Text → Option (Token × Text)
  unfolding match_ipv4 match_word single
  match_token text = or_else (as_kind ipv4 (match_ipv4 text)) (
      or_else (as_kind number (some_run is_digit (length text) text)) (
        or_else (as_kind word (match_word text)) (
          or_else (as_kind lparen (single b'(' text)) (
            or_else (as_kind rparen (single b')' text))
              (as_kind space (some_run unicode.is_space (length text) text))))))

  -- The loop, at a position of the text, with fuel for each token.
  unfoldable pub tokenize_from : ℕ → ℕ → Text → Result Error (List Token)
  unfolding match_token
  tokenize_from fuel pos [] = ok []
  tokenize_from zero pos (c ∷ text) = err out_of_fuel
  tokenize_from (suc fuel) pos (c ∷ text) = elim (match_token (c ∷ text)) [
    | none ↦ err (unexpected_character pos)
    | some (t, rest) ↦ tokenize_from fuel (pos + length t.text) rest >>= λ tokens.
        ok (append_unless_space t tokens)
  ]

  unfoldable pub tokenize : Text → Result Error (List Token)
  unfolding tokenize_from
  tokenize expr = tokenize_from (length expr) 0 expr
