-- ===== src/Compiler/Parser.antt =====
pub mod Ensures
pub mod Grammar
pub mod Primitive
pub mod Next
pub mod Accepts
pub mod Complete
pub mod Sound
mod Tests
-- src/rootwire/bpf_compiler.py, `_Parser`: recursive descent over the tokens that are left.
use root_wire.Base.{
  ℕ, zero, suc, ◌+◌, ◌*◌, Bool, true, false, Option, none, some, List, [], ◌∷◌, Result, ok, err,
  ◌>>=◌, ltb, ◌==◌, ◌||◌, ◌&&◌, ◌++◌, not, if◌then◌else◌, length,
}
use root_wire.Compiler.Syntax.{
  Text, Kind, ipv4, number, word, lparen, rparen, Token, Unicode, Protocol, Direction, either, src,
  dst, Node, proto, host, port, negate, both, one_of, Error, unexpected_token, unclosed_paren,
  expected_primitive, expected_primitive_after, expected_primitive_found, unknown_primitive,
  expected_ipv4, invalid_ipv4, expected_port, port_out_of_range, value_error, out_of_fuel,
}
use root_wire.Compiler.Words.{codes, protocol_of, is_keyword, is_word, match_word}

-- What a method of the parser returns, with the tokens left.
abbrev pub Parsed : Type 0 → Type 0
Parsed A = Result Error (A × List Token)

-- `text.split(".")`, with the part read so far.
unfoldable pub split_dot : Text → Text → List Text
split_dot part [] = part ∷ []
split_dot part (c ∷ text) =
    let rest = split_dot [] text in
    let longer = split_dot (part ++ c ∷ []) text in if c == b'.' then part ∷ rest else longer

unfoldable pub any_above_255 : List ℕ → Bool
any_above_255 [] = false
any_above_255 (octet ∷ octets) = ltb 255 octet || any_above_255 octets

abbrev pub is_ipv4 : Kind → Bool
is_ipv4 ipv4 = true
is_ipv4 _ = false

abbrev pub is_number : Kind → Bool
is_number number = true
is_number _ = false

abbrev pub kind_eq : Kind → Kind → Bool
kind_eq lparen lparen = true
kind_eq rparen rparen = true
kind_eq _ _ = false

-- The tokens behind a parenthesis, if it stands next.
unfoldable pub match_kind : Kind → List Token → Option (List Token)
match_kind kind [] = none
match_kind kind (t ∷ tokens) = if kind_eq t.kind kind then some tokens else none

-- `_primary` behind the expression in parentheses.
abbrev pub close : Node → Option (List Token) → Parsed Node
close node none = err unclosed_paren
close node (some rest) = ok (node, rest)

-- The error at the end of the expression.
abbrev pub no_primitive : Direction → Error
no_primitive either = expected_primitive
no_primitive direction = expected_primitive_after direction

-- A protocol has no direction in front of it.
unfoldable pub protocol_after : Direction → Token → Option Protocol
unfolding protocol_of
protocol_after either t = if is_word t.kind then protocol_of t.text else none
protocol_after direction t = none

abbrev pub finish : Node → List Token → Result Error Node
finish node [] = ok node
finish node (t ∷ tokens) = err (unexpected_token t.text)

module _ (unicode : Unicode) where
  -- The digits of a numeral, the most significant first.
  unfoldable pub int_digits : ℕ → Text → Result Error ℕ
  int_digits value [] = ok value
  int_digits value (c ∷ text) = elim (unicode.digit c) [
    | none ↦ err value_error
    | some d ↦ int_digits (value * 10 + d) text
  ]

  -- `int(text)`: the interpreter converts 4,300 digits at most.
  unfoldable pub int : Text → Result Error ℕ
  unfolding int_digits
  int [] = err value_error
  int (c ∷ text) = if ltb 4300 (length (c ∷ text)) then err value_error else int_digits 0 (c ∷ text)

  unfoldable pub ints : List Text → Result Error (List ℕ)
  unfolding int
  ints [] = ok []
  ints (part ∷ parts) = int part >>= λ n. ints parts >>= λ ns. ok (n ∷ ns)

  -- The loop that packs the octets.
  unfoldable pub pack_octets : ℕ → List ℕ → ℕ
  pack_octets value [] = value
  pack_octets value (octet ∷ octets) = pack_octets (value * 256 + octet) octets

  unfoldable pub parse_ipv4 : List Token → Parsed ℕ
  unfolding ints split_dot any_above_255 pack_octets
  parse_ipv4 [] = err expected_ipv4
  parse_ipv4 (t ∷ tokens) =
      if is_ipv4 t.kind
      then (ints (split_dot [] t.text) >>= λ octets.
          if any_above_255 octets
          then err (invalid_ipv4 t.text)
          else ok (pack_octets 0 octets, tokens))
      else err expected_ipv4

  unfoldable pub parse_port : List Token → Parsed ℕ
  unfolding int
  parse_port [] = err expected_port
  parse_port (t ∷ tokens) =
      if is_number t.kind
      then (int t.text >>= λ value.
          if ltb 0xffff value then err (port_out_of_range value) else ok (value, tokens))
      else err expected_port

  -- The rest of `_primitive`, once its direction is read.
  unfoldable pub primitive_after : Direction → List Token → Parsed Node
  unfolding parse_ipv4 parse_port protocol_after match_word is_keyword
  primitive_after direction [] = err (no_primitive direction)
  primitive_after direction (t ∷ tokens) = elim (protocol_after direction t) [
    | some name ↦ ok (proto name, tokens)
    | none ↦ elim (match_word (codes "host") (t ∷ tokens)) [
      | some rest ↦ parse_ipv4 rest >>= λ r. ok (host r.0 direction, r.1)
      | none ↦ elim (match_word (codes "port") (t ∷ tokens)) [
        | some rest ↦ parse_port rest >>= λ r. ok (port r.0 direction, r.1)
        | none ↦
            if is_word t.kind && not (is_keyword t.text)
            then err (unknown_primitive t.text)
            else err (expected_primitive_found t.text)
      ]
    ]
  ]

  unfoldable pub primitive : List Token → Parsed Node
  unfolding primitive_after match_word
  primitive tokens = elim (match_word (codes "src") tokens) [
    | some rest ↦ primitive_after src rest
    | none ↦ elim (match_word (codes "dst") tokens) [
      | some rest ↦ primitive_after dst rest
      | none ↦ primitive_after either tokens
    ]
  ]

  -- The methods that call one another, each call for a unit of fuel.
  unfoldable mutual
    unfolding primitive match_word match_kind

    pub or_expr : ℕ → List Token → Parsed Node
    or_expr zero tokens = err out_of_fuel
    or_expr (suc fuel) tokens = and_expr fuel tokens >>= λ r. or_loop fuel r.0 r.1

    pub or_loop : ℕ → Node → List Token → Parsed Node
    or_loop zero node tokens = err out_of_fuel
    or_loop (suc fuel) node tokens = elim (match_word (codes "or") tokens) [
      | none ↦ ok (node, tokens)
      | some rest ↦ and_expr fuel rest >>= λ r. or_loop fuel (one_of node r.0) r.1
    ]

    pub and_expr : ℕ → List Token → Parsed Node
    and_expr zero tokens = err out_of_fuel
    and_expr (suc fuel) tokens = not_expr fuel tokens >>= λ r. and_loop fuel r.0 r.1

    pub and_loop : ℕ → Node → List Token → Parsed Node
    and_loop zero node tokens = err out_of_fuel
    and_loop (suc fuel) node tokens = elim (match_word (codes "and") tokens) [
      | none ↦ ok (node, tokens)
      | some rest ↦ not_expr fuel rest >>= λ r. and_loop fuel (both node r.0) r.1
    ]

    pub not_expr : ℕ → List Token → Parsed Node
    not_expr zero tokens = err out_of_fuel
    not_expr (suc fuel) tokens = elim (match_word (codes "not") tokens) [
      | none ↦ primary fuel tokens
      | some rest ↦ not_expr fuel rest >>= λ r. ok (negate r.0, r.1)
    ]

    pub primary : ℕ → List Token → Parsed Node
    primary zero tokens = err out_of_fuel
    primary (suc fuel) tokens = elim (match_kind lparen tokens) [
      | none ↦ primitive tokens
      | some rest ↦ or_expr fuel rest >>= λ r. close r.0 (match_kind rparen r.1)
    ]

  -- `parse`, with fuel for the longest chain of calls.
  unfoldable pub parse_within : ℕ → List Token → Result Error Node
  unfolding or_expr
  parse_within fuel tokens = or_expr fuel tokens >>= λ r. finish r.0 r.1

  unfoldable pub parse : List Token → Result Error Node
  unfolding parse_within
  parse tokens = parse_within (6 * length tokens + 6) tokens
