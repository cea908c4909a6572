-- ===== src/Compiler/Syntax.antt =====
-- src/rootwire/bpf_compiler.py: the syntax trees that the parser builds, and the errors of the module.
use root_wire.Base.{ℕ, ◌+◌, ◌<◌, ◌≡◌, Bool, Option, none, some, List}

-- A text: its code points.
abbrev pub Text : Type 0
Text = List ℕ

-- The groups of `_TOKEN_RE`.
pub data Kind : Type 0 where
  ipv4 number word lparen rparen space : Kind

-- `_Token`
pub record Token : Type 0 where
  pub kind : Kind
  pub text : Text

abbrev pub token : Kind → Text → Token
token kind text = record { kind = kind; text = text }

-- What the regular expressions and `int` take from the Unicode database: the value of a decimal
-- digit, `\d`, and the white space, `\s`.
pub record Unicode : Type 0 where
  pub digit : ℕ → Option ℕ
  pub is_space : ℕ → Bool
  pub ascii_digit : (d : ℕ) → d < 10 → digit (48 + d) ≡ some d
  pub dot_digit : digit b'.' ≡ none

-- `_PROTOCOLS`
pub data Protocol : Type 0 where
  tcp udp icmp arp ip ip6 : Protocol

-- `direction`: `None`, "src" or "dst".
pub data Direction : Type 0 where
  either src dst : Direction

pub data Node : Type 0 where
  proto : Protocol → Node
  host : ℕ → Direction → Node
  port : ℕ → Direction → Node
  negate : Node → Node
  both : Node → Node → Node
  one_of : Node → Node → Node

-- What a compilation raises. `value_error` is the `ValueError` of `int` on a text of more digits
-- than the interpreter converts, `dangling_label` the `KeyError` of an unplaced label, and
-- `out_of_fuel` has no counterpart in the program; the others are a `BPFCompileError`.
pub data Error : Type 0 where
  unexpected_character : ℕ → Error
  empty_expression : Error
  unexpected_token : Text → Error
  unclosed_paren : Error
  expected_primitive : Error
  expected_primitive_after : Direction → Error
  expected_primitive_found : Text → Error
  unknown_primitive : Text → Error
  expected_ipv4 : Error
  invalid_ipv4 : Text → Error
  expected_port : Error
  port_out_of_range : ℕ → Error
  jump_out_of_range : Error
  value_error : Error
  dangling_label : Error
  out_of_fuel : Error
