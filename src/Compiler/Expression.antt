-- ===== src/Compiler/Expression.antt =====
-- src/rootwire/bpf_compiler.py, `compile_expression`: a text to a program.
pub mod Correct
pub mod Bounds
use root_wire.Base.{List, [], ◌∷◌, Result, ok, err, ◌>>=◌}
use root_wire.Bpf.{SockFilter}
use root_wire.Compiler.Syntax.{Text, Token, Unicode, Node, Error, empty_expression}
use root_wire.Compiler.Lexer.{tokenize}
use root_wire.Compiler.Parser.{parse}
use root_wire.Compiler.Assembly.{compile_tree}

module _ (unicode : Unicode) where
  -- `if not tokens: raise BPFCompileError("empty expression")`, then the parser.
  unfoldable pub parse_tokens : List Token → Result Error Node
  unfolding parse
  parse_tokens [] = err empty_expression
  parse_tokens (t ∷ tokens) = parse unicode (t ∷ tokens)

  -- The tree of an expression.
  unfoldable pub parse_expression : Text → Result Error Node
  unfolding tokenize parse_tokens
  parse_expression expr = tokenize unicode expr >>= parse_tokens

  unfoldable pub compile_expression : Text → Result Error (List SockFilter)
  unfolding parse_expression compile_tree
  compile_expression expr = parse_expression expr >>= compile_tree
