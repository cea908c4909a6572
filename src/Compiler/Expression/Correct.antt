-- ===== src/Compiler/Expression/Correct.antt =====
-- From the text of an expression to what its program decides.
use root_wire.Base.{
  ℕ, ◌≤◌, ◌≡◌, List, [], ◌∷◌, Result, ok, err, ◌>>=◌, >>=-eq-ok, ◌≢◌, inl, inr, length,
}
use root_wire.Bpf.{SockFilter}
use root_wire.Vm.{Packet, run_within}
use root_wire.Compiler.Syntax.{Text, Token, Unicode, Node, Error, out_of_fuel}
use root_wire.Compiler.Lexer.{tokenize}
use root_wire.Compiler.Lexer.Total.{tokenize-ne-out_of_fuel}
use root_wire.Compiler.Parser.{parse}
use root_wire.Compiler.Parser.Grammar.{Level, Reads}
use root_wire.Compiler.Parser.Sound.{parse-Reads, parse-ne-out_of_fuel}
use root_wire.Compiler.Meaning.{matches}
use root_wire.Compiler.Assembly.{compile_tree}
use root_wire.Compiler.Assembly.Correct.{decision, run_within-compile_tree, compile_tree-Fits}
use root_wire.Compiler.Linking.Locations.{Fits}
use root_wire.Compiler.Expression.{parse_tokens, parse_expression, compile_expression}

bind-ne-err {ℓ κ} :
    {A : Type ℓ} {B : Type κ} {e : Error} (r : Result Error A) (f : A → Result Error B)
    → r ≢ err e
    → ((a : A) → f a ≢ err e)
    → (r >>= f) ≢ err e
bind-ne-err (ok a) f h k = k a
bind-ne-err (err e') f h k = λ p. h (cc p)

Fits-ne-out_of_fuel {ℓ} : {A : Type ℓ} {n : ℕ} (r : Result Error A) → Fits n r → r ≢ err out_of_fuel
Fits-ne-out_of_fuel r (inl (a, h)) = λ p. cc
Fits-ne-out_of_fuel r (inr (h, k)) = λ p. cc

module _ (unicode : Unicode) (expr : Text) where
  -- The tree of an expression is the one that the grammar reads off all of its tokens, `or` binding
  -- loosest, then `and`, then `not`, both connectives grouping to the left.
  pub parse_expression-Reads :
      (ast : Node)
      → parse_expression unicode expr ≡ ok ast
      → (tokens : List Token) × (tokenize unicode expr ≡ ok tokens)
        × Reads unicode Level.or tokens [] ast
  unfolding parse_expression parse_tokens
  parse_expression-Reads ast p =
      let (tokens, r, s) = >>=-eq-ok (tokenize unicode expr) (parse_tokens unicode) p in
      (tokens, r, parse-Reads unicode tokens ast (parse_tokens-eq_ok tokens ast s))
    where
      parse_tokens-eq_ok :
          (tokens : List Token) (ast : Node)
          → parse_tokens unicode tokens ≡ ok ast
          → parse unicode tokens ≡ ok ast
      parse_tokens-eq_ok [] ast e = cc
      parse_tokens-eq_ok (t ∷ tokens) ast e = e

  -- When an expression compiles, it has a tree, and on every packet, given a round for each
  -- instruction, the program keeps the whole packet where the tree's meaning holds and nothing
  -- where it fails or looks beyond the end of the packet.
  pub compile_expression-decides :
      (program : List SockFilter) (packet : Packet) (rounds : ℕ)
      → compile_expression unicode expr ≡ ok program
      → length program ≤ rounds
      → (ast : Node) × (parse_expression unicode expr ≡ ok ast)
        × (run_within rounds program packet ≡ ok (decision (matches ast packet)))
  unfolding compile_expression
  compile_expression-decides program packet rounds h enough =
      let (ast, p, q) = >>=-eq-ok (parse_expression unicode expr) compile_tree h in
      (ast, p, run_within-compile_tree ast packet rounds program q enough)

  -- A compilation never stops for want of fuel: it returns a program or raises an error.
  pub compile_expression-ne-out_of_fuel : compile_expression unicode expr ≢ err out_of_fuel
  unfolding compile_expression parse_expression parse_tokens
  compile_expression-ne-out_of_fuel =
      bind-ne-err (parse_expression unicode expr) compile_tree
        (bind-ne-err (tokenize unicode expr) (parse_tokens unicode)
          (tokenize-ne-out_of_fuel unicode expr) parsed)
        assembled
    where
      parsed : (tokens : List Token) → parse_tokens unicode tokens ≢ err out_of_fuel
      parsed [] = cc
      parsed (t ∷ tokens) = parse-ne-out_of_fuel unicode (t ∷ tokens)

      assembled : (ast : Node) → compile_tree ast ≢ err out_of_fuel
      assembled ast = Fits-ne-out_of_fuel (compile_tree ast) (compile_tree-Fits ast).1
