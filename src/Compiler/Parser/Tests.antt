-- ===== src/Compiler/Parser/Tests.antt =====
-- The parser at a concrete list of tokens.
use root_wire.Base.{◌≡◌, refl, List, [], ◌∷◌, ok}
use root_wire.Samples.{ascii}
use root_wire.Compiler.Syntax.{
  word, lparen, rparen, Token, token, Node, proto, negate, both, one_of, Protocol,
}
use root_wire.Compiler.Words.{codes, match_word, text_eq, protocol_of}
use root_wire.Compiler.Parser.{parse, match_kind}
use root_wire.Compiler.Parser.Grammar.{Level, Reads}
use root_wire.Compiler.Parser.Complete.{Reads-parse}

-- not (tcp or udp) and arp
abbrev tokens : List Token
tokens =
    token word (codes "not")
    ∷ token lparen (codes "(")
    ∷ token word (codes "tcp")
    ∷ token word (codes "or")
    ∷ token word (codes "udp")
    ∷ token rparen (codes ")")
    ∷ token word (codes "and")
    ∷ token word (codes "arp")
    ∷ []

abbrev tree : Node
tree = both (negate (one_of (proto Protocol.tcp) (proto Protocol.udp))) (proto Protocol.arp)

Reads-tokens : Reads ascii Level.or tokens [] tree
unfolding match_word text_eq protocol_of match_kind
Reads-tokens = Reads.only_and (
    Reads.and_not
      (Reads.only_not (
        Reads.not_not refl (
          Reads.only_primary (
            Reads.parens refl
              (Reads.or_and
                (Reads.only_and
                  (Reads.only_not (Reads.only_primary (Reads.protocol refl refl refl))))
                refl (Reads.only_not (Reads.only_primary (Reads.protocol refl refl refl))))
              refl))))
      refl (Reads.only_primary (Reads.protocol refl refl refl)))

Reads-parse_example : parse ascii tokens ≡ ok tree
Reads-parse_example = Reads-parse ascii tokens tree Reads-tokens
