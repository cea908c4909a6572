-- ===== src/Compiler/Lexer/Tests.antt =====
-- The tokens of a text with white space in it.
use root_wire.Base.{◌≡◌, refl, ok, List, [], ◌∷◌}
use root_wire.Samples.{ascii, ascii-AsciiClasses}
use root_wire.Compiler.Syntax.{Token, token, ipv4, number, word, lparen, rparen}
use root_wire.Compiler.Words.{codes}
use root_wire.Compiler.Lexer.{tokenize}
use root_wire.Compiler.Lexer.Spaced.{AllShaped, Spells-AllShaped, tokenize-spaced}
use root_wire.Compiler.Lexer.Sound.{Spells, tokenize-Spells}

abbrev tokens : List Token
tokens =
    token lparen (codes "(")
    ∷ token word (codes "host")
    ∷ token ipv4 (codes "1.2.3.4")
    ∷ token number (codes "5")
    ∷ token rparen (codes ")")
    ∷ []

tokenize-Spells_example : Spells ascii (codes " (host 1.2.3.4 5)") tokens
unfolding tokenize
tokenize-Spells_example = tokenize-Spells ascii (codes " (host 1.2.3.4 5)") tokens refl

tokens-AllShaped : AllShaped ascii tokens
unfolding tokenize
tokens-AllShaped =
    Spells-AllShaped ascii (tokenize-Spells ascii (codes " (host 1.2.3.4 5)") tokens refl)

tokenize-spaced_example : tokenize ascii (codes "( host 1.2.3.4 5 ) ") ≡ ok tokens
tokenize-spaced_example = tokenize-spaced ascii ascii-AsciiClasses tokens tokens-AllShaped
