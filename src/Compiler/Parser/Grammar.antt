-- ===== src/Compiler/Parser/Grammar.antt =====
-- The grammar of filter expressions, as a relation between tokens, the tokens left behind an
-- expression, and its tree: `or` binds loosest, then `and`, then `not`; both group to the left.
use root_wire.Base.{ℕ, ◌≡◌, some, List, ◌∷◌, ok}
use root_wire.Compiler.Syntax.{
  word, lparen, rparen, Token, Unicode, Protocol, Direction, either, src, dst, Node, proto, host,
  port, negate, both, one_of,
}
use root_wire.Compiler.Words.{codes, protocol_of, match_word}
use root_wire.Compiler.Parser.{match_kind, parse_ipv4, parse_port}

pub data Level : Type 0 where
  or and not primary : Level

-- An optional direction.
pub data Directs : Direction → List Token → List Token → Type 0 where
  undirected : {ts : List Token} → Directs either ts ts
  from_src : {ts us : List Token} → match_word (codes "src") ts ≡ some us → Directs src ts us
  to_dst : {ts us : List Token} → match_word (codes "dst") ts ≡ some us → Directs dst ts us

module _ (unicode : Unicode) where
  pub data Reads : Level → List Token → List Token → Node → Type 0 where
    only_and : {ts us : List Token} {n : Node} → Reads and ts us n → Reads or ts us n
    or_and :
        {ts us vs ws : List Token} {l r : Node}
        → Reads or ts us l
        → match_word (codes "or") us ≡ some vs
        → Reads and vs ws r
        → Reads or ts ws (one_of l r)
    only_not : {ts us : List Token} {n : Node} → Reads not ts us n → Reads and ts us n
    and_not :
        {ts us vs ws : List Token} {l r : Node}
        → Reads and ts us l
        → match_word (codes "and") us ≡ some vs
        → Reads not vs ws r
        → Reads and ts ws (both l r)
    only_primary : {ts us : List Token} {n : Node} → Reads primary ts us n → Reads not ts us n
    not_not :
        {ts us vs : List Token} {n : Node}
        → match_word (codes "not") ts ≡ some us
        → Reads not us vs n
        → Reads not ts vs (negate n)
    parens :
        {ts us vs ws : List Token} {n : Node}
        → match_kind lparen ts ≡ some us
        → Reads or us vs n
        → match_kind rparen vs ≡ some ws
        → Reads primary ts ws n
    protocol :
        {ts us : List Token} {t : Token} {name : Protocol}
        → us ≡ t ∷ ts
        → t.kind ≡ word
        → protocol_of t.text ≡ some name
        → Reads primary us ts (proto name)
    address :
        {ts us vs ws : List Token} {d : Direction} {addr : ℕ}
        → Directs d ts us
        → match_word (codes "host") us ≡ some vs
        → parse_ipv4 unicode vs ≡ ok (addr, ws)
        → Reads primary ts ws (host addr d)
    numbered :
        {ts us vs ws : List Token} {d : Direction} {value : ℕ}
        → Directs d ts us
        → match_word (codes "port") us ≡ some vs
        → parse_port unicode vs ≡ ok (value, ws)
        → Reads primary ts ws (port value d)
