-- ===== src/Compiler/Parser/Next.antt =====
-- What can stand next where the grammar reads, and how many tokens it takes.
use root_wire.Base.{
  ◌≤◌, ◌<◌, ◌≡◌, refl, ap, true, false, none, some, List, [], ◌∷◌, Result, length, arith,
  if◌then◌else◌, Bool-cases, inl, inr, some-injective,
}
use root_wire.Compiler.Syntax.{
  Text, Kind, word, lparen, rparen, Token, Unicode, Protocol, Direction, Node, Error,
}
use root_wire.Compiler.Words.{codes, text_eq, text_eq→eq, match_word, is_word, protocol_of}
use root_wire.Compiler.Parser.{match_kind, kind_eq, primitive_after, primitive}
use root_wire.Compiler.Parser.Grammar.{Level, Directs, Reads}
use root_wire.Compiler.Parser.Primitive.{
  length-match_word, length-match_kind, parse_ipv4-Ensures, parse_port-Ensures,
}
use root_wire.Compiler.Parser.Ensures.{Ensures-ok}

-- The token that stands next is this word.
pub record Next (text : Text) (ts us : List Token) : Type 0 where
  pub head : Token
  pub tokens : ts ≡ head ∷ us
  pub kind : is_word head.kind ≡ true
  pub spelt : head.text ≡ text

pub match_word-Next :
    (text : Text) (ts us : List Token) → match_word text ts ≡ some us → Next text ts us
unfolding match_word
match_word-Next text [] us h = cc
match_word-Next text (t ∷ ts) us h = elim (Bool-cases (is_word t.kind)) [
  | inr e ↦ let k = rw (match_word, e) at h in cc
  | inl e ↦ elim (Bool-cases (text_eq t.text text)) [
    | inr f ↦ let k = rw (match_word, e, f) at h in cc
    | inl f ↦
        let k : ts ≡ us = some-injective (rw (match_word, e, f) at h) in
        record {
          head = t;
          tokens = ap (λ us. t ∷ us) k;
          kind = e;
          spelt = text_eq→eq t.text text f;
        }
  ]
]

-- Another word does not stand next.
pub match_word_other :
    (text other : Text) (ts us : List Token)
    → text_eq text other ≡ false
    → match_word text ts ≡ some us
    → match_word other ts ≡ none
unfolding match_word
match_word_other text other ts us d h =
    let n = match_word-Next text ts us h in rw (n.tokens, n.kind, n.spelt, d)

match_kind_word :
    (text : Text) (ts us : List Token) → match_word text ts ≡ some us → match_kind lparen ts ≡ none
unfolding match_kind
match_kind_word text ts us h =
    let n = match_word-Next text ts us h in rw (n.tokens) (by_kind n.head.kind n.kind us)
  where
    by_kind :
        (k : Kind)
        → is_word k ≡ true
        → (us : List Token) → (if kind_eq k lparen then some us else none) ≡ none
    by_kind word e us = refl
    by_kind Kind.ipv4 e us = cc
    by_kind Kind.number e us = cc
    by_kind lparen e us = cc
    by_kind rparen e us = cc
    by_kind Kind.space e us = cc

-- No word stands where a parenthesis does.
pub match_word_paren :
    (kind : Kind) (text : Text) (ts us : List Token)
    → (is_word kind ≡ false)
    → match_kind kind ts ≡ some us
    → match_word text ts ≡ none
unfolding match_word match_kind
match_word_paren kind text [] us w h = refl
match_word_paren kind text (t ∷ ts) us w h = by_kind t.kind refl
  where
    by_kind : (k : Kind) → t.kind ≡ k → match_word text (t ∷ ts) ≡ none
    by_kind word e = let k = rw (match_kind, e) at h in cc
    by_kind Kind.ipv4 e = rw (match_word, e)
    by_kind Kind.number e = rw (match_word, e)
    by_kind lparen e = rw (match_word, e)
    by_kind rparen e = rw (match_word, e)
    by_kind Kind.space e = rw (match_word, e)

length-Directs : {d : Direction} {ts us : List Token} → Directs d ts us → length us ≤ length ts
length-Directs Directs.undirected = omega arith
length-Directs {ts = ts} (Directs.from_src h) = omega (arith, length-match_word (codes "src") ts h)
length-Directs {ts = ts} (Directs.to_dst h) = omega (arith, length-match_word (codes "dst") ts h)

-- A word that `protocol_of` knows is not one of the others.
protocol-other :
    (t : Token) (name : Protocol) (other : Text)
    → protocol_of t.text ≡ some name
    → protocol_of other ≡ none
    → text_eq t.text other ≡ false
protocol-other t name other h k = elim (Bool-cases (text_eq t.text other)) [
  | inr e ↦ e
  | inl e ↦ let p = ap protocol_of (text_eq→eq t.text other e) in cc
]

pub match_word_protocol :
    (t : Token) (ts : List Token) (name : Protocol) (other : Text)
    → t.kind ≡ word
    → protocol_of t.text ≡ some name
    → protocol_of other ≡ none
    → match_word other (t ∷ ts) ≡ none
unfolding match_word
match_word_protocol t ts name other e h k = rw (match_word, e, protocol-other t name other h k)

pub match_kind_protocol :
    (t : Token) (ts : List Token) → t.kind ≡ word → match_kind lparen (t ∷ ts) ≡ none
unfolding match_kind
match_kind_protocol t ts e = rw (match_kind, e)

module _ (unicode : Unicode) where
  pub length-Reads :
      {level : Level} {ts us : List Token} {n : Node}
      → Reads unicode level ts us n
      → length us < length ts
  length-Reads (Reads.only_and r) = length-Reads r
  length-Reads (Reads.or_and {us = us} l h r) =
      omega (arith, length-Reads l, length-match_word (codes "or") us h, length-Reads r)
  length-Reads (Reads.only_not r) = length-Reads r
  length-Reads (Reads.and_not {us = us} l h r) =
      omega (arith, length-Reads l, length-match_word (codes "and") us h, length-Reads r)
  length-Reads (Reads.only_primary r) = length-Reads r
  length-Reads (Reads.not_not {ts = ts} h r) =
      omega (arith, length-match_word (codes "not") ts h, length-Reads r)
  length-Reads (Reads.parens {ts = ts} {vs = vs} h r k) =
      omega (arith, length-match_kind lparen ts h, length-Reads r, length-match_kind rparen vs k)
  length-Reads (Reads.protocol {ts = ts} h k name) = omega (arith, ap length h)
  length-Reads (Reads.address {us = us} {vs = vs} d h k) = omega (
    arith,
    length-Directs d,
    length-match_word (codes "host") us h,
    Ensures-ok (parse_ipv4-Ensures unicode vs) k,
  )
  length-Reads (Reads.numbered {us = us} {vs = vs} d h k) = omega (
    arith,
    length-Directs d,
    length-match_word (codes "port") us h,
    Ensures-ok (parse_port-Ensures unicode vs) k,
  )

  -- No `not` and no parenthesis stands in front of a primitive, and the primitive is read.
  pub primitive-Reads :
      {d : Direction} (ts us : List Token) (r : Result Error (Node × List Token))
      → Directs d ts us
      → primitive_after unicode d us ≡ r
      → match_word (codes "src") us ≡ none
      → match_word (codes "dst") us ≡ none
      → primitive unicode ts ≡ r
  unfolding primitive
  primitive-Reads ts us r Directs.undirected h s d = rw (primitive, s, d, h)
  primitive-Reads ts us r (Directs.from_src e) h s d = rw (primitive, e, h)
  primitive-Reads ts us r (Directs.to_dst e) h s d =
      rw (primitive, match_word_other (codes "dst") (codes "src") ts us refl e, e, h)

  pub Directs-other :
      {d : Direction} (ts us vs : List Token) (first other : Text)
      → Directs d ts us
      → match_word first us ≡ some vs
      → text_eq first other ≡ false
      → text_eq (codes "src") other ≡ false
      → text_eq (codes "dst") other ≡ false
      → match_word other ts ≡ none
  Directs-other ts us vs first other Directs.undirected h f s d =
      match_word_other first other ts vs f h
  Directs-other ts us vs first other (Directs.from_src e) h f s d =
      match_word_other _ other ts us s e
  Directs-other ts us vs first other (Directs.to_dst e) h f s d = match_word_other _ other ts us d e

  pub Directs-paren :
      {d : Direction} (ts us vs : List Token) (first : Text)
      → Directs d ts us
      → match_word first us ≡ some vs
      → match_kind lparen ts ≡ none
  Directs-paren ts us vs first Directs.undirected h = match_kind_word first ts vs h
  Directs-paren ts us vs first (Directs.from_src e) h = match_kind_word _ ts us e
  Directs-paren ts us vs first (Directs.to_dst e) h = match_kind_word _ ts us e
