-- ===== src/Compiler/Parser/Accepts.antt =====
-- What the parser does with a primitive that the grammar reads, and where its loops stop.
use root_wire.Base.{
  zero, suc, arith, ◌≤◌, ℕ, ◌≡◌, refl, ap, Bool, true, false, none, some, List, ◌∷◌, ok,
}
use root_wire.Compiler.Syntax.{
  word, lparen, Token, Unicode, Protocol, Direction, either, src, dst, Node, proto, host, port,
}
use root_wire.Compiler.Words.{codes, match_word, is_word, protocol_of}
use root_wire.Compiler.Parser.{
  and_loop, or_loop, parse_ipv4, parse_port, primitive_after, primitive, protocol_after,
}
use root_wire.Compiler.Parser.Grammar.{Level, Reads}
use root_wire.Compiler.Parser.Next.{
  match_word-Next, match_word_other, match_word_paren, match_word_protocol, Directs-other,
}

module _ (unicode : Unicode) where
  protocol_after-none :
      (d : Direction) (t : Token) → protocol_of t.text ≡ none → protocol_after d t ≡ none
  unfolding protocol_after
  protocol_after-none either t h = by_kind (is_word t.kind) refl
    where
      by_kind : (b : Bool) → is_word t.kind ≡ b → protocol_after either t ≡ none
      by_kind true e = rw (protocol_after, e, h)
      by_kind false e = rw (protocol_after, e)
  protocol_after-none src t h = refl
  protocol_after-none dst t h = refl

  pub primitive_after-host :
      (d : Direction) (us vs ws : List Token) (addr : ℕ)
      → match_word (codes "host") us ≡ some vs
      → parse_ipv4 unicode vs ≡ ok (addr, ws)
      → primitive_after unicode d us ≡ ok (host addr d, ws)
  unfolding primitive_after protocol_of
  primitive_after-host d us vs ws addr h k =
      let n = match_word-Next (codes "host") us vs h in
      let p = protocol_after-none d n.head (ap protocol_of n.spelt) in
      rw (primitive_after, n.tokens, p, rw n.tokens at h, k)

  pub primitive_after-port :
      (d : Direction) (us vs ws : List Token) (value : ℕ)
      → match_word (codes "port") us ≡ some vs
      → parse_port unicode vs ≡ ok (value, ws)
      → primitive_after unicode d us ≡ ok (port value d, ws)
  unfolding primitive_after protocol_of
  primitive_after-port d us vs ws value h k =
      let n = match_word-Next (codes "port") us vs h in
      let p = protocol_after-none d n.head (ap protocol_of n.spelt) in
      let other = match_word_other (codes "port") (codes "host") us vs refl h in
      rw (primitive_after, n.tokens, p, rw n.tokens at other, rw n.tokens at h, k)

  pub primitive-protocol :
      (t : Token) (ts : List Token) (name : Protocol)
      → t.kind ≡ word
      → protocol_of t.text ≡ some name
      → primitive unicode (t ∷ ts) ≡ ok (proto name, ts)
  unfolding primitive primitive_after protocol_after
  primitive-protocol t ts name k h = rw (
    primitive,
    match_word_protocol t ts name (codes "src") k h refl,
    match_word_protocol t ts name (codes "dst") k h refl,
    primitive_after,
    protocol_after,
    k,
    h,
  )

  -- No `not` stands where a primary expression does.
  pub primary-not :
      {ts us : List Token} {n : Node}
      → Reads unicode Level.primary ts us n
      → match_word (codes "not") ts ≡ none
  unfolding protocol_of
  primary-not (Reads.parens {ts = ts} {us = us} h r k) =
      match_word_paren lparen (codes "not") ts us refl h
  primary-not (Reads.protocol {ts = ts} {t = t} {name = name} e k h) =
      rw e (match_word_protocol t ts name (codes "not") k h refl)
  primary-not (Reads.address {ts = ts} {us = us} {vs = vs} d h k) =
      Directs-other unicode ts us vs (codes "host") (codes "not") d h refl refl refl
  primary-not (Reads.numbered {ts = ts} {us = us} {vs = vs} d h k) =
      Directs-other unicode ts us vs (codes "port") (codes "not") d h refl refl refl

  pub and_loop-stops :
      (f : ℕ) (n : Node) (us : List Token)
      → 1 ≤ f
      → match_word (codes "and") us ≡ none
      → and_loop unicode f n us ≡ ok (n, us)
  unfolding and_loop
  and_loop-stops zero n us b h = absurd (omega arith)
  and_loop-stops (suc f) n us b h = rw (and_loop, h)

  pub or_loop-stops :
      (f : ℕ) (n : Node) (us : List Token)
      → 1 ≤ f
      → match_word (codes "or") us ≡ none
      → or_loop unicode f n us ≡ ok (n, us)
  unfolding or_loop
  or_loop-stops zero n us b h = absurd (omega arith)
  or_loop-stops (suc f) n us b h = rw (or_loop, h)
