-- ===== src/Compiler/Expression/Bounds.antt =====
-- The numbers in a tree fit their fields: an address 32 bits, a port 16.
use root_wire.Base.{
  ℕ, suc, ◌<◌, ◌≡◌, refl, ap, ◌∙◌, sym, true, false, some, List, [], ◌∷◌, ok, >>=-eq-ok, length,
  arith, Bool-cases, inl, inr, ltb, ◌&&◌,
}
use root_wire.Compiler.Syntax.{
  Text, Kind, ipv4, Token, Unicode, Direction, Node, proto, host, port, negate, both, one_of,
}
use root_wire.Compiler.Words.{match_word, is_word, text_eq}
use root_wire.Compiler.Lexer.Addresses.{HasParts, AllHaveParts, tokenize-AllHaveParts}
use root_wire.Compiler.Parser.{
  match_kind, kind_eq, is_ipv4, is_number, int, ints, split_dot, any_above_255, pack_octets,
  parse_ipv4, parse_port,
}
use root_wire.Compiler.Parser.Grammar.{Level, Directs, Reads}
use root_wire.Compiler.Expression.{parse_expression}
use root_wire.Compiler.Expression.Correct.{parse_expression-Reads}

unfoldable pub Bounded : Node → Type 0
Bounded (proto name) = Unit {0}
Bounded (host addr direction) = addr < 0x1_0000_0000
Bounded (port number direction) = number < 0x1_0000
Bounded (negate operand) = Bounded operand
Bounded (both left right) = Bounded left × Bounded right
Bounded (one_of left right) = Bounded left × Bounded right

is_ipv4-eq_true : (k : Kind) → is_ipv4 k ≡ true → k ≡ ipv4
is_ipv4-eq_true ipv4 h = refl
is_ipv4-eq_true Kind.number h = cc
is_ipv4-eq_true Kind.word h = cc
is_ipv4-eq_true Kind.lparen h = cc
is_ipv4-eq_true Kind.rparen h = cc
is_ipv4-eq_true Kind.space h = cc

module _ (unicode : Unicode) where
  pack_octets-lt :
      (octets : List ℕ)
      → length octets ≡ 4
      → any_above_255 octets ≡ false
      → pack_octets unicode 0 octets < 0x1_0000_0000
  unfolding pack_octets any_above_255
  pack_octets-lt [] h k = absurd (omega arith)
  pack_octets-lt (a ∷ []) h k = absurd (omega arith)
  pack_octets-lt (a ∷ b ∷ []) h k = absurd (omega arith)
  pack_octets-lt (a ∷ b ∷ c ∷ []) h k = absurd (omega arith)
  pack_octets-lt (a ∷ b ∷ c ∷ d ∷ []) h k = ground arith
  pack_octets-lt (a ∷ b ∷ c ∷ d ∷ e ∷ octets) h k = absurd (omega arith)

  length-ints :
      (parts : List Text) (octets : List ℕ)
      → ints unicode parts ≡ ok octets
      → length octets ≡ length parts
  unfolding ints
  length-ints [] octets h = let e : [] ≡ octets = cc in ap length (sym e)
  length-ints (part ∷ parts) octets h =
      let (n, p, q) = >>=-eq-ok (int unicode part) _ h in
      let (ns, p', q') = >>=-eq-ok (ints unicode parts) (λ ns. ok (n ∷ ns)) q in
      let e : n ∷ ns ≡ octets = cc in ap length (sym e) ∙ ap suc (length-ints parts ns p')

  match_word-AllHaveParts :
      (text : Text) (ts us : List Token)
      → match_word text ts ≡ some us
      → AllHaveParts ts
      → AllHaveParts us
  unfolding match_word AllHaveParts
  match_word-AllHaveParts text [] us h p = cc
  match_word-AllHaveParts text (t ∷ ts) us h p =
      elim (Bool-cases (is_word t.kind && text_eq t.text text)) [
        | inl e ↦ let e' : ts ≡ us = (let k = rw (match_word, e) at h in cc) in rw (← e') p.1
        | inr e ↦ let k = rw (match_word, e) at h in cc
      ]

  match_kind-AllHaveParts :
      (kind : Kind) (ts us : List Token)
      → match_kind kind ts ≡ some us
      → AllHaveParts ts
      → AllHaveParts us
  unfolding match_kind AllHaveParts
  match_kind-AllHaveParts kind [] us h p = cc
  match_kind-AllHaveParts kind (t ∷ ts) us h p = elim (Bool-cases (kind_eq t.kind kind)) [
    | inl e ↦ let e' : ts ≡ us = (let k = rw (match_kind, e) at h in cc) in rw (← e') p.1
    | inr e ↦ let k = rw (match_kind, e) at h in cc
  ]

  parse_ipv4-lt :
      (ts us : List Token) (addr : ℕ)
      → parse_ipv4 unicode ts ≡ ok (addr, us)
      → AllHaveParts ts
      → (addr < 0x1_0000_0000) × AllHaveParts us
  unfolding parse_ipv4 AllHaveParts HasParts
  parse_ipv4-lt [] us addr h p = cc
  parse_ipv4-lt (t ∷ ts) us addr h p = elim (Bool-cases (is_ipv4 t.kind)) [
    | inl e ↦
        let (octets, q, k) =
          >>=-eq-ok (ints unicode (split_dot [] t.text)) _ (rw (parse_ipv4, e) at h) in
        elim (Bool-cases (any_above_255 octets)) [
          | inl above ↦ let k' = rw above at k in cc
          | inr fits ↦
              let e' : ◌≡◌ {A = ℕ × List Token} (pack_octets unicode 0 octets, ts) (addr, us) =
                (let k' = rw fits at k in cc) in
              (
                rw (sym (ap (λ r. r.0) e')) (
                    pack_octets-lt octets (length-ints _ octets q ∙ p.0 (is_ipv4-eq_true t.kind e))
                      fits),
                rw (sym (ap (λ r. r.1) e')) p.1,
              )
        ]
    | inr e ↦ let k = rw (parse_ipv4, e) at h in cc
  ]

  parse_port-lt :
      (ts us : List Token) (value : ℕ)
      → parse_port unicode ts ≡ ok (value, us)
      → AllHaveParts ts
      → (value < 0x1_0000) × AllHaveParts us
  unfolding parse_port AllHaveParts
  parse_port-lt [] us value h p = cc
  parse_port-lt (t ∷ ts) us value h p = elim (Bool-cases (is_number t.kind)) [
    | inl e ↦
        let (n, q, k) = >>=-eq-ok (int unicode t.text) _ (rw (parse_port, e) at h) in
        elim (Bool-cases (ltb 0xffff n)) [
          | inl above ↦ let k' = rw above at k in cc
          | inr fits ↦
              let e' : ◌≡◌ {A = ℕ × List Token} (n, ts) (value, us) =
                (let k' = rw fits at k in cc) in
              (rw (sym (ap (λ r. r.0) e')) (ground arith), rw (sym (ap (λ r. r.1) e')) p.1)
        ]
    | inr e ↦ let k = rw (parse_port, e) at h in cc
  ]

  Directs-AllHaveParts :
      {d : Direction} {ts us : List Token} → Directs d ts us → AllHaveParts ts → AllHaveParts us
  Directs-AllHaveParts Directs.undirected p = p
  Directs-AllHaveParts {ts = ts} {us = us} (Directs.from_src h) p =
      match_word-AllHaveParts _ ts us h p
  Directs-AllHaveParts {ts = ts} {us = us} (Directs.to_dst h) p =
      match_word-AllHaveParts _ ts us h p

  AllHaveParts-tail : (t : Token) (ts : List Token) → AllHaveParts (t ∷ ts) → AllHaveParts ts
  unfolding AllHaveParts
  AllHaveParts-tail t ts p = p.1

  Reads-Bounded :
      {level : Level} {ts us : List Token} {n : Node}
      → Reads unicode level ts us n
      → AllHaveParts ts
      → Bounded n × AllHaveParts us
  unfolding Bounded
  Reads-Bounded (Reads.only_and r) p = Reads-Bounded r p
  Reads-Bounded (Reads.or_and l h r) p =
      let (bl, pl) = Reads-Bounded l p in
      let (br, pr) = Reads-Bounded r (match_word-AllHaveParts _ _ _ h pl) in ((bl, br), pr)
  Reads-Bounded (Reads.only_not r) p = Reads-Bounded r p
  Reads-Bounded (Reads.and_not l h r) p =
      let (bl, pl) = Reads-Bounded l p in
      let (br, pr) = Reads-Bounded r (match_word-AllHaveParts _ _ _ h pl) in ((bl, br), pr)
  Reads-Bounded (Reads.only_primary r) p = Reads-Bounded r p
  Reads-Bounded (Reads.not_not h r) p = Reads-Bounded r (match_word-AllHaveParts _ _ _ h p)
  Reads-Bounded (Reads.parens h r k) p =
      let (b, q) = Reads-Bounded r (match_kind-AllHaveParts _ _ _ h p) in
      (b, match_kind-AllHaveParts _ _ _ k q)
  Reads-Bounded (Reads.protocol h k name) p = (tt, AllHaveParts-tail _ _ (rw h at p))
  Reads-Bounded (Reads.address d h k) p =
      parse_ipv4-lt _ _ _ k (match_word-AllHaveParts _ _ _ h (Directs-AllHaveParts d p))
  Reads-Bounded (Reads.numbered d h k) p =
      parse_port-lt _ _ _ k (match_word-AllHaveParts _ _ _ h (Directs-AllHaveParts d p))

module _ (unicode : Unicode) (expr : Text) where
  -- The tree of an expression holds no address of more than 32 bits and no port above 65535.
  pub parse_expression-Bounded : (ast : Node) → parse_expression unicode expr ≡ ok ast → Bounded ast
  parse_expression-Bounded ast h =
      let (tokens, lexed, reads) = parse_expression-Reads unicode expr ast h in
      (Reads-Bounded unicode reads (tokenize-AllHaveParts unicode expr tokens lexed)).0
