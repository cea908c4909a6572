-- ===== src/Compiler/Parser/Complete.antt =====
-- Whatever the grammar reads the parser accepts, with the same tree.
use root_wire.Base.{
  ℕ, zero, suc, ◌+◌, ◌*◌, ◌≤◌, ◌<◌, ◌≡◌, refl, ap, ◌∙◌, none, some, List, [], ok, length, arith,
}
use root_wire.Compiler.Syntax.{lparen, rparen, Token, Unicode, Node, negate, both, one_of}
use root_wire.Compiler.Words.{codes, text_eq, match_word}
use root_wire.Compiler.Parser.{
  match_kind, primitive, or_expr, or_loop, and_expr, and_loop, not_expr, primary, parse,
}
use root_wire.Compiler.Parser.Grammar.{Level, Reads}
use root_wire.Compiler.Parser.Primitive.{length-match_word, length-match_kind}
use root_wire.Compiler.Parser.Next.{
  match_word_other, match_word_paren, match_kind_protocol, length-Reads, primitive-Reads,
  Directs-paren,
}
use root_wire.Compiler.Parser.Accepts.{
  and_loop-stops, or_loop-stops, primitive_after-host, primitive_after-port, primitive-protocol,
  primary-not,
}

module _ (unicode : Unicode) where
  -- The parser gets behind an expression with fuel left for the loop of its level.
  abbrev Answers : Level → List Token → List Token → Node → Type 0
  Answers Level.or ts us n =
      (fuel : ℕ)
      → 6 * length ts + 4 ≤ fuel
      → match_word (codes "and") us ≡ none
      → (left : ℕ) × (6 * length us + 1 ≤ left)
        × (or_expr unicode fuel ts ≡ or_loop unicode left n us)
  Answers Level.and ts us n =
      (fuel : ℕ)
      → 6 * length ts + 3 ≤ fuel
      → (left : ℕ) × (6 * length us + 1 ≤ left)
        × (and_expr unicode fuel ts ≡ and_loop unicode left n us)
  Answers Level.not ts us n =
      (fuel : ℕ) → 6 * length ts + 2 ≤ fuel → not_expr unicode fuel ts ≡ ok (n, us)
  Answers Level.primary ts us n =
      (fuel : ℕ) → 6 * length ts + 1 ≤ fuel → primary unicode fuel ts ≡ ok (n, us)

  record Completes (level : Level) (ts us : List Token) (n : Node) : Type 0 where
    answers : Answers level ts us n

  -- An expression of `and` is read whole where no `and` stands behind it.
  and_expr-whole :
      {ts us : List Token} {n : Node}
      → Completes Level.and ts us n
      → (fuel : ℕ) → 6 * length ts + 3 ≤ fuel
      → match_word (codes "and") us ≡ none
      → and_expr unicode fuel ts ≡ ok (n, us)
  and_expr-whole {us = us} {n = n} c fuel b h =
      let (left, k, e) = c.answers fuel b in e ∙ and_loop-stops unicode left n us (omega arith) h

  or_expr-whole :
      {ts us : List Token} {n : Node}
      → Completes Level.or ts us n
      → (fuel : ℕ) → 6 * length ts + 4 ≤ fuel
      → match_word (codes "and") us ≡ none
      → match_word (codes "or") us ≡ none
      → or_expr unicode fuel ts ≡ ok (n, us)
  or_expr-whole {us = us} {n = n} c fuel b h k =
      let (left, l, e) = c.answers fuel b h in e ∙ or_loop-stops unicode left n us (omega arith) k

  only_and-Answers :
      {ts us : List Token} {n : Node}
      → Reads unicode Level.and ts us n
      → Completes Level.and ts us n
      → Answers Level.or ts us n
  unfolding or_expr
  only_and-Answers r c zero b h = absurd (omega arith)
  only_and-Answers r c (suc fuel) b h =
      let l = length-Reads unicode r in
      (fuel, omega arith, rw (or_expr, and_expr-whole c fuel (omega arith) h))

  or_loop-Completes :
      (us : List Token) {vs ws : List Token} {r : Node} (l : Node) (left : ℕ)
      → 6 * length us + 1 ≤ left
      → match_word (codes "or") us ≡ some vs
      → length ws < length vs
      → Completes Level.and vs ws r
      → match_word (codes "and") ws ≡ none
      → (next : ℕ) × (6 * length ws + 1 ≤ next)
        × (or_loop unicode left l us ≡ or_loop unicode next (one_of l r) ws)
  unfolding or_loop
  or_loop-Completes us l zero b h k c s = absurd (omega arith)
  or_loop-Completes us l (suc left) b h k c s =
      let e = length-match_word (codes "or") us h in
      (left, omega arith, rw (or_loop, h, and_expr-whole c left (omega arith) s))

  only_not-Answers :
      {ts us : List Token} {n : Node}
      → Reads unicode Level.not ts us n
      → Completes Level.not ts us n
      → Answers Level.and ts us n
  unfolding and_expr
  only_not-Answers r c zero b = absurd (omega arith)
  only_not-Answers r c (suc fuel) b =
      let l = length-Reads unicode r in
      (fuel, omega arith, rw (and_expr, c.answers fuel (omega arith)))

  and_loop-Completes :
      (us : List Token) {vs ws : List Token} {r : Node} (l : Node) (left : ℕ)
      → 6 * length us + 1 ≤ left
      → match_word (codes "and") us ≡ some vs
      → length ws < length vs
      → Completes Level.not vs ws r
      → (next : ℕ) × (6 * length ws + 1 ≤ next)
        × (and_loop unicode left l us ≡ and_loop unicode next (both l r) ws)
  unfolding and_loop
  and_loop-Completes us l zero b h k c = absurd (omega arith)
  and_loop-Completes us l (suc left) b h k c =
      let e = length-match_word (codes "and") us h in
      (left, omega arith, rw (and_loop, h, c.answers left (omega arith)))

  not_not-Answers :
      (ts : List Token) {us vs : List Token} {n : Node}
      → match_word (codes "not") ts ≡ some us
      → Completes Level.not us vs n
      → Answers Level.not ts vs (negate n)
  unfolding not_expr
  not_not-Answers ts h c zero b = absurd (omega arith)
  not_not-Answers ts h c (suc fuel) b =
      let e = length-match_word (codes "not") ts h in rw (not_expr, h, c.answers fuel (omega arith))

  only_primary-Answers :
      (ts : List Token) {us : List Token} {n : Node}
      → match_word (codes "not") ts ≡ none
      → Completes Level.primary ts us n
      → Answers Level.not ts us n
  unfolding not_expr
  only_primary-Answers ts h c zero b = absurd (omega arith)
  only_primary-Answers ts h c (suc fuel) b = rw (not_expr, h, c.answers fuel (omega arith))

  parens-Answers :
      (ts vs : List Token) {us ws : List Token} {n : Node}
      → match_kind lparen ts ≡ some us
      → match_kind rparen vs ≡ some ws
      → Completes Level.or us vs n
      → Answers Level.primary ts ws n
  unfolding primary
  parens-Answers ts vs h k c zero b = absurd (omega arith)
  parens-Answers ts vs h k c (suc fuel) b =
      let e = length-match_kind lparen ts h in
      let p = match_word_paren rparen (codes "and") vs _ refl k in
      let q = match_word_paren rparen (codes "or") vs _ refl k in
      rw (primary, h, or_expr-whole c fuel (omega arith) p q, k)

  primitive-Answers :
      (ts : List Token) {us : List Token} {n : Node}
      → match_kind lparen ts ≡ none
      → primitive unicode ts ≡ ok (n, us)
      → Answers Level.primary ts us n
  unfolding primary
  primitive-Answers ts h k zero b = absurd (omega arith)
  primitive-Answers ts h k (suc fuel) b = rw (primary, h, k)

  Reads-Completes :
      {level : Level} {ts us : List Token} {n : Node}
      → Reads unicode level ts us n
      → Completes level ts us n
  unfolding text_eq
  Reads-Completes (Reads.only_and r) = record { answers = only_and-Answers r (Reads-Completes r) }
  Reads-Completes (Reads.or_and {us = us} l h r) = record {
    answers = λ fuel b s.
        let (left, k, e) =
          (Reads-Completes l).answers fuel b
            (match_word_other (codes "or") (codes "and") us _ refl h) in
        let (next, q, f) =
          or_loop-Completes _ _ left k h (length-Reads unicode r) (Reads-Completes r) s in
        (next, q, e ∙ f);
  }
  Reads-Completes (Reads.only_not r) = record { answers = only_not-Answers r (Reads-Completes r) }
  Reads-Completes (Reads.and_not l h r) = record {
    answers = λ fuel b.
        let (left, k, e) = (Reads-Completes l).answers fuel b in
        let (next, q, f) =
          and_loop-Completes _ _ left k h (length-Reads unicode r) (Reads-Completes r) in
        (next, q, e ∙ f);
  }
  Reads-Completes (Reads.only_primary r) = record {
    answers = only_primary-Answers _ (primary-not unicode r) (Reads-Completes r);
  }
  Reads-Completes (Reads.not_not h r) = record { answers = not_not-Answers _ h (Reads-Completes r) }
  Reads-Completes (Reads.parens h r k) = record {
    answers = parens-Answers _ _ h k (Reads-Completes r);
  }
  Reads-Completes (Reads.protocol {ts = ts} {t = t} {name = name} e k h) = record {
    answers =
        primitive-Answers _ (ap (match_kind lparen) e ∙ match_kind_protocol t ts k)
          (ap (primitive unicode) e ∙ primitive-protocol unicode t ts name k h);
  }
  Reads-Completes
        (Reads.address {ts = ts} {us = us} {vs = vs} {ws = ws} {d = d} {addr = addr} e h k) =
      record {
        answers = primitive-Answers _ (Directs-paren unicode ts us vs _ e h) (
            primitive-Reads unicode ts us _ e (primitive_after-host unicode d us vs ws addr h k)
              (match_word_other (codes "host") (codes "src") us vs refl h)
              (match_word_other (codes "host") (codes "dst") us vs refl h));
      }
  Reads-Completes
        (Reads.numbered {ts = ts} {us = us} {vs = vs} {ws = ws} {d = d} {value = value} e h k) =
      record {
        answers = primitive-Answers _ (Directs-paren unicode ts us vs _ e h) (
            primitive-Reads unicode ts us _ e (primitive_after-port unicode d us vs ws value h k)
              (match_word_other (codes "port") (codes "src") us vs refl h)
              (match_word_other (codes "port") (codes "dst") us vs refl h));
      }

  -- Where the grammar reads a tree from the whole list of tokens, `parse` returns that tree.
  pub Reads-parse :
      (ts : List Token) (n : Node) → Reads unicode Level.or ts [] n → parse unicode ts ≡ ok n
  unfolding parse match_word
  Reads-parse ts n r =
      rw (parse, or_expr-whole (Reads-Completes r) (6 * length ts + 6) (omega arith) refl refl)
