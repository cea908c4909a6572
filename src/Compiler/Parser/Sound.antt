-- ===== src/Compiler/Parser/Sound.antt =====
-- The parser's fuel suffices, and what it returns is what the grammar reads.
use root_wire.Base.{
  ℕ, zero, suc, ◌+◌, ◌*◌, ◌≤◌, ◌≡◌, refl, Option, none, some, List, [], ◌∷◌, length, arith, ok, err,
  ◌≢◌,
}
use root_wire.Compiler.Syntax.{lparen, rparen, Token, Unicode, Node, both, one_of, out_of_fuel}
use root_wire.Compiler.Words.{codes, match_word}
use root_wire.Compiler.Parser.{
  match_kind, close, finish, or_expr, or_loop, and_expr, and_loop, not_expr, primary, parse,
}
use root_wire.Compiler.Parser.Ensures.{
  Ensures, returns, raises, Ensures-ok, Ensures-ne-out_of_fuel, Ensures-bind, Ensures-option,
  Ensures-mono,
}
use root_wire.Compiler.Parser.Grammar.{Level, Reads}
use root_wire.Compiler.Parser.Primitive.{
  length-match_word, length-match_kind, Behind, primitive-Ensures,
}

module _ (unicode : Unicode) where
  close-Ensures :
      (ts us vs : List Token) (n : Node)
      → match_kind lparen ts ≡ some us
      → Behind unicode Level.or us (n, vs)
      → Ensures (Behind unicode Level.primary ts) (close n (match_kind rparen vs))
  close-Ensures ts us vs n p (h, k) = closed (match_kind rparen vs) refl
    where
      closed :
          (o : Option (List Token))
          → match_kind rparen vs ≡ o
          → Ensures (Behind unicode Level.primary ts) (close n o)
      closed none q = raises cc
      closed (some ws) q = returns (
        Reads.parens p h q,
        omega (arith, length-match_kind lparen ts p, length-match_kind rparen vs q),
      )

  -- In a loop: an expression of the level is read up to the tokens that are left.
  abbrev GoesOn : Level → List Token → List Token → Node × List Token → Type 0
  GoesOn level ts us r = Reads unicode level ts r.1 r.0 × (length r.1 ≤ length us)

  mutual
    unfolding or_expr

    or_expr-Ensures :
        (fuel : ℕ) (ts : List Token)
        → 6 * length ts + 4 ≤ fuel
        → Ensures (Behind unicode Level.or ts) (or_expr unicode fuel ts)
    or_expr-Ensures zero ts h = absurd (omega arith)
    or_expr-Ensures (suc fuel) ts h =
        Ensures-bind (and_expr-Ensures fuel ts (omega arith)) λ r (p, q).
          Ensures-mono (λ s (u, v). (u, omega arith))
            (or_loop-Ensures fuel ts r.0 r.1 (omega arith) (Reads.only_and p))

    or_loop-Ensures :
        (fuel : ℕ) (ts : List Token) (n : Node) (us : List Token)
        → 6 * length us + 1 ≤ fuel
        → Reads unicode Level.or ts us n
        → Ensures (GoesOn Level.or ts us) (or_loop unicode fuel n us)
    or_loop-Ensures zero ts n us h k = absurd (omega arith)
    or_loop-Ensures (suc fuel) ts n us h k =
        Ensures-option (match_word (codes "or") us) (λ _. returns (k, omega arith))
          (λ vs p.
            let e = length-match_word (codes "or") us p in
            Ensures-bind (and_expr-Ensures fuel vs (omega arith)) λ r (u, v).
              Ensures-mono (λ s (w, x). (w, omega arith))
                (or_loop-Ensures fuel ts (one_of n r.0) r.1 (omega arith) (Reads.or_and k p u)))

    and_expr-Ensures :
        (fuel : ℕ) (ts : List Token)
        → 6 * length ts + 3 ≤ fuel
        → Ensures (Behind unicode Level.and ts) (and_expr unicode fuel ts)
    and_expr-Ensures zero ts h = absurd (omega arith)
    and_expr-Ensures (suc fuel) ts h =
        Ensures-bind (not_expr-Ensures fuel ts (omega arith)) λ r (p, q).
          Ensures-mono (λ s (u, v). (u, omega arith))
            (and_loop-Ensures fuel ts r.0 r.1 (omega arith) (Reads.only_not p))

    and_loop-Ensures :
        (fuel : ℕ) (ts : List Token) (n : Node) (us : List Token)
        → 6 * length us + 1 ≤ fuel
        → Reads unicode Level.and ts us n
        → Ensures (GoesOn Level.and ts us) (and_loop unicode fuel n us)
    and_loop-Ensures zero ts n us h k = absurd (omega arith)
    and_loop-Ensures (suc fuel) ts n us h k =
        Ensures-option (match_word (codes "and") us) (λ _. returns (k, omega arith))
          (λ vs p.
            let e = length-match_word (codes "and") us p in
            Ensures-bind (not_expr-Ensures fuel vs (omega arith)) λ r (u, v).
              Ensures-mono (λ s (w, x). (w, omega arith))
                (and_loop-Ensures fuel ts (both n r.0) r.1 (omega arith) (Reads.and_not k p u)))

    not_expr-Ensures :
        (fuel : ℕ) (ts : List Token)
        → 6 * length ts + 2 ≤ fuel
        → Ensures (Behind unicode Level.not ts) (not_expr unicode fuel ts)
    not_expr-Ensures zero ts h = absurd (omega arith)
    not_expr-Ensures (suc fuel) ts h =
        Ensures-option (match_word (codes "not") ts)
          (λ _.
            Ensures-mono (λ r (u, v). (Reads.only_primary u, v))
              (primary-Ensures fuel ts (omega arith)))
          (λ us p.
            let e = length-match_word (codes "not") ts p in
            Ensures-bind (not_expr-Ensures fuel us (omega arith))
              λ r (u, v). returns (Reads.not_not p u, omega arith))

    primary-Ensures :
        (fuel : ℕ) (ts : List Token)
        → 6 * length ts + 1 ≤ fuel
        → Ensures (Behind unicode Level.primary ts) (primary unicode fuel ts)
    primary-Ensures zero ts h = absurd (omega arith)
    primary-Ensures (suc fuel) ts h =
        Ensures-option (match_kind lparen ts) (λ _. primitive-Ensures unicode ts)
          (λ us p.
            let e = length-match_kind lparen ts p in
            Ensures-bind (or_expr-Ensures fuel us (omega arith))
              λ r k. close-Ensures ts us r.1 r.0 p k)

  finish-Ensures :
      (ts us : List Token) (n : Node)
      → Reads unicode Level.or ts us n
      → Ensures (λ m. Reads unicode Level.or ts [] m) (finish n us)
  finish-Ensures ts [] n h = returns h
  finish-Ensures ts (t ∷ us) n h = raises cc

  parse-Ensures :
      (ts : List Token) → Ensures (λ n. Reads unicode Level.or ts [] n) (parse unicode ts)
  unfolding parse
  parse-Ensures ts =
      Ensures-bind (or_expr-Ensures (6 * length ts + 6) ts (omega arith))
        λ r h. finish-Ensures ts r.1 r.0 h.0

  -- The fuel that `parse` hands out is enough for every list of tokens.
  pub parse-ne-out_of_fuel : (ts : List Token) → parse unicode ts ≢ err out_of_fuel
  parse-ne-out_of_fuel ts = Ensures-ne-out_of_fuel (parse-Ensures ts)

  -- What the parser returns is a tree that the grammar reads from the whole list of tokens.
  pub parse-Reads :
      (ts : List Token) (n : Node) → parse unicode ts ≡ ok n → Reads unicode Level.or ts [] n
  parse-Reads ts n h = Ensures-ok (parse-Ensures ts) h
