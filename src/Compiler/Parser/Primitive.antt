-- ===== src/Compiler/Parser/Primitive.antt =====
-- What the parser reads for a primitive, and how many tokens it takes.
use root_wire.Base.{
  ℕ, suc, ◌+◌, ◌*◌, ◌≤◌, ◌<◌, ◌≡◌, refl, Bool, true, false, some, List, [], ◌∷◌, length, arith,
  Result, ok, if◌then◌else◌, ltb, ◌&&◌, not, Bool-cases, inl, inr,
}
use root_wire.Compiler.Syntax.{
  Text, Kind, word, Token, Unicode, Protocol, Direction, either, src, dst, Node, proto, Error,
}
use root_wire.Compiler.Words.{codes, match_word, is_word, is_keyword}
use root_wire.Compiler.Parser.{
  match_kind, is_ipv4, is_number, int, int_digits, ints, parse_ipv4, parse_port, primitive_after,
  primitive, protocol_after, split_dot, any_above_255,
}
use root_wire.Compiler.Parser.Ensures.{Ensures, returns, raises, Ensures-bind, Ensures-option}
use root_wire.Compiler.Parser.Grammar.{Level, Directs, Reads}

pub length-match_word :
    (text : Text) (ts : List Token) {us : List Token}
    → match_word text ts ≡ some us
    → suc (length us) ≡ length ts
unfolding match_word
length-match_word text [] h = cc
length-match_word text (t ∷ ts) h = ground arith

pub length-match_kind :
    (kind : Kind) (ts : List Token) {us : List Token}
    → match_kind kind ts ≡ some us
    → suc (length us) ≡ length ts
unfolding match_kind
length-match_kind kind [] h = cc
length-match_kind kind (t ∷ ts) h = ground arith

Ensures-if {ℓ κ} :
    {A : Type ℓ} {P : A → Type κ} (b : Bool) {x y : Result Error A}
    → (b ≡ true → Ensures P x)
    → (b ≡ false → Ensures P y)
    → Ensures P (if b then x else y)
Ensures-if true h k = h refl
Ensures-if false h k = k refl

is_word-eq_true : (k : Kind) → is_word k ≡ true → k ≡ word
is_word-eq_true word h = refl
is_word-eq_true Kind.ipv4 h = cc
is_word-eq_true Kind.number h = cc
is_word-eq_true Kind.lparen h = cc
is_word-eq_true Kind.rparen h = cc
is_word-eq_true Kind.space h = cc

Directs-either : {ts us : List Token} → Directs either ts us → ts ≡ us
Directs-either Directs.undirected = refl

-- A property of a result, with the equation that says whose result it is.
with_result {ℓ κ} :
    {A : Type ℓ} {P : A → Type κ} {r : Result Error A}
    → Ensures P r
    → Ensures (λ a. P a × (r ≡ ok a)) r
with_result (returns h) = returns (h, refl)
with_result (raises h) = raises h

module _ (unicode : Unicode) where
  int_digits-Ensures :
      (value : ℕ) (text : Text) → Ensures (λ _. Unit {0}) (int_digits unicode value text)
  unfolding int_digits
  int_digits-Ensures value [] = returns tt
  int_digits-Ensures value (c ∷ text) =
      Ensures-option (unicode.digit c) (λ _. raises cc)
        (λ d _. int_digits-Ensures (value * 10 + d) text)

  int-Ensures : (text : Text) → Ensures (λ _. Unit {0}) (int unicode text)
  unfolding int
  int-Ensures [] = raises cc
  int-Ensures (c ∷ text) =
      Ensures-if (ltb 4300 (length (c ∷ text))) (λ _. raises cc)
        (λ _. int_digits-Ensures 0 (c ∷ text))

  ints-Ensures : (parts : List Text) → Ensures (λ _. Unit {0}) (ints unicode parts)
  unfolding ints
  ints-Ensures [] = returns tt
  ints-Ensures (part ∷ parts) =
      Ensures-bind (int-Ensures part) λ _ _. Ensures-bind (ints-Ensures parts) λ _ _. returns tt

  pub parse_ipv4-Ensures :
      (ts : List Token) → Ensures (λ r. suc (length r.1) ≡ length ts) (parse_ipv4 unicode ts)
  unfolding parse_ipv4
  parse_ipv4-Ensures [] = raises cc
  parse_ipv4-Ensures (t ∷ ts) =
      Ensures-if (is_ipv4 t.kind)
        (λ _.
          Ensures-bind (ints-Ensures (split_dot [] t.text))
            λ octets _. Ensures-if (any_above_255 octets) (λ _. raises cc) (λ _. returns refl))
        (λ _. raises cc)

  pub parse_port-Ensures :
      (ts : List Token) → Ensures (λ r. suc (length r.1) ≡ length ts) (parse_port unicode ts)
  unfolding parse_port
  parse_port-Ensures [] = raises cc
  parse_port-Ensures (t ∷ ts) =
      Ensures-if (is_number t.kind)
        (λ _.
          Ensures-bind (int-Ensures t.text)
            λ value _. Ensures-if (ltb 0xffff value) (λ _. raises cc) (λ _. returns refl))
        (λ _. raises cc)

  -- What a method reads, and that it leaves fewer tokens.
  abbrev pub Behind : Level → List Token → Node × List Token → Type 0
  Behind level ts r = Reads unicode level ts r.1 r.0 × (length r.1 < length ts)

  Reads-protocol :
      (d : Direction) (ts us : List Token) (t : Token) (name : Protocol)
      → Directs d ts (t ∷ us)
      → protocol_after d t ≡ some name
      → Reads unicode Level.primary ts us (proto name)
  unfolding protocol_after
  Reads-protocol either ts us t name h p = elim (Bool-cases (is_word t.kind)) [
    | inl w ↦ Reads.protocol (Directs-either h) (is_word-eq_true t.kind w) (rw w at p)
    | inr w ↦ cc
  ]
  Reads-protocol src ts us t name h p = cc
  Reads-protocol dst ts us t name h p = cc

  primitive_after-Ensures :
      (d : Direction) (ts us : List Token)
      → Directs d ts us
      → length us ≤ length ts
      → Ensures (Behind Level.primary ts) (primitive_after unicode d us)
  unfolding primitive_after protocol_after
  primitive_after-Ensures either ts [] h k = raises cc
  primitive_after-Ensures src ts [] h k = raises cc
  primitive_after-Ensures dst ts [] h k = raises cc
  primitive_after-Ensures d ts (t ∷ us) h k =
      Ensures-option (protocol_after d t)
        (λ _.
          Ensures-option (match_word (codes "host") (t ∷ us))
            (λ _.
              Ensures-option (match_word (codes "port") (t ∷ us))
                (λ _.
                  Ensures-if (is_word t.kind && not (is_keyword t.text)) (λ _. raises cc)
                    (λ _. raises cc))
                (λ vs p. Ensures-bind (with_result (parse_port-Ensures vs)) λ r e. returns (
                  Reads.numbered h p e.1,
                  omega (arith, length-match_word (codes "port") (t ∷ us) p, e.0),
                )))
            (λ vs p. Ensures-bind (with_result (parse_ipv4-Ensures vs)) λ r e. returns (
              Reads.address h p e.1,
              omega (arith, length-match_word (codes "host") (t ∷ us) p, e.0),
            )))
        (λ name p. returns (Reads-protocol d ts us t name h p, omega arith))

  pub primitive-Ensures :
      (ts : List Token) → Ensures (Behind Level.primary ts) (primitive unicode ts)
  unfolding primitive
  primitive-Ensures ts =
      Ensures-option (match_word (codes "src") ts)
        (λ _.
          Ensures-option (match_word (codes "dst") ts)
            (λ _. primitive_after-Ensures either ts ts Directs.undirected (omega arith))
            (λ us p.
              primitive_after-Ensures dst ts us (Directs.to_dst p)
                (omega (arith, length-match_word (codes "dst") ts p))))
        (λ us p.
          primitive_after-Ensures src ts us (Directs.from_src p)
            (omega (arith, length-match_word (codes "src") ts p)))
