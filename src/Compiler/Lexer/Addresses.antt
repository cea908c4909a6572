-- ===== src/Compiler/Lexer/Addresses.antt =====
-- The tokens of kind ipv4: four runs of digits between dots.
use root_wire.Base.{
  ℕ, zero, suc, ◌+◌, ◌≡◌, refl, ap, ◌∙◌, Bool, true, false, Option, none, some, List, [], ◌∷◌, ◌++◌,
  ok, >>=-eq-ok, ◌==◌, length, Bool-cases, inl, inr, ==_iff, ◌⊎◌, ◌≢◌,
}
use root_wire.Compiler.Syntax.{
  Text, Kind, ipv4, number, word, lparen, rparen, space, Token, token, Unicode,
}
use root_wire.Compiler.Lexer.{
  Match, run, some_run, joined, then_dot, or_else, as_kind, append_unless_space, is_digit,
  match_ipv4, match_token, tokenize_from, tokenize,
}
use root_wire.Compiler.Parser.{split_dot}

-- Every character passes the test.
unfoldable pub Passes : (ℕ → Bool) → Text → Type 0
Passes test [] = Unit {0}
Passes test (c ∷ text) = (test c ≡ true) × Passes test text

pub run-Passes : (test : ℕ → Bool) (limit : ℕ) (text : Text) → Passes test (run test limit text).0
unfolding run Passes
run-Passes test zero text = tt
run-Passes test (suc limit) [] = tt
run-Passes test (suc limit) (c ∷ text) = elim (Bool-cases (test c)) [
  | inl e ↦ rw e (e, run-Passes test limit text)
  | inr e ↦ rw e tt
]

-- What a run matches, if anything, passes the test.
some_run-cases :
    (test : ℕ → Bool) (limit : ℕ) (text : Text)
    → (some_run test limit text ≡ none)
      ⊎ ((m r : Text) × (some_run test limit text ≡ some (m, r)) × Passes test m)
unfolding some_run
some_run-cases test limit text =
    by_matched (run test limit text).0 refl (run-Passes test limit text)
  where
    by_matched :
        (m : Text)
        → (run test limit text).0 ≡ m
        → Passes test (run test limit text).0
        → (some_run test limit text ≡ none)
          ⊎ ((m r : Text) × (some_run test limit text ≡ some (m, r)) × Passes test m)
    by_matched [] e p = inl (rw (some_run, e))
    by_matched (c ∷ m) e p = inr (c ∷ m, (run test limit text).1, rw (some_run, e), rw e at p)

-- A token of kind ipv4 has four parts.
unfoldable pub HasParts : Token → Type 0
HasParts t = t.kind ≡ ipv4 → length (split_dot [] t.text) ≡ 4

unfoldable pub AllHaveParts : List Token → Type 0
unfolding HasParts
AllHaveParts [] = Unit {0}
AllHaveParts (t ∷ tokens) = HasParts t × AllHaveParts tokens

module _ (unicode : Unicode) where
  pub is_digit-dot : is_digit unicode b'.' ≡ false
  unfolding is_digit
  is_digit-dot = rw (is_digit, unicode.dot_digit)

  pub digit-ne-dot : (c : ℕ) → is_digit unicode c ≡ true → (c == b'.') ≡ false
  digit-ne-dot c h = elim (Bool-cases (c == b'.')) [
    | inl e ↦ let k = ap (is_digit unicode) ((==_iff c b'.').0 e) in cc (k, h, is_digit-dot)
    | inr e ↦ e
  ]

  -- A run of digits is one part.
  split_dot-digits : (part m : Text) → Passes (is_digit unicode) m → length (split_dot part m) ≡ 1
  unfolding split_dot Passes
  split_dot-digits part [] p = refl
  split_dot-digits part (c ∷ m) (p, ps) =
      rw (digit-ne-dot c p) (split_dot-digits (part ++ c ∷ []) m ps)

  split_dot-digits_dot :
      (part m t : Text)
      → Passes (is_digit unicode) m
      → length (split_dot part (m ++ b'.' ∷ t)) ≡ suc (length (split_dot [] t))
  unfolding split_dot Passes
  split_dot-digits_dot part [] t p = refl
  split_dot-digits_dot part (c ∷ m) t (p, ps) =
      rw (digit-ne-dot c p) (split_dot-digits_dot (part ++ c ∷ []) m t ps)

  -- The number of parts between dots.
  abbrev Parts : ℕ → Text → Type 0
  Parts n m = length (split_dot [] m) ≡ n

  then_dot-Parts :
      (limit n : ℕ) (text : Text) (next : Text → Match) (m r : Text)
      → ((t m r : Text) → next t ≡ some (m, r) → Parts n m)
      → then_dot (some_run (is_digit unicode) limit text) next ≡ some (m, r)
      → Parts (suc n) m
  then_dot-Parts limit n text next m r h e = elim (some_run-cases (is_digit unicode) limit text) [
    | inl none_found ↦ let k = rw none_found at e in cc
    | inr (d, r', found, p) ↦ behind d r' p (rw found at e)
  ]
    where
      second :
          (d t : Text)
          → Passes (is_digit unicode) d
          → (o : Match) → next t ≡ o
          → joined d o ≡ some (m, r)
          → Parts (suc n) m
      second d t p none q k = cc
      second d t p (some (m', r')) q k =
          let e' : d ++ b'.' ∷ m' ≡ m = cc in
          rw (← e') (split_dot-digits_dot [] d m' p ∙ ap suc (h t m' r' q))

      behind :
          (d r' : Text)
          → Passes (is_digit unicode) d
          → then_dot (some (d, r')) next ≡ some (m, r)
          → Parts (suc n) m
      behind d [] p k = cc
      behind d (c ∷ t) p k = elim (Bool-cases (c == b'.')) [
        | inl dot ↦ second d t p (next t) refl (rw dot at k)
        | inr other ↦ let k' = rw other at k in cc
      ]

  some_run-Parts :
      (limit : ℕ) (text m r : Text)
      → some_run (is_digit unicode) limit text ≡ some (m, r)
      → Parts 1 m
  some_run-Parts limit text m r e = elim (some_run-cases (is_digit unicode) limit text) [
    | inl none_found ↦ let k = rw none_found at e in cc
    | inr (d, r', found, p) ↦
        let k : d ≡ m = (let k' = rw found at e in cc) in rw (← k) (split_dot-digits [] d p)
  ]

  match_ipv4-Parts : (text m r : Text) → match_ipv4 unicode text ≡ some (m, r) → Parts 4 m
  unfolding match_ipv4
  match_ipv4-Parts text m r e =
      then_dot-Parts 3 3 text _ m r
        (λ t₁ m₁ r₁.
          then_dot-Parts 3 2 t₁ _ m₁ r₁
            λ t₂ m₂ r₂. then_dot-Parts 3 1 t₂ _ m₂ r₂ λ t₃ m₃ r₃. some_run-Parts 3 t₃ m₃ r₃)
        e

  Found : Option (Token × Text) → Type 0
  unfolding HasParts
  Found none = Unit {0}
  Found (some (t, rest)) = HasParts t

  Found-or_else : (a b : Option (Token × Text)) → Found a → Found b → Found (or_else a b)
  unfolding Found
  Found-or_else none b h k = k
  Found-or_else (some (t, rest)) b h k = h

  Found-other : (kind : Kind) (o : Match) → kind ≢ ipv4 → Found (as_kind kind o)
  unfolding Found
  Found-other kind none h = tt
  Found-other kind (some (m, rest)) h = λ e. absurd (h e)

  Found-ipv4 : (o : Match) → ((m r : Text) → o ≡ some (m, r) → Parts 4 m) → Found (as_kind ipv4 o)
  unfolding Found
  Found-ipv4 none h = tt
  Found-ipv4 (some (m, rest)) h = λ e. h m rest refl

  match_token-Found : (text : Text) → Found (match_token unicode text)
  unfolding match_token
  match_token-Found text =
      Found-or_else _ _ (Found-ipv4 (match_ipv4 unicode text) (match_ipv4-Parts text)) (
        Found-or_else _ _ (Found-other number _ cc) (
          Found-or_else _ _ (Found-other word _ cc) (
            Found-or_else _ _ (Found-other lparen _ cc)
              (Found-or_else _ _ (Found-other rparen _ cc) (Found-other space _ cc)))))

  append_unless_space-AllHaveParts :
      (kind : Kind) (text : Text) (tokens : List Token)
      → HasParts (token kind text)
      → AllHaveParts tokens
      → AllHaveParts (append_unless_space (token kind text) tokens)
  unfolding AllHaveParts
  append_unless_space-AllHaveParts ipv4 text tokens h hs = (h, hs)
  append_unless_space-AllHaveParts number text tokens h hs = (h, hs)
  append_unless_space-AllHaveParts word text tokens h hs = (h, hs)
  append_unless_space-AllHaveParts lparen text tokens h hs = (h, hs)
  append_unless_space-AllHaveParts rparen text tokens h hs = (h, hs)
  append_unless_space-AllHaveParts space text tokens h hs = hs

  tokenize_from-AllHaveParts :
      (fuel pos : ℕ) (text : Text) (tokens : List Token)
      → tokenize_from unicode fuel pos text ≡ ok tokens
      → AllHaveParts tokens
  unfolding tokenize_from AllHaveParts Found
  tokenize_from-AllHaveParts fuel pos [] [] h = tt
  tokenize_from-AllHaveParts fuel pos [] (t ∷ tokens) h = cc
  tokenize_from-AllHaveParts zero pos (c ∷ text) tokens h = cc
  tokenize_from-AllHaveParts (suc fuel) pos (c ∷ text) tokens h =
      by_match (match_token unicode (c ∷ text)) refl (match_token-Found (c ∷ text))
        (λ p t ts. tokenize_from-AllHaveParts fuel p t ts)
    where
      by_match :
          (o : Option (Token × Text))
          → match_token unicode (c ∷ text) ≡ o
          → Found o
          → ((p : ℕ) (t : Text) (ts : List Token)
              → tokenize_from unicode fuel p t ≡ ok ts
              → AllHaveParts ts)
          → AllHaveParts tokens
      by_match none e f ih = let k = rw (tokenize_from, e) at h in cc
      by_match (some (t, rest)) e f ih =
          let (ts, q, k) =
            >>=-eq-ok (tokenize_from unicode fuel (pos + length t.text) rest)
              (λ tokens. ok (append_unless_space t tokens)) (rw (tokenize_from, e) at h) in
          let e' : append_unless_space t ts ≡ tokens = cc in
          rw (← e') (append_unless_space-AllHaveParts t.kind t.text ts f (ih _ rest ts q))

  pub tokenize-AllHaveParts :
      (expr : Text) (tokens : List Token) → tokenize unicode expr ≡ ok tokens → AllHaveParts tokens
  unfolding tokenize
  tokenize-AllHaveParts expr tokens h = tokenize_from-AllHaveParts (length expr) 0 expr tokens h
