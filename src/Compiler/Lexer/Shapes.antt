-- ===== src/Compiler/Lexer/Shapes.antt =====
-- What the patterns of the lexer match, and the shapes of texts.
use root_wire.Base.{
  ℕ, zero, suc, ◌≡◌, refl, sym, ap, ◌∙◌, Bool, true, none, some, [], ◌∷◌, ◌++◌, ◌==◌, length,
  Bool-cases, inl, inr, ==_iff, ◌≤◌, arith, append_assoc,
}
use root_wire.Compiler.Syntax.{Text}
use root_wire.Compiler.Lexer.{
  Match, run, some_run, joined, then_dot, single, match_word, is_letter, is_word_char,
}
use root_wire.Compiler.Lexer.Addresses.{Passes, run-Passes}

-- What a pattern matched stands in front of the rest, and passes the test of its shape.
abbrev pub Splits : (Text → Type 0) → Text → Match → Type 0
Splits shape text none = Unit {0}
Splits shape text (some (m, rest)) = (text ≡ m ++ rest) × shape m

pub run-append :
    (test : ℕ → Bool) (limit : ℕ) (text : Text)
    → text ≡ (run test limit text).0 ++ (run test limit text).1
unfolding run
run-append test zero text = refl
run-append test (suc limit) [] = refl
run-append test (suc limit) (c ∷ text) = elim (Bool-cases (test c)) [
  | inl e ↦ rw e (ap (λ t. c ∷ t) (run-append test limit text))
  | inr e ↦ rw e
]

-- One character or more, each of which passes the test.
abbrev pub SomePass : (ℕ → Bool) → Text → Type 0
SomePass test [] = ⊥
SomePass test (c ∷ text) = Passes test (c ∷ text)

-- As many characters at most.
abbrev pub AtMost : ℕ → (Text → Type 0) → Text → Type 0
AtMost limit shape m = shape m × (length m ≤ limit)

pub run-limit : (test : ℕ → Bool) (limit : ℕ) (text : Text) → length (run test limit text).0 ≤ limit
unfolding run
run-limit test zero text = omega arith
run-limit test (suc limit) [] = omega arith
run-limit test (suc limit) (c ∷ text) = elim (Bool-cases (test c)) [
  | inl e ↦ rw e (omega (arith, run-limit test limit text))
  | inr e ↦ rw e (omega arith)
]

pub some_run-Splits :
    (test : ℕ → Bool) (limit : ℕ) (text : Text)
    → Splits (AtMost limit (SomePass test)) text (some_run test limit text)
unfolding some_run
some_run-Splits test limit text =
    by_matched (run test limit text).0 refl (run-append test limit text)
      (run-Passes test limit text, run-limit test limit text)
  where
    by_matched :
        (m : Text)
        → (run test limit text).0 ≡ m
        → text ≡ (run test limit text).0 ++ (run test limit text).1
        → AtMost limit (Passes test) (run test limit text).0
        → Splits (AtMost limit (SomePass test)) text (some_run test limit text)
    by_matched [] e a p = rw (some_run, e) tt
    by_matched (c ∷ m) e a p = rw (some_run, e) (rw e at a, rw e at p)

pub Splits-AtMost :
    (limit : ℕ) (shape : Text → Type 0) (text : Text) (o : Match)
    → Splits (AtMost limit shape) text o
    → Splits shape text o
Splits-AtMost limit shape text none s = tt
Splits-AtMost limit shape text (some (m, rest)) (e, (p, l)) = (e, p)

-- A run without a limit of its own.
pub whole_run-Splits :
    (test : ℕ → Bool) (limit : ℕ) (text : Text)
    → Splits (SomePass test) text (some_run test limit text)
whole_run-Splits test limit text =
    Splits-AtMost limit (SomePass test) text _ (some_run-Splits test limit text)

-- Two texts of their shapes with a full stop between them.
abbrev pub Dotted : (Text → Type 0) → (Text → Type 0) → Text → Type 0
Dotted before after m = (d m' : Text) × (m ≡ d ++ b'.' ∷ m') × before d × after m'

module _ (before after : Text → Type 0) where
  pub joined-Splits :
      (text d t : Text) (o : Match)
      → text ≡ d ++ b'.' ∷ t
      → before d
      → Splits after t o
      → Splits (Dotted before after) text (joined d o)
  joined-Splits text d t none e p s = tt
  joined-Splits text d t (some (m', rest)) e p (f, q) =
      (e ∙ ap (λ t. d ++ b'.' ∷ t) f ∙ sym (append_assoc d (b'.' ∷ m') rest), (d, m', refl, p, q))

  pub then_dot-Splits :
      (text : Text) (o : Match) (next : Text → Match)
      → Splits before text o
      → ((t : Text) → Splits after t (next t))
      → Splits (Dotted before after) text (then_dot o next)
  then_dot-Splits text none next s h = tt
  then_dot-Splits text (some (d, [])) next s h = tt
  then_dot-Splits text (some (d, c ∷ t)) next (e, p) h = elim (Bool-cases (c == b'.')) [
    | inl dot ↦
        let is_dot = (==_iff c b'.').0 dot in
        rw dot (joined-Splits text d t (next t) (e ∙ ap (λ c. d ++ c ∷ t) is_dot) p (h t))
    | inr other ↦ rw other tt
  ]

abbrev pub IsWord : Text → Type 0
IsWord [] = ⊥
IsWord (c ∷ text) = (is_letter c ≡ true) × Passes is_word_char text

pub match_word-Splits : (text : Text) → Splits IsWord text (match_word text)
unfolding match_word
match_word-Splits [] = tt
match_word-Splits (c ∷ text) = elim (Bool-cases (is_letter c)) [
  | inl e ↦ rw e (
    ap (λ t. c ∷ t) (run-append is_word_char (length text) text),
    (e, run-Passes is_word_char (length text) text),
  )
  | inr e ↦ rw e tt
]

pub single-Splits : (c : ℕ) (text : Text) → Splits (λ m. m ≡ c ∷ []) text (single c text)
unfolding single
single-Splits c [] = tt
single-Splits c (d ∷ text) = elim (Bool-cases (d == c)) [
  | inl e ↦ rw e (refl, ap (λ d. d ∷ []) ((==_iff d c).0 e))
  | inr e ↦ rw e tt
]
