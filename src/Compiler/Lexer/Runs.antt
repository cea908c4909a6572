-- ===== src/Compiler/Lexer/Runs.antt =====
-- Runs of characters in front of one that is in no class of theirs.
use root_wire.Base.{
  ℕ, zero, suc, ◌≤◌, ◌<◌, ◌≡◌, refl, ◌⊎◌, Bool, true, false, Option, none, some, [], ◌∷◌, ◌++◌,
  ◌==◌, length, arith, inl, inr,
}
use root_wire.Compiler.Syntax.{Text, Token}
use root_wire.Compiler.Lexer.{Match, run, some_run, then_dot, or_else}
use root_wire.Compiler.Lexer.Addresses.{Passes}
use root_wire.Compiler.Lexer.Shapes.{SomePass}

-- What stands in front of a character that does not pass is a run.
pub run-whole :
    (test : ℕ → Bool) (limit : ℕ) (m : Text) (c : ℕ) (x : Text)
    → Passes test m
    → length m ≤ limit
    → test c ≡ false
    → run test limit (m ++ c ∷ x) ≡ (m, c ∷ x)
unfolding run Passes
run-whole test zero [] c x p l h = refl
run-whole test (suc limit) [] c x p l h = rw h
run-whole test zero (d ∷ m) c x p l h = absurd (omega arith)
run-whole test (suc limit) (d ∷ m) c x (p, ps) l h =
    rw (p, run-whole test limit m c x ps (omega arith) h)

-- A run through such a text, whatever its limit, ends in front of a character.
pub run-next :
    (test : ℕ → Bool) (limit : ℕ) (m : Text) (c : ℕ) (x : Text)
    → Passes test m
    → test c ≡ false
    → (d : Text) × (c' : ℕ) × (z : Text) × (run test limit (m ++ c ∷ x) ≡ (d, c' ∷ z))
      × ((test c' ≡ true) ⊎ (c' ≡ c))
unfolding run Passes
run-next test zero [] c x p h = ([], c, x, refl, inr refl)
run-next test (suc limit) [] c x p h = ([], c, x, rw h, inr refl)
run-next test zero (d ∷ m) c x (p, ps) h = ([], d, m ++ c ∷ x, refl, inl p)
run-next test (suc limit) (d ∷ m) c x (p, ps) h =
    let (d', c', z, e, k) = run-next test limit m c x ps h in (d ∷ d', c', z, rw (p, e), k)

pub some_run-whole :
    (test : ℕ → Bool) (limit : ℕ) (m : Text) (c : ℕ) (x : Text)
    → SomePass test m
    → length m ≤ limit
    → test c ≡ false
    → some_run test limit (m ++ c ∷ x) ≡ some (m, c ∷ x)
unfolding some_run
some_run-whole test limit [] c x p l h = absurd p
some_run-whole test limit (d ∷ m) c x p l h =
    let e = run-whole test limit (d ∷ m) c x p l h in rw (some_run, e, e)

pub some_run-alone :
    (test : ℕ → Bool) (c : ℕ) → test c ≡ true → some_run test 1 (c ∷ []) ≡ some (c ∷ [], [])
unfolding some_run run
some_run-alone test c h = let e : run test 1 (c ∷ []) ≡ (c ∷ [], []) = rw h in rw (some_run, e, e)

pub some_run-none :
    (test : ℕ → Bool) (limit c : ℕ) (x : Text) → test c ≡ false → some_run test limit (c ∷ x) ≡ none
unfolding some_run run
some_run-none test zero c x h = refl
some_run-none test (suc limit) c x h = rw (some_run, h)

-- The first of two alternatives, and the second, where the first matches nothing.
pub or_else-none :
    {a b : Option (Token × Text)} {o : Option (Token × Text)} → a ≡ none → b ≡ o → or_else a b ≡ o
or_else-none e f = rw (e, f)

pub length-SomePass : (test : ℕ → Bool) (m : Text) → SomePass test m → 0 < length m
length-SomePass test [] p = absurd p
length-SomePass test (c ∷ m) p = omega arith

-- The first run of an address, the dot behind it, and what is next.
pub then_dot-whole :
    (d x m : Text) (o : Match) (next : Text → Match) (rest : Text)
    → o ≡ some (d, b'.' ∷ x)
    → next x ≡ some (m, rest)
    → then_dot o next ≡ some (d ++ b'.' ∷ m, rest)
then_dot-whole d x m o next rest e f = rw (e, f)

-- What is behind a run is no dot.
pub then_dot-none :
    (test : ℕ → Bool) (limit : ℕ) (text d z : Text) (c : ℕ) (next : Text → Match)
    → run test limit text ≡ (d, c ∷ z)
    → (c == b'.') ≡ false
    → then_dot (some_run test limit text) next ≡ none
unfolding some_run
then_dot-none test limit text [] z c next e f = rw (some_run, e)
then_dot-none test limit text (b ∷ d) z c next e f = rw (some_run, e, e, f)
