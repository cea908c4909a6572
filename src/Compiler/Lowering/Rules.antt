-- ===== src/Compiler/Lowering/Rules.antt =====
-- How the pieces of code behind one another compute the connectives of their verdicts.
use root_wire.Base.{
  ℕ, ◌≤◌, ◌<◌, ◌≡◌, false, List, ◌∷◌, ◌++◌, ◌==◌, ◌⊎◌, inl, inr, arith, append_assoc, ==_self,
  lt→ne, gt→ne,
}
use root_wire.Vm.{Packet}
use root_wire.Compiler.Codegen.{Label, Item, label}
use root_wire.Compiler.Symbolic.{running, exec, placed}
use root_wire.Compiler.Symbolic.Code.{
  Within, placed_outside, Within-mono, Within-insert, Forward-append,
}
use root_wire.Compiler.Meaning.{Verdict, conj, disj}
use root_wire.Compiler.Lowering.{Leaves, Computes, Lowers, labelled, Leaves-conj, Leaves-disj}

-- A wider range.
pub Lowers-mono :
    {packet : Packet} {lo hi : ℕ} {e e' : List Item} {v : ℕ → Verdict} {t f : Label} (lo' hi' : ℕ)
    → lo' ≤ lo
    → hi ≤ hi'
    → Lowers packet lo hi e e' v t f
    → Lowers packet lo' hi' e e' v t f
Lowers-mono {lo} {hi} lo' hi' p q h = record {
  code = h.code;
  appended = h.appended;
  ranged = omega (arith, h.ranged);
  within = Within-mono lo hi lo' hi' h.code p q h.within;
  forward = h.forward;
  computes = h.computes;
}

-- What is emitted after a piece of code, a label, and another piece.
pub place-appended :
    (m : Label) (e₁ e₂ e₃ : List Item) (xs ys : List Item)
    → e₂ ≡ e₁ ++ xs
    → e₃ ≡ labelled m e₂ ++ ys
    → e₃ ≡ e₁ ++ (xs ++ label m ∷ ys)
place-appended m e₁ e₂ e₃ xs ys p q = simp (q, p, append_assoc)

pub Computes-behind :
    (packet : Packet) (xs ys : List Item) (m : Label) (v : ℕ → Verdict) (t f : Label)
    → ((a x : ℕ) (rest : List Item)
        → Leaves packet (exec packet (running a x) (xs ++ (label m ∷ ys ++ rest))) rest (v x) t f)
    → Computes packet (xs ++ label m ∷ ys) v t f
Computes-behind packet xs ys m v t f h a x rest = rw append_assoc (h a x rest)

-- The label between two pieces of code lies outside the ranges of both, the ranges lie behind one
-- another within a wider one, and the exits lie outside that.
pub record IsBetween (lo lo₁ hi₁ m lo₂ hi₂ hi t f : ℕ) : Type 0 where
  pub apart : (m ≤ lo₁) ⊎ (hi₁ < m)
  pub before : m ≤ lo₂
  pub ordered : (hi₁ ≤ lo₂) × (lo ≤ lo₁) × (lo < m) × (m ≤ hi) × (hi₂ ≤ hi) × (lo₂ ≤ hi₂)
  pub exits : ((t ≤ lo) ⊎ (hi < t)) × ((f ≤ lo) ⊎ (hi < f))

-- An exit is neither the label between nor one of the second piece.
exit_apart :
    (lo lo₁ hi₁ m lo₂ hi₂ hi t f l : ℕ) (ys : List Item)
    → IsBetween lo lo₁ hi₁ m lo₂ hi₂ hi t f
    → (l ≤ lo) ⊎ (hi < l)
    → Within lo₂ hi₂ ys
    → ((l == m) ≡ false) × (placed l ys ≡ false)
exit_apart lo lo₁ hi₁ m lo₂ hi₂ hi t f l ys b (inl h) w =
    (lt→ne l m (omega arith), placed_outside l lo₂ hi₂ ys w (inl (omega arith)))
exit_apart lo lo₁ hi₁ m lo₂ hi₂ hi t f l ys b (inr h) w =
    (gt→ne l m (omega arith), placed_outside l lo₂ hi₂ ys w (inr (omega arith)))

module _ {packet : Packet} {lo₁ hi₁ lo₂ hi₂ m : ℕ} {e₁ e₂ e₃ : List Item} {v₁ : ℕ → Verdict}
    {v₂ : Verdict} {t f : Label} (lo hi : ℕ) (b : IsBetween lo lo₁ hi₁ m lo₂ hi₂ hi t f) where
  -- The first piece goes on to the second where it holds.
  pub Lowers-conj :
      Lowers packet lo₁ hi₁ e₁ e₂ v₁ m f
      → Lowers packet lo₂ hi₂ (labelled m e₂) e₃ (λ _. v₂) t f
      → Lowers packet lo hi e₁ e₃ (λ x. conj (v₁ x) v₂) t f
  unfolding placed
  Lowers-conj h k =
      let (q, r) = exit_apart lo lo₁ hi₁ m lo₂ hi₂ hi t f f k.code b b.exits.1 k.within in
      record {
        code = h.code ++ label m ∷ k.code;
        appended = place-appended m e₁ e₂ e₃ h.code k.code h.appended k.appended;
        ranged = omega arith;
        within =
            Within-insert lo₁ hi₁ m lo₂ hi₂ lo hi h.code k.code b.apart b.before b.ordered.0
              (omega arith) h.within k.within;
        forward =
            Forward-append t f m f h.code (label m ∷ k.code) (ground (arith, ==_self m))
              (ground (arith, ==_self f)) h.forward k.forward;
        computes =
            Computes-behind packet h.code k.code m (λ x. conj (v₁ x) v₂) t f
              (λ a x rest.
                Leaves-conj packet k.code v₂ t f k.computes (v₁ x) m _ rest q r
                  (h.computes a x (label m ∷ k.code ++ rest)));
      }

  -- The first piece goes on to the second where it fails.
  pub Lowers-disj :
      Lowers packet lo₁ hi₁ e₁ e₂ v₁ t m
      → Lowers packet lo₂ hi₂ (labelled m e₂) e₃ (λ _. v₂) t f
      → Lowers packet lo hi e₁ e₃ (λ x. disj (v₁ x) v₂) t f
  unfolding placed
  Lowers-disj h k =
      let (q, r) = exit_apart lo lo₁ hi₁ m lo₂ hi₂ hi t f t k.code b b.exits.0 k.within in
      record {
        code = h.code ++ label m ∷ k.code;
        appended = place-appended m e₁ e₂ e₃ h.code k.code h.appended k.appended;
        ranged = omega arith;
        within =
            Within-insert lo₁ hi₁ m lo₂ hi₂ lo hi h.code k.code b.apart b.before b.ordered.0
              (omega arith) h.within k.within;
        forward =
            Forward-append t f t m h.code (label m ∷ k.code) (ground (arith, ==_self t))
              (ground (arith, ==_self m)) h.forward k.forward;
        computes =
            Computes-behind packet h.code k.code m (λ x. disj (v₁ x) v₂) t f
              (λ a x rest.
                Leaves-disj packet k.code v₂ t f k.computes (v₁ x) m _ rest q r
                  (h.computes a x (label m ∷ k.code ++ rest)));
      }
