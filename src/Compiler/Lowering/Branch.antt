-- ===== src/Compiler/Lowering/Branch.antt =====
-- Two pieces of code behind a test, each behind its own label.
use root_wire.Base.{
  ℕ, ◌≤◌, ◌<◌, ◌≡◌, ◌∙◌, true, false, none, some, List, ◌∷◌, ◌++◌, Result, ◌==◌, inl, inr, arith,
  append_assoc, ==_self, lt→ne, gt→ne,
}
use root_wire.Vm.{Packet, Exception}
use root_wire.Compiler.Codegen.{Label, Item, label}
use root_wire.Compiler.Symbolic.{placed}
use root_wire.Compiler.Symbolic.Code.{placed_outside, placed-append, Within-insert, Forward-append}
use root_wire.Compiler.Meaning.{Verdict, branch}
use root_wire.Compiler.Lowering.{
  Leaves, Computes, Lowers, labelled, Leaves-resp, Leaves-over, exec-enter, exec-pass,
}
use root_wire.Compiler.Lowering.Rules.{place-appended, Computes-behind}

module _ (packet : Packet) (xs ys : List Item) (v w : Verdict) (t f : Label)
    (c : Computes packet xs (λ _. v) t f) (d : Computes packet ys (λ _. w) t f) where
  Leaves-branch :
      (u : Verdict) (m n : ℕ) (r : Result Exception ℕ) (rest : List Item)
      → ((n == m) ≡ false) × (placed n xs ≡ false)
      → ((t == n) ≡ false) × ((f == n) ≡ false)
      → (placed t ys ≡ false) × (placed f ys ≡ false)
      → Leaves packet r (label m ∷ xs ++ (label n ∷ ys ++ rest)) u m n
      → Leaves packet r rest (branch u v w) t f
  Leaves-branch none m n r rest o p q h = h
  Leaves-branch (some true) m n r rest o p q (a, x, h) =
      Leaves-over packet ys w t f d v n r rest p q (
        Leaves-resp packet (label n ∷ ys ++ rest) v t f
          (h ∙ exec-enter packet m a x (xs ++ (label n ∷ ys ++ rest)))
          (c a x (label n ∷ ys ++ rest)))
  Leaves-branch (some false) m n r rest o p q (a, x, h) =
      Leaves-resp packet rest w t f
        (h
          ∙ exec-pass packet n m a x xs (label n ∷ ys ++ rest) o.0 o.1
          ∙ exec-enter packet n a x (ys ++ rest))
        (d a x rest)

Leaves-regroup :
    (packet : Packet) (xs ys : List Item) (m n : Label) (u : Verdict) (r : Result Exception ℕ)
    (rest : List Item)
    → Leaves packet r (label m ∷ (xs ++ label n ∷ ys) ++ rest) u m n
    → Leaves packet r (label m ∷ xs ++ (label n ∷ ys ++ rest)) u m n
Leaves-regroup packet xs ys m n u r rest h = rw append_assoc at h

-- The labels `m` and `n` are made first, then those of the first piece, then those of the second.
pub record IsSplit (lo m n lo₂ hi₂ lo₃ hi₃ t f : ℕ) : Type 0 where
  pub labels : (lo < m) × (m < n) × (n ≤ lo₂)
  pub ordered : (lo₂ ≤ hi₂) × (hi₂ ≤ lo₃) × (lo₃ ≤ hi₃)
  pub exits : (t ≤ lo) × (f ≤ lo)

module _ {packet : Packet} {lo lo₂ hi₂ lo₃ hi₃ m n : ℕ} {e₁ e₂ e₃ e₄ : List Item} {v₁ : ℕ → Verdict}
    {v₂ v₃ : Verdict} {t f : Label} (b : IsSplit lo m n lo₂ hi₂ lo₃ hi₃ t f) where
  pub Lowers-branch :
      Lowers packet lo lo e₁ e₂ v₁ m n
      → Lowers packet lo₂ hi₂ (labelled m e₂) e₃ (λ _. v₂) t f
      → Lowers packet lo₃ hi₃ (labelled n e₃) e₄ (λ _. v₃) t f
      → Lowers packet lo hi₃ e₁ e₄ (λ x. branch (v₁ x) v₂ v₃) t f
  unfolding placed
  Lowers-branch h k l =
      let second = k.code ++ label n ∷ l.code in
      let nk = placed_outside n lo₂ hi₂ k.code k.within (inl (omega arith)) in
      let tl = placed_outside t lo₃ hi₃ l.code l.within (inl (omega arith)) in
      let fl = placed_outside f lo₃ hi₃ l.code l.within (inl (omega arith)) in
      record {
        code = h.code ++ label m ∷ second;
        appended =
            place-appended m e₁ e₂ e₄ h.code second h.appended
              (place-appended n (labelled m e₂) e₃ e₄ k.code l.code k.appended l.appended);
        ranged = omega arith;
        within =
            Within-insert lo lo m m hi₃ lo hi₃ h.code second (inr (omega arith)) (omega arith)
              (omega arith) (omega arith) h.within
              (Within-insert lo₂ hi₂ n lo₃ hi₃ m hi₃ k.code l.code (inl (omega arith)) (omega arith)
                (omega arith) (omega arith) k.within l.within);
        forward =
            Forward-append t f m n h.code (label m ∷ second) (ground (arith, ==_self m))
              (ground (arith, ==_self n, placed-append n k.code (label n ∷ l.code))) h.forward
              (Forward-append t f t f k.code (label n ∷ l.code) (ground (arith, ==_self t))
                (ground (arith, ==_self f)) k.forward l.forward);
        computes =
            Computes-behind packet h.code second m (λ x. branch (v₁ x) v₂ v₃) t f
              (λ a x rest.
                Leaves-branch packet k.code l.code v₂ v₃ t f k.computes l.computes (v₁ x) m n _ rest
                  (gt→ne n m (omega arith), nk) (lt→ne t n (omega arith), lt→ne f n (omega arith))
                  (tl, fl)
                  (Leaves-regroup packet k.code l.code m n (v₁ x) _ rest
                    (h.computes a x (label m ∷ second ++ rest))));
      }
