-- ===== src/Compiler/Lowering/Either.antt =====
-- A test at a source offset, then at a destination offset: neither changes X.
use root_wire.Base.{
  ℕ, ◌≤◌, ◌<◌, ◌≡◌, refl, ◌∙◌, Bool, true, false, Option, none, some, List, [], ◌∷◌, ◌++◌, Result,
  ok, ◌>>=◌, ◌==◌, if◌then◌else◌, arith, append_assoc, lt→ne,
}
use root_wire.Vm.{Packet, Exception, ld, class_of, load, step_ld}
use root_wire.Compiler.Codegen.{Label, Item, label, insn, plain, jump}
use root_wire.Compiler.Symbolic.{go, running, seeking, exec, perform, placed}
use root_wire.Compiler.Meaning.{judge, disj, field, holds}
use root_wire.Compiler.Lowering.{
  Leaves, Lowers, labelled, tested, Leaves-resp, exec-enter, exec-pass,
}
use root_wire.Compiler.Lowering.Primitives.{fetched, load-field, Fetches, Leaves-judge, jumps_eq}

module _ (packet : Packet) (code size k k' value : ℕ) (offset offset' : ℕ → ℕ) (t f m : Label)
    (is_ld : class_of code ≡ ld)
    (here : (x : ℕ) → step_ld code k packet x ≡ load packet (offset x) size)
    (there : (x : ℕ) → step_ld code k' packet x ≡ load packet (offset' x) size) where
  abbrev first : List Item
  first = insn (plain code k) ∷ insn (jump 0x15 value t m) ∷ []

  abbrev second : List Item
  second = insn (plain code k') ∷ insn (jump 0x15 value t f) ∷ []

  loads :
      (k₀ : ℕ) (at : ℕ → ℕ) (x : ℕ)
      → step_ld code k₀ packet x ≡ load packet (at x) size
      → Fetches packet code k₀ code k₀ (λ n. n == value) t f (field packet (at x) size) x
  unfolding perform
  loads k₀ at x h a = rw (is_ld, h, load-field packet (at x) size)

  -- The outcome of the first test decides whether the second is made.
  Leaves-second :
      (b : Bool) (r : Result Exception ℕ) (rest : List Item) (n x : ℕ)
      → (t == m) ≡ false
      → r ≡ exec packet (seeking (if b then t else m) n x) (label m ∷ second ++ rest)
      → Leaves packet r rest
          (disj (some b) (judge (λ n. n == value) (field packet (offset' x) size)))
          t
          f
  unfolding placed
  Leaves-second true r rest n x p h = (n, x, h ∙ exec-pass packet t m n x second rest p refl)
  Leaves-second false r rest n x p h =
      Leaves-resp packet rest (judge (λ n. n == value) (field packet (offset' x) size)) t f
        (h ∙ exec-enter packet m n x (second ++ rest))
        (Leaves-judge packet code k' 0x15 value (λ n. n == value) t f
          (field packet (offset' x) size) x (loads k' offset' x (there x))
          (jumps_eq packet value t f) n rest)

  Leaves-either :
      (o : Option ℕ) (a x : ℕ) (rest : List Item)
      → (t == m) ≡ false
      → ((a : ℕ)
          → perform (class_of code) (plain code k) packet a x
            ≡ (fetched o >>= λ n. ok (go (running n x))))
      → Leaves packet
          (exec packet (running a x) (first ++ (label m ∷ second ++ rest)))
          rest
          (disj
            (judge (λ n. n == value) o)
            (judge (λ n. n == value) (field packet (offset' x) size)))
          t
          f
  unfolding exec
  Leaves-either none a x rest p h = rw (exec, h a)
  Leaves-either (some n) a x rest p h =
      Leaves-second (n == value) _ rest n x p (rw (exec, h a, exec, jumps_eq packet value t m n x))

  pub Lowers-either :
      (lo hi : ℕ) (e : List Item)
      → (lo < m) × (m ≤ hi)
      → t ≤ lo
      → Lowers packet lo hi e
          (tested code k' value t f (labelled m (tested code k value t m e)))
          (λ x. disj (holds packet (offset x) size value) (holds packet (offset' x) size value))
          t
          f
  unfolding placed holds
  Lowers-either lo hi e (above, below) p = record {
    code = first ++ label m ∷ second;
    appended = simp append_assoc;
    ranged = omega arith;
    within = (above, below, refl, tt);
    forward = (tt, tt, (ground arith, ground arith, (tt, tt, (ground arith, ground arith, tt))));
    computes = λ a x rest.
        Leaves-either (field packet (offset x) size) a x rest (lt→ne t m (omega arith))
          (loads k offset x (here x));
  }
