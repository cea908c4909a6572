-- ===== src/Compiler/Lowering/Primitives.antt =====
-- The pieces of code without labels: a load and a test, and the load of the header length.
use root_wire.Base.{
  ℕ, ◌+◌, ◌≡◌, refl, Bool, true, false, Option, none, some, List, [], ◌∷◌, Result, ok, err, ◌>>=◌,
  ◌==◌, if◌then◌else◌, arith, append_assoc, ==_self, Bool-cases, inl, inr,
}
use root_wire.Vm.{Packet, Exception, reject, ld, class_of, load, step_ld, jmp_taken}
use root_wire.Compiler.Codegen.{Label, Item, insn, plain, jump}
use root_wire.Compiler.Symbolic.{go, running, seeking, exec, perform, placed}
use root_wire.Compiler.Meaning.{judge, field, holds}
use root_wire.Compiler.Lowering.{Leaves, Lowers, followed, tested}

-- What an access to a field gives in the interpreter.
abbrev pub fetched : Option ℕ → Result Exception ℕ
fetched none = err reject
fetched (some n) = ok n

pub load-field :
    (packet : Packet) (offset size : ℕ)
    → load packet offset size ≡ fetched (field packet offset size)
unfolding load field
load-field packet offset size = ground arith

-- A test leaves at the exit of its outcome.
pub Leaves-test :
    (packet : Packet) (r : Result Exception ℕ) (rest : List Item) (t f : Label) (n x : ℕ) (b : Bool)
    → r ≡ exec packet (seeking (if b then t else f) n x) rest
    → Leaves packet r rest (some b) t f
Leaves-test packet r rest t f n x true h = (n, x, h)
Leaves-test packet r rest t f n x false h = (n, x, h)

module _ (packet : Packet) (code k code' k' : ℕ) (test : ℕ → Bool) (t f : Label) where
  -- The first instruction fetches a field into A, and the second jumps on it.
  abbrev pub Fetches : Option ℕ → ℕ → Type 0
  Fetches o x =
      (a : ℕ)
      → perform (class_of code) (plain code k) packet a x
        ≡ (fetched o >>= λ n. ok (go (running n x)))

  abbrev pub Jumps : Type 0
  Jumps =
      (a x : ℕ)
      → perform (class_of code') (jump code' k' t f) packet a x
        ≡ ok (go (seeking (if test a then t else f) a x))

  pub Leaves-judge :
      (o : Option ℕ) (x : ℕ)
      → Fetches o x
      → Jumps
      → (a : ℕ) (rest : List Item)
      → Leaves packet
          (exec packet (running a x) (insn (plain code k) ∷ insn (jump code' k' t f) ∷ rest))
          rest
          (judge test o)
          t
          f
  unfolding exec
  Leaves-judge none x p q a rest = rw (exec, p a)
  Leaves-judge (some n) x p q a rest =
      Leaves-test packet _ rest t f n x (test n) (rw (exec, p a, exec, q n x))

  -- A load and a conditional jump, whatever the range of the labels.
  pub Lowers-judge :
      (lo : ℕ) (e : List Item) (o : ℕ → Option ℕ)
      → ((x : ℕ) → Fetches (o x) x)
      → Jumps
      → Lowers packet lo lo e
          (followed (jump code' k' t f) (followed (plain code k) e))
          (λ x. judge test (o x))
          t
          f
  unfolding placed
  Lowers-judge lo e o p q = record {
    code = insn (plain code k) ∷ insn (jump code' k' t f) ∷ [];
    appended = append_assoc e (insn (plain code k) ∷ []) (insn (jump code' k' t f) ∷ []);
    ranged = omega arith;
    within = tt;
    forward = (tt, tt, (ground (arith, ==_self t), ground (arith, ==_self f), tt));
    computes = λ a x rest. Leaves-judge (o x) x (p x) q a rest;
  }

module _ (packet : Packet) where
  -- A jump on equality.
  pub jumps_eq : (value : ℕ) (t f : Label) → Jumps packet 0 0 0x15 value (λ n. n == value) t f
  unfolding perform class_of jmp_taken
  jumps_eq value t f a x = elim (Bool-cases (a == value)) [ inl h ↦ rw h | inr h ↦ rw h ]

  module _ (lo : ℕ) (e : List Item) (value : ℕ) (t f : Label) where
    pub Lowers-test_at :
        (code size : ℕ) (k : ℕ) (offset : ℕ → ℕ)
        → class_of code ≡ ld
        → ((x : ℕ) → step_ld code k packet x ≡ load packet (offset x) size)
        → Lowers packet lo lo e
            (tested code k value t f e)
            (λ x. holds packet (offset x) size value)
            t
            f
    unfolding holds perform
    Lowers-test_at code size k offset p q =
        Lowers-judge packet code k 0x15 value (λ n. n == value) t f lo e
          (λ x. field packet (offset x) size)
          (λ x a. rw (p, q x, load-field packet (offset x) size)) (jumps_eq value t f)

    pub Lowers-byte :
        (offset : ℕ)
        → Lowers packet lo lo e
            (tested 0x30 offset value t f e)
            (λ _. holds packet offset 1 value)
            t
            f
    unfolding class_of step_ld
    Lowers-byte offset = Lowers-test_at 0x30 1 offset (λ _. offset) refl (λ x. refl)

    pub Lowers-half :
        (offset : ℕ)
        → Lowers packet lo lo e
            (tested 0x28 offset value t f e)
            (λ _. holds packet offset 2 value)
            t
            f
    unfolding class_of step_ld
    Lowers-half offset = Lowers-test_at 0x28 2 offset (λ _. offset) refl (λ x. refl)

    pub Lowers-word :
        (offset : ℕ)
        → Lowers packet lo lo e
            (tested 0x20 offset value t f e)
            (λ _. holds packet offset 4 value)
            t
            f
    unfolding class_of step_ld
    Lowers-word offset = Lowers-test_at 0x20 4 offset (λ _. offset) refl (λ x. refl)

    pub Lowers-half_at_x :
        (offset : ℕ)
        → Lowers packet lo lo e
            (tested 0x48 offset value t f e)
            (λ x. holds packet (x + offset) 2 value)
            t
            f
    unfolding class_of step_ld
    Lowers-half_at_x offset = Lowers-test_at 0x48 2 offset (λ x. x + offset) refl (λ x. refl)
