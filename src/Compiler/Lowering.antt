-- ===== src/Compiler/Lowering.antt =====
-- The relation between the code generator and the meaning of what it compiles.
pub mod Rules
pub mod Branch
pub mod Primitives
pub mod Header
pub mod Either
pub mod Correct
pub mod Nodes
use root_wire.Base.{
  ℕ, suc, ◌+◌, ◌≤◌, ◌<◌, ◌≡◌, refl, sym, ap, ◌∙◌, Bool, true, false, Option, none, some, List, [],
  ◌∷◌, ◌++◌, Result, ok, err, ◌==◌, ◌⊎◌, inl, inr, arith, append_assoc, ==_self, lt→ne, gt→ne,
}
use root_wire.Vm.{Packet, Exception, reject}
use root_wire.Compiler.Codegen.{Label, PInsn, Item, label, insn, plain, jump}
use root_wire.Compiler.Symbolic.{Mode, running, seeking, exec, placed}
use root_wire.Compiler.Symbolic.Code.{
  Within, Forward, Ahead, exec-seeking, placed_outside, Within-mono, Forward-append,
}
use root_wire.Compiler.Meaning.{Verdict, branch, conj, disj}

-- How a run that enters a piece of code leaves it: at the exit of the verdict, with whatever is
-- in the registers, or rejected.
abbrev pub Leaves : Packet → Result Exception ℕ → List Item → Verdict → Label → Label → Type 0
Leaves packet r rest none t f = r ≡ err reject
Leaves packet r rest (some true) t f = (a : ℕ) × (x : ℕ) × (r ≡ exec packet (seeking t a x) rest)
Leaves packet r rest (some false) t f = (a : ℕ) × (x : ℕ) × (r ≡ exec packet (seeking f a x) rest)

-- The code computes a verdict, which may depend on X.
abbrev pub Computes : Packet → List Item → (ℕ → Verdict) → Label → Label → Type 0
Computes packet code v t f =
    (a x : ℕ) (rest : List Item)
    → Leaves packet (exec packet (running a x) (code ++ rest)) rest (v x) t f

-- Between two states of the emitted items stands code for a verdict, whose labels lie in a range.
pub record Lowers (packet : Packet) (lo hi : ℕ) (before after : List Item) (v : ℕ → Verdict)
    (t f : Label) : Type 0 where
  pub code : List Item
  pub appended : after ≡ before ++ code
  pub ranged : lo ≤ hi
  pub within : Within lo hi code
  pub forward : Forward t f code
  pub computes : Computes packet code v t f

module _ (packet : Packet) where
  pub Leaves-resp :
      {r s : Result Exception ℕ} (rest : List Item) (v : Verdict) (t f : Label)
      → r ≡ s
      → Leaves packet s rest v t f
      → Leaves packet r rest v t f
  Leaves-resp rest none t f p h = p ∙ h
  Leaves-resp rest (some true) t f p (a, x, h) = (a, x, p ∙ h)
  Leaves-resp rest (some false) t f p (a, x, h) = (a, x, p ∙ h)

  -- A label that stands next is found.
  pub exec-enter :
      (m a x : ℕ) (items : List Item)
      → exec packet (seeking m a x) (label m ∷ items) ≡ exec packet (running a x) items
  unfolding exec
  exec-enter m a x items = ground (arith, ==_self m)

  -- A label that stands elsewhere is passed over, with the code behind it.
  pub exec-pass :
      (l m a x : ℕ) (items rest : List Item)
      → (l == m) ≡ false
      → placed l items ≡ false
      → exec packet (seeking l a x) (label m ∷ items ++ rest) ≡ exec packet (seeking l a x) rest
  unfolding exec
  exec-pass l m a x items rest h k = rw (exec, h) (exec-seeking packet l a x items rest k)

  -- The second piece of code stands behind its label.
  module _ (code : List Item) (v : Verdict) (t f : Label)
      (c : Computes packet code (λ _. v) t f) where
    pub Leaves-conj :
        (w : Verdict) (m : ℕ) (r : Result Exception ℕ) (rest : List Item)
        → (f == m) ≡ false
        → placed f code ≡ false
        → Leaves packet r (label m ∷ code ++ rest) w m f
        → Leaves packet r rest (conj w v) t f
    Leaves-conj none m r rest p q h = h
    Leaves-conj (some true) m r rest p q (a, x, h) =
        Leaves-resp rest v t f (h ∙ exec-enter m a x (code ++ rest)) (c a x rest)
    Leaves-conj (some false) m r rest p q (a, x, h) = (a, x, h ∙ exec-pass f m a x code rest p q)

    pub Leaves-disj :
        (w : Verdict) (m : ℕ) (r : Result Exception ℕ) (rest : List Item)
        → (t == m) ≡ false
        → placed t code ≡ false
        → Leaves packet r (label m ∷ code ++ rest) w t m
        → Leaves packet r rest (disj w v) t f
    Leaves-disj none m r rest p q h = h
    Leaves-disj (some true) m r rest p q (a, x, h) = (a, x, h ∙ exec-pass t m a x code rest p q)
    Leaves-disj (some false) m r rest p q (a, x, h) =
        Leaves-resp rest v t f (h ∙ exec-enter m a x (code ++ rest)) (c a x rest)

    -- Code that leaves for an exit further on passes over this piece.
    pub Leaves-over :
        (w : Verdict) (m : ℕ) (r : Result Exception ℕ) (rest : List Item)
        → ((t == m) ≡ false) × ((f == m) ≡ false)
        → (placed t code ≡ false) × (placed f code ≡ false)
        → Leaves packet r (label m ∷ code ++ rest) w t f
        → Leaves packet r rest w t f
    Leaves-over none m r rest p q h = h
    Leaves-over (some true) m r rest p q (a, x, h) = (a, x, h ∙ exec-pass t m a x code rest p.0 q.0)
    Leaves-over (some false) m r rest p q (a, x, h) =
        (a, x, h ∙ exec-pass f m a x code rest p.1 q.1)

-- The items after a label, an instruction, and a test.
abbrev pub labelled : Label → List Item → List Item
labelled m items = items ++ label m ∷ []

abbrev pub followed : PInsn → List Item → List Item
followed i items = items ++ insn i ∷ []

abbrev pub tested : ℕ → ℕ → ℕ → Label → Label → List Item → List Item
tested code offset value t f items =
    followed (jump 0x15 value t f) (followed (plain code offset) items)
