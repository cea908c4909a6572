-- ===== src/Compiler/Lowering/Header.antt =====
-- Negation, the test for a later fragment, and the load of the IPv4 header length into X.
use root_wire.Base.{
  ℕ, ◌*◌, ◌≡◌, refl, ◌∙◌, Bool, true, false, not, Option, none, some, List, [], ◌∷◌, ◌++◌, Result,
  ◌==◌, bit_and, arith, append_assoc, Bool-cases, inl, inr,
}
use mathlib.Core.Path.{subst}
use root_wire.Vm.{Packet, Exception, class_of, load, step_ld, step_ldx, jmp_taken}
use root_wire.Compiler.Codegen.{Label, Item, label, insn, plain, jump}
use root_wire.Compiler.Symbolic.{running, exec, perform}
use root_wire.Compiler.Symbolic.Code.{Ahead, Forward}
use root_wire.Compiler.Meaning.{Verdict, judge, field, neg}
use root_wire.Compiler.Lowering.{Leaves, Computes, Lowers, followed}
use root_wire.Compiler.Lowering.Primitives.{load-field, Jumps, Lowers-judge, fetched}

Ahead-swap :
    (t f : Label) (items : List Item) (target : Option Label)
    → Ahead t f items target
    → Ahead f t items target
Ahead-swap t f items none h = tt
Ahead-swap t f items (some l) h = ground arith

Forward-swap : (t f : Label) (items : List Item) → Forward t f items → Forward f t items
Forward-swap t f [] h = tt
Forward-swap t f (label l ∷ items) h = Forward-swap t f items h
Forward-swap t f (insn i ∷ items) (p, q, h) =
    (Ahead-swap t f items i.jt p, Ahead-swap t f items i.jf q, Forward-swap t f items h)

Leaves-neg :
    (packet : Packet) (r : Result Exception ℕ) (rest : List Item) (v : Verdict) (t f : Label)
    → Leaves packet r rest v t f
    → Leaves packet r rest (neg v) f t
Leaves-neg packet r rest none t f h = h
Leaves-neg packet r rest (some true) t f h = h
Leaves-neg packet r rest (some false) t f h = h

-- Exchanging the exits negates.
pub Lowers-neg :
    {packet : Packet} {lo hi : ℕ} {e e' : List Item} {v : ℕ → Verdict} {t f : Label}
    → Lowers packet lo hi e e' v t f
    → Lowers packet lo hi e e' (λ x. neg (v x)) f t
Lowers-neg {packet} {v} {t} {f} h = record {
  code = h.code;
  appended = h.appended;
  ranged = h.ranged;
  within = h.within;
  forward = Forward-swap t f h.code h.forward;
  computes = λ a x rest. Leaves-neg packet _ rest (v x) t f (h.computes a x rest);
}

-- The packet is no later fragment: its fragment offset is 0.
abbrev pub first_fragment : Packet → Verdict
first_fragment packet = judge (λ n. bit_and n 0x1fff == 0) (field packet 20 2)

neg-judge : (o : Option ℕ) (test : ℕ → Bool) → neg (judge (λ n. not (test n)) o) ≡ judge test o
neg-judge none test = refl
neg-judge (some n) test = ground arith

jumps_set :
    (packet : Packet) (mask : ℕ) (t f : Label)
    → Jumps packet 0 0 0x45 mask (λ n. not (bit_and n mask == 0)) t f
unfolding perform class_of jmp_taken
jumps_set packet mask t f a x = elim (Bool-cases (bit_and a mask == 0)) [
  | inl h ↦ rw h
  | inr h ↦ rw h
]

pub Lowers-first_fragment :
    (packet : Packet) (lo : ℕ) (e : List Item) (t f : Label)
    → Lowers packet lo lo e
        (followed (jump 0x45 0x1fff f t) (followed (plain 0x28 20) e))
        (λ _. first_fragment packet)
        t
        f
unfolding perform class_of step_ld
Lowers-first_fragment packet lo e t f =
    subst
      (λ v.
        Lowers packet lo lo e (followed (jump 0x45 0x1fff f t) (followed (plain 0x28 20) e)) v t f)
      (λ i x. neg-judge (field packet 20 2) (λ n. bit_and n 0x1fff == 0) i)
      (Lowers-neg (
        Lowers-judge packet 0x28 20 0x45 0x1fff (λ n. not (bit_and n 0x1fff == 0)) f t lo e
          (λ _. field packet 20 2) (λ x a. rw (load-field packet 20 2))
          (jumps_set packet 0x1fff f t)))

-- A verdict that looks at the length of the IPv4 header.
abbrev pub with_header : Packet → (ℕ → Verdict) → Verdict
with_header packet v = elim (field packet 14 1) [
  | none ↦ none
  | some byte ↦ v (4 * bit_and byte 0x0f)
]

Leaves-with_header :
    (packet : Packet) (code rest : List Item) (v : ℕ → Verdict) (t f : Label) (a x : ℕ)
    → Computes packet code v t f
    → (o : Option ℕ) → load packet 14 1 ≡ fetched o
    → Leaves packet
        (exec packet (running a x) (insn (plain 0xb1 14) ∷ code ++ rest))
        rest
        (elim o [ none ↦ none | some byte ↦ v (4 * bit_and byte 0x0f) ])
        t
        f
unfolding exec perform class_of step_ldx
Leaves-with_header packet code rest v t f a x c none p = rw p
Leaves-with_header packet code rest v t f a x c (some n) p =
    rw (exec, p) (c a (4 * bit_and n 0x0f) rest)

pub Lowers-with_header :
    {packet : Packet} {lo hi : ℕ} {e e' : List Item} {v : ℕ → Verdict} {t f : Label}
    → Lowers packet lo hi (followed (plain 0xb1 14) e) e' v t f
    → Lowers packet lo hi e e' (λ _. with_header packet v) t f
Lowers-with_header {packet} {e} {v} {t} {f} h = record {
  code = insn (plain 0xb1 14) ∷ h.code;
  appended = h.appended ∙ append_assoc e (insn (plain 0xb1 14) ∷ []) h.code;
  ranged = h.ranged;
  within = h.within;
  forward = (tt, tt, h.forward);
  computes = λ a x rest.
      Leaves-with_header packet h.code rest v t f a x h.computes (field packet 14 1)
        (load-field packet 14 1);
}
