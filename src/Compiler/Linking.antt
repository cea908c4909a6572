-- ===== src/Compiler/Linking.antt =====
-- One instruction: the resolved one does in the interpreter what it did with its labels.
pub mod Simulation
pub mod Locations
use root_wire.Base.{
  ℕ, zero, suc, ◌+◌, ◌-◌, ◌≤◌, ◌<◌, ◌≡◌, refl, sym, ap, ◌∙◌, Bool, true, false, Option, none, some,
  List, [], ◌∷◌, Result, ok, err, ◌>>=◌, >>=-eq-ok, ltb, leb, ◌==◌, ◌&&◌, ◌||◌, if◌then◌else◌,
  length, drop, get_elem?, get_elem?-drop, get_elem?-drop_end, arith, Bool-cases, ==_iff, leb→le,
  le→ltb,
}
use root_wire.Bpf.{SockFilter, sock_filter}
use root_wire.Vm.{
  Packet, Exception, Class, ld, ldx, jmp, ret, other, class_of, step_ld, step_ldx, jmp_taken,
  step_jmp, step_ret, Next, continue, return, step, run_loop,
}
use root_wire.Compiler.Syntax.{Error}
use root_wire.Compiler.Codegen.{Label, PInsn, Item, label, insn}
use root_wire.Compiler.Symbolic.{
  Mode, running, seeking, Then, go, stop, goto, perform, exec, placed,
}
use root_wire.Compiler.Resolve.{
  Positions, lookup, positions_from, instructions, offset_to, offset_of, resolve_from, resolve,
}

-- Each label of the code is recorded with the index of the instruction behind it.
abbrev pub Located : Positions → ℕ → List Item → Type 0
Located positions base [] = Unit
Located positions base (label l ∷ items) =
    (lookup l positions ≡ some base) × Located positions base items
Located positions base (insn i ∷ items) = Located positions (suc base) items

-- A label that is recorded further on stands in the code.
abbrev pub Complete : Positions → ℕ → List Item → Type 0
Complete positions base items =
    (l p : ℕ) → lookup l positions ≡ some p → base < p → placed l items ≡ true

abbrev pub a_of : Mode → ℕ
a_of (running a x) = a
a_of (seeking l a x) = a

abbrev pub x_of : Mode → ℕ
x_of (running a x) = x
x_of (seeking l a x) = x

-- The program counter that stands for a mode in front of the code.
abbrev pub Points : Positions → ℕ → List Item → Mode → ℕ → Type 0
Points positions base items (running a x) pc = pc ≡ base
Points positions base items (seeking l a x) pc =
    (lookup l positions ≡ some pc) × (placed l items ≡ true)

pub offset_to-eq_ok :
    (positions : Positions) (l base offset : ℕ)
    → offset_to positions l base ≡ ok offset
    → (lookup l positions ≡ some (base + suc offset)) × (offset ≤ 255)
unfolding offset_to
offset_to-eq_ok positions l base offset h = ground arith

-- An offset leads to the place of its label.
pub offset_of-Points :
    (positions : Positions) (base : ℕ) (i : PInsn) (items : List Item) (target : Option Label)
    (offset a x : ℕ)
    → Complete positions base (insn i ∷ items)
    → offset_of positions target base ≡ ok offset
    → Points positions (suc base) items (goto target a x) (base + suc offset)
unfolding offset_of placed
offset_of-Points positions base i items none offset a x c h = ground arith
offset_of-Points positions base i items (some l) offset a x c h =
    let (p, q) = offset_to-eq_ok positions l base offset h in
    (p, c l (base + suc offset) p (omega arith))

-- A round of the interpreter and the instruction with labels end alike.
pub data Alike (positions : Positions) (base : ℕ) (items : List Item)
    : Result Exception Next → Result Exception Then → Type 0 where
  fails : (e : Exception) → Alike positions base items (err e) (err e)
  goes :
      (m : Mode) (pc : ℕ)
      → Points positions base items m pc
      → Alike positions base items (ok (continue pc (a_of m) (x_of m))) (ok (go m))
  stops : (n : ℕ) → Alike positions base items (ok (return n)) (ok (stop n))

module _ (positions : Positions) (base : ℕ) (items : List Item) where
  Alike-next :
      (r : Result Exception ℕ) (m : ℕ → Mode) (f : ℕ → Next)
      → ((n : ℕ)
          → (f n ≡ continue (suc base) (a_of (m n)) (x_of (m n)))
            × Points positions (suc base) items (m n) (suc base))
      → Alike positions (suc base) items (r >>= λ n. ok (f n)) (r >>= λ n. ok (go (m n)))
  Alike-next (ok n) m f h = let (p, q) = h n in rw p (goes (m n) (suc base) q)
  Alike-next (err e) m f h = fails e

  goto-Alike :
      (i : PInsn) (target : Option Label) (offset a x : ℕ)
      → Complete positions base (insn i ∷ items)
      → offset_of positions target base ≡ ok offset
      → Alike positions
          (suc base)
          items
          (ok (continue (base + suc offset) a x))
          (ok (go (goto target a x)))
  goto-Alike i none offset a x c h =
      goes (running a x) _ (offset_of-Points positions base i items none offset a x c h)
  goto-Alike i (some l) offset a x c h =
      goes (seeking l a x) _ (offset_of-Points positions base i items (some l) offset a x c h)

  pub step-Alike :
      (c : Class) (i : PInsn) (packet : Packet) (jt jf a x : ℕ)
      → Complete positions base (insn i ∷ items)
      → offset_of positions i.jt base ≡ ok jt
      → offset_of positions i.jf base ≡ ok jf
      → Alike positions
          (suc base)
          items
          (step c (sock_filter i.code jt jf i.k) packet base a x)
          (perform c i packet a x)
  unfolding step perform step_jmp
  step-Alike ld i packet jt jf a x c p q =
      Alike-next (step_ld i.code i.k packet x) (λ n. running n x) _ (λ n. (refl, refl))
  step-Alike ldx i packet jt jf a x c p q =
      Alike-next (step_ldx i.code i.k packet) (λ n. running a n) _ (λ n. (refl, refl))
  step-Alike jmp i packet jt jf a x c p q = jump (jmp_taken i.code i.k a)
    where
      jump :
          (r : Result Exception Bool)
          → Alike positions
              (suc base)
              items
              ((r >>= λ taken. ok (suc (if taken then jt else jf))) >>= λ d.
                ok (continue (base + d) a x))
              (r >>= λ taken. ok (go (goto (if taken then i.jt else i.jf) a x)))
      jump (err e) = fails e
      jump (ok true) = goto-Alike i i.jt jt a x c p
      jump (ok false) = goto-Alike i i.jf jf a x c q
  step-Alike ret i packet jt jf a x c p q = halt (step_ret i.code i.k)
    where
      halt :
          (r : Result Exception ℕ)
          → Alike positions (suc base) items (r >>= λ n. ok (return n)) (r >>= λ n. ok (stop n))
      halt (ok n) = stops n
      halt (err e) = fails e
  step-Alike other i packet jt jf a x c p q = fails _

-- What a round and an instruction that end alike go on to.
pub Alike-bind :
    (positions : Positions) (base fuel : ℕ) (items : List Item) (program : List SockFilter)
    (packet : Packet) {r : Result Exception Next} {s : Result Exception Then}
    → Alike positions base items r s
    → ((m : Mode) (pc : ℕ)
        → Points positions base items m pc
        → run_loop fuel program packet pc (a_of m) (x_of m) ≡ exec packet m items)
    → (r >>= λ next. elim next [
      | continue pc a x ↦ run_loop fuel program packet pc a x
      | return n ↦ ok n
    ])
      ≡ (s >>= λ next. elim next [ go m ↦ exec packet m items | stop n ↦ ok n ])
Alike-bind positions base fuel items program packet (fails e) h = refl
Alike-bind positions base fuel items program packet (goes m pc p) h = h m pc p
Alike-bind positions base fuel items program packet (stops n) h = refl

pub resolve_from-eq_ok :
    (positions : Positions) (base : ℕ) (i : PInsn) (is : List PInsn) (program : List SockFilter)
    → resolve_from positions base (i ∷ is) ≡ ok program
    → (jt : ℕ) × (jf : ℕ) × (rest : List SockFilter) × (offset_of positions i.jt base ≡ ok jt)
      × (offset_of positions i.jf base ≡ ok jf)
      × (resolve_from positions (suc base) is ≡ ok rest)
      × (program ≡ sock_filter i.code jt jf i.k ∷ rest)
unfolding resolve_from
resolve_from-eq_ok positions base i is program h =
    let (jt, p, h₁) = >>=-eq-ok (offset_of positions i.jt base) _ h in
    let (jf, q, h₂) = >>=-eq-ok (offset_of positions i.jf base) _ h₁ in
    let (rest, r, h₃) = >>=-eq-ok (resolve_from positions (suc base) is) _ h₂ in
    (jt, jf, rest, p, q, r, cc)
