-- ===== src/Compiler/Symbolic.antt =====
-- A meaning for the assembler's code before its labels are resolved: the instructions act as in
-- the interpreter, and a jump seeks its label further down.
pub mod Code
use root_wire.Base.{
  ℕ, Bool, true, false, Option, none, some, List, [], ◌∷◌, Result, ok, err, ◌>>=◌, ◌==◌, ◌||◌,
  if◌then◌else◌,
}
use root_wire.Vm.{
  Packet, Exception, off_end, not_implemented, Class, ld, ldx, jmp, ret, other, class_of, step_ld,
  step_ldx, jmp_taken, step_ret,
}
use root_wire.Compiler.Codegen.{Label, PInsn, Item, label, insn}

-- Executing with the registers A and X, or seeking a label.
pub data Mode : Type 0 where
  running : ℕ → ℕ → Mode
  seeking : Label → ℕ → ℕ → Mode

pub data Then : Type 0 where
  go : Mode → Then
  stop : ℕ → Then

-- A missing target means the next instruction.
abbrev pub goto : Option Label → ℕ → ℕ → Mode
goto none a x = running a x
goto (some l) a x = seeking l a x

unfoldable pub perform : Class → PInsn → Packet → ℕ → ℕ → Result Exception Then
perform ld i packet a x = step_ld i.code i.k packet x >>= λ a'. ok (go (running a' x))
perform ldx i packet a x = step_ldx i.code i.k packet >>= λ x'. ok (go (running a x'))
perform jmp i packet a x =
    jmp_taken i.code i.k a >>= λ taken. ok (go (goto (if taken then i.jt else i.jf) a x))
perform ret i packet a x = step_ret i.code i.k >>= λ n. ok (stop n)
perform other i packet a x = err not_implemented

unfoldable pub exec : Packet → Mode → List Item → Result Exception ℕ
exec packet m [] = err off_end
exec packet (running a x) (label l ∷ items) = exec packet (running a x) items
exec packet (seeking l a x) (label l' ∷ items) =
    exec packet (if l == l' then running a x else seeking l a x) items
exec packet (running a x) (insn i ∷ items) = perform (class_of i.code) i packet a x >>= λ next.
    elim next [ go m ↦ exec packet m items | stop n ↦ ok n ]
exec packet (seeking l a x) (insn i ∷ items) = exec packet (seeking l a x) items

-- Whether a label stands in the code.
unfoldable pub placed : Label → List Item → Bool
placed l [] = false
placed l (label l' ∷ items) = l == l' || placed l items
placed l (insn i ∷ items) = placed l items
