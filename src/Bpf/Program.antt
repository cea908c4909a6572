-- ===== src/Bpf/Program.antt =====
-- src/rootwire/bpf.py, `FilterProgram`: the bytes that the kernel is handed.
pub mod Packing
use root_wire.Base.{
  ℕ, zero, suc, ◌*◌, ◌/◌, ◌%◌, ◌^◌, Bool, List, [], ◌∷◌, ◌++◌, Result, ok, err, ◌>>=◌, ltb,
  if◌then◌else◌, length,
}
use root_wire.Struct.{PackError, pack_field}
use root_wire.Bpf.{SockFilter}

-- `_INSTRUCTION.pack(*insn)`, the format "=HBBI".
unfoldable pub pack_instruction : Bool → SockFilter → Result PackError (List ℕ)
unfolding pack_field
pack_instruction little insn = do
  code ← pack_field little 2 insn.code
  jt ← pack_field little 1 insn.jt
  jf ← pack_field little 1 insn.jf
  k ← pack_field little 4 insn.k
  ok (code ++ jt ++ jf ++ k)

-- `_pack_instructions`
unfoldable pub pack_instructions : Bool → List SockFilter → Result PackError (List ℕ)
unfolding pack_instruction
pack_instructions little [] = ok []
pack_instructions little (insn ∷ instructions) = do
  bytes ← pack_instruction little insn
  rest ← pack_instructions little instructions
  ok (bytes ++ rest)

-- `FilterProgram`: the buffer, and `len` of `_SockFprog`, an unsigned short.
pub record FilterProgram : Type 0 where
  pub buffer : List ℕ
  pub len : ℕ

unfoldable pub filter_program : Bool → List SockFilter → Result PackError FilterProgram
unfolding pack_instructions
filter_program little instructions = pack_instructions little instructions >>= λ packed.
    ok (record { buffer = packed; len = length instructions % 2 ^ 16 })
