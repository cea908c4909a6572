-- ===== src/Compiler/Assembly.antt =====
pub mod Correct
-- src/rootwire/bpf_compiler.py, the second half of `compile_expression`: a syntax tree to a program.
use root_wire.Base.{List, [], Result}
use root_wire.Bpf.{SockFilter}
use root_wire.Compiler.Syntax.{Node, Error}
use root_wire.Compiler.Codegen.{
  Item, Emit, Emitter, Label, new_label, place, emit, plain, compile, ◌>>=◌, ◌>>◌,
}
use root_wire.Compiler.Resolve.{resolve}

-- The code of the tree between two fixed labels, which stand last.
unfoldable pub emit_program : Node → Emit
emit_program ast = do
  accept ← new_label
  reject ← new_label
  compile ast accept reject
  place accept
  emit (plain 0x06 0x0004_0000)
  place reject
  emit (plain 0x06 0)

unfoldable pub program_items : Node → List Item
unfolding emit_program
program_items ast = (emit_program ast (record { items = []; counter = 0 })).items

unfoldable pub compile_tree : Node → Result Error (List SockFilter)
unfolding program_items resolve
compile_tree ast = resolve (program_items ast)
