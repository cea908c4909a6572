-- ===== src/Compiler/Encoding.antt =====
-- Every program that the compiler returns fits the structures of the kernel's interface.
use root_wire.Base.{
  ℕ, suc, ◌-◌, ◌<◌, ◌≡◌, Bool, Option, none, some, List, [], ◌∷◌, ok, >>=-eq-ok, leb, ◌&&◌, length,
  arith, Bool-cases, Option-cases, inl, inr,
}
use root_wire.Bpf.{SockFilter, sock_filter}
use root_wire.Bpf.Program.{FilterProgram, filter_program}
use root_wire.Bpf.Program.Packing.{Encodable, read_instructions, filter_program-read}
use root_wire.Compiler.Syntax.{Text, Unicode}
use root_wire.Compiler.Codegen.{Label, PInsn, Item, label, insn}
use root_wire.Compiler.Codegen.Fields.{AllFieldsFit, ItemsFit, program_items-ItemsFit}
use root_wire.Compiler.Resolve.{
  Positions, lookup, instructions, offset_to, offset_of, resolve_from, resolve,
}
use root_wire.Compiler.Assembly.{program_items, compile_tree}
use root_wire.Compiler.Expression.{parse_expression, compile_expression}
use root_wire.Compiler.Expression.Bounds.{parse_expression-Bounded}

offset_of-lt :
    (positions : Positions) (target : Option Label) (index d : ℕ)
    → offset_of positions target index ≡ ok d
    → d < 256
unfolding offset_of offset_to
offset_of-lt positions none index d h = let e : 0 ≡ d = cc in omega arith
offset_of-lt positions (some l) index d h = elim (Option-cases (lookup l positions)) [
  | inl e ↦ let k = rw (offset_to, e) at h in cc
  | inr (t, e) ↦ elim (Bool-cases (leb (suc index) t && leb (t - suc index) 255)) [
    | inl near ↦
        let e' : t - suc index ≡ d = (let k = rw (offset_to, e, near) at h in cc) in ground arith
    | inr far ↦ let k = rw (offset_to, e, far) at h in cc
  ]
]

resolve_from-Encodable :
    (positions : Positions) (index : ℕ) (is : List PInsn) (program : List SockFilter)
    → AllFieldsFit is
    → resolve_from positions index is ≡ ok program
    → Encodable program
unfolding resolve_from
resolve_from-Encodable positions index [] program f h = let e : [] ≡ program = cc in rw (← e) tt
resolve_from-Encodable positions index (i ∷ is) program ((c, k), f) h =
    let (jt, p, h₁) = >>=-eq-ok (offset_of positions i.jt index) _ h in
    let (jf, q, h₂) = >>=-eq-ok (offset_of positions i.jf index) _ h₁ in
    let (rest, r, h₃) = >>=-eq-ok (resolve_from positions (suc index) is) _ h₂ in
    let e : sock_filter i.code jt jf i.k ∷ rest ≡ program = cc in
    rw (← e) (
      c,
      offset_of-lt positions i.jt index jt p,
      offset_of-lt positions i.jf index jf q,
      k,
      resolve_from-Encodable positions (suc index) is rest f r,
    )

ItemsFit-AllFieldsFit : (items : List Item) → ItemsFit items → AllFieldsFit (instructions items)
unfolding instructions
ItemsFit-AllFieldsFit [] h = tt
ItemsFit-AllFieldsFit (label l ∷ items) h = ItemsFit-AllFieldsFit items h
ItemsFit-AllFieldsFit (insn i ∷ items) (f, h) = (f, ItemsFit-AllFieldsFit items h)

module _ (unicode : Unicode) (expr : Text) (program : List SockFilter) where
  -- Every field of every instruction of a compiled expression fits its width in `struct sock_filter`:
  -- opcodes 16 bits, jumps eight, operands 32.
  pub compile_expression-Encodable :
      compile_expression unicode expr ≡ ok program → Encodable program
  unfolding compile_expression compile_tree resolve
  compile_expression-Encodable h =
      let (ast, p, q) = >>=-eq-ok (parse_expression unicode expr) compile_tree h in
      resolve_from-Encodable _ 0 (instructions (program_items ast)) program
        (ItemsFit-AllFieldsFit (program_items ast)
          (program_items-ItemsFit ast (parse_expression-Bounded unicode expr ast p)))
        q

  -- A compiled expression of fewer than 65536 instructions makes a filter program in either byte
  -- order, never a `struct.error`, and the kernel, which takes `len` instructions off the buffer,
  -- finds the compiled ones.
  pub compile_expression-read :
      (little : Bool)
      → compile_expression unicode expr ≡ ok program
      → length program < 0x1_0000
      → (fp : FilterProgram) × (filter_program little program ≡ ok fp)
        × (read_instructions little fp.len fp.buffer ≡ program)
  compile_expression-read little h short =
      filter_program-read little program (compile_expression-Encodable h) short
