-- ===== src/Compiler/Lowering/Nodes.antt =====
-- The code of the addressed primitives and of every syntax tree.
use root_wire.Base.{ℕ, suc, ◌+◌, ◌≤◌, refl, List, arith}
use root_wire.Vm.{Packet, class_of, step_ld}
use root_wire.Compiler.Syntax.{Direction, Node, proto, host, port, negate, both, one_of}
use root_wire.Compiler.Codegen.{
  Label, Item, Emitter, new_label, place, emit, plain, jump, test_at, compile_host, compile_port_v6,
  compile_port_v4, compile_port, compile, compile_port_value,
}
use root_wire.Compiler.Meaning.{
  disj, holds, matches_host, matches_port_v6, matches_port_v4, matches_port, matches,
}
use root_wire.Compiler.Lowering.{Lowers, followed, tested, labelled}
use root_wire.Compiler.Lowering.Rules.{Lowers-conj, Lowers-disj}
use root_wire.Compiler.Lowering.Branch.{Lowers-branch}
use root_wire.Compiler.Lowering.Primitives.{Lowers-byte, Lowers-half}
use root_wire.Compiler.Lowering.Header.{Lowers-neg, Lowers-first_fragment, Lowers-with_header}
use root_wire.Compiler.Lowering.Correct.{
  Compiles, compile_proto-Compiles, compile_port_value-Compiles, compile_host_address-Compiles,
}

-- TCP or UDP by the byte at an offset, with two labels made before.
Lowers-tcp_or_udp :
    (packet : Packet) (lo offset : ℕ) (items : List Item) (f : Label)
    → f ≤ lo
    → Lowers packet lo
        (suc lo)
        items
        (tested 0x30 offset 17
          (suc (suc lo))
          f
          (labelled (suc lo) (tested 0x30 offset 6 (suc (suc lo)) (suc lo) items)))
        (λ _. disj (holds packet offset 1 6) (holds packet offset 1 17))
        (suc (suc lo))
        f
Lowers-tcp_or_udp packet lo offset items f p =
    Lowers-disj lo (suc lo) (omega arith)
      (Lowers-byte packet lo items 6 (suc (suc lo)) (suc lo) offset)
      (Lowers-byte packet (suc lo) _ 17 (suc (suc lo)) f offset)

module _ (packet : Packet) (t f : Label) (e : Emitter) (p : t ≤ e.counter) (q : f ≤ e.counter) where
  compile_host-Compiles :
      (addr : ℕ) (direction : Direction)
      → Compiles packet e
          (compile_host addr direction t f e)
          (λ _. matches_host addr direction packet)
          t
          f
  unfolding compile_host new_label place test_at emit matches_host
  compile_host-Compiles addr direction =
      let e₁ = place (suc e.counter) (test_at 0x28 12 0x0800 (suc e.counter) f (new_label e).1) in
      let h =
        compile_host_address-Compiles packet t f e₁ (omega arith) (omega arith) addr direction in
      Lowers-conj e.counter _ (omega (arith, h.ranged))
        (Lowers-half packet e.counter e.items 0x0800 (suc e.counter) f 12) h

  compile_port_v6-Compiles :
      (number : ℕ) (direction : Direction)
      → Compiles packet e
          (compile_port_v6 number direction t f e)
          (λ _. matches_port_v6 number direction packet)
          t
          f
  unfolding compile_port_v6 new_label place test_at emit matches_port_v6 class_of step_ld
  compile_port_v6-Compiles number direction =
      let c₁ = suc e.counter in
      let c₂ = suc c₁ in
      let e₁ : Emitter = record {
        items = labelled c₂ (tested 0x30 20 17 c₂ f (labelled c₁ (tested 0x30 20 6 c₂ c₁ e.items)));
        counter = c₂;
      } in
      let h =
        compile_port_value-Compiles packet t f e₁ (omega arith) (omega arith) 0x28 54 56 number
          (λ _. 54) (λ _. 56) direction refl (λ x. refl) (λ x. refl) in
      Lowers-conj e.counter _ (omega (arith, h.ranged))
        (Lowers-tcp_or_udp packet e.counter 20 e.items f q) h

  compile_port_v4-Compiles :
      (number : ℕ) (direction : Direction)
      → Compiles packet e
          (compile_port_v4 number direction t f e)
          (λ _. matches_port_v4 number direction packet)
          t
          f
  unfolding compile_port_v4 new_label place test_at emit matches_port_v4 class_of step_ld
  compile_port_v4-Compiles number direction =
      let c₁ = suc e.counter in
      let c₂ = suc c₁ in
      let c₃ = suc c₂ in
      let first : List Item =
        labelled c₂ (tested 0x30 23 17 c₂ f (labelled c₁ (tested 0x30 23 6 c₂ c₁ e.items))) in
      let second : List Item =
        labelled c₃ (followed (jump 0x45 0x1fff f c₃) (followed (plain 0x28 20) first)) in
      let e₁ : Emitter = record { items = followed (plain 0xb1 14) second; counter = c₃ } in
      let h =
        compile_port_value-Compiles packet t f e₁ (omega arith) (omega arith) 0x48 14 16 number
          (λ x. x + 14) (λ x. x + 16) direction refl (λ x. refl) (λ x. refl) in
      let hi = (compile_port_value 0x48 14 16 direction number t f e₁).counter in
      Lowers-conj e.counter hi (omega (arith, h.ranged))
        (Lowers-tcp_or_udp packet e.counter 23 e.items f q)
        (Lowers-conj c₂ hi (omega (arith, h.ranged)) (Lowers-first_fragment packet c₂ first c₃ f)
          (Lowers-with_header h))

module _ (packet : Packet) (t f : Label) (e : Emitter) (p : t ≤ e.counter) (q : f ≤ e.counter) where
  compile_port-Compiles :
      (number : ℕ) (direction : Direction)
      → Compiles packet e
          (compile_port number direction t f e)
          (λ _. matches_port number direction packet)
          t
          f
  unfolding compile_port new_label place test_at emit matches_port
  compile_port-Compiles number direction =
      let c₁ = suc e.counter in
      let c₂ = suc c₁ in
      let e₁ : Emitter = record {
        items = labelled c₁ (tested 0x28 12 0x86dd c₁ c₂ e.items);
        counter = c₂;
      } in
      let h = compile_port_v6-Compiles packet t f e₁ (omega arith) (omega arith) number direction in
      let e₂ = place c₂ (compile_port_v6 number direction t f e₁) in
      let k =
        compile_port_v4-Compiles packet t f e₂ (omega (arith, h.ranged)) (omega (arith, h.ranged))
          number direction in
      Lowers-branch (omega (arith, h.ranged, k.ranged))
        (Lowers-half packet e.counter e.items 0x86dd c₁ c₂ 12) h k

-- The code of a syntax tree, wherever it is emitted, leaves a run at the exit for what the tree
-- says of the packet.
pub compile-Compiles :
    (node : Node) (packet : Packet) (t f : Label) (e : Emitter)
    → t ≤ e.counter
    → f ≤ e.counter
    → Compiles packet e (compile node t f e) (λ _. matches node packet) t f
unfolding compile new_label place matches
compile-Compiles (proto name) packet t f e p q = compile_proto-Compiles packet t f e p q name
compile-Compiles (host addr direction) packet t f e p q =
    compile_host-Compiles packet t f e p q addr direction
compile-Compiles (port number direction) packet t f e p q =
    compile_port-Compiles packet t f e p q number direction
compile-Compiles (negate operand) packet t f e p q =
    Lowers-neg (compile-Compiles operand packet f t e q p)
compile-Compiles (both left right) packet t f e p q =
    let mid = suc e.counter in
    let e₁ : Emitter = (new_label e).1 in
    let h = compile-Compiles left packet mid f e₁ (omega arith) (omega arith) in
    let e₂ : Emitter = place mid (compile left mid f e₁) in
    let k =
      compile-Compiles right packet t f e₂ (omega (arith, h.ranged)) (omega (arith, h.ranged)) in
    Lowers-conj e.counter _ (omega (arith, h.ranged, k.ranged)) h k
compile-Compiles (one_of left right) packet t f e p q =
    let mid = suc e.counter in
    let e₁ : Emitter = (new_label e).1 in
    let h = compile-Compiles left packet t mid e₁ (omega arith) (omega arith) in
    let e₂ : Emitter = place mid (compile left t mid e₁) in
    let k =
      compile-Compiles right packet t f e₂ (omega (arith, h.ranged)) (omega (arith, h.ranged)) in
    Lowers-disj e.counter _ (omega (arith, h.ranged, k.ranged)) h k
