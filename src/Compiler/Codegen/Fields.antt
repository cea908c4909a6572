-- ===== src/Compiler/Codegen/Fields.antt =====
-- The code of a tree whose numbers fit: every opcode below 2^16, every operand below 2^32.
use root_wire.Base.{ℕ, ◌<◌, List, [], ◌∷◌, ◌++◌, arith}
use root_wire.Compiler.Syntax.{
  Protocol, tcp, udp, icmp, arp, ip, ip6, Direction, either, src, dst, Node, proto, host, port,
  negate, both, one_of,
}
use root_wire.Compiler.Expression.Bounds.{Bounded}
use root_wire.Compiler.Codegen.{
  Label, PInsn, Item, label, insn, Emitter, new_label, place, emit, plain, jump, test_at,
  compile_tcp_or_udp, compile_proto, compile_host_address, compile_host, compile_port_value,
  compile_port_v6, compile_port_v4, compile_port, compile, Emit, ◌>>=◌, ◌>>◌,
}
use root_wire.Compiler.Assembly.{emit_program, program_items}

abbrev pub FieldsFit : PInsn → Type 0
FieldsFit i = (i.code < 0x1_0000) × (i.k < 0x1_0000_0000)

abbrev pub AllFieldsFit : List PInsn → Type 0
AllFieldsFit [] = Unit {0}
AllFieldsFit (i ∷ is) = FieldsFit i × AllFieldsFit is

abbrev pub ItemsFit : List Item → Type 0
ItemsFit [] = Unit {0}
ItemsFit (label l ∷ items) = ItemsFit items
ItemsFit (insn i ∷ items) = FieldsFit i × ItemsFit items

ItemsFit-append : (xs ys : List Item) → ItemsFit xs → ItemsFit ys → ItemsFit (xs ++ ys)
ItemsFit-append [] ys h k = k
ItemsFit-append (label l ∷ xs) ys h k = ItemsFit-append xs ys h k
ItemsFit-append (insn i ∷ xs) ys (h, hs) k = (h, ItemsFit-append xs ys hs k)

-- Emitting keeps the fields fitting.
record KeepsFields (m : Emit) : Type 0 where
  keeps : (e : Emitter) → ItemsFit e.items → ItemsFit (m e).items

fresh : {m : Label → Emit} → ((l : Label) → KeepsFields (m l)) → KeepsFields (new_label >>= m)
unfolding new_label
fresh h = record { keeps = λ e k. (h _).keeps _ k }

seq : {m n : Emit} → KeepsFields m → KeepsFields n → KeepsFields (m >> n)
seq h k = record { keeps = λ e f. k.keeps _ (h.keeps e f) }

placed : (l : Label) → KeepsFields (place l)
unfolding place
placed l = record { keeps = λ e k. ItemsFit-append e.items (label l ∷ []) k tt }

emitted : (i : PInsn) → FieldsFit i → KeepsFields (emit i)
unfolding emit
emitted i f = record { keeps = λ e k. ItemsFit-append e.items (insn i ∷ []) k (f, tt) }

abbrev InRange : ℕ → ℕ → ℕ → Type 0
InRange code offset value = (code < 0x1_0000) × (offset < 0x1_0000_0000) × (value < 0x1_0000_0000)

test :
    (code offset value : ℕ) (t f : Label)
    → InRange code offset value
    → KeepsFields (test_at code offset value t f)
unfolding test_at
test code offset value t f (c, o, v) =
    seq (emitted (plain code offset) (c, o)) (emitted (jump 0x15 value t f) (omega arith, v))

-- A test at an offset that is written in the source.
abbrev Written : ℕ → ℕ → ℕ → Type 0
Written code offset value = (code < 256) × (offset < 256) × (value < 0x1_0000)

written :
    (code offset value : ℕ) (t f : Label)
    → Written code offset value
    → KeepsFields (test_at code offset value t f)
written code offset value t f (c, o, v) =
    test code offset value t f (omega arith, omega arith, omega arith)

module _ (t f : Label) where
  compile_tcp_or_udp-KeepsFields :
      (number : ℕ) → number < 0x1_0000 → KeepsFields (compile_tcp_or_udp number t f)
  unfolding compile_tcp_or_udp
  compile_tcp_or_udp-KeepsFields number n = fresh λ v6. fresh λ v4.
      seq (written 0x28 12 0x86dd v6 v4 (omega arith, omega arith, omega arith)) (
        seq (placed v6) (
          fresh λ after_frag.
            seq (written 0x30 20 number t after_frag (omega arith, omega arith, n)) (
              seq (placed after_frag) (
                fresh λ peek.
                  seq (written 0x30 20 44 peek f (omega arith, omega arith, omega arith)) (
                    seq (placed peek) (
                      seq (written 0x30 0x36 number t f (omega arith, omega arith, n)) (
                        seq (placed v4) (
                          fresh λ v4_proto.
                            seq
                              (written 0x28 12 0x0800 v4_proto f
                                (omega arith, omega arith, omega arith))
                              (seq (placed v4_proto)
                                (written 0x30 23 number t f (omega arith, omega arith, n)))))))))))

  compile_proto-KeepsFields : (name : Protocol) → KeepsFields (compile_proto name t f)
  unfolding compile_proto
  compile_proto-KeepsFields ip = written 0x28 12 0x0800 t f (omega arith, omega arith, omega arith)
  compile_proto-KeepsFields arp = written 0x28 12 0x0806 t f (omega arith, omega arith, omega arith)
  compile_proto-KeepsFields ip6 = written 0x28 12 0x86dd t f (omega arith, omega arith, omega arith)
  compile_proto-KeepsFields icmp = fresh λ v4.
      seq (written 0x28 12 0x0800 v4 f (omega arith, omega arith, omega arith))
        (seq (placed v4) (written 0x30 23 1 t f (omega arith, omega arith, omega arith)))
  compile_proto-KeepsFields tcp = compile_tcp_or_udp-KeepsFields 6 (omega arith)
  compile_proto-KeepsFields udp = compile_tcp_or_udp-KeepsFields 17 (omega arith)

  compile_host_address-KeepsFields :
      (addr : ℕ) (direction : Direction)
      → addr < 0x1_0000_0000
      → KeepsFields (compile_host_address addr direction t f)
  unfolding compile_host_address
  compile_host_address-KeepsFields addr src a = test 0x20 26 addr t f (omega arith, omega arith, a)
  compile_host_address-KeepsFields addr dst a = test 0x20 30 addr t f (omega arith, omega arith, a)
  compile_host_address-KeepsFields addr either a = fresh λ check_dst.
      seq (test 0x20 26 addr t check_dst (omega arith, omega arith, a))
        (seq (placed check_dst) (test 0x20 30 addr t f (omega arith, omega arith, a)))

  compile_host-KeepsFields :
      (addr : ℕ) (direction : Direction)
      → addr < 0x1_0000_0000
      → KeepsFields (compile_host addr direction t f)
  unfolding compile_host
  compile_host-KeepsFields addr direction a = fresh λ v4.
      seq (written 0x28 12 0x0800 v4 f (omega arith, omega arith, omega arith))
        (seq (placed v4) (compile_host_address-KeepsFields addr direction a))

  compile_port_value-KeepsFields :
      (code src_offset dst_offset number : ℕ) (direction : Direction)
      → (code < 256) × (src_offset < 256) × (dst_offset < 256)
      → number < 0x1_0000
      → KeepsFields (compile_port_value code src_offset dst_offset direction number t f)
  unfolding compile_port_value
  compile_port_value-KeepsFields code s d number src (c, so, do') n =
      written code s number t f (c, so, n)
  compile_port_value-KeepsFields code s d number dst (c, so, do') n =
      written code d number t f (c, do', n)
  compile_port_value-KeepsFields code s d number either (c, so, do') n = fresh λ check_dst.
      seq (written code s number t check_dst (c, so, n))
        (seq (placed check_dst) (written code d number t f (c, do', n)))

  compile_port_v6-KeepsFields :
      (number : ℕ) (direction : Direction)
      → number < 0x1_0000
      → KeepsFields (compile_port_v6 number direction t f)
  unfolding compile_port_v6
  compile_port_v6-KeepsFields number direction n = fresh λ check_udp. fresh λ matched.
      seq (written 0x30 20 6 matched check_udp (omega arith, omega arith, omega arith)) (
        seq (placed check_udp) (
          seq (written 0x30 20 17 matched f (omega arith, omega arith, omega arith)) (
            seq (placed matched) (
              compile_port_value-KeepsFields 0x28 54 56 number direction
                (omega arith, omega arith, omega arith) n))))

  compile_port_v4-KeepsFields :
      (number : ℕ) (direction : Direction)
      → number < 0x1_0000
      → KeepsFields (compile_port_v4 number direction t f)
  unfolding compile_port_v4
  compile_port_v4-KeepsFields number direction n = fresh λ check_udp. fresh λ matched.
      seq (written 0x30 23 6 matched check_udp (omega arith, omega arith, omega arith)) (
        seq (placed check_udp) (
          seq (written 0x30 23 17 matched f (omega arith, omega arith, omega arith)) (
            seq (placed matched) (
              fresh λ not_fragment. seq (emitted (plain 0x28 20) (omega arith, omega arith)) (
                seq (emitted (jump 0x45 0x1fff f not_fragment) (omega arith, omega arith)) (
                  seq (placed not_fragment) (
                    seq (emitted (plain 0xb1 14) (omega arith, omega arith)) (
                      compile_port_value-KeepsFields 0x48 14 16 number direction
                        (omega arith, omega arith, omega arith) n))))))))

compile-KeepsFields : (ast : Node) (t f : Label) → Bounded ast → KeepsFields (compile ast t f)
unfolding compile compile_port Bounded
compile-KeepsFields (proto name) t f b = compile_proto-KeepsFields t f name
compile-KeepsFields (host addr direction) t f b = compile_host-KeepsFields t f addr direction b
compile-KeepsFields (port number direction) t f b = compile_port-KeepsFields number direction t f b
  where
    compile_port-KeepsFields :
        (number : ℕ) (direction : Direction) (t f : Label)
        → number < 0x1_0000
        → KeepsFields (compile_port number direction t f)
    compile_port-KeepsFields number direction t f n = fresh λ v6. fresh λ v4.
        seq (written 0x28 12 0x86dd v6 v4 (omega arith, omega arith, omega arith)) (
          seq (placed v6) (
            seq (compile_port_v6-KeepsFields t f number direction n)
              (seq (placed v4) (compile_port_v4-KeepsFields t f number direction n))))
compile-KeepsFields (negate operand) t f b = compile-KeepsFields operand f t b
compile-KeepsFields (both left right) t f (bl, br) = fresh λ mid.
    seq (compile-KeepsFields left mid f bl) (seq (placed mid) (compile-KeepsFields right t f br))
compile-KeepsFields (one_of left right) t f (bl, br) = fresh λ mid.
    seq (compile-KeepsFields left t mid bl) (seq (placed mid) (compile-KeepsFields right t f br))

pub program_items-ItemsFit : (ast : Node) → Bounded ast → ItemsFit (program_items ast)
unfolding program_items emit_program
program_items-ItemsFit ast b =
    let h : KeepsFields (emit_program ast) = fresh λ accept. fresh λ reject.
      seq (compile-KeepsFields ast accept reject b) (
        seq (placed accept) (
          seq (emitted (plain 0x06 0x0004_0000) (omega arith, omega arith))
            (seq (placed reject) (emitted (plain 0x06 0) (omega arith, omega arith))))) in
    h.keeps _ tt
