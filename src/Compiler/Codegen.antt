-- ===== src/Compiler/Codegen.antt =====
pub mod Fields
-- src/rootwire/bpf_compiler.py, the code generator: an assembler over symbolic jump labels.
use root_wire.Base.{ℕ, suc, Option, none, some, List, [], ◌∷◌, ◌++◌}
use root_wire.Compiler.Syntax.{
  Protocol, tcp, udp, icmp, arp, ip, ip6, Direction, either, src, dst, Node, proto, host, port,
  negate, both, one_of,
}

-- A label is known by its identity alone: here, the emitter's counter when it was made.
abbrev pub Label : Type 0
Label = ℕ

-- `_PInsn`
pub record PInsn : Type 0 where
  pub code : ℕ
  pub k : ℕ
  pub jt : Option Label
  pub jf : Option Label

pub data Item : Type 0 where
  label : Label → Item
  insn : PInsn → Item

-- `_Emitter`
pub record Emitter : Type 0 where
  pub items : List Item
  pub counter : ℕ

abbrev pub Emit : Type 0
Emit = Emitter → Emitter

infixl 5 ◌>>=◌ ◌>>◌
abbrev pub ◌>>=◌ : (Emitter → Label × Emitter) → (Label → Emit) → Emit
(m >>= f) e = f (m e).0 (m e).1

abbrev pub ◌>>◌ : Emit → Emit → Emit
(m >> n) e = n (m e)

unfoldable pub new_label : Emitter → Label × Emitter
new_label e = (suc e.counter, record e { counter = suc e.counter })

unfoldable pub place : Label → Emit
place l e = record e { items = e.items ++ label l ∷ [] }

unfoldable pub emit : PInsn → Emit
emit i e = record e { items = e.items ++ insn i ∷ [] }

-- An instruction that does not jump.
abbrev pub plain : ℕ → ℕ → PInsn
plain code k = record { code = code; k = k; jt = none; jf = none }

abbrev pub jump : ℕ → ℕ → Label → Label → PInsn
jump code k on_true on_false = record { code = code; k = k; jt = some on_true; jf = some on_false }

-- Loads a value at an offset and branches on equality.
unfoldable pub test_at : ℕ → ℕ → ℕ → Label → Label → Emit
unfolding emit
test_at code offset value on_true on_false = do
  emit (plain code offset)
  emit (jump 0x15 value on_true on_false)

unfoldable pub compile_tcp_or_udp : ℕ → Label → Label → Emit
compile_tcp_or_udp proto_num on_true on_false = do
  v6 ← new_label
  v4 ← new_label
  test_at 0x28 12 0x86dd v6 v4
  place v6
  after_frag ← new_label
  test_at 0x30 20 proto_num on_true after_frag
  place after_frag
  peek ← new_label
  test_at 0x30 20 44 peek on_false
  place peek
  test_at 0x30 0x36 proto_num on_true on_false
  place v4
  v4_proto ← new_label
  test_at 0x28 12 0x0800 v4_proto on_false
  place v4_proto
  test_at 0x30 23 proto_num on_true on_false

unfoldable pub compile_proto : Protocol → Label → Label → Emit
compile_proto ip on_true on_false = test_at 0x28 12 0x0800 on_true on_false
compile_proto arp on_true on_false = test_at 0x28 12 0x0806 on_true on_false
compile_proto ip6 on_true on_false = test_at 0x28 12 0x86dd on_true on_false
compile_proto icmp on_true on_false = do
  v4 ← new_label
  test_at 0x28 12 0x0800 v4 on_false
  place v4
  test_at 0x30 23 1 on_true on_false
compile_proto tcp on_true on_false = compile_tcp_or_udp 6 on_true on_false
compile_proto udp on_true on_false = compile_tcp_or_udp 17 on_true on_false

-- The address comparison of `_compile_host`, behind its test of the EtherType.
unfoldable pub compile_host_address : ℕ → Direction → Label → Label → Emit
compile_host_address addr src on_true on_false = test_at 0x20 26 addr on_true on_false
compile_host_address addr dst on_true on_false = test_at 0x20 30 addr on_true on_false
compile_host_address addr either on_true on_false = do
  check_dst ← new_label
  test_at 0x20 26 addr on_true check_dst
  place check_dst
  test_at 0x20 30 addr on_true on_false

unfoldable pub compile_host : ℕ → Direction → Label → Label → Emit
compile_host addr direction on_true on_false = do
  v4 ← new_label
  test_at 0x28 12 0x0800 v4 on_false
  place v4
  compile_host_address addr direction on_true on_false

-- The port comparison that the IPv4 and the IPv6 path share.
unfoldable pub compile_port_value : ℕ → ℕ → ℕ → Direction → ℕ → Label → Label → Emit
compile_port_value code src_offset dst_offset src value on_true on_false =
    test_at code src_offset value on_true on_false
compile_port_value code src_offset dst_offset dst value on_true on_false =
    test_at code dst_offset value on_true on_false
compile_port_value code src_offset dst_offset either value on_true on_false = do
  check_dst ← new_label
  test_at code src_offset value on_true check_dst
  place check_dst
  test_at code dst_offset value on_true on_false

unfoldable pub compile_port_v6 : ℕ → Direction → Label → Label → Emit
compile_port_v6 number direction on_true on_false = do
  check_udp ← new_label
  matched ← new_label
  test_at 0x30 20 6 matched check_udp
  place check_udp
  test_at 0x30 20 17 matched on_false
  place matched
  compile_port_value 0x28 54 56 direction number on_true on_false

unfoldable pub compile_port_v4 : ℕ → Direction → Label → Label → Emit
compile_port_v4 number direction on_true on_false = do
  check_udp ← new_label
  matched ← new_label
  test_at 0x30 23 6 matched check_udp
  place check_udp
  test_at 0x30 23 17 matched on_false
  place matched
  not_fragment ← new_label
  emit (plain 0x28 20)
  emit (jump 0x45 0x1fff on_false not_fragment)
  place not_fragment
  emit (plain 0xb1 14)
  compile_port_value 0x48 14 16 direction number on_true on_false

unfoldable pub compile_port : ℕ → Direction → Label → Label → Emit
compile_port number direction on_true on_false = do
  v6 ← new_label
  v4 ← new_label
  test_at 0x28 12 0x86dd v6 v4
  place v6
  compile_port_v6 number direction on_true on_false
  place v4
  compile_port_v4 number direction on_true on_false

-- `_compile`: every path through the code of a node ends at one of the two labels.
unfoldable pub compile : Node → Label → Label → Emit
compile (proto name) on_true on_false = compile_proto name on_true on_false
compile (host addr direction) on_true on_false = compile_host addr direction on_true on_false
compile (port number direction) on_true on_false = compile_port number direction on_true on_false
compile (negate operand) on_true on_false = compile operand on_false on_true
compile (both left right) on_true on_false = do
  mid ← new_label
  compile left mid on_false
  place mid
  compile right on_true on_false
compile (one_of left right) on_true on_false = do
  mid ← new_label
  compile left on_true mid
  place mid
  compile right on_true on_false
