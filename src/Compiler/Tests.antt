-- ===== src/Compiler/Tests.antt =====
-- Runs of the compiler and of the interpreter, and the theorems at concrete inputs.
use root_wire.Base.{false, ◌≡◌, ◌≢◌, refl, List, [], ◌∷◌, ◌++◌, Result, ok, err, arith, length}
use root_wire.Bpf.{SockFilter}
use root_wire.Samples.{ascii, zeros, frame}
use root_wire.Bpf
use root_wire.Vm.{
  Packet, load, from_bytes_big, run_within, run_loop, step, step_ld, step_ldx, step_jmp, jmp_taken,
  step_ret, class_of,
}
use root_wire.Compiler.Syntax.{
  Text, Token, Node, proto, host, port, negate, both, one_of, Protocol, Direction, Error,
}
use root_wire.Compiler.Words.{codes}
use root_wire.Compiler.Lexer.{tokenize}
use root_wire.Compiler.Meaning.{matches, holds, field}
use root_wire.Compiler.Parser.Grammar.{Level, Reads}
use root_wire.Compiler.Linking.Locations.{AllAhead, Fits}
use root_wire.Bpf.Program.{FilterProgram, filter_program}
use root_wire.Bpf.Program.Packing.{Encodable, read_instructions}
use root_wire.Compiler.Expression.Bounds.{Bounded, parse_expression-Bounded}
use root_wire.Compiler.Encoding.{compile_expression-Encodable, compile_expression-read}
use root_wire.Compiler.Complement.{ExactlyOne, compile_tree-ExactlyOne}
use root_wire.Compiler.Ethertypes.{run_within-compile_port}
use root_wire.Compiler.Resolve.{instructions}
use root_wire.Compiler.Codegen.{
  compile, compile_proto, compile_tcp_or_udp, compile_host, compile_host_address, compile_port,
  compile_port_v4, compile_port_v6, compile_port_value, test_at, emit, place, new_label,
}
use root_wire.Compiler.Assembly.{compile_tree, program_items}
use root_wire.Compiler.Assembly.Correct.{decision, run_within-compile_tree, compile_tree-Fits}
use root_wire.Compiler.Expression.{parse_expression, compile_expression}
use root_wire.Compiler.Expression.Correct.{
  compile_expression-decides, parse_expression-Reads, compile_expression-ne-out_of_fuel,
}

tree : Text → Result Error Node
unfolding parse_expression
tree = parse_expression ascii

-- `and` binds tighter than `or`, and both group to the left.
precedence :
    tree (codes "tcp or udp and not port 80 or arp")
    ≡ ok (
        one_of
          (one_of
            (proto Protocol.tcp)
            (both (proto Protocol.udp) (negate (port 80 Direction.either))))
          (proto Protocol.arp))
unfolding tree
precedence = refl

address : tree (codes "src host 10.0.0.255") ≡ ok (host 0x0a00_00ff Direction.src)
unfolding tree
address = refl

bad_octet : tree (codes "host 1.2.3.256") ≡ err (Error.invalid_ipv4 (codes "1.2.3.256"))
unfolding tree
bad_octet = refl

unclosed : tree (codes "(tcp") ≡ err Error.unclosed_paren
unfolding tree
unclosed = refl

program : Text → Result Error (List SockFilter)
unfolding compile_expression compile compile_proto compile_tcp_or_udp compile_host
    compile_host_address compile_port compile_port_v4 compile_port_v6 compile_port_value test_at
    emit place new_label
program = compile_expression ascii

-- For these two the compiler's code is that of tcpdump.
arp-program : program (codes "arp") ≡ ok Bpf.arp
unfolding program Bpf.arp
arp-program = refl

ip6-program : program (codes "ip6") ≡ ok Bpf.ip6
unfolding program Bpf.ip6
ip6-program = refl

abbrev web : Node
web = both (proto Protocol.tcp) (port 80 Direction.either)

assembled : Node → List SockFilter
unfolding compile_tree compile compile_proto compile_tcp_or_udp compile_host compile_host_address
    compile_port compile_port_v4 compile_port_v6 compile_port_value test_at emit place new_label
assembled ast = elim (compile_tree ast) [ ok p ↦ p | err e ↦ [] ]

compile_expression-decides_example :
    (ast : Node) × (parse_expression ascii (codes "arp") ≡ ok ast)
    × (run_within 4 Bpf.arp (frame 8 6 28) ≡ ok (decision (matches ast (frame 8 6 28))))
unfolding Bpf.arp compile_expression compile compile_proto test_at emit place new_label
compile_expression-decides_example =
    compile_expression-decides ascii (codes "arp") Bpf.arp (frame 8 6 28) 4 refl (omega arith)

parse_expression-Reads_example :
    (tokens : List Token) × (tokenize ascii (codes "not (tcp or udp)") ≡ ok tokens)
    × Reads ascii Level.or tokens [] (negate (one_of (proto Protocol.tcp) (proto Protocol.udp)))
unfolding parse_expression
parse_expression-Reads_example =
    parse_expression-Reads ascii (codes "not (tcp or udp)")
      (negate (one_of (proto Protocol.tcp) (proto Protocol.udp))) refl

compile_expression-ne-out_of_fuel_example :
    compile_expression ascii (codes "host 10.0.0.1 or (") ≢ err Error.out_of_fuel
compile_expression-ne-out_of_fuel_example =
    compile_expression-ne-out_of_fuel ascii (codes "host 10.0.0.1 or (")

run_within-compile_tree_example :
    run_within 100 (assembled web) (frame 8 0 60) ≡ ok (decision (matches web (frame 8 0 60)))
unfolding assembled
run_within-compile_tree_example =
    run_within-compile_tree web (frame 8 0 60) 100 (assembled web) refl (omega arith)

compile_tree-Fits_example :
    AllAhead (program_items web)
    × Fits (length (instructions (program_items web))) (compile_tree web)
compile_tree-Fits_example = compile_tree-Fits web

compile_tree-ExactlyOne_example :
    ExactlyOne
      (run_within 100 (assembled web) (frame 8 0 64))
      (run_within 100 (assembled (negate web)) (frame 8 0 64))
unfolding assembled
compile_tree-ExactlyOne_example =
    compile_tree-ExactlyOne web (frame 8 0 64) 100 (assembled web) (assembled (negate web)) refl
      refl (omega arith) (omega arith) (omega arith)

abbrev local : Node
local = host 0x7f00_0001 Direction.src

-- Sixty bytes that read as a TCP segment to port 80, behind a header of IPv4 and one of ARP.
abbrev segment : Packet
segment = 0x45 ∷ zeros 8 ++ 6 ∷ zeros 12 ++ 0 ∷ 80 ∷ zeros 36

run_within-compile_port_example :
    run_within 20 (assembled (port 80 Direction.dst)) (frame 8 0 0 ++ segment)
    ≡ run_within 20 (assembled (port 80 Direction.dst)) (frame 8 6 0 ++ segment)
unfolding assembled holds field from_bytes_big
run_within-compile_port_example =
    run_within-compile_port (frame 8 0 0) (frame 8 6 0) segment refl refl 20 80 Direction.dst
      (assembled (port 80 Direction.dst)) refl (omega arith) refl refl

-- The ARP frame is kept.
arp_segment_kept :
    run_within 20 (assembled (port 80 Direction.dst)) (frame 8 6 0 ++ segment) ≡ ok 0x0004_0000
unfolding assembled run_within run_loop step class_of step_ld load step_jmp jmp_taken from_bytes_big
    step_ldx step_ret
arp_segment_kept = refl

parse_expression-Bounded_example :
    Bounded (both (host 0xffff_ffff Direction.either) (port 65535 Direction.dst))
unfolding parse_expression
parse_expression-Bounded_example =
    parse_expression-Bounded ascii (codes "host 255.255.255.255 and dst port 65535")
      (both (host 0xffff_ffff Direction.either) (port 65535 Direction.dst)) refl

compile_expression-Encodable_example : Encodable Bpf.ip6
unfolding program Bpf.ip6
compile_expression-Encodable_example = compile_expression-Encodable ascii (codes "ip6") Bpf.ip6 refl

compile_expression-read_example :
    (fp : FilterProgram) × (filter_program false Bpf.arp ≡ ok fp)
    × (read_instructions false fp.len fp.buffer ≡ Bpf.arp)
unfolding program Bpf.arp
compile_expression-read_example =
    compile_expression-read ascii (codes "arp") Bpf.arp false refl (omega arith)
