-- ===== src/Cli/Tests.antt =====
-- The theorems on the argument of `--filter` at concrete inputs.
use root_wire.Base.{List, true, [], ◌∷◌, ◌>>=◌, length, none, ◌≡◌, refl, some, ok, arith, map}
use root_wire.Bpf
use root_wire.Vm.{run_within}
use root_wire.Compiler.Syntax.{Protocol, Node, proto}
use root_wire.Compiler.Words.{codes, protocol_of}
use root_wire.Compiler.Meaning.{matches}
use root_wire.Compiler.Assembly.Correct.{decision}
use root_wire.Stats.{new_stats}
use root_wire.Pcap.Writer.{PcapWriter, open_writer}
use root_wire.Pcap.Writer.RoundTrip.{write_all}
use root_wire.Pcap.Replay.{read_captures}
use root_wire.Cli.Replay.{replay_source}
use root_wire.Cli.Replay.Again.{retag, run-replay_source}
use root_wire.Cli.Run.{Sourced, Outputs, build_outputs, run}
use root_wire.Cli.Run.Correct.{calls, finished, run-finished}
use root_wire.Samples.{
  records_parser, records_parser-documented, two_layers, web_frame, ascii, frame,
}
use root_wire.Cli.Filter.{get_canned, resolve_filter_program}
use root_wire.Cli.Filter.Correct.{Says, get_canned-decides, resolve_filter_program-decides}

get_canned-decides_example :
    (protocol : Protocol) × (protocol_of (codes "udp") ≡ some protocol)
    × (run_within 12 Bpf.udp (frame 8 0 40)
        ≡ ok (decision (matches (proto protocol) (frame 8 0 40))))
unfolding get_canned Bpf.udp
get_canned-decides_example =
    get_canned-decides (codes "udp") Bpf.udp (frame 8 0 40) 12 refl (omega arith)

resolve_filter_program-decides_example :
    (ast : Node) × Says ascii (codes "ip6") ast
    × (run_within 4 Bpf.ip6 (frame 0x86 0xdd 40) ≡ ok (decision (matches ast (frame 0x86 0xdd 40))))
unfolding resolve_filter_program Bpf.ip6
resolve_filter_program-decides_example =
    resolve_filter_program-decides ascii (codes "ip6") Bpf.ip6 (frame 0x86 0xdd 40) 4 refl
      (omega arith)

-- Two frames of two interfaces.
abbrev source : List Sourced
source = (web_frame, 1_700_000_000_000_000_001, some (codes "eth0")) ∷ (1 ∷ [], 8, none) ∷ []

abbrev new_writer : PcapWriter
new_writer = record { file = []; is_open = true }

run-finished_example :
    run two_layers source (build_outputs two_layers (some new_writer))
    ≡ (write_all (calls source) new_writer >>= finished two_layers 0 source [] new_stats)
run-finished_example = run-finished two_layers source new_writer

run-replay_source_example :
    (live again : Outputs two_layers) × (writer : PcapWriter) × ((open_writer >>= λ writer.
    run two_layers source (build_outputs two_layers (some writer)))
      ≡ ok (length source, live))
    × (live.writer ≡ some writer)
    × ((read_captures records_parser writer.file).error ≡ none)
    × (run two_layers
          (replay_source (codes "a") (read_captures records_parser writer.file).frames)
          (build_outputs two_layers none)
        ≡ ok (length source, again))
    × (again.shown ≡ map (retag two_layers (codes "a")) live.shown)
    × (again.stats ≡ live.stats)
run-replay_source_example =
    run-replay_source two_layers records_parser records_parser-documented (codes "a") source
      (omega arith, omega arith, (omega arith, omega arith, tt))
