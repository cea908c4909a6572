-- ===== src/Lib.antt =====
-- RootWire captures Ethernet frames, decodes and renders them, and can have the kernel drop the
-- frames that a filter does not match. It also writes capture files and replays them. This library
-- is about the filter (the compiler from filter expressions to classic BPF programs, the canned
-- programs, the choice between the two for the argument of `--filter`, and the bytes that the
-- kernel is handed), about the capture files, and about the way of a frame from a socket or a file
-- through the decoder to the outputs.
--
-- The parts, and the modules that model them:
-- - Bpf: src/rootwire/bpf.py, `SockFilter` and the canned programs `_TCP`, `_UDP`, `_ARP`, `_IP6`;
--   Bpf.Program is `FilterProgram`, its buffer and its length, in either byte order.
-- - Vm: tests/bpf_vm.py, the interpreter under which programs are given their meaning. Its loop
--   gives up after 10,000 rounds; here it takes the number of rounds as an argument, and a
--   compiled program needs no more rounds than it has instructions. Exceptions are values.
-- - Compiler: src/rootwire/bpf_compiler.py. Syntax has the tokens, trees and errors; Lexer is
--   `_TOKEN_RE` and `_tokenize`; Parser is `_Parser`, with the tokens that are left in place of a
--   position; Codegen is `_Emitter` and the functions `_compile…`; Resolve is `_resolve`; Assembly
--   and Expression are `compile_expression`. A message of an error is left out where it is only
--   words about the source text.
-- - Cli.Filter: src/rootwire/cli.py, `_resolve_filter_program`, with the error as a value where
--   the program calls `parser.error`.
-- - Pcap: src/rootwire/pcap.py. Linktype is `_pcapng_linktype` and `_declared_linktype`, Writer is
--   `PcapWriter`, the file as the bytes written so far, and Replay is `read_captures`, what the
--   iteration yields and the exception that it ends with. The parser of the two formats, of the
--   netprotocols package, is a parameter. A timestamp is a natural number of nanoseconds.
-- - Frame and Decoder: src/rootwire/frame.py and src/rootwire/decoder.py. The netprotocols decoder
--   and its protocol classes are a parameter, `Netprotocols`.
-- - Headers: what the program reads off a layer of netprotocols, a record for each class. A text
--   that the package makes of numbers and of names that it knows is taken to be a `Word`, printable ASCII; DNS
--   names and record data are any text. A property that may raise InvalidFieldError is a result.
-- - Stats and Terminal: src/rootwire/output.py, `StatsCollector` and `_sanitize_for_terminal`,
--   with `str.isprintable` as a parameter that agrees with ASCII. Stats.Bags is the view of the
--   statistics that forgets the order of the frames, on the bags of frames, a quotient. Stats.Report
--   is `report`, to which the duration and the rate are words.
-- - Screen: src/rootwire/output.py, OutputToScreen. Block is `update` and `_render`, each
--   `Render.…` the renderers of some classes, Checksum is `_format_option`, `_trailing_bytes`,
--   `_is_fragmented` and `_checksum_note`, Utf8 is `bytes.decode(errors="ignore")`, and Format is
--   the formatting of the language. `verify` and `compute` of the package and the local time are
--   parameters. Safe and Lines prove what a terminal gets to see.
-- - Ndjson: src/rootwire/output.py, OutputToNDJSON; Json is `json.dumps` for the values that occur,
--   and `dataclasses.asdict` of a layer is a parameter.
-- - Cli.Arguments and Cli.Main: src/rootwire/cli.py, `_validate_args` and `main`. A run is a trace of
--   what it does to the outside, and how it ends. The file system, what comes of driving the source
--   through the outputs, a signal before its end, and what closing an output raises are parameters.
-- - Cli.Run: src/rootwire/cli.py, `run` over the outputs of `_build_outputs`. The screen and the
--   JSON lines are the list of frames that they are given, and a source is the list of what it
--   yields. Cli.Replay is `_replay_source`, and Cli.Session the source that `main` chooses, with
--   Cli.Run at work where Cli.Main has a parameter: the bytes of a file, what `capture_async`
--   yields, what printing a frame raises and `dataclasses.asdict` are given.
-- - Capture: src/rootwire/capture.py, `_parse_timestamp`, the callback of `_make_reader`, and the
--   queue of `capture_async`, whose states are reached by readable sockets and by the consumer in
--   any order. Capture.Arrivals says, apart from the callback, what a readable socket has to put on
--   the queue. The native `struct timespec` is a parameter. A datagram whose timestamp cannot be
--   unpacked leaves the queue as it is.
--   Capture.Sockets is `_open_socket` and the set-up and clean-up of `capture_async`, as the calls
--   made on the sockets; which of the calls of `_open_socket` and of `add_reader` raise is a
--   parameter, and a clean-up call takes its effect also where it raises.
-- - Struct: the fields of the `struct` module, packed and unpacked.
-- - Base and Samples: shared lemmas, and the inputs of the tests.
--
-- The specification of the compiler is Compiler.Meaning, what an expression means of a frame, with
-- no verdict where a field lies beyond the end of the frame, and Parser.Grammar, the grammar as a
-- relation. Between the meaning and the program stands Symbolic, which runs the emitted items with
-- their labels still in place: Lowering is about the items and the meaning, Linking about the
-- items and the resolved program.
--
-- Bounds and fuel: the lexer has fuel for as many tokens as the text has characters, the parser
-- six units for each token and six more, the scan of a pcapng buffer a round for each byte and one
-- more; all are enough. Numbers are natural numbers: a port is refused above 65535 by the parser,
-- an octet above 255. `int` refuses more than 4,300 digits, as CPython does. The Unicode database,
-- for `\d`, `\s` and `int`, is a parameter that agrees with ASCII on the decimal digits and gives
-- the full stop no value; Lexer.Spacing asks of it that ASCII letters, parentheses and the space
-- are in their classes. A label, which the program knows by its identity, is the number that the
-- emitter gives it.
--
-- Not modelled: the recursion limit of the interpreter that runs the parser; argparse and its help
-- texts; the event loop itself; the clock and the floating-point rate of the statistics.
pub mod Base
pub mod Struct
pub mod Bpf
pub mod Vm
pub mod Compiler
pub mod Cli
pub mod Pcap
pub mod Headers
pub mod Frame
pub mod Decoder
pub mod Stats
pub mod Capture
pub mod Terminal
pub mod Screen
pub mod Ndjson
pub mod Samples
