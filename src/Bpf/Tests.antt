-- ===== src/Bpf/Tests.antt =====
-- The canned programs, packed.
use root_wire.Base.{◌≡◌, true, ok, arith}
use root_wire.Bpf
use root_wire.Bpf.Program.{FilterProgram, filter_program}
use root_wire.Bpf.Program.Packing.{Encodable, read_instructions, filter_program-read}

tcp-Encodable : Encodable Bpf.tcp
unfolding Bpf.tcp
tcp-Encodable = grind arith

filter_program-read_example :
    (fp : FilterProgram) × (filter_program true Bpf.tcp ≡ ok fp)
    × (read_instructions true fp.len fp.buffer ≡ Bpf.tcp)
unfolding Bpf.tcp
filter_program-read_example = filter_program-read true Bpf.tcp tcp-Encodable (omega arith)
