-- ===== src/Pcap/Tests.antt =====
-- The theorems on capture files at concrete inputs.
use root_wire.Base.{
  ℕ, ◌≡◌, refl, true, Option, none, some, List, [], ◌∷◌, ok, ◌>>=◌, ◌⊎◌, arith, length, drop,
}
use root_wire.Pcap.Linktype.{done, declared_linktype, pcapng_linktype, slice}
use root_wire.Pcap.Linktype.Walk.{Walk, Contains, AllEthernet, Describes, pcapng_linktype-Describes}
use root_wire.Pcap.Writer.{PcapWriter, open_writer}
use root_wire.Pcap.Writer.RoundTrip.{write_all, captured, read_records, AllWritable, write_all-read}
use root_wire.Pcap.Replay.{replayed, read_captures, not_ethernet, refused}
use root_wire.Samples.{records_parser}
use root_wire.Pcap.Replay.Refuses.{read_captures-AllEthernet}

-- Two frames, one stamped by the kernel and one by the clock.
abbrev calls : List (ℕ × List ℕ × Option ℕ)
calls = (7, 1 ∷ 2 ∷ 3 ∷ [], some 1_700_000_000_123_456_789) ∷ (2_000_000_001, 4 ∷ [], none) ∷ []

calls-AllWritable : AllWritable calls
calls-AllWritable = (omega arith, omega arith, (omega arith, omega arith, tt))

write_all-read_example :
    (writer : PcapWriter) × ((open_writer >>= write_all calls) ≡ ok writer)
    × (declared_linktype writer.file ≡ done (some 1))
    × (read_records (length writer.file) (drop 24 writer.file) ≡ some (captured calls))
write_all-read_example = write_all-read calls calls-AllWritable

-- A section header, and two interfaces: Ethernet, and raw IP.
abbrev mixed : List ℕ
mixed =
    0x0a ∷ 0x0d ∷ 0x0d ∷ 0x0a ∷ 28 ∷ 0 ∷ 0 ∷ 0 ∷ 0x4d ∷ 0x3c ∷ 0x2b ∷ 0x1a ∷ 1 ∷ 0 ∷ 0 ∷ 0 ∷ 255
    ∷ 255 ∷ 255 ∷ 255 ∷ 255 ∷ 255 ∷ 255 ∷ 255 ∷ 28 ∷ 0 ∷ 0 ∷ 0 ∷ 1 ∷ 0 ∷ 0 ∷ 0 ∷ 20 ∷ 0 ∷ 0 ∷ 0 ∷ 1
    ∷ 0 ∷ 0 ∷ 0 ∷ 0 ∷ 0 ∷ 4 ∷ 0 ∷ 20 ∷ 0 ∷ 0 ∷ 0 ∷ 1 ∷ 0 ∷ 0 ∷ 0 ∷ 20 ∷ 0 ∷ 0 ∷ 0 ∷ 101 ∷ 0 ∷ 0 ∷ 0
    ∷ 0 ∷ 0 ∷ 4 ∷ 0 ∷ 20 ∷ 0 ∷ 0 ∷ 0 ∷ []

mixed-linktype : pcapng_linktype mixed ≡ done (some 101)
unfolding pcapng_linktype
mixed-linktype = refl

pcapng_linktype-Describes_example :
    (links : List ℕ) × Walk mixed 0 true links
    × (answer : Option ℕ) × (pcapng_linktype mixed ≡ done answer)
    × Describes answer links
unfolding slice
pcapng_linktype-Describes_example = pcapng_linktype-Describes mixed (omega arith) refl

read_captures-AllEthernet_example :
    (links : List ℕ) × Walk mixed 0 true links
    × ((AllEthernet links
          × (read_captures records_parser mixed ≡ replayed (records_parser.parse mixed)))
        ⊎ ((n : ℕ) × Contains n links
            × (read_captures records_parser mixed ≡ refused (not_ethernet n))))
unfolding slice
read_captures-AllEthernet_example =
    read_captures-AllEthernet records_parser mixed (omega arith) refl
