-- ===== src/Pcap/Writer.antt =====
pub mod RoundTrip
-- src/rootwire/pcap.py, `PcapWriter`: classic capture files with nanoseconds.
use root_wire.Base.{
  ℕ, ◌/◌, ◌%◌, Bool, true, false, Option, none, some, List, [], ◌∷◌, ◌++◌, Result, ok, err, ◌>>=◌,
  length, if◌then◌else◌,
}
use root_wire.Struct.{PackError, struct_error, pack_field}

-- What a write raises: `struct.error`, or the `ValueError` of a closed file.
pub data WriteError : Type 0 where
  unpackable closed_file : WriteError

-- The file: its bytes so far, and whether it is open.
pub record PcapWriter : Type 0 where
  pub file : List ℕ
  pub is_open : Bool

abbrev raised : Result PackError (List ℕ) → Result WriteError (List ℕ)
raised (ok packed) = ok packed
raised (err e) = err unpackable

-- One field of a little-endian format.
unfoldable pub field_of : ℕ → ℕ → Result WriteError (List ℕ)
unfolding pack_field
field_of width n = raised (pack_field true width n)

-- `_GLOBAL_HEADER`, packed by `__init__`: the format "<IHHiIII".
unfoldable pub global_header : Result WriteError (List ℕ)
unfolding field_of
global_header = do
  magic ← field_of 4 0xa1b2_3c4d
  major ← field_of 2 2
  minor ← field_of 2 4
  thiszone ← field_of 4 0
  sigfigs ← field_of 4 0
  snaplen ← field_of 4 65_550
  network ← field_of 4 1
  ok (magic ++ major ++ minor ++ thiszone ++ sigfigs ++ snaplen ++ network)

-- `__init__`, on a file that could be opened.
unfoldable pub open_writer : Result WriteError PcapWriter
unfolding global_header
open_writer = global_header >>= λ header. ok (record { file = header; is_open = true })

-- `_RECORD_HEADER.pack(…)`: the format "<IIII".
unfoldable pub record_header : ℕ → ℕ → ℕ → Result WriteError (List ℕ)
unfolding field_of
record_header ts_sec ts_nsec size = do
  sec ← field_of 4 ts_sec
  nsec ← field_of 4 ts_nsec
  incl_len ← field_of 4 size
  orig_len ← field_of 4 size
  ok (sec ++ nsec ++ incl_len ++ orig_len)

-- `timestamp`, or the time when the call is made.
abbrev pub stamp : ℕ → Option ℕ → ℕ
stamp now none = now
stamp now (some timestamp) = timestamp

-- `write`, at a time. A timestamp counts from the epoch and is not negative.
unfoldable pub write : ℕ → List ℕ → Option ℕ → PcapWriter → Result WriteError PcapWriter
unfolding record_header
write now bytes timestamp writer =
    record_header (stamp now timestamp / 1_000_000_000) (stamp now timestamp % 1_000_000_000)
      (length bytes)
    >>= λ header.
        if writer.is_open
        then ok (record writer { file = writer.file ++ header ++ bytes })
        else err closed_file

-- `close`, which `__exit__` calls.
unfoldable pub close : PcapWriter → PcapWriter
close writer = record writer { is_open = false }
