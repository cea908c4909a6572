-- ===== src/Pcap/Replay.antt =====
pub mod Refuses
-- src/rootwire/pcap.py, `read_captures`: the frames of a capture file. The parser of the two formats,
-- `netprotocols.read_captures`, is a parameter.
use root_wire.Base.{ℕ, Bool, true, false, Option, none, some, List, [], ◌∷◌, ◌==◌, if◌then◌else◌}
use root_wire.Pcap.Linktype.{Scan, done, out_of_fuel, declared_linktype}

-- A frame and its timestamp.
abbrev pub Captured : Type 0
Captured = List ℕ × ℕ

-- The `ValueError`s: a link type that is not Ethernet, and a malformed capture.
pub data ReplayError : Type 0 where
  not_ethernet : ℕ → ReplayError
  malformed : ReplayError
  no_answer : ReplayError

-- What an iteration yields, and the exception that it then raises.
pub record Replay : Type 0 where
  pub frames : List Captured
  pub error : Option ReplayError

abbrev pub refused : ReplayError → Replay
refused e = record { frames = []; error = some e }

-- What the parser yields, and whether it then raises `MalformedCaptureError`.
pub record Parser : Type 0 where
  pub parse : List ℕ → List Captured × Bool

-- The loop, with the parser's exception raised as a ValueError.
abbrev pub replayed : List Captured × Bool → Replay
replayed (frames, true) = record { frames = frames; error = some malformed }
replayed (frames, false) = record { frames = frames; error = none }

-- `if linktype is not None and linktype != _LINKTYPE_ETHERNET`
abbrev pub unless_refused : Scan → Replay → Replay
unless_refused out_of_fuel replay = refused no_answer
unless_refused (done none) replay = replay
unless_refused (done (some linktype)) replay =
    if linktype == 1 then replay else refused (not_ethernet linktype)

unfoldable pub read_captures : Parser → List ℕ → Replay
unfolding declared_linktype
read_captures parser bytes =
    unless_refused (declared_linktype bytes) (replayed (parser.parse bytes))
