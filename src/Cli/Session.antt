-- ===== src/Cli/Session.antt =====
-- src/rootwire/cli.py, `main`: the source it chooses, and what driving it through the outputs comes to.
pub mod Replayed
mod Tests
use root_wire.Base.{
  ℕ, suc, ◌++◌, Bool, if◌then◌else◌, Option, none, some, List, [], ◌∷◌, Result, ok, err, ◌>>=◌,
}
use root_wire.Bpf.{SockFilter}
use root_wire.Compiler.Syntax.{Text}
use root_wire.Compiler.Words.{codes}
use root_wire.Frame.{Netprotocols, DecodedFrame}
use root_wire.Decoder.{decode_frame}
use root_wire.Ndjson.{ndjson_line}
use root_wire.Ndjson.Json.{Fields, TypeError}
use root_wire.Screen.Format.{format, decimal}
use root_wire.Pcap.Writer.{WriteError, unpackable, closed_file, PcapWriter, open_writer}
use root_wire.Pcap.Replay.{ReplayError, not_ethernet, malformed, no_answer, Parser, read_captures}
use root_wire.Cli.Arguments.{Arguments}
use root_wire.Cli.Run.{Sourced, Outputs, build_outputs, update_outputs}
use root_wire.Cli.Replay.{replay_source}
use root_wire.Cli.Main.{Raised, value_error_of, other_error, OutputKind, World}

-- What a source yields, and the exception, if any, that it then raises.
pub record Source : Type 0 where
  pub frames : List Sourced
  pub error : Option Raised

-- What writing raises: `struct.error`, or the ValueError of a file that is closed.
unfoldable pub raised_by : WriteError → Raised
raised_by unpackable = other_error (codes "struct.error")
raised_by closed_file = value_error_of (codes "write to closed file")

-- The messages of the ValueErrors of `read_captures`; that of the parser is given.
unfoldable pub message_of : Text → Text → ReplayError → Text
message_of detail path (not_ethernet linktype) = format (
    path
    ∷ codes ": linktype "
    ∷ decimal linktype
    ∷ codes " is not Ethernet (1); this file cannot be replayed through an Ethernet decoder"
    ∷ [])
message_of detail path malformed = format (path ∷ codes ": " ∷ detail ∷ [])
message_of detail path no_answer = []

abbrev pub raised_of : Text → Text → Option ReplayError → Option Raised
raised_of detail path none = none
raised_of detail path (some error) = some (value_error_of (message_of detail path error))

-- What there is to read: the bytes of a file, or the exception of opening it; and the frames that
-- `capture_async` yields before it raises, or before the signal comes.
pub record Surroundings : Type 0 where
  pub parser : Parser
  pub detail : Text
  pub read_bytes : Text → Result Raised (List ℕ)
  pub captured : Option (List Text) → Option (List SockFilter) → Source

-- The fields of a layer for JSON, and what writing the text of a frame to the stream raises.
module _ (lib : Netprotocols) (as_dict : lib.Layer → Fields)
    (prints : DecodedFrame lib.Layer → Option Raised) (around : Surroundings) where
  -- `_replay_source(read_captures(args.read), args.read)`
  unfoldable pub replayed_file : Text → Source
  unfolding replay_source read_captures message_of
  replayed_file path = elim (around.read_bytes path) [
    | err raised ↦ record { frames = []; error = some raised }
    | ok bytes ↦ record {
      frames = replay_source path (read_captures around.parser bytes).frames;
      error = raised_of around.detail path (read_captures around.parser bytes).error;
    }
  ]

  -- `source`
  unfoldable pub open_source : Arguments → Option (List SockFilter) → Source
  unfolding replayed_file
  open_source args program = elim args.read [
    | some path ↦ replayed_file path
    | none ↦ around.captured args.interface program
  ]

  -- What `update` of the first output raises on a frame: `json.dumps`, if it raises, or the stream.
  abbrev dumped : Result TypeError Text → Option Raised → Option Raised
  dumped (err error) printed = some (other_error (codes "TypeError"))
  dumped (ok line) printed = printed

  unfoldable pub show_raises : Bool → DecodedFrame lib.Layer → Option Raised
  unfolding ndjson_line
  show_raises json frame =
      if json then dumped (ndjson_line lib as_dict frame) (prints frame) else prints frame

  abbrev pub ended : Option Raised → ℕ → Result Raised ℕ
  ended none number = ok number
  ended (some raised) number = err raised

  -- The run over what the source yields, with the exceptions of the outputs, and then that of the
  -- source: the outputs as they are left, and what the run comes to.
  unfoldable pub drive_from :
      Bool → ℕ → List Sourced → Option Raised → Outputs lib → Outputs lib × Result Raised ℕ
  unfolding decode_frame show_raises update_outputs raised_by
  drive_from json number [] end outputs = (outputs, ended end number)
  drive_from json number ((bytes, timestamp, interface) ∷ source) end outputs =
      let frame = decode_frame lib bytes (suc number) timestamp interface in
      elim (show_raises json frame) [
        | some raised ↦ (outputs, err raised)
        | none ↦ elim (update_outputs lib frame outputs) [
          | err error ↦
              (record outputs { shown = outputs.shown ++ frame ∷ [] }, err (raised_by error))
          | ok outputs ↦ drive_from json (suc number) source end outputs
        ]
      ]

  -- The writer of `-w`, behind its file header.
  unfoldable pub writer_of : Option Text → Result WriteError (Option PcapWriter)
  unfolding open_writer
  writer_of none = ok none
  writer_of (some path) = open_writer >>= λ writer. ok (some writer)

  -- The run that `main` starts.
  unfoldable pub driven : Arguments → Option (List SockFilter) → Outputs lib × Result Raised ℕ
  unfolding open_source drive_from writer_of build_outputs
  driven args program = elim (writer_of args.write) [
    | err error ↦ (build_outputs lib none, err (raised_by error))
    | ok writer ↦
        let source = open_source args program in
        drive_from args.json 0 source.frames source.error (build_outputs lib writer)
  ]

  abbrev pub running : Arguments → Option (List SockFilter) → List OutputKind → Result Raised ℕ
  running args program kinds = (driven args program).1

  -- What `main` meets, with the source and the outputs at work.
  abbrev pub session : World → World
  session world = record world { run = running }
