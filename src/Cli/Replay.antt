-- ===== src/Cli/Replay.antt =====
-- src/rootwire/cli.py, `_replay_source`: the frames of a file as a source.
pub mod Again
use root_wire.Base.{some, List, [], ◌∷◌}
use root_wire.Compiler.Syntax.{Text}
use root_wire.Pcap.Replay.{Captured}
use root_wire.Cli.Run.{Sourced}

-- Every frame is tagged with the path of the file.
unfoldable pub replay_source : Text → List Captured → List Sourced
replay_source interface [] = []
replay_source interface ((bytes, timestamp) ∷ frames) =
    (bytes, timestamp, some interface) ∷ replay_source interface frames
