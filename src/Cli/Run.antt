-- ===== src/Cli/Run.antt =====
-- src/rootwire/cli.py, `run` and `_build_outputs`: every frame of a source to every output.
pub mod Correct
use root_wire.Base.{
  ℕ, zero, suc, ◌+◌, Option, none, some, List, [], ◌∷◌, ◌++◌, Result, ok, err, ◌>>=◌,
}
use root_wire.Compiler.Syntax.{Text}
use root_wire.Frame.{Netprotocols, DecodedFrame}
use root_wire.Decoder.{decode_frame}
use root_wire.Stats.{StatsCollector, new_stats, update}
use root_wire.Pcap.Writer.{WriteError, PcapWriter, write}

-- What a source yields: bytes, a timestamp, and an interface.
abbrev pub Sourced : Type 0
Sourced = List ℕ × ℕ × Option Text

module _ (lib : Netprotocols) where
  -- The outputs in the order of `_build_outputs`: the frames that the screen or the JSON lines were
  -- given, the capture file of `-w`, if any, and the statistics.
  pub record Outputs : Type 0 where
    pub shown : List (DecodedFrame lib.Layer)
    pub writer : Option PcapWriter
    pub stats : StatsCollector

  unfoldable pub build_outputs : Option PcapWriter → Outputs
  unfolding new_stats
  build_outputs writer = record { shown = []; writer = writer; stats = new_stats }

  -- `OutputToPcap.update`, if there is one. The frame has a timestamp, and the clock is not read.
  unfoldable pub update_pcap :
      DecodedFrame lib.Layer → Option PcapWriter → Result WriteError (Option PcapWriter)
  unfolding write
  update_pcap frame none = ok none
  update_pcap frame (some writer) =
      write 0 frame.raw (some frame.timestamp) writer >>= λ writer. ok (some writer)

  -- `for output in outputs: output.update(frame)`
  unfoldable pub update_outputs : DecodedFrame lib.Layer → Outputs → Result WriteError Outputs
  unfolding update_pcap update
  update_outputs frame outputs = update_pcap frame outputs.writer >>= λ writer. ok (record {
    shown = outputs.shown ++ frame ∷ [];
    writer = writer;
    stats = update lib frame outputs.stats;
  })

  -- The loop, with the number of the last frame; it returns that number.
  unfoldable pub run_from : ℕ → List Sourced → Outputs → Result WriteError (ℕ × Outputs)
  unfolding update_outputs decode_frame
  run_from number [] outputs = ok (number, outputs)
  run_from number ((bytes, timestamp, interface) ∷ source) outputs =
      update_outputs (decode_frame lib bytes (suc number) timestamp interface) outputs
      >>= λ outputs. run_from (suc number) source outputs

  unfoldable pub run : List Sourced → Outputs → Result WriteError (ℕ × Outputs)
  unfolding run_from
  run source outputs = run_from 0 source outputs
