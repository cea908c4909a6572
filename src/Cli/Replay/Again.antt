-- ===== src/Cli/Replay/Again.antt =====
-- A capture that was recorded, replayed.
use root_wire.Base.{
  ℕ, suc, ◌+◌, ◌≡◌, refl, sym, ap, ◌∙◌, false, none, some, List, [], ◌∷◌, ◌++◌, Result, ok, ◌>>=◌,
  map, length, drop, arith, append_assoc, append-nil,
}
use root_wire.Compiler.Syntax.{Text}
use root_wire.Frame.{Netprotocols, DecodedFrame}
use root_wire.Decoder.{decode_frame}
use root_wire.Stats.{StatsCollector, new_stats, update}
use root_wire.Stats.Tallies.{update_all}
use root_wire.Pcap.Linktype.{slice}
use root_wire.Pcap.Replay.{Captured, Parser, read_captures}
use root_wire.Pcap.Writer.{WriteError, PcapWriter, open_writer}
use root_wire.Pcap.Writer.RoundTrip.{read_records, AllWritable, captured, read_captures-write_all}
use root_wire.Cli.Run.{Sourced, Outputs, build_outputs, update_outputs, update_pcap, run_from, run}
use root_wire.Cli.Run.Correct.{calls, numbered, recorded, run-recorded}
use root_wire.Cli.Replay.{replay_source}

-- The source with another interface.
abbrev retagged : Text → List Sourced → List Sourced
retagged path [] = []
retagged path ((bytes, timestamp, interface) ∷ source) =
    (bytes, timestamp, some path) ∷ retagged path source

replay_source-retagged :
    (path : Text) (source : List Sourced)
    → replay_source path (captured (calls source)) ≡ retagged path source
unfolding replay_source
replay_source-retagged path [] = refl
replay_source-retagged path ((bytes, timestamp, interface) ∷ source) =
    ap (λ s. (bytes, timestamp, some path) ∷ s) (replay_source-retagged path source)

length-retagged :
    (path : Text) (source : List Sourced) → length (retagged path source) ≡ length source
length-retagged path [] = refl
length-retagged path (s ∷ source) = omega (arith, length-retagged path source)

module _ (lib : Netprotocols) where
  -- The frame with another interface.
  abbrev pub retag : Text → DecodedFrame lib.Layer → DecodedFrame lib.Layer
  retag path frame = record frame { interface = some path }

  numbered-retagged :
      (path : Text) (n : ℕ) (source : List Sourced)
      → numbered lib n (retagged path source) ≡ map (retag path) (numbered lib n source)
  unfolding decode_frame
  numbered-retagged path n [] = refl
  numbered-retagged path n ((bytes, timestamp, interface) ∷ source) =
      ap (λ s. retag path (decode_frame lib bytes (suc n) timestamp interface) ∷ s)
        (numbered-retagged path (suc n) source)

  -- The statistics do not look at the interface.
  update_all-retag :
      (path : Text) (frames : List (DecodedFrame lib.Layer)) (stats : StatsCollector)
      → update_all lib (map (retag path) frames) stats ≡ update_all lib frames stats
  unfolding update
  update_all-retag path [] stats = refl
  update_all-retag path (frame ∷ frames) stats =
      update_all-retag path frames (update lib frame stats)

  -- What a run without a capture file leaves.
  abbrev pub left :
      ℕ → List Sourced → List (DecodedFrame lib.Layer) → StatsCollector → ℕ × Outputs lib
  left n source shown stats = (
    n + length source,
    record {
      shown = shown ++ numbered lib n source;
      writer = none;
      stats = update_all lib (numbered lib n source) stats;
    },
  )

  left-eq :
      {m n : ℕ} {s t : List (DecodedFrame lib.Layer)} (stats : StatsCollector)
      → m ≡ n
      → s ≡ t
      → ◌≡◌ {A = Result WriteError (ℕ × Outputs lib)}
          (ok (m, record { shown = s; writer = none; stats = stats }))
          (ok (n, record { shown = t; writer = none; stats = stats }))
  left-eq stats e f = rw (e, f)

  pub run_from-left :
      (source : List Sourced) (n : ℕ) (shown : List (DecodedFrame lib.Layer))
      (stats : StatsCollector)
      → run_from lib n source (record { shown = shown; writer = none; stats = stats })
        ≡ ok (left n source shown stats)
  unfolding run_from update_outputs update_pcap
  run_from-left [] n shown stats = left-eq stats (omega arith) (sym (append-nil shown))
  run_from-left ((bytes, timestamp, interface) ∷ source) n shown stats =
      let frame = decode_frame lib bytes (suc n) timestamp interface in
      run_from-left source (suc n) (shown ++ frame ∷ []) (update lib frame stats)
      ∙ left-eq _ (omega arith) (append_assoc shown (frame ∷ []) (numbered lib (suc n) source))

  -- Frames shorter than 2^32 bytes and stamped below 2^32 seconds are captured with `-w`, and the file
  -- is replayed with a parser that reads the records of a file as they stand. Then both runs end and
  -- return the same number, the replay shows the same frames in the same order, each decoded alike and
  -- tagged with the path of the file in place of its interface, and its statistics are the same.
  pub run-replay_source :
      (parser : Parser)
      → ((file : List ℕ) (frames : List Captured)
          → slice file 0 4 ≡ (0x4d ∷ 0x3c ∷ 0xb2 ∷ 0xa1 ∷ [])
          → read_records (length file) (drop 24 file) ≡ some frames
          → parser.parse file ≡ (frames, false))
      → (path : Text) (source : List Sourced) → AllWritable (calls source)
      → (live again : Outputs lib) × (writer : PcapWriter) × ((open_writer >>= λ writer.
            run lib source (build_outputs lib (some writer)))
          ≡ ok (length source, live))
        × (live.writer ≡ some writer)
        × ((read_captures parser writer.file).error ≡ none)
        × (run lib
              (replay_source path (read_captures parser writer.file).frames)
              (build_outputs lib none)
            ≡ ok (length source, again))
        × (again.shown ≡ map (retag path) live.shown)
        × (again.stats ≡ live.stats)
  unfolding run build_outputs
  run-replay_source parser documented path source h =
      let (writer, e, replay) = read_captures-write_all parser (calls source) documented h in
      let frames =
        ap (λ r. replay_source path r.frames) replay ∙ replay_source-retagged path source in
      let numbers = numbered-retagged path 0 source in
      (
        recorded lib source writer,
        record {
          shown = numbered lib 0 (retagged path source);
          writer = none;
          stats = update_all lib (numbered lib 0 (retagged path source)) new_stats;
        },
        writer,
        run-recorded lib source writer e,
        refl,
        ap (λ r. r.error) replay,
        ap (λ s. run_from lib 0 s (build_outputs lib none)) frames
            ∙ run_from-left (retagged path source) 0 [] new_stats
            ∙ left-eq _ (omega (arith, length-retagged path source)) refl,
        numbers,
        ap (λ s. update_all lib s new_stats) numbers
            ∙ update_all-retag path (numbered lib 0 source) new_stats,
      )
