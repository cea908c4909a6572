-- ===== src/Cli/Session/Replayed.antt =====
-- `main` on a capture file.
use root_wire.Base.{
  Bool, true, false, suc, sym, append-nil, append_assoc, arith, ℕ, ◌+◌, ◌≡◌, refl, ap, ◌∙◌, Option,
  none, some, List, [], ◌∷◌, ◌++◌, Result, ok, map, length,
}
use root_wire.Bpf.{SockFilter}
use root_wire.Compiler.Syntax.{Text, Unicode}
use root_wire.Frame.{Netprotocols, DecodedFrame}
use root_wire.Stats.{StatsCollector, new_stats, update}
use root_wire.Pcap.Replay.{ReplayError, read_captures}
use root_wire.Cli.Filter.{resolve_filter_program}
use root_wire.Cli.Arguments.{Arguments, validate_args}
use root_wire.Cli.Run.{Sourced, Outputs, build_outputs, update_outputs, update_pcap}
use root_wire.Cli.Replay.{replay_source}
use root_wire.Cli.Run.Correct.{numbered}
use root_wire.Decoder.{decode_frame}
use root_wire.Stats.Tallies.{update_all}
use root_wire.Ndjson.Json.{Fields}
use root_wire.Ndjson.Line.{FlatBytes, ndjson_line-Dumped}
use root_wire.Cli.Main.{
  Raised, OutputKind, stats, Event, error_line, closed, Outcome, exited, World, Traced, banner,
  handler_added, handler_removed, handler_restored, ran, reporting, drive, handled, first_output,
  capture, announced, with_outputs, main,
}
use root_wire.Cli.Main.Concluded.{reports, close_all-closing}
use root_wire.Cli.Session.{
  Surroundings, message_of, raised_of, show_raises, ended, drive_from, replayed_file, open_source,
  writer_of, driven, running, session,
}

-- The lines that begin with "Error:".
unfoldable pub error_lines : List Event → List Text
error_lines [] = []
error_lines (error_line text ∷ events) = text ∷ error_lines events
error_lines (_ ∷ events) = error_lines events

-- What is printed of an error, how `main` ends, and how often the statistics are reported.
abbrev pub ending : Text → Text → Option ReplayError → List Text × Outcome × ℕ
ending detail path none = ([], exited 0, 1)
ending detail path (some error) = (message_of detail path error ∷ [], exited 1, 0)

-- What is seen of a trace: its errors, its end, and its reports.
abbrev pub observed : Traced → List Text × Outcome × ℕ
observed traced = (error_lines traced.0, traced.1, reports traced.0)

-- A capture behind its banner.
abbrev behind_banner : Arguments → Traced → Traced
behind_banner args traced = (banner args.read ∷ traced.0, traced.1)

module _ (unicode : Unicode) (lib : Netprotocols) (as_dict : lib.Layer → Fields)
    (prints : DecodedFrame lib.Layer → Option Raised) (around : Surroundings)
    (flat : (l : lib.Layer) → FlatBytes (as_dict l))
    (printed : (frame : DecodedFrame lib.Layer) → prints frame ≡ none) where
  show_raises-none :
      (json : Bool) (frame : DecodedFrame lib.Layer)
      → show_raises lib as_dict prints around json frame ≡ none
  unfolding show_raises
  show_raises-none false frame = printed frame
  show_raises-none true frame =
      let (line, dumped, ascii) = ndjson_line-Dumped lib as_dict flat frame in
      rw (show_raises, dumped) (printed frame)

  -- The outputs of a run without a capture file, behind frames that are all shown.
  abbrev left : ℕ → List Sourced → List (DecodedFrame lib.Layer) → StatsCollector → Outputs lib
  left n source shown tallied = record {
    shown = shown ++ numbered lib n source;
    writer = none;
    stats = update_all lib (numbered lib n source) tallied;
  }

  left-eq :
      {s t : List (DecodedFrame lib.Layer)} {m n : ℕ} (tallied : StatsCollector)
      (end : Option Raised)
      → s ≡ t
      → m ≡ n
      → ◌≡◌ {A = Outputs lib × Result Raised ℕ}
          (
            record { shown = s; writer = none; stats = tallied },
            ended lib as_dict prints around end m,
          )
          (
            record { shown = t; writer = none; stats = tallied },
            ended lib as_dict prints around end n,
          )
  left-eq tallied end e f = rw (e, f)

  drive_from-left :
      (json : Bool) (source : List Sourced) (n : ℕ) (end : Option Raised)
      (shown : List (DecodedFrame lib.Layer)) (tallied : StatsCollector)
      → drive_from lib as_dict prints around json n source end
          (record { shown = shown; writer = none; stats = tallied })
        ≡ (left n source shown tallied, ended lib as_dict prints around end (n + length source))
  unfolding drive_from update_outputs update_pcap
  drive_from-left json [] n end shown tallied =
      left-eq tallied end (sym (append-nil shown)) (omega arith)
  drive_from-left json ((bytes, timestamp, interface) ∷ source) n end shown tallied =
      let frame = decode_frame lib bytes (suc n) timestamp interface in
      rw (drive_from, show_raises-none json frame)
        (drive_from-left json source (suc n) end (shown ++ frame ∷ []) (update lib frame tallied)
          ∙ left-eq _ end (append_assoc shown (frame ∷ []) (numbered lib (suc n) source))
              (omega arith))

  module _ (world : World) (closing : (o : OutputKind) → world.close o ≡ none) where
    abbrev at_work : World
    at_work = session lib as_dict prints around world

    -- What a result of the run makes of the capture.
    abbrev concluded : List OutputKind → Result Raised ℕ → Traced
    concluded outputs result =
        let (messages, outcome, report) = handled result in
        let (events, end) = reporting unicode at_work outcome report (map closed outputs, none) in
        (handler_added ∷ ran ∷ handler_removed ∷ messages ++ handler_restored ∷ events, end)

    capture-concluded :
        (args : Arguments) (program : Option (List SockFilter)) (outputs : List OutputKind)
        (result : Result Raised ℕ)
        → world.signal ≡ none
        → running lib as_dict prints around args program outputs ≡ result
        → capture unicode at_work args program outputs ≡ concluded outputs result
    unfolding capture drive
    capture-concluded args program outputs result quiet e =
        rw (capture, quiet, e, close_all-closing unicode at_work closing outputs)

    observed-concluded :
        (args : Arguments) (path : Text) (number : ℕ) (error : Option ReplayError)
        → observed (
            behind_banner args (
              concluded
                (first_output args ∷ stats ∷ [])
                (ended lib as_dict prints around (raised_of around.detail path error) number)))
          ≡ ending around.detail path error
    unfolding handled error_lines reports
    observed-concluded args path number none = refl
    observed-concluded args path number (some error) = refl

    -- A capture file is replayed, without `-w`, without a filter and without a signal; what is printed
    -- raises nothing, no more does closing, and a layer's fields hold bytes at their top only. Then all
    -- frames that `read_captures` yields are decoded, numbered from 1 and shown, in their order, and are
    -- counted. Where `read_captures` then raises nothing, `main` prints no error, exits with 0 and reports
    -- the statistics once; where it raises a ValueError, `main` prints its message, exits with 1 and
    -- reports nothing.
    pub main-replays :
        (args : Arguments) (path : Text) (bytes : List ℕ)
        → args.read ≡ some path
        → args.write ≡ none
        → validate_args world.paths args ≡ none
        → args.filter ≡ none
        → around.read_bytes path ≡ ok bytes
        → world.signal ≡ none
        → (observed (main unicode at_work args)
            ≡ ending around.detail path (read_captures around.parser bytes).error)
          × ((driven lib as_dict prints around args none).0.shown
              ≡ numbered lib 0 (replay_source path (read_captures around.parser bytes).frames))
          × ((driven lib as_dict prints around args none).0.stats
              ≡ update_all lib
                  (numbered lib 0 (replay_source path (read_captures around.parser bytes).frames))
                  new_stats)
    unfolding main with_outputs announced driven open_source replayed_file writer_of build_outputs
        resolve_filter_program
    main-replays args path bytes reads writes valid filter found quiet =
        let replay_error = (read_captures around.parser bytes).error in
        let source = replay_source path (read_captures around.parser bytes).frames in
        let end = raised_of around.detail path replay_error in
        let runs : driven lib as_dict prints around args none ≡ (
          left 0 source [] new_stats,
          ended lib as_dict prints around end (0 + length source),
        ) =
          rw (driven, writes, open_source, reads, replayed_file, found)
            (drive_from-left args.json source 0 end [] new_stats) in
        let ends =
          capture-concluded args none (first_output args ∷ stats ∷ []) _ quiet
            (ap (λ r. r.1) runs) in
        let reached : main unicode at_work args
            ≡ with_outputs unicode at_work args none args.write =
          rw (main, valid, filter) in
        (
          ap observed reached
              ∙ ap (λ write. observed (with_outputs unicode at_work args none write)) writes
              ∙ ap (λ c. observed (behind_banner args c)) ends
              ∙ observed-concluded args path (0 + length source) replay_error,
          ap (λ r. r.0.shown) runs,
          ap (λ r. r.0.stats) runs,
        )
