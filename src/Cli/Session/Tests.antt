-- ===== src/Cli/Session/Tests.antt =====
-- `main` on two capture files without frames: one of Ethernet, and one of raw IP.
use root_wire.Base.{Option, ℕ, ◌≡◌, refl, false, none, some, List, [], ◌∷◌, ok}
use root_wire.Compiler.Words.{codes}
use root_wire.Pcap.Replay.{read_captures}
use root_wire.Screen.Format.{format, decimal}
use root_wire.Samples.{SomeLayer, ascii, two_layers, records_parser}
use root_wire.Cli.Arguments.{Arguments, validate_args}
use root_wire.Cli.Main.{Raised, exited, World, main}
use root_wire.Frame.{DecodedFrame}
use root_wire.Ndjson.Json.{Fields, end}
use root_wire.Stats.{new_stats}
use root_wire.Stats.Tallies.{update_all}
use root_wire.Cli.Replay.{replay_source}
use root_wire.Cli.Run.Correct.{numbered}
use root_wire.Cli.Session.{driven, Surroundings, session, message_of}
use root_wire.Cli.Session.Replayed.{observed, ending, main-replays}

-- A classic header, of microseconds, with a link type.
abbrev header_of : ℕ → List ℕ
header_of linktype =
    0xd4 ∷ 0xc3 ∷ 0xb2 ∷ 0xa1 ∷ 2 ∷ 0 ∷ 4 ∷ 0 ∷ 0 ∷ 0 ∷ 0 ∷ 0 ∷ 0 ∷ 0 ∷ 0 ∷ 0 ∷ 0 ∷ 0 ∷ 4 ∷ 0
    ∷ linktype ∷ 0 ∷ 0 ∷ 0 ∷ []

abbrev files_of : ℕ → Surroundings
files_of linktype = record {
  parser = records_parser;
  detail = [];
  read_bytes = λ path. ok (header_of linktype);
  captured = λ interfaces program. record { frames = []; error = none };
}

-- Nothing happens from outside.
abbrev quiet : World
quiet = record {
  paths = record { samefile = λ a b. none; realpath = λ a. a };
  open_target = λ path. ok tt;
  run = λ args program outputs. ok 0;
  signal = none;
  close = λ output. none;
}

abbrev replay_a : Arguments
replay_a = record {
  interface = none;
  read = some (codes "a");
  write = none;
  filter = none;
  json = false;
  display = false;
}

abbrev no_fields : SomeLayer → Fields
no_fields l = end

abbrev no_failure : DecodedFrame SomeLayer → Option Raised
no_failure frame = none

main-replays_example :
    (observed (main ascii (session two_layers no_fields no_failure (files_of 1) quiet) replay_a)
      ≡ ending [] (codes "a") (read_captures records_parser (header_of 1)).error)
    × ((driven two_layers no_fields no_failure (files_of 1) replay_a none).0.shown
        ≡ numbered two_layers 0
            (replay_source (codes "a") (read_captures records_parser (header_of 1)).frames))
    × ((driven two_layers no_fields no_failure (files_of 1) replay_a none).0.stats
        ≡ update_all two_layers
            (numbered two_layers 0
              (replay_source (codes "a") (read_captures records_parser (header_of 1)).frames))
            new_stats)
unfolding validate_args
main-replays_example =
    main-replays ascii two_layers no_fields no_failure (files_of 1) (λ l. tt) (λ frame. refl) quiet
      (λ o. refl) replay_a (codes "a") (header_of 1) refl refl refl refl refl refl

refused :
    observed (main ascii (session two_layers no_fields no_failure (files_of 101) quiet) replay_a)
    ≡ (
      codes
            "a: linktype 101 is not Ethernet (1); this file cannot be replayed through an Ethernet decoder"
          ∷ [],
      exited 1,
      0,
    )
unfolding validate_args read_captures message_of format decimal
refused =
    (main-replays ascii two_layers no_fields no_failure (files_of 101) (λ l. tt) (λ frame. refl)
      quiet (λ o. refl) replay_a (codes "a") (header_of 101) refl refl refl refl refl refl).0
