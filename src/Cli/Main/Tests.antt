-- ===== src/Cli/Main/Tests.antt =====
-- `main` at concrete arguments.
use root_wire.Base.{◌≡◌, ◌⊎◌, refl, ℕ, true, false, Option, none, some, [], ◌∷◌, Result, ok, err}
use root_wire.Bpf
use root_wire.Compiler.Syntax.{Text}
use root_wire.Compiler.Words.{codes, text_eq}
use root_wire.Samples.{ascii}
use root_wire.Cli.Filter.{resolve_filter_program}
use root_wire.Cli.Arguments.{Arguments, same_file_named, Paths, validate_args}
use root_wire.Cli.Main.{
  Raised, permission_error, Signal, sigterm, screen, pcap, stats, usage_error, opened, banner,
  handler_added, handler_removed, handler_restored, ran, sudo_hint, terminated, closed, reported,
  exited, Traced, World, main,
}
use root_wire.Cli.Main.Opened.{opened_paths, Spares, main-Opens}
use root_wire.Cli.Main.Concluded.{Concludes, main-Concludes}

-- No file is there yet, so two names are one file if they are spelled alike.
abbrev new_files : Paths
new_files = record { samefile = λ a b. none; realpath = λ a. a }

abbrev world_of : Option Signal → Result Raised ℕ → World
world_of signal result = record {
  paths = new_files;
  open_target = λ path. ok tt;
  run = λ args program outputs. result;
  signal = signal;
  close = λ output. none;
}

abbrev live : Arguments
live = record {
  interface = none;
  read = none;
  write = some (codes "out.pcap");
  filter = some (codes "arp");
  json = false;
  display = true;
}

abbrev replay : Text → Arguments
replay target = record {
  interface = none;
  read = some (codes "in.pcap");
  write = some target;
  filter = none;
  json = false;
  display = false;
}

unfoldable terminated_run : Traced
unfolding main text_eq
terminated_run = main ascii (world_of (some sigterm) (ok 3)) live

terminated_run_lem : terminated_run ≡ (
  opened (codes "out.pcap")
      ∷ banner none
      ∷ handler_added
      ∷ ran
      ∷ handler_removed
      ∷ terminated
      ∷ handler_restored
      ∷ closed (screen true)
      ∷ closed (pcap (codes "out.pcap"))
      ∷ closed stats
      ∷ reported
      ∷ [],
  exited 0,
)
unfolding terminated_run
terminated_run_lem = refl

-- The capture that is replayed is not written over.
overwrite :
    main ascii (world_of none (ok 3)) (replay (codes "in.pcap"))
    ≡ (usage_error same_file_named ∷ [], exited 2)
unfolding main text_eq
overwrite = refl

-- A capture that may not be read is taken for a socket that may not be opened.
unreadable :
    main ascii (world_of none (err permission_error)) (record (replay []) { write = none }) ≡ (
      banner (some (codes "in.pcap"))
          ∷ handler_added
          ∷ ran
          ∷ handler_removed
          ∷ sudo_hint
          ∷ handler_restored
          ∷ closed (screen false)
          ∷ closed stats
          ∷ [],
      exited 1,
    )
unfolding main
unreadable = refl

main-Opens_example :
    (opened_paths (main ascii (world_of none (ok 3)) (replay (codes "out.pcap"))).0 ≡ [])
    ⊎ ((write : Text) × (some (codes "out.pcap") ≡ some write)
        × (opened_paths (main ascii (world_of none (ok 3)) (replay (codes "out.pcap"))).0
            ≡ write ∷ [])
        × Spares new_files (some (codes "in.pcap")) write)
main-Opens_example = main-Opens ascii (world_of none (ok 3)) (replay (codes "out.pcap"))

main-Concludes_example :
    Concludes
      (screen true ∷ pcap (codes "out.pcap") ∷ stats ∷ [])
      (main ascii (world_of (some sigterm) (ok 3)) live)
unfolding validate_args resolve_filter_program text_eq
main-Concludes_example =
    main-Concludes ascii (world_of (some sigterm) (ok 3)) (λ o. refl) live (some Bpf.arp) refl refl
      refl
