-- ===== src/Cli/Main.antt =====
-- src/rootwire/cli.py, `main`, `_drive` and the order in which `_build_outputs` makes the outputs.
pub mod Opened
pub mod Concluded
mod Tests
use root_wire.Base.{
  ℕ, Bool, true, false, Option, none, some, List, [], ◌∷◌, ◌++◌, Result, ok, err, if◌then◌else◌,
}
use root_wire.Compiler.Syntax.{Text, Unicode, Error, value_error}
use root_wire.Bpf.{SockFilter}
use root_wire.Cli.Filter.{resolve_filter_program}
use root_wire.Cli.Arguments.{Arguments, UsageError, bad_filter, Paths, validate_args}

-- An exception that leaves the run.
pub data Raised : Type 0 where
  permission_error : Raised
  value_error_of : Text → Raised
  keyboard_interrupt : Raised
  cancelled_error : Raised
  -- any other, such as another OSError
  other_error : Text → Raised

pub data Signal : Type 0 where
  sigint sigterm : Signal

pub data OutputKind : Type 0 where
  ndjson : OutputKind
  screen : Bool → OutputKind
  pcap : Text → OutputKind
  stats : OutputKind

-- What `main` does to the outside, in order.
pub data Event : Type 0 where
  usage_error : UsageError → Event
  -- the file of `-w` is created, or emptied
  opened : Text → Event
  cannot_open : Text → Text → Event
  banner : Option Text → Event
  handler_added handler_removed handler_restored : Event
  ran : Event
  sudo_hint aborted terminated : Event
  error_line : Text → Event
  closed : OutputKind → Event
  reported : Event

pub data Outcome : Type 0 where
  exited : ℕ → Outcome
  propagated : Raised → Outcome

abbrev pub Traced : Type 0
Traced = List Event × Outcome

-- What `main` meets: the file system, how the frames of the source go through the outputs, the signal
-- that comes before their end, if any, and what closing an output raises.
pub record World : Type 0 where
  pub paths : Paths
  pub open_target : Text → Result Text (Unit {0})
  pub run : Arguments → Option (List SockFilter) → List OutputKind → Result Raised ℕ
  pub signal : Option Signal
  pub close : OutputKind → Option Raised

-- `_drive`: a signal cancels the task; SIGINT surfaces as KeyboardInterrupt.
unfoldable pub drive : Option Signal → Result Raised ℕ → Result Raised ℕ
drive none result = result
drive (some sigint) result = err keyboard_interrupt
drive (some sigterm) result = err cancelled_error

-- The `except` clauses: what is printed, how `main` is to end, and `report_stats`.
unfoldable pub handled : Result Raised ℕ → List Event × Outcome × Bool
handled (ok number) = ([], exited 0, true)
handled (err permission_error) = (sudo_hint ∷ [], exited 1, false)
handled (err (value_error_of message)) = (error_line message ∷ [], exited 1, false)
handled (err keyboard_interrupt) = (aborted ∷ [], exited 0, true)
handled (err cancelled_error) = (terminated ∷ [], exited 0, true)
handled (err (other_error message)) = ([], propagated (other_error message), false)

-- `OutputToNDJSON() if args.json else OutputToScreen(…)`
abbrev pub first_output : Arguments → OutputKind
first_output args = if args.json then ndjson else screen args.display

-- An output that closes, or raises, in front of those behind it.
unfoldable pub close_next :
    OutputKind → Option Raised → List Event × Option Raised → List Event × Option Raised
close_next output (some raised) rest = ([], some raised)
close_next output none (events, raised) = (closed output ∷ events, raised)

-- `BPFCompileError`; of the compiler's exceptions only the ValueError of `int` is none.
unfoldable pub is_compile_error : Error → Bool
is_compile_error value_error = false
is_compile_error _ = true

module _ (unicode : Unicode) (world : World) where
  -- `for output in outputs: output.close()`, and the exception that stops it, if any.
  unfoldable pub close_all : List OutputKind → List Event × Option Raised
  unfolding close_next
  close_all [] = ([], none)
  close_all (output ∷ outputs) = close_next output (world.close output) (close_all outputs)

  -- The rest of the `finally`, and the end of `main`.
  abbrev pub reporting : Outcome → Bool → List Event × Option Raised → Traced
  reporting outcome report (events, some raised) = (events, propagated raised)
  reporting outcome true (events, none) = (events ++ reported ∷ [], outcome)
  reporting outcome false (events, none) = (events, outcome)

  -- Behind the banner.
  unfoldable pub capture : Arguments → Option (List SockFilter) → List OutputKind → Traced
  unfolding drive handled close_all
  capture args program outputs =
      let (messages, outcome, report) =
        handled (drive world.signal (world.run args program outputs)) in
      let (events, end) = reporting outcome report (close_all outputs) in
      (handler_added ∷ ran ∷ handler_removed ∷ messages ++ handler_restored ∷ events, end)

  -- Behind `_build_outputs`.
  unfoldable pub announced :
      List Event → Arguments → Option (List SockFilter) → List OutputKind → Traced
  unfolding capture
  announced before args program outputs =
      let (events, outcome) = capture args program outputs in
      (before ++ banner args.read ∷ events, outcome)

  -- `_build_outputs`, and what follows it.
  unfoldable pub with_outputs : Arguments → Option (List SockFilter) → Option Text → Traced
  unfolding announced
  with_outputs args program none = announced [] args program (first_output args ∷ stats ∷ [])
  with_outputs args program (some path) = elim (world.open_target path) [
    | err message ↦ (cannot_open path message ∷ [], exited 1)
    | ok _ ↦ announced (opened path ∷ []) args program (first_output args ∷ pcap path ∷ stats ∷ [])
  ]

  -- `except BPFCompileError: parser.error(…)`; a plain ValueError is none.
  unfoldable pub filter_failed : Error → Traced
  unfolding is_compile_error
  filter_failed error =
      if is_compile_error error
      then (usage_error (bad_filter error) ∷ [], exited 2)
      else ([], propagated (value_error_of []))

  unfoldable pub main : Arguments → Traced
  unfolding validate_args resolve_filter_program with_outputs filter_failed
  main args = elim (validate_args world.paths args) [
    | some error ↦ (usage_error error ∷ [], exited 2)
    | none ↦ elim (resolve_filter_program unicode args.filter) [
      | err error ↦ filter_failed error
      | ok program ↦ with_outputs args program args.write
    ]
  ]
