-- ===== src/Cli/Arguments.antt =====
-- src/rootwire/cli.py, `_same_file` and `_validate_args`: the checks of the arguments.
use root_wire.Base.{Bool, Option, none, some, List, if◌then◌else◌}
use root_wire.Compiler.Syntax.{Text, Error}
use root_wire.Compiler.Words.{text_eq}

-- The namespace of the arguments, as argparse leaves it.
pub record Arguments : Type 0 where
  pub interface : Option (List Text)
  pub read : Option Text
  pub write : Option Text
  pub filter : Option Text
  pub json : Bool
  pub display : Bool

-- What `parser.error` is told.
pub data UsageError : Type 0 where
  read_and_interface : UsageError
  read_and_filter : UsageError
  same_file_named : UsageError
  bad_filter : Error → UsageError

-- `os.path`: whether two names are one file, none where that raises OSError, and the normalised name.
pub record Paths : Type 0 where
  pub samefile : Text → Text → Option Bool
  pub realpath : Text → Text

module _ (paths : Paths) where
  -- `_same_file`
  unfoldable pub same_file : Text → Text → Bool
  unfolding text_eq
  same_file a b = elim (paths.samefile a b) [
    | some same ↦ same
    | none ↦ text_eq (paths.realpath a) (paths.realpath b)
  ]

  -- `args.write is not None and _same_file(args.read, args.write)`, behind the first checks.
  unfoldable pub check_write : Text → Option Text → Option UsageError
  unfolding same_file
  check_write read none = none
  check_write read (some write) = if same_file read write then some same_file_named else none

  -- The checks of a replay, in order.
  unfoldable pub check_read :
      Text → Option (List Text) → Option Text → Option Text → Option UsageError
  unfolding check_write
  check_read read (some interfaces) filter write = some read_and_interface
  check_read read none (some expression) write = some read_and_filter
  check_read read none none write = check_write read write

  -- `_validate_args`, each check of which wants `args.read`.
  unfoldable pub validate_args : Arguments → Option UsageError
  unfolding check_read
  validate_args args = elim args.read [
    | none ↦ none
    | some read ↦ check_read read args.interface args.filter args.write
  ]
