-- ===== src/Cli.antt =====
-- src/rootwire/cli.py: the command line, from the checks of its arguments to the end of a run.
pub mod Filter
pub mod Run
pub mod Arguments
pub mod Main
pub mod Replay
pub mod Session
mod Tests
