-- ===== src/Cli/Filter.antt =====
-- src/rootwire/cli.py, `_resolve_filter_program`: a canned filter's name, or an expression.
pub mod Correct
use root_wire.Base.{Option, none, some, List, Result, ok, err, ◌>>=◌, if◌then◌else◌}
use root_wire.Bpf
use root_wire.Bpf.{SockFilter}
use root_wire.Compiler.Syntax.{Text, Unicode, Error}
use root_wire.Compiler.Words.{codes, text_eq}
use root_wire.Compiler.Expression.{compile_expression}

-- `CANNED_FILTERS.get`
unfoldable pub get_canned : Text → Option (List SockFilter)
unfolding text_eq
get_canned name =
    if text_eq name (codes "tcp")
    then some Bpf.tcp
    else if text_eq name (codes "udp")
    then some Bpf.udp
    else if text_eq name (codes "arp")
    then some Bpf.arp
    else if text_eq name (codes "ip6")
    then some Bpf.ip6
    else none

-- `if instructions is None: instructions = compile_expression(args.filter)`
unfoldable pub compile_if_missing :
    Unicode → Text → Option (List SockFilter) → Result Error (List SockFilter)
unfolding compile_expression
compile_if_missing unicode filter (some instructions) = ok instructions
compile_if_missing unicode filter none = compile_expression unicode filter

-- The instructions that `FilterProgram` is made of, none without `--filter`.
unfoldable pub resolve_filter_program :
    Unicode → Option Text → Result Error (Option (List SockFilter))
unfolding get_canned compile_if_missing
resolve_filter_program unicode none = ok none
resolve_filter_program unicode (some filter) =
    compile_if_missing unicode filter (get_canned filter) >>= λ instructions. ok (some instructions)
