-- ===== src/Compiler/Assembly/Correct.antt =====
-- The program of a syntax tree: what it decides, and when there is one.
use root_wire.Base.{
  ℕ, ◌≤◌, ◌<◌, ◌≡◌, refl, ap, ◌∙◌, true, false, Option, none, some, List, [], ◌∷◌, ◌++◌, Result, ok,
  length, arith, append_assoc,
}
use root_wire.Bpf.{SockFilter}
use root_wire.Vm.{Packet, Exception, class_of, step_ret, run_within, catch_reject}
use root_wire.Compiler.Syntax.{Node}
use root_wire.Compiler.Codegen.{
  Label, Item, label, insn, Emitter, new_label, place, emit, plain, compile,
}
use root_wire.Compiler.Symbolic.{running, exec, perform, placed}
use root_wire.Compiler.Symbolic.Code.{Within, Forward, Ahead, placed-append}
use root_wire.Compiler.Meaning.{Verdict, matches}
use root_wire.Compiler.Lowering.{Leaves, Lowers}
use root_wire.Compiler.Lowering.Nodes.{compile-Compiles}
use root_wire.Compiler.Resolve.{instructions, positions_from, resolve, resolve_from}
use root_wire.Compiler.Linking.Locations.{
  Once, AllAhead, TargetAhead, Fits, positions_from-Located, positions_from-Complete,
  resolve_from-Fits, length-resolve_from,
}
use root_wire.Compiler.Linking.Simulation.{simulation}
use root_wire.Compiler.Assembly.{program_items, compile_tree}

-- What the kernel keeps of a packet: all of it where the expression holds, and nothing where it
-- fails or looks beyond the end of the packet.
abbrev pub decision : Verdict → ℕ
decision none = 0
decision (some true) = 0x0004_0000
decision (some false) = 0

abbrev exits : List Item
exits = label 1 ∷ insn (plain 0x06 0x0004_0000) ∷ label 2 ∷ insn (plain 0x06 0) ∷ []

abbrev start : Emitter
start = record { items = []; counter = 2 }

lowered :
    (ast : Node) (packet : Packet)
    → Lowers packet 2
        (compile ast 1 2 start).counter
        []
        (compile ast 1 2 start).items
        (λ _. matches ast packet)
        1
        2
lowered ast packet = compile-Compiles ast packet 1 2 start (omega arith) (omega arith)

program_items_lem :
    (ast : Node) (packet : Packet) → program_items ast ≡ (lowered ast packet).code ++ exits
unfolding program_items new_label place emit
program_items_lem ast packet = simp ((lowered ast packet).appended, append_assoc)

Once-append :
    (lo hi : ℕ) (xs ys : List Item)
    → Within lo hi xs
    → ((l : ℕ) → lo < l → placed l ys ≡ false)
    → Once ys
    → Once (xs ++ ys)
Once-append lo hi [] ys w h o = o
Once-append lo hi (label l ∷ xs) ys (above, below, once, w) h o =
    (placed-append l xs ys ∙ ground (arith, h l above), Once-append lo hi xs ys w h o)
Once-append lo hi (insn i ∷ xs) ys w h o = Once-append lo hi xs ys w h o

Ahead-TargetAhead :
    (t f : Label) (xs ys : List Item) (target : Option Label)
    → (placed t ys ≡ true) × (placed f ys ≡ true)
    → Ahead t f xs target
    → TargetAhead (xs ++ ys) target
Ahead-TargetAhead t f xs ys none p h = tt
Ahead-TargetAhead t f xs ys (some l) p h = ground (arith, placed-append l xs ys)

Forward-AllAhead :
    (t f : Label) (xs ys : List Item)
    → (placed t ys ≡ true) × (placed f ys ≡ true)
    → Forward t f xs
    → AllAhead ys
    → AllAhead (xs ++ ys)
Forward-AllAhead t f [] ys p h k = k
Forward-AllAhead t f (label l ∷ xs) ys p h k = Forward-AllAhead t f xs ys p h k
Forward-AllAhead t f (insn i ∷ xs) ys p (jt, jf, h) k = (
  Ahead-TargetAhead t f xs ys i.jt p jt,
  Ahead-TargetAhead t f xs ys i.jf p jf,
  Forward-AllAhead t f xs ys p h k,
)

program_items-Once : (ast : Node) → Once (program_items ast)
unfolding placed
program_items-Once ast =
    let h = lowered ast [] in
    rw (program_items_lem ast [])
      (Once-append 2 _ h.code exits h.within (λ l above. ground arith) (refl, (refl, tt)))

program_items-AllAhead : (ast : Node) → AllAhead (program_items ast)
unfolding placed
program_items-AllAhead ast =
    let h = lowered ast [] in
    rw (program_items_lem ast [])
      (Forward-AllAhead 1 2 h.code exits (refl, refl) h.forward (tt, tt, (tt, tt, tt)))

exec-exits :
    (packet : Packet) (r : Result Exception ℕ) (v : Verdict)
    → Leaves packet r exits v 1 2
    → catch_reject r ≡ ok (decision v)
unfolding exec perform class_of step_ret
exec-exits packet r none h = rw h
exec-exits packet r (some true) (a, x, h) = rw h
exec-exits packet r (some false) (a, x, h) = rw h

exec-program :
    (ast : Node) (packet : Packet)
    → catch_reject (exec packet (running 0 0) (program_items ast))
      ≡ ok (decision (matches ast packet))
exec-program ast packet =
    rw (program_items_lem ast packet)
      (exec-exits packet _ (matches ast packet) ((lowered ast packet).computes 0 0 exits))

-- Whatever the packet: the program of a tree, given a round for each of its instructions, ends with
-- the decision that the tree's meaning makes, a load beyond the end of the packet included.
pub run_within-compile_tree :
    (ast : Node) (packet : Packet) (rounds : ℕ) (program : List SockFilter)
    → compile_tree ast ≡ ok program
    → length program ≤ rounds
    → run_within rounds program packet ≡ ok (decision (matches ast packet))
unfolding run_within compile_tree resolve resolve_from
run_within-compile_tree ast packet rounds program h enough =
    let items = program_items ast in
    let positions = positions_from 0 items [] in
    ap catch_reject (
      simulation positions program packet 0 rounds 0 items program (running 0 0)
        (record {
          located = positions_from-Located 0 items [] (program_items-Once ast);
          complete = positions_from-Complete items;
          resolved = h;
          stands = refl;
          fuelled = omega (arith, length-resolve_from positions 0 (instructions items) program h);
        })
        refl)
    ∙ exec-program ast packet

-- In the code of a tree every label that a jump names is placed behind that jump. The code compiles
-- to a program, or the error is that a jump is out of range and there are more than 256 instructions.
pub compile_tree-Fits :
    (ast : Node)
    → AllAhead (program_items ast)
      × Fits (length (instructions (program_items ast))) (compile_tree ast)
unfolding compile_tree resolve resolve_from
compile_tree-Fits ast =
    let items = program_items ast in
    (
      program_items-AllAhead ast,
      resolve_from-Fits (positions_from 0 items []) 0 items
          (positions_from-Located 0 items [] (program_items-Once ast)) (program_items-AllAhead ast),
    )
