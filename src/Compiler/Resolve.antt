-- ===== src/Compiler/Resolve.antt =====
-- src/rootwire/bpf_compiler.py, `_resolve`: labels become relative offsets.
use root_wire.Base.{
  ℕ, suc, ◌-◌, Option, none, some, List, [], ◌∷◌, Result, ok, err, ◌>>=◌, leb, ◌==◌, ◌&&◌,
  if◌then◌else◌,
}
use root_wire.Bpf.{SockFilter, sock_filter}
use root_wire.Compiler.Syntax.{Error, jump_out_of_range, dangling_label}
use root_wire.Compiler.Codegen.{Label, PInsn, Item, label, insn}

-- The dictionary `positions`, the entry written last in front.
abbrev pub Positions : Type 0
Positions = List (Label × ℕ)

unfoldable pub lookup : Label → Positions → Option ℕ
lookup l [] = none
lookup l ((l', p) ∷ entries) = if l == l' then some p else lookup l entries

-- The first loop: the index of the instruction that follows each label.
unfoldable pub positions_from : ℕ → List Item → Positions → Positions
positions_from index [] positions = positions
positions_from index (label l ∷ items) positions =
    positions_from index items ((l, index) ∷ positions)
positions_from index (insn i ∷ items) positions = positions_from (suc index) items positions

unfoldable pub instructions : List Item → List PInsn
instructions [] = []
instructions (label l ∷ items) = instructions items
instructions (insn i ∷ items) = i ∷ instructions items

-- `offset_to`. The target may precede the jump: the offset is then negative, and refused.
unfoldable pub offset_to : Positions → Label → ℕ → Result Error ℕ
unfolding lookup
offset_to positions l from_index = elim (lookup l positions) [
  | none ↦ err dangling_label
  | some target ↦
      if leb (suc from_index) target && leb (target - (suc from_index)) 255
      then ok (target - (suc from_index))
      else err jump_out_of_range
]

unfoldable pub offset_of : Positions → Option Label → ℕ → Result Error ℕ
unfolding offset_to
offset_of positions none from_index = ok 0
offset_of positions (some l) from_index = offset_to positions l from_index

-- The second loop.
unfoldable pub resolve_from : Positions → ℕ → List PInsn → Result Error (List SockFilter)
unfolding offset_of
resolve_from positions index [] = ok []
resolve_from positions index (i ∷ rest) = do
  jt ← offset_of positions i.jt index
  jf ← offset_of positions i.jf index
  program ← resolve_from positions (suc index) rest
  ok (sock_filter i.code jt jf i.k ∷ program)

unfoldable pub resolve : List Item → Result Error (List SockFilter)
unfolding positions_from instructions resolve_from
resolve items = resolve_from (positions_from 0 items []) 0 (instructions items)
