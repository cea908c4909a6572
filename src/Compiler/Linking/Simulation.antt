-- ===== src/Compiler/Linking/Simulation.antt =====
-- The whole program, by induction on the code that is still ahead.
use root_wire.Base.{
  ℕ, zero, suc, ◌≤◌, ◌≡◌, ap, ◌∙◌, true, some, List, [], ◌∷◌, ok, err, ◌==◌, length, drop,
  get_elem?-drop, get_elem?-drop_end, arith, Bool-cases, ==_iff, le→ltb, inl, inr,
}
use root_wire.Bpf.{SockFilter, sock_filter}
use root_wire.Vm.{Packet, class_of, run_loop, off_end}
use root_wire.Compiler.Codegen.{Label, PInsn, Item, label, insn}
use root_wire.Compiler.Symbolic.{Mode, running, seeking, exec, placed}
use root_wire.Compiler.Resolve.{Positions, lookup, instructions, resolve_from}
use root_wire.Compiler.Linking.{
  Located, Complete, a_of, x_of, Points, step-Alike, Alike-bind, resolve_from-eq_ok,
}

-- A label that stands next is recorded at this very index.
Complete-label :
    (positions : Positions) (base : ℕ) (l : Label) (items : List Item)
    → lookup l positions ≡ some base
    → Complete positions base (label l ∷ items)
    → Complete positions base items
unfolding placed
Complete-label positions base l items found c l' p h above = elim (Bool-cases (l' == l)) [
  | inl same ↦ absurd (omega (arith, position same))
  | inr other ↦ ground (arith, c l' p h above)
]
  where
    position : (l' == l) ≡ true → p ≡ base
    position same = let e = (==_iff l' l).0 same in cc

Complete-insn :
    (positions : Positions) (base : ℕ) (i : PInsn) (items : List Item)
    → Complete positions base (insn i ∷ items)
    → Complete positions (suc base) items
unfolding placed
Complete-insn positions base i items c l p h above = c l p h (omega arith)

ends :
    (fuel : ℕ) (program : List SockFilter) (packet : Packet) (base a x : ℕ)
    → drop base program ≡ []
    → run_loop fuel program packet base a x ≡ err off_end
unfolding run_loop
ends zero program packet base a x h =
    rw (le→ltb base (length program) (get_elem?-drop_end base program h).1)
ends (suc fuel) program packet base a x h = rw (run_loop, (get_elem?-drop_end base program h).0)

module _ (positions : Positions) (program : List SockFilter) (packet : Packet) where
  -- The facts about the code ahead that the induction carries.
  pub record Ahead (base fuel : ℕ) (items : List Item) (tail : List SockFilter) : Type 0 where
    pub located : Located positions base items
    pub complete : Complete positions base items
    pub resolved : resolve_from positions base (instructions items) ≡ ok tail
    pub stands : drop base program ≡ tail
    pub fuelled : length (instructions items) ≤ fuel

  Ahead-label :
      (base fuel : ℕ) (l : Label) (items : List Item) (tail : List SockFilter)
      → Ahead base fuel (label l ∷ items) tail
      → Ahead base fuel items tail
  unfolding instructions
  Ahead-label base fuel l items tail h = record {
    located = h.located.1;
    complete = Complete-label positions base l items h.located.0 h.complete;
    resolved = h.resolved;
    stands = h.stands;
    fuelled = h.fuelled;
  }

  Ahead-insn :
      (base fuel jt jf : ℕ) (i : PInsn) (items : List Item) (tail rest : List SockFilter)
      → Ahead base fuel (insn i ∷ items) tail
      → (resolve_from positions (suc base) (instructions items) ≡ ok rest)
        × (tail ≡ sock_filter i.code jt jf i.k ∷ rest)
      → (fuel' : ℕ) → fuel ≤ suc fuel'
      → Ahead (suc base) fuel' items rest
  unfolding instructions
  Ahead-insn base fuel jt jf i items tail rest h (p, q) fuel' k = record {
    located = h.located;
    complete = Complete-insn positions base i items h.complete;
    resolved = p;
    stands = (get_elem?-drop base program (sock_filter i.code jt jf i.k) rest (h.stands ∙ q)).1;
    fuelled = omega (arith, h.fuelled);
  }

  recorded_here :
      (l l' base pc : ℕ)
      → (l == l') ≡ true
      → lookup l' positions ≡ some base
      → lookup l positions ≡ some pc
      → pc ≡ base
  recorded_here l l' base pc same p q = cc ((==_iff l l').0 same)

  -- Where the interpreter stands for a mode, it runs as the code with its labels.
  pub simulation :
      (base fuel pc : ℕ) (items : List Item) (tail : List SockFilter) (m : Mode)
      → Ahead base fuel items tail
      → Points positions base items m pc
      → run_loop fuel program packet pc (a_of m) (x_of m) ≡ exec packet m items
  unfolding exec placed resolve_from instructions run_loop
  simulation base fuel pc [] tail (running a x) h p =
      rw p (ends fuel program packet base a x (h.stands ∙ cc (h.resolved)))
  simulation base fuel pc [] tail (seeking l a x) h p = cc
  simulation base fuel pc (label l ∷ items) tail (running a x) h p =
      simulation base fuel pc items tail (running a x) (Ahead-label base fuel l items tail h) p
  simulation base fuel pc (label l' ∷ items) tail (seeking l a x) h (found, stands) =
      elim (Bool-cases (l == l')) [
        | inl same ↦ rw same (
            simulation base fuel pc items tail (running a x) (Ahead-label base fuel l' items tail h)
              (recorded_here l l' base pc same h.located.0 found))
        | inr other ↦ rw other (
            simulation base fuel pc items tail (seeking l a x)
              (Ahead-label base fuel l' items tail h) (found, rw other at stands))
      ]
  simulation base fuel pc (insn i ∷ items) tail (seeking l a x) h (found, stands) =
      let (jt, jf, rest, p, q, r, s) =
        resolve_from-eq_ok positions base i (instructions items) tail h.resolved in
      simulation (suc base) fuel pc items rest (seeking l a x)
        (Ahead-insn base fuel jt jf i items tail rest h (r, s) fuel (omega arith)) (found, stands)
  simulation base zero pc (insn i ∷ items) tail (running a x) h p =
      absurd (omega (arith, h.fuelled))
  simulation base (suc fuel) pc (insn i ∷ items) tail (running a x) h e =
      let (jt, jf, rest, p, q, r, s) =
        resolve_from-eq_ok positions base i (instructions items) tail h.resolved in
      let j = sock_filter i.code jt jf i.k in
      let here = (get_elem?-drop base program j rest (h.stands ∙ s)).0 in
      ap (λ z. run_loop (suc fuel) program packet z a x) e
      ∙ rw (run_loop, here)
          (Alike-bind positions (suc base) fuel items program packet
            (step-Alike positions base items (class_of i.code) i packet jt jf a x h.complete p q)
            λ m pc' k.
              simulation (suc base) fuel pc' items rest m
                (Ahead-insn base (suc fuel) jt jf i items tail rest h (r, s) fuel (omega arith)) k)
