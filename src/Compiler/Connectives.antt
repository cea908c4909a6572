-- ===== src/Compiler/Connectives.antt =====
-- Expressions of one meaning compile to programs that keep the same.
use root_wire.Base.{ℕ, ◌≤◌, ◌≡◌, refl, sym, ap, ◌∙◌, true, false, none, some, List, ok, length}
use root_wire.Bpf.{SockFilter}
use root_wire.Vm.{Packet, run_within}
use root_wire.Compiler.Syntax.{Node, negate, both, one_of}
use root_wire.Compiler.Meaning.{Verdict, conj, disj, neg, matches}
use root_wire.Compiler.Assembly.{compile_tree}
use root_wire.Compiler.Assembly.Correct.{decision, run_within-compile_tree}

neg-disj : (v w : Verdict) → neg (disj v w) ≡ conj (neg v) (neg w)
neg-disj none w = refl
neg-disj (some true) w = refl
neg-disj (some false) w = refl

disj_assoc : (u v w : Verdict) → disj (disj u v) w ≡ disj u (disj v w)
disj_assoc none v w = refl
disj_assoc (some true) v w = refl
disj_assoc (some false) v w = refl

conj_assoc : (u v w : Verdict) → conj (conj u v) w ≡ conj u (conj v w)
conj_assoc none v w = refl
conj_assoc (some true) v w = refl
conj_assoc (some false) v w = refl

module _ (packet : Packet) (rounds : ℕ) (p q : List SockFilter) where
  same :
      (a b : Node)
      → matches a packet ≡ matches b packet
      → compile_tree a ≡ ok p
      → compile_tree b ≡ ok q
      → length p ≤ rounds
      → length q ≤ rounds
      → run_within rounds p packet ≡ run_within rounds q packet
  same a b e h k enough enough' =
      run_within-compile_tree a packet rounds p h enough
      ∙ ap (λ v. ok (decision v)) e
      ∙ sym (run_within-compile_tree b packet rounds q k enough')

  -- De Morgan's law for compiled programs, on every packet, given a round for each instruction: that
  -- of `not (l or r)` keeps what that of `not l and not r` keeps, short packets included.
  pub compile_tree-de_morgan :
      (l r : Node)
      → compile_tree (negate (one_of l r)) ≡ ok p
      → compile_tree (both (negate l) (negate r)) ≡ ok q
      → length p ≤ rounds
      → length q ≤ rounds
      → run_within rounds p packet ≡ run_within rounds q packet
  unfolding matches
  compile_tree-de_morgan l r =
      same (negate (one_of l r)) (both (negate l) (negate r))
        (neg-disj (matches l packet) (matches r packet))

  -- How a chain of `or` groups changes nothing that its program keeps, on any packet, given a round
  -- for each instruction.
  pub compile_tree-or_assoc :
      (a b c : Node)
      → compile_tree (one_of (one_of a b) c) ≡ ok p
      → compile_tree (one_of a (one_of b c)) ≡ ok q
      → length p ≤ rounds
      → length q ≤ rounds
      → run_within rounds p packet ≡ run_within rounds q packet
  unfolding matches
  compile_tree-or_assoc a b c =
      same (one_of (one_of a b) c) (one_of a (one_of b c))
        (disj_assoc (matches a packet) (matches b packet) (matches c packet))

  -- The same for a chain of `and`.
  pub compile_tree-and_assoc :
      (a b c : Node)
      → compile_tree (both (both a b) c) ≡ ok p
      → compile_tree (both a (both b c)) ≡ ok q
      → length p ≤ rounds
      → length q ≤ rounds
      → run_within rounds p packet ≡ run_within rounds q packet
  unfolding matches
  compile_tree-and_assoc a b c =
      same (both (both a b) c) (both a (both b c))
        (conj_assoc (matches a packet) (matches b packet) (matches c packet))
