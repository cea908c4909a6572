-- ===== src/Compiler/Ethertypes.antt =====
-- `_compile_port` tells IPv6 from everything else, and takes everything else for IPv4.
use root_wire.Base.{
  ℕ, zero, suc, ◌+◌, ◌*◌, ◌-◌, ◌≤◌, ◌≡◌, refl, sym, ap, ◌∙◌, false, Option, none, some, List, [],
  ◌∷◌, ◌++◌, ok, length, drop, bit_and, arith, length-append,
}
use root_wire.Bpf.{SockFilter}
use root_wire.Vm.{Packet, run_within}
use root_wire.Compiler.Syntax.{Direction, either, src, dst, port}
use root_wire.Compiler.Meaning.{
  field, judge, holds, directed, ethertype, ports_behind_header, matches_port_v4, matches_port,
  matches,
}
use root_wire.Compiler.Assembly.{compile_tree}
use root_wire.Compiler.Assembly.Correct.{decision, run_within-compile_tree}

drop-behind :
    {A : Type 0} (xs ys : List A) (n : ℕ)
    → length xs ≤ n
    → drop n (xs ++ ys) ≡ drop (n - length xs) ys
drop-behind [] ys n h = ap (λ m. drop m ys) (omega arith)
drop-behind (x ∷ xs) ys zero h = absurd (omega arith)
drop-behind (x ∷ xs) ys (suc n) h =
    drop-behind xs ys n (omega arith) ∙ ap (λ m. drop m ys) (omega arith)

-- Two headers, and what follows either.
module _ (pre pre' rest : Packet) (h : length pre ≡ 14) (h' : length pre' ≡ 14) where
  drop-rest : (n : ℕ) → 14 ≤ n → drop n (pre ++ rest) ≡ drop n (pre' ++ rest)
  drop-rest n k =
      drop-behind pre rest n (omega arith)
      ∙ ap (λ m. drop m rest) (omega arith)
      ∙ sym (drop-behind pre' rest n (omega arith))

  length-rest : length (pre ++ rest) ≡ length (pre' ++ rest)
  length-rest = omega (arith, length-append pre rest, length-append pre' rest)

  field-rest :
      (offset size : ℕ)
      → 14 ≤ offset
      → field (pre ++ rest) offset size ≡ field (pre' ++ rest) offset size
  unfolding field
  field-rest offset size k = rw (length-rest, drop-rest offset k)

  holds-rest :
      (offset size value : ℕ)
      → 14 ≤ offset
      → holds (pre ++ rest) offset size value ≡ holds (pre' ++ rest) offset size value
  unfolding holds
  holds-rest offset size value k = ap (judge _) (field-rest offset size k)

  directed-rest :
      (size src_offset dst_offset : ℕ) (direction : Direction) (value : ℕ)
      → 14 ≤ src_offset
      → 14 ≤ dst_offset
      → directed (pre ++ rest) size src_offset dst_offset direction value
        ≡ directed (pre' ++ rest) size src_offset dst_offset direction value
  unfolding directed
  directed-rest size s d src value k l = holds-rest s size value k
  directed-rest size s d dst value k l = holds-rest d size value l
  directed-rest size s d either value k l =
      rw (holds-rest s size value k, holds-rest d size value l)

  ports-rest :
      (number : ℕ) (direction : Direction) (first : Option ℕ)
      → ports_behind_header number direction (pre ++ rest) first
        ≡ ports_behind_header number direction (pre' ++ rest) first
  unfolding ports_behind_header
  ports-rest number direction none = refl
  ports-rest number direction (some byte) =
      directed-rest 2 (4 * bit_and byte 0x0f + 14) (4 * bit_and byte 0x0f + 16) direction number
        (omega arith) (omega arith)

  matches_port_v4-rest :
      (number : ℕ) (direction : Direction)
      → matches_port_v4 number direction (pre ++ rest)
        ≡ matches_port_v4 number direction (pre' ++ rest)
  unfolding matches_port_v4
  matches_port_v4-rest number direction = rw (
    holds-rest 23 1 6 (omega arith),
    holds-rest 23 1 17 (omega arith),
    field-rest 20 2 (omega arith),
    field-rest 14 1 (omega arith),
    ports-rest number direction (field (pre' ++ rest) 14 1),
  )

  module _ (rounds number : ℕ) (direction : Direction) (program : List SockFilter) where
    -- Two frames that differ in their Ethernet headers alone and of which neither is IPv6: the
    -- compiled program of `port`, given a round for each instruction, keeps both or neither. It does
    -- not look whether either is IPv4.
    pub run_within-compile_port :
        compile_tree (port number direction) ≡ ok program
        → length program ≤ rounds
        → ethertype (pre ++ rest) 0x86dd ≡ some false
        → ethertype (pre' ++ rest) 0x86dd ≡ some false
        → run_within rounds program (pre ++ rest) ≡ run_within rounds program (pre' ++ rest)
    unfolding matches matches_port
    run_within-compile_port compiled enough e e' =
        run_within-compile_tree (port number direction) (pre ++ rest) rounds program compiled enough
        ∙ ap (λ v. ok (decision v)) (rw (e, e') (matches_port_v4-rest number direction))
        ∙ sym (
            run_within-compile_tree (port number direction) (pre' ++ rest) rounds program compiled
              enough)
