-- ===== src/Compiler/Complement.antt =====
-- What the program of an expression keeps, against what that of its negation keeps.
use root_wire.Base.{
  ℕ, ◌+◌, ◌*◌, ◌≤◌, ◌≡◌, refl, Bool, true, false, none, some, ◌⊎◌, inl, inr, List, Result, ok,
  length, bit_and, bit_and_le, arith, Option-cases, ◌∙◌, ap,
}
use root_wire.Bpf.{SockFilter}
use root_wire.Vm.{Packet, Exception, run_within}
use root_wire.Compiler.Syntax.{
  Protocol, tcp, udp, icmp, arp, ip, ip6, Direction, either, src, dst, Node, proto, host, port,
  negate, both, one_of,
}
use root_wire.Compiler.Meaning.{
  Verdict, field, judge, holds, branch, disj, neg, transport, matches_proto, directed, matches_host,
  matches_port_v6, ports_behind_header, matches_port_v4, matches_port, matches,
}
use root_wire.Compiler.Assembly.{compile_tree}
use root_wire.Compiler.Assembly.Correct.{decision, run_within-compile_tree}

-- A verdict that does not look beyond the end of the packet.
record Decided (v : Verdict) : Type 0 where
  decided : (b : Bool) × (v ≡ some b)

Decided-branch : {v w x : Verdict} → Decided v → Decided w → Decided x → Decided (branch v w x)
Decided-branch {v} {w} {x} h k l = by_verdict h.decided.0 h.decided.1
  where
    by_verdict : (b : Bool) → v ≡ some b → Decided (branch v w x)
    by_verdict true e = rw e k
    by_verdict false e = rw e l

Decided-some : (b : Bool) → Decided (some b)
Decided-some b = record { decided = (b, refl) }

module _ (packet : Packet) (long : 78 ≤ length packet) where
  field-some :
      (offset size : ℕ) → offset + size ≤ 78 → (n : ℕ) × (field packet offset size ≡ some n)
  unfolding field
  field-some offset size h = elim (Option-cases (field packet offset size)) [
    | inl e ↦ absurd (ground arith)
    | inr r ↦ r
  ]

  Decided-judge :
      (test : ℕ → Bool) (offset size : ℕ)
      → offset + size ≤ 78
      → Decided (judge test (field packet offset size))
  Decided-judge test offset size h =
      let (n, e) = field-some offset size h in record { decided = rw e (test n, refl) }

  Decided-holds :
      (offset size value : ℕ) → offset + size ≤ 78 → Decided (holds packet offset size value)
  unfolding holds
  Decided-holds offset size value h = Decided-judge _ offset size h

  Decided-transport : (number : ℕ) → Decided (transport number packet)
  unfolding transport
  Decided-transport number =
      Decided-branch (Decided-holds 12 2 _ (omega arith))
        (Decided-branch (Decided-holds 20 1 _ (omega arith)) (Decided-some true) (
          Decided-branch (Decided-holds 20 1 _ (omega arith)) (Decided-holds 54 1 _ (omega arith))
            (Decided-some false)))
        (Decided-branch (Decided-holds 12 2 _ (omega arith)) (Decided-holds 23 1 _ (omega arith))
          (Decided-some false))

  Decided-matches_proto : (name : Protocol) → Decided (matches_proto name packet)
  unfolding matches_proto
  Decided-matches_proto ip = Decided-holds 12 2 _ (omega arith)
  Decided-matches_proto arp = Decided-holds 12 2 _ (omega arith)
  Decided-matches_proto ip6 = Decided-holds 12 2 _ (omega arith)
  Decided-matches_proto icmp =
      Decided-branch (Decided-holds 12 2 _ (omega arith)) (Decided-holds 23 1 _ (omega arith))
        (Decided-some false)
  Decided-matches_proto tcp = Decided-transport 6
  Decided-matches_proto udp = Decided-transport 17

  Decided-directed :
      (size src_offset dst_offset : ℕ) (direction : Direction) (value : ℕ)
      → src_offset + size ≤ 78
      → dst_offset + size ≤ 78
      → Decided (directed packet size src_offset dst_offset direction value)
  unfolding directed
  Decided-directed size src_offset dst_offset src value h k = Decided-holds src_offset size value h
  Decided-directed size src_offset dst_offset dst value h k = Decided-holds dst_offset size value k
  Decided-directed size src_offset dst_offset either value h k =
      Decided-branch (Decided-holds src_offset size value h) (Decided-some true)
        (Decided-holds dst_offset size value k)

  -- TCP or UDP, by the protocol at an offset.
  Decided-tcp_or_udp :
      (offset : ℕ)
      → offset + 1 ≤ 78
      → Decided (disj (holds packet offset 1 6) (holds packet offset 1 17))
  Decided-tcp_or_udp offset h =
      Decided-branch (Decided-holds offset 1 _ h) (Decided-some true) (Decided-holds offset 1 _ h)

  Decided-ports_behind_header :
      (number : ℕ) (direction : Direction)
      → Decided (ports_behind_header number direction packet (field packet 14 1))
  unfolding ports_behind_header
  Decided-ports_behind_header number direction =
      let (byte, e) = field-some 14 1 (omega arith) in
      rw e (
        Decided-directed 2 (4 * bit_and byte 0x0f + 14) (4 * bit_and byte 0x0f + 16) direction
          number (omega (arith, bit_and_le byte 0x0f)) (omega (arith, bit_and_le byte 0x0f)))

  Decided-matches_port :
      (number : ℕ) (direction : Direction) → Decided (matches_port number direction packet)
  unfolding matches_port matches_port_v6 matches_port_v4
  Decided-matches_port number direction =
      Decided-branch (Decided-holds 12 2 _ (omega arith))
        (Decided-branch (Decided-tcp_or_udp 20 (omega arith))
          (Decided-directed 2 54 56 direction number (omega arith) (omega arith))
          (Decided-some false))
        (Decided-branch (Decided-tcp_or_udp 23 (omega arith))
          (Decided-branch (Decided-judge _ 20 2 (omega arith))
            (Decided-ports_behind_header number direction) (Decided-some false))
          (Decided-some false))

  Decided-matches : (ast : Node) → Decided (matches ast packet)
  unfolding matches matches_host
  Decided-matches (proto name) = Decided-matches_proto name
  Decided-matches (host addr direction) =
      Decided-branch (Decided-holds 12 2 _ (omega arith))
        (Decided-directed 4 26 30 direction addr (omega arith) (omega arith)) (Decided-some false)
  Decided-matches (port number direction) = Decided-matches_port number direction
  Decided-matches (negate operand) =
      Decided-branch (Decided-matches operand) (Decided-some false) (Decided-some true)
  Decided-matches (both left right) =
      Decided-branch (Decided-matches left) (Decided-matches right) (Decided-some false)
  Decided-matches (one_of left right) =
      Decided-branch (Decided-matches left) (Decided-some true) (Decided-matches right)

-- The whole packet is kept by exactly one of two programs, and nothing by the other.
abbrev pub ExactlyOne : Result Exception ℕ → Result Exception ℕ → Type 0
ExactlyOne r s = ((r ≡ ok 0x0004_0000) × (s ≡ ok 0)) ⊎ ((r ≡ ok 0) × (s ≡ ok 0x0004_0000))

module _ (ast : Node) (packet : Packet) (rounds : ℕ) (program negated : List SockFilter) where
  -- A packet of 78 bytes or more reaches beyond every field: of two compiled programs, one for an
  -- expression and one for its negation, given a round for each instruction, exactly one keeps it.
  pub compile_tree-ExactlyOne :
      compile_tree ast ≡ ok program
      → compile_tree (negate ast) ≡ ok negated
      → length program ≤ rounds
      → length negated ≤ rounds
      → 78 ≤ length packet
      → ExactlyOne (run_within rounds program packet) (run_within rounds negated packet)
  unfolding matches
  compile_tree-ExactlyOne h k enough enough' long =
      let d = (Decided-matches packet long ast).decided in by_verdict d.0 d.1
    where
      by_verdict :
          (b : Bool)
          → matches ast packet ≡ some b
          → ExactlyOne (run_within rounds program packet) (run_within rounds negated packet)
      by_verdict true e = inl (
        run_within-compile_tree ast packet rounds program h enough ∙ ap (λ v. ok (decision v)) e,
        run_within-compile_tree (negate ast) packet rounds negated k enough'
            ∙ ap (λ v. ok (decision (neg v))) e,
      )
      by_verdict false e = inr (
        run_within-compile_tree ast packet rounds program h enough ∙ ap (λ v. ok (decision v)) e,
        run_within-compile_tree (negate ast) packet rounds negated k enough'
            ∙ ap (λ v. ok (decision (neg v))) e,
      )

  -- Of two compiled programs, one for an expression and one for its negation, given a round for each
  -- instruction, one at least rejects the packet, however short it is.
  pub compile_tree-rejected :
      compile_tree ast ≡ ok program
      → compile_tree (negate ast) ≡ ok negated
      → length program ≤ rounds
      → length negated ≤ rounds
      → (run_within rounds program packet ≡ ok 0) ⊎ (run_within rounds negated packet ≡ ok 0)
  unfolding matches
  compile_tree-rejected h k enough enough' = by_verdict (matches ast packet) refl
    where
      by_verdict :
          (v : Verdict)
          → matches ast packet ≡ v
          → (run_within rounds program packet ≡ ok 0) ⊎ (run_within rounds negated packet ≡ ok 0)
      by_verdict none e =
          inl (
            run_within-compile_tree ast packet rounds program h enough
            ∙ ap (λ v. ok (decision v)) e)
      by_verdict (some false) e =
          inl (
            run_within-compile_tree ast packet rounds program h enough
            ∙ ap (λ v. ok (decision v)) e)
      by_verdict (some true) e = inr (
          run_within-compile_tree (negate ast) packet rounds negated k enough'
          ∙ ap (λ v. ok (decision (neg v))) e)
