-- ===== src/Compiler/Meaning.antt =====
-- What a filter expression says of a frame, independently of any code: a verdict, or none where
-- a field that it looks at lies beyond the end of the frame.
use root_wire.Base.{
  ℕ, ◌+◌, ◌*◌, Bool, true, false, Option, none, some, take, drop, length, ltb, ◌==◌, if◌then◌else◌,
  bit_and,
}
use root_wire.Vm.{Packet, from_bytes_big}
use root_wire.Compiler.Syntax.{
  Protocol, tcp, udp, icmp, arp, ip, ip6, Direction, either, src, dst, Node, proto, host, port,
  negate, both, one_of,
}

abbrev pub Verdict : Type 0
Verdict = Option Bool

-- A big-endian field of the frame.
unfoldable pub field : Packet → ℕ → ℕ → Option ℕ
field packet offset size =
    if ltb (length packet) (offset + size)
    then none
    else some (from_bytes_big (take size (drop offset packet)))

abbrev pub judge : (ℕ → Bool) → Option ℕ → Verdict
judge test none = none
judge test (some n) = some (test n)

-- Whether a field holds a value.
unfoldable pub holds : Packet → ℕ → ℕ → ℕ → Verdict
holds packet offset size value = judge (λ n. n == value) (field packet offset size)

-- A test, and what is asked next where it holds and where it does not.
abbrev pub branch : Verdict → Verdict → Verdict → Verdict
branch none p q = none
branch (some true) p q = p
branch (some false) p q = q

-- The connectives, from left to right.
abbrev pub conj : Verdict → Verdict → Verdict
conj v w = branch v w (some false)

abbrev pub disj : Verdict → Verdict → Verdict
disj v w = branch v (some true) w

abbrev pub neg : Verdict → Verdict
neg v = branch v (some false) (some true)

-- The EtherType names the protocol.
abbrev pub ethertype : Packet → ℕ → Verdict
ethertype packet value = holds packet 12 2 value

-- The transport protocol: of an IPv6 packet its next header, or the one behind a fragment header
-- that stands first; of an IPv4 packet its protocol field.
unfoldable pub transport : ℕ → Packet → Verdict
transport number packet =
    branch (ethertype packet 0x86dd)
      (disj (holds packet 20 1 number) (conj (holds packet 20 1 44) (holds packet 54 1 number)))
      (conj (ethertype packet 0x0800) (holds packet 23 1 number))

unfoldable pub matches_proto : Protocol → Packet → Verdict
unfolding transport
matches_proto ip packet = ethertype packet 0x0800
matches_proto arp packet = ethertype packet 0x0806
matches_proto ip6 packet = ethertype packet 0x86dd
matches_proto icmp packet = conj (ethertype packet 0x0800) (holds packet 23 1 1)
matches_proto tcp packet = transport 6 packet
matches_proto udp packet = transport 17 packet

-- A field at a source offset, at a destination offset, or at either.
unfoldable pub directed : Packet → ℕ → ℕ → ℕ → Direction → ℕ → Verdict
directed packet size src_offset dst_offset src value = holds packet src_offset size value
directed packet size src_offset dst_offset dst value = holds packet dst_offset size value
directed packet size src_offset dst_offset either value =
    disj (holds packet src_offset size value) (holds packet dst_offset size value)

unfoldable pub matches_host : ℕ → Direction → Packet → Verdict
unfolding directed
matches_host addr direction packet =
    conj (ethertype packet 0x0800) (directed packet 4 26 30 direction addr)

unfoldable pub matches_port_v6 : ℕ → Direction → Packet → Verdict
unfolding directed
matches_port_v6 number direction packet =
    conj (disj (holds packet 20 1 6) (holds packet 20 1 17))
      (directed packet 2 54 56 direction number)

-- The ports behind an IPv4 header of the length that the header declares.
unfoldable pub ports_behind_header : ℕ → Direction → Packet → Option ℕ → Verdict
unfolding directed
ports_behind_header number direction packet first = elim first [
  | none ↦ none
  | some byte ↦
      directed packet 2 (4 * bit_and byte 0x0f + 14) (4 * bit_and byte 0x0f + 16) direction number
]

-- TCP or UDP, no later fragment, and the port.
unfoldable pub matches_port_v4 : ℕ → Direction → Packet → Verdict
unfolding ports_behind_header
matches_port_v4 number direction packet = conj (disj (holds packet 23 1 6) (holds packet 23 1 17)) (
    conj (judge (λ n. bit_and n 0x1fff == 0) (field packet 20 2))
      (ports_behind_header number direction packet (field packet 14 1)))

-- Every frame that is not IPv6 is looked at as IPv4.
unfoldable pub matches_port : ℕ → Direction → Packet → Verdict
unfolding matches_port_v6 matches_port_v4
matches_port number direction packet =
    branch (ethertype packet 0x86dd) (matches_port_v6 number direction packet)
      (matches_port_v4 number direction packet)

unfoldable pub matches : Node → Packet → Verdict
matches (proto name) packet = matches_proto name packet
matches (host addr direction) packet = matches_host addr direction packet
matches (port number direction) packet = matches_port number direction packet
matches (negate operand) packet = neg (matches operand packet)
matches (both left right) packet = conj (matches left packet) (matches right packet)
matches (one_of left right) packet = disj (matches left packet) (matches right packet)
