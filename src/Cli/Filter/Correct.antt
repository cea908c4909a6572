-- ===== src/Cli/Filter/Correct.antt =====
-- What the program attached for `--filter` keeps of a packet.
use root_wire.Base.{
  ℕ, ◌≤◌, ◌≡◌, refl, ap, true, Option, none, some, List, [], ◌∷◌, Result, ok, err, length, arith,
  Bool-cases, some-injective, inl, inr, ◌⊎◌, sym, ◌>>=◌,
}
use root_wire.Bpf
use root_wire.Bpf.{SockFilter}
use root_wire.Vm.{Packet, run_within}
use root_wire.Compiler.Syntax.{Text, Unicode, Protocol, Node, proto, Error}
use root_wire.Compiler.Words.{codes, text_eq, protocol_of}
use root_wire.Compiler.Meaning.{matches, matches_proto}
use root_wire.Compiler.Assembly.Correct.{decision}
use root_wire.Compiler.Expression.{parse_expression}
use root_wire.Compiler.Expression.Correct.{compile_expression-decides}
use root_wire.Compiler.Canned.{run_within-transport, run_within-ethertype}
use root_wire.Cli.Filter.{get_canned, compile_if_missing, resolve_filter_program}

text_eq→eq : (s t : Text) → text_eq s t ≡ true → s ≡ t
unfolding text_eq
text_eq→eq [] [] h = refl
text_eq→eq [] (b ∷ t) h = cc
text_eq→eq (a ∷ s) [] h = cc
text_eq→eq (a ∷ s) (b ∷ t) h = ground (arith, text_eq→eq s t)

-- A program that keeps what the tree keeps, on every packet and within as many rounds as it has
-- instructions.
pub record Keeps (program : List SockFilter) (ast : Node) : Type 0 where
  pub keeps :
      (packet : Packet) (rounds : ℕ)
      → length program ≤ rounds
      → run_within rounds program packet ≡ ok (decision (matches ast packet))

tcp-Keeps : Keeps Bpf.tcp (proto Protocol.tcp)
unfolding Bpf.tcp matches matches_proto
tcp-Keeps = record { keeps = λ packet rounds h. run_within-transport packet rounds 6 h }

udp-Keeps : Keeps Bpf.udp (proto Protocol.udp)
unfolding Bpf.udp matches matches_proto
udp-Keeps = record { keeps = λ packet rounds h. run_within-transport packet rounds 17 h }

arp-Keeps : Keeps Bpf.arp (proto Protocol.arp)
unfolding Bpf.arp matches matches_proto
arp-Keeps = record { keeps = λ packet rounds h. run_within-ethertype packet rounds 0x0806 h }

ip6-Keeps : Keeps Bpf.ip6 (proto Protocol.ip6)
unfolding Bpf.ip6 matches matches_proto
ip6-Keeps = record { keeps = λ packet rounds h. run_within-ethertype packet rounds 0x86dd h }

Keeps-eq : {p q : List SockFilter} {ast : Node} → p ≡ q → Keeps p ast → Keeps q ast
Keeps-eq e k = rw (sym e) k

canned-Keeps :
    (name : Text) (program : List SockFilter)
    → get_canned name ≡ some program
    → (protocol : Protocol) × (protocol_of name ≡ some protocol) × Keeps program (proto protocol)
unfolding get_canned protocol_of
canned-Keeps name program h = elim (Bool-cases (text_eq name (codes "tcp"))) [
  | inl e ↦ (
    Protocol.tcp,
    ap protocol_of (text_eq→eq name (codes "tcp") e),
    Keeps-eq (some-injective (rw (e) at h)) tcp-Keeps,
  )
  | inr not_tcp ↦ elim (Bool-cases (text_eq name (codes "udp"))) [
    | inl e ↦ (
      Protocol.udp,
      ap protocol_of (text_eq→eq name (codes "udp") e),
      Keeps-eq (some-injective (rw (not_tcp, e) at h)) udp-Keeps,
    )
    | inr not_udp ↦ elim (Bool-cases (text_eq name (codes "arp"))) [
      | inl e ↦ (
        Protocol.arp,
        ap protocol_of (text_eq→eq name (codes "arp") e),
        Keeps-eq (some-injective (rw (not_tcp, not_udp, e) at h)) arp-Keeps,
      )
      | inr not_arp ↦ elim (Bool-cases (text_eq name (codes "ip6"))) [
        | inl e ↦ (
          Protocol.ip6,
          ap protocol_of (text_eq→eq name (codes "ip6") e),
          Keeps-eq (some-injective (rw (not_tcp, not_udp, not_arp, e) at h)) ip6-Keeps,
        )
        | inr not_ip6 ↦ let k = rw (not_tcp, not_udp, not_arp, not_ip6) at h in cc
      ]
    ]
  ]
]

-- A canned filter's name is the name of a protocol, and on every packet, given a round for each
-- instruction, the canned program keeps what the expression of that one word means.
pub get_canned-decides :
    (name : Text) (program : List SockFilter) (packet : Packet) (rounds : ℕ)
    → get_canned name ≡ some program
    → length program ≤ rounds
    → (protocol : Protocol) × (protocol_of name ≡ some protocol)
      × (run_within rounds program packet ≡ ok (decision (matches (proto protocol) packet)))
get_canned-decides name program packet rounds h enough =
    let (protocol, p, k) = canned-Keeps name program h in
    (protocol, p, k.keeps packet rounds enough)

attached-some :
    {program : List SockFilter} (r : Result Error (List SockFilter))
    → (r >>= λ instructions. ok (some instructions)) ≡ ok (some program)
    → r ≡ ok program
attached-some (ok p) h = cc
attached-some (err e) h = cc

-- What an argument of `--filter` stands for: the name of a protocol, or an expression's tree.
abbrev pub Says : Unicode → Text → Node → Type 0
Says unicode filter ast =
    ((protocol : Protocol) × (protocol_of filter ≡ some protocol) × (ast ≡ proto protocol))
    ⊎ (parse_expression unicode filter ≡ ok ast)

-- With `--filter`, the program that is attached keeps of every packet, given a round for each
-- instruction, what the argument means: the name of a protocol, or an expression's tree.
pub resolve_filter_program-decides :
    (unicode : Unicode) (filter : Text) (program : List SockFilter) (packet : Packet) (rounds : ℕ)
    → resolve_filter_program unicode (some filter) ≡ ok (some program)
    → length program ≤ rounds
    → (ast : Node) × Says unicode filter ast
      × (run_within rounds program packet ≡ ok (decision (matches ast packet)))
unfolding resolve_filter_program compile_if_missing
resolve_filter_program-decides unicode filter program packet rounds h enough =
    by_canned (get_canned filter) refl (attached-some _ h)
  where
    by_canned :
        (canned : Option (List SockFilter))
        → get_canned filter ≡ canned
        → compile_if_missing unicode filter canned ≡ ok program
        → (ast : Node) × Says unicode filter ast
          × (run_within rounds program packet ≡ ok (decision (matches ast packet)))
    by_canned none e k =
        let (ast, p, d) =
          compile_expression-decides unicode filter program packet rounds k enough in
        (ast, inr p, d)
    by_canned (some canned) e k =
        let (protocol, p, c) = canned-Keeps filter canned e in
        (proto protocol, inl (protocol, p, refl), (Keeps-eq (cc) c).keeps packet rounds enough)
