-- ===== src/Bpf.antt =====
pub mod Program
mod Tests
-- src/rootwire/bpf.py: classic BPF instructions and the canned filter programs.
use root_wire.Base.{ℕ, List, [], ◌∷◌}

-- One instruction, `struct sock_filter`: the tuple `(code, jt, jf, k)`.
pub record SockFilter : Type 0 where
  pub code : ℕ
  pub jt : ℕ
  pub jf : ℕ
  pub k : ℕ

abbrev pub sock_filter : ℕ → ℕ → ℕ → ℕ → SockFilter
sock_filter code jt jf k = record { code = code; jt = jt; jf = jf; k = k }

-- `_TCP`
unfoldable pub tcp : List SockFilter
tcp =
    sock_filter 0x28 0 0 0x0c
    ∷ sock_filter 0x15 0 5 0x86dd
    ∷ sock_filter 0x30 0 0 0x14
    ∷ sock_filter 0x15 6 0 0x06
    ∷ sock_filter 0x15 0 6 0x2c
    ∷ sock_filter 0x30 0 0 0x36
    ∷ sock_filter 0x15 3 4 0x06
    ∷ sock_filter 0x15 0 3 0x0800
    ∷ sock_filter 0x30 0 0 0x17
    ∷ sock_filter 0x15 0 1 0x06
    ∷ sock_filter 0x06 0 0 0x0004_0000
    ∷ sock_filter 0x06 0 0 0
    ∷ []

-- `_UDP`
unfoldable pub udp : List SockFilter
udp =
    sock_filter 0x28 0 0 0x0c
    ∷ sock_filter 0x15 0 5 0x86dd
    ∷ sock_filter 0x30 0 0 0x14
    ∷ sock_filter 0x15 6 0 0x11
    ∷ sock_filter 0x15 0 6 0x2c
    ∷ sock_filter 0x30 0 0 0x36
    ∷ sock_filter 0x15 3 4 0x11
    ∷ sock_filter 0x15 0 3 0x0800
    ∷ sock_filter 0x30 0 0 0x17
    ∷ sock_filter 0x15 0 1 0x11
    ∷ sock_filter 0x06 0 0 0x0004_0000
    ∷ sock_filter 0x06 0 0 0
    ∷ []

-- `_ARP`
unfoldable pub arp : List SockFilter
arp =
    sock_filter 0x28 0 0 0x0c
    ∷ sock_filter 0x15 0 1 0x0806
    ∷ sock_filter 0x06 0 0 0x0004_0000
    ∷ sock_filter 0x06 0 0 0
    ∷ []

-- `_IP6`
unfoldable pub ip6 : List SockFilter
ip6 =
    sock_filter 0x28 0 0 0x0c
    ∷ sock_filter 0x15 0 1 0x86dd
    ∷ sock_filter 0x06 0 0 0x0004_0000
    ∷ sock_filter 0x06 0 0 0
    ∷ []
