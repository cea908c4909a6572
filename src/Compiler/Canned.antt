-- ===== src/Compiler/Canned.antt =====
-- The canned programs of src/rootwire/bpf.py decide as the expressions that they are named after.
pub mod Rounds
use root_wire.Base.{
  ℕ, suc, ◌+◌, ◌≤◌, ◌≡◌, refl, ap, ◌∙◌, Bool, true, false, Option, none, some, List, [], ◌∷◌,
  Result, ok, err, ◌==◌, get_elem?, ◌-◌, arith,
}
use root_wire.Bpf
use root_wire.Bpf.{SockFilter, sock_filter}
use root_wire.Vm.{Packet, run_within}
use root_wire.Compiler.Syntax.{Protocol}
use root_wire.Compiler.Meaning.{field, holds, ethertype, transport, matches_proto}
use root_wire.Compiler.Assembly.Correct.{decision}
use root_wire.Compiler.Canned.Rounds.{Runs, Runs-ret, Runs-jeq, Runs-byte, Runs-half}

-- The program of a transport protocol's number.
abbrev transport_program : ℕ → List SockFilter
transport_program number =
    sock_filter 0x28 0 0 0x0c
    ∷ sock_filter 0x15 0 5 0x86dd
    ∷ sock_filter 0x30 0 0 0x14
    ∷ sock_filter 0x15 6 0 number
    ∷ sock_filter 0x15 0 6 0x2c
    ∷ sock_filter 0x30 0 0 0x36
    ∷ sock_filter 0x15 3 4 number
    ∷ sock_filter 0x15 0 3 0x0800
    ∷ sock_filter 0x30 0 0 0x17
    ∷ sock_filter 0x15 0 1 number
    ∷ sock_filter 0x06 0 0 0x0004_0000
    ∷ sock_filter 0x06 0 0 0
    ∷ []

-- The program of an EtherType.
abbrev ethertype_program : ℕ → List SockFilter
ethertype_program value =
    sock_filter 0x28 0 0 0x0c
    ∷ sock_filter 0x15 0 1 value
    ∷ sock_filter 0x06 0 0 0x0004_0000
    ∷ sock_filter 0x06 0 0 0
    ∷ []

transport-Runs :
    (number : ℕ) (packet : Packet) (n a : ℕ)
    → Runs
        (transport_program number)
        packet
        (suc (suc (suc (suc (suc (suc (suc (suc n))))))))
        0
        a
        (decision (transport number packet))
unfolding transport holds
transport-Runs number packet n a =
    Runs-half 0 12 refl (λ h. ground arith)
      λ et h₁₂.
        Runs-jeq 1 et 0 5 0x86dd refl
          (λ v6.
            Runs-byte 2 20 refl (λ h. ground arith)
              λ next h₂₀.
                Runs-jeq 3 next 6 0 number refl (λ e. Runs-ret 10 refl (ground arith))
                  λ e.
                    Runs-jeq 4 next 0 6 0x2c refl
                      (λ f.
                        Runs-byte 5 54 refl (λ h. ground arith)
                          λ inner h₅₄.
                            Runs-jeq 6 inner 3 4 number refl (λ g. Runs-ret 10 refl (ground arith))
                              λ g. Runs-ret 11 refl (ground arith))
                      λ f. Runs-ret 11 refl (ground arith))
          λ v6.
            Runs-jeq 7 et 0 3 0x0800 refl
              (λ v4.
                Runs-byte 8 23 refl (λ h. ground arith)
                  λ next h₂₃.
                    Runs-jeq 9 next 0 1 number refl (λ e. Runs-ret 10 refl (ground arith))
                      λ e. Runs-ret 11 refl (ground arith))
              λ v4. Runs-ret 11 refl (ground arith)

more :
    {program : List SockFilter} {packet : Packet} {d n : ℕ} (rounds : ℕ)
    → Runs program packet n 0 0 d
    → rounds ≡ n
    → run_within rounds program packet ≡ ok d
unfolding run_within
more rounds h e = rw (e, h.runs 0)

module _ (packet : Packet) (rounds : ℕ) where
  pub run_within-transport :
      (number : ℕ)
      → 12 ≤ rounds
      → run_within rounds (transport_program number) packet
        ≡ ok (decision (transport number packet))
  run_within-transport number h =
      more rounds (transport-Runs number packet (rounds - 8) 0) (omega arith)

  ethertype-Runs :
      (value n : ℕ)
      → Runs
          (ethertype_program value)
          packet
          (suc (suc (suc n)))
          0
          0
          (decision (ethertype packet value))
  unfolding holds
  ethertype-Runs value n =
      Runs-half 0 12 refl (λ h. ground arith)
        λ et h₁₂.
          Runs-jeq 1 et 0 1 value refl (λ e. Runs-ret 2 refl (ground arith))
            λ e. Runs-ret 3 refl (ground arith)

  pub run_within-ethertype :
      (value : ℕ)
      → 4 ≤ rounds
      → run_within rounds (ethertype_program value) packet ≡ ok (decision (ethertype packet value))
  run_within-ethertype value h = more rounds (ethertype-Runs value (rounds - 3)) (omega arith)
