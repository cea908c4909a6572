-- ===== src/Compiler/Lowering/Correct.antt =====
-- Each function of the code generator emits code for the meaning of what it compiles.
use root_wire.Base.{ℕ, suc, ◌≤◌, ◌≡◌, refl, arith}
use root_wire.Vm.{Packet, class_of, step_ld, ld, load}
use root_wire.Compiler.Syntax.{Protocol, tcp, udp, icmp, arp, ip, ip6, Direction, either, src, dst}
use root_wire.Compiler.Codegen.{
  Label, Emitter, new_label, place, emit, test_at, compile_tcp_or_udp, compile_proto,
  compile_host_address, compile_port_value,
}
use root_wire.Compiler.Meaning.{Verdict, transport, matches_proto, directed}
use root_wire.Compiler.Lowering.{Lowers}
use root_wire.Compiler.Lowering.Rules.{Lowers-conj, Lowers-disj}
use root_wire.Compiler.Lowering.Branch.{Lowers-branch}
use root_wire.Compiler.Lowering.Primitives.{Lowers-byte, Lowers-half, Lowers-word, Lowers-test_at}
use root_wire.Compiler.Lowering.Either.{Lowers-either}

-- The labels that the code holds are those made while it was emitted.
abbrev pub Compiles : Packet → Emitter → Emitter → (ℕ → Verdict) → Label → Label → Type 0
Compiles packet e e' v t f = Lowers packet e.counter e'.counter e.items e'.items v t f

module _ (packet : Packet) (t f : Label) (e : Emitter) (p : t ≤ e.counter) (q : f ≤ e.counter) where
  abbrev c₁ : ℕ
  c₁ = suc e.counter

  abbrev c₂ : ℕ
  c₂ = suc c₁

  abbrev c₃ : ℕ
  c₃ = suc c₂

  abbrev c₄ : ℕ
  c₄ = suc c₃

  abbrev c₅ : ℕ
  c₅ = suc c₄

  tcp_or_udp :
      (number : ℕ)
      → Compiles packet e (compile_tcp_or_udp number t f e) (λ _. transport number packet) t f
  unfolding compile_tcp_or_udp new_label place transport test_at emit
  tcp_or_udp number =
      Lowers-branch (omega arith) (Lowers-half packet e.counter _ 0x86dd c₁ c₂ 12)
        (Lowers-disj c₂ c₄ (omega arith) (Lowers-byte packet c₂ _ number t c₃ 20) (
          Lowers-conj c₃ c₄ (omega arith) (Lowers-byte packet c₃ _ 44 c₄ f 20)
            (Lowers-byte packet c₄ _ number t f 54)))
        (Lowers-conj c₄ c₅ (omega arith) (Lowers-half packet c₄ _ 0x0800 c₅ f 12)
          (Lowers-byte packet c₅ _ number t f 23))

  pub compile_proto-Compiles :
      (name : Protocol)
      → Compiles packet e (compile_proto name t f e) (λ _. matches_proto name packet) t f
  unfolding compile_proto new_label place test_at emit matches_proto
  compile_proto-Compiles ip = Lowers-half packet e.counter e.items 0x0800 t f 12
  compile_proto-Compiles arp = Lowers-half packet e.counter e.items 0x0806 t f 12
  compile_proto-Compiles ip6 = Lowers-half packet e.counter e.items 0x86dd t f 12
  compile_proto-Compiles icmp =
      Lowers-conj e.counter c₁ (omega arith) (Lowers-half packet e.counter _ 0x0800 c₁ f 12)
        (Lowers-byte packet c₁ _ 1 t f 23)
  compile_proto-Compiles tcp = tcp_or_udp 6
  compile_proto-Compiles udp = tcp_or_udp 17

  pub compile_port_value-Compiles :
      (code k k' value : ℕ) (offset offset' : ℕ → ℕ) (direction : Direction)
      → class_of code ≡ ld
      → ((x : ℕ) → step_ld code k packet x ≡ load packet (offset x) 2)
      → ((x : ℕ) → step_ld code k' packet x ≡ load packet (offset' x) 2)
      → Compiles packet e
          (compile_port_value code k k' direction value t f e)
          (λ x. directed packet 2 (offset x) (offset' x) direction value)
          t
          f
  unfolding compile_port_value new_label place test_at emit directed
  compile_port_value-Compiles code k k' value offset offset' src h i j =
      Lowers-test_at packet e.counter e.items value t f code 2 k offset h i
  compile_port_value-Compiles code k k' value offset offset' dst h i j =
      Lowers-test_at packet e.counter e.items value t f code 2 k' offset' h j
  compile_port_value-Compiles code k k' value offset offset' either h i j =
      Lowers-either packet code 2 k k' value offset offset' t f c₁ h i j e.counter c₁ e.items
        (omega arith) p

  pub compile_host_address-Compiles :
      (addr : ℕ) (direction : Direction)
      → Compiles packet e
          (compile_host_address addr direction t f e)
          (λ x. directed packet 4 26 30 direction addr)
          t
          f
  unfolding compile_host_address new_label place test_at emit directed class_of step_ld
  compile_host_address-Compiles addr src = Lowers-word packet e.counter e.items addr t f 26
  compile_host_address-Compiles addr dst = Lowers-word packet e.counter e.items addr t f 30
  compile_host_address-Compiles addr either =
      Lowers-either packet 0x20 4 26 30 addr (λ _. 26) (λ _. 30) t f c₁ refl (λ x. refl) (λ x. refl)
        e.counter c₁ e.items (omega arith) p
