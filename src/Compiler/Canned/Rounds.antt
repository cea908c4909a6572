-- ===== src/Compiler/Canned/Rounds.antt =====
-- A run of the interpreter through a given program, round by round.
use root_wire.Base.{
  ℕ, suc, ◌+◌, ◌≡◌, true, false, none, some, List, ok, ◌==◌, get_elem?, Bool-cases, Option-cases,
  inl, inr,
}
use root_wire.Bpf.{SockFilter, sock_filter}
use root_wire.Vm.{
  Packet, class_of, step, step_ld, step_jmp, jmp_taken, step_ret, run_loop, catch_reject,
}
use root_wire.Compiler.Meaning.{field}
use root_wire.Compiler.Lowering.Primitives.{load-field}

-- The loop, entered with a value in A, keeps so many bytes of the packet.
pub record Runs (program : List SockFilter) (packet : Packet) (n pc a d : ℕ) : Type 0 where
  pub runs : (x : ℕ) → catch_reject (run_loop n program packet pc a x) ≡ ok d

module _ {program : List SockFilter} {packet : Packet} {n d : ℕ} where
  pub Runs-ret :
      {a v : ℕ} (pc : ℕ)
      → get_elem? program pc ≡ some (sock_filter 0x06 0 0 v)
      → d ≡ v
      → Runs program packet (suc n) pc a d
  unfolding run_loop step class_of step_ret
  Runs-ret pc h e = record { runs = λ x. rw (run_loop, h, e) }

  pub Runs-jeq :
      (pc a jt jf k : ℕ)
      → get_elem? program pc ≡ some (sock_filter 0x15 jt jf k)
      → ((a == k) ≡ true → Runs program packet n (pc + suc jt) a d)
      → ((a == k) ≡ false → Runs program packet n (pc + suc jf) a d)
      → Runs program packet (suc n) pc a d
  unfolding run_loop step class_of step_jmp jmp_taken
  Runs-jeq pc a jt jf k h p q = record {
    runs = λ x. elim (Bool-cases (a == k)) [
      | inl e ↦ rw (run_loop, h, e) ((p e).runs x)
      | inr e ↦ rw (run_loop, h, e) ((q e).runs x)
    ];
  }

  module _ {a : ℕ} where
    pub Runs-byte :
        (pc k : ℕ)
        → get_elem? program pc ≡ some (sock_filter 0x30 0 0 k)
        → (field packet k 1 ≡ none → d ≡ 0)
        → ((v : ℕ) → field packet k 1 ≡ some v → Runs program packet n (suc pc) v d)
        → Runs program packet (suc n) pc a d
    unfolding run_loop step class_of step_ld
    Runs-byte pc k h p q = record {
      runs = λ x. elim (Option-cases (field packet k 1)) [
        | inl e ↦ rw (run_loop, h, load-field packet k 1, e, p e)
        | inr (v, e) ↦ rw (run_loop, h, load-field packet k 1, e) ((q v e).runs x)
      ];
    }

    pub Runs-half :
        (pc k : ℕ)
        → get_elem? program pc ≡ some (sock_filter 0x28 0 0 k)
        → (field packet k 2 ≡ none → d ≡ 0)
        → ((v : ℕ) → field packet k 2 ≡ some v → Runs program packet n (suc pc) v d)
        → Runs program packet (suc n) pc a d
    unfolding run_loop step class_of step_ld
    Runs-half pc k h p q = record {
      runs = λ x. elim (Option-cases (field packet k 2)) [
        | inl e ↦ rw (run_loop, h, load-field packet k 2, e, p e)
        | inr (v, e) ↦ rw (run_loop, h, load-field packet k 2, e) ((q v e).runs x)
      ];
    }
