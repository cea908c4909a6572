-- ===== src/Vm.antt =====
-- tests/bpf_vm.py: the interpreter for the subset of classic BPF that the compiler emits.
use root_wire.Base.{
  ℕ, zero, suc, ◌+◌, ◌*◌, Bool, not, List, none, some, Result, ok, err, ◌>>=◌, ltb, ◌==◌,
  if◌then◌else◌, length, take, drop, get_elem?, bit_and,
}
use mathlib.Core.List.{foldl}
use root_wire.Bpf.{SockFilter}

-- A captured frame: its bytes, each below 256.
abbrev pub Packet : Type 0
Packet = List ℕ

-- What the interpreter raises: `_Reject`, `NotImplementedError`, a `KeyError` of `_SIZE_BYTES`,
-- and the two `AssertionError`s of `_run`.
pub data Exception : Type 0 where
  reject not_implemented key_error not_terminated off_end : Exception

-- `int.from_bytes(data, "big")`
unfoldable pub from_bytes_big : List ℕ → ℕ
from_bytes_big = foldl (λ n b. n * 256 + b) 0

unfoldable pub load : Packet → ℕ → ℕ → Result Exception ℕ
load packet offset size =
    if ltb (length packet) (offset + size)
    then err reject
    else ok (from_bytes_big (take size (drop offset packet)))

unfoldable pub size_bytes : ℕ → Result Exception ℕ
size_bytes size =
    if size == 0x00
    then ok 4
    else if size == 0x08
    then ok 2
    else if size == 0x10
    then ok 1
    else err key_error

unfoldable pub step_ld : ℕ → ℕ → Packet → ℕ → Result Exception ℕ
unfolding size_bytes
step_ld code k packet index_reg = do
  let mode = bit_and code 0xe0
  size ← size_bytes (bit_and code 0x18)
  if mode == 0x20
      then load packet k size
      else if mode == 0x40
      then load packet (index_reg + k) size
      else err not_implemented

unfoldable pub step_ldx : ℕ → ℕ → Packet → Result Exception ℕ
step_ldx code k packet =
    if bit_and code 0xe0 == 0xa0
    then (load packet k 1 >>= λ byte. ok (4 * bit_and byte 0x0f))
    else err not_implemented

-- Whether `_step_jmp` takes the branch `jt`.
unfoldable pub jmp_taken : ℕ → ℕ → ℕ → Result Exception Bool
jmp_taken code k accumulator =
    let op = bit_and code 0xf0 in
    if not (bit_and code 0x08 == 0)
    then err not_implemented
    else if op == 0x10
    then ok (accumulator == k)
    else if op == 0x40
    then ok (not (bit_and accumulator k == 0))
    else err not_implemented

unfoldable pub step_jmp : ℕ → ℕ → ℕ → ℕ → ℕ → Result Exception ℕ
step_jmp code k jt jf accumulator =
    jmp_taken code k accumulator >>= λ taken. ok (suc (if taken then jt else jf))

unfoldable pub step_ret : ℕ → ℕ → Result Exception ℕ
step_ret code k = if bit_and code 0x18 == 0 then ok k else err not_implemented

-- The instruction classes that `_run` tells apart.
pub data Class : Type 0 where
  ld ldx jmp ret other : Class

unfoldable pub class_of : ℕ → Class
class_of code =
    let c = bit_and code 0x07 in
    if c == 0x00
    then ld
    else if c == 0x01
    then ldx
    else if c == 0x05
    then jmp
    else if c == 0x06
    then ret
    else other

-- The loop's variables after an instruction, or the value that the loop returns.
pub data Next : Type 0 where
  continue : ℕ → ℕ → ℕ → Next
  return : ℕ → Next

-- One round of the loop of `_run`, by the class of the instruction.
unfoldable pub step : Class → SockFilter → Packet → ℕ → ℕ → ℕ → Result Exception Next
step ld i packet pc a x = step_ld i.code i.k packet x >>= λ a'. ok (continue (suc pc) a' x)
step ldx i packet pc a x = step_ldx i.code i.k packet >>= λ x'. ok (continue (suc pc) a x')
step jmp i packet pc a x = step_jmp i.code i.k i.jt i.jf a >>= λ d. ok (continue (pc + d) a x)
step ret i packet pc a x = step_ret i.code i.k >>= λ n. ok (return n)
step other i packet pc a x = err not_implemented

-- The loop, with the rounds left before the interpreter gives up.
unfoldable pub run_loop : ℕ → List SockFilter → Packet → ℕ → ℕ → ℕ → Result Exception ℕ
run_loop zero program packet pc a x =
    if ltb pc (length program) then err not_terminated else err off_end
run_loop (suc fuel) program packet pc a x = elim (get_elem? program pc) [
  | none ↦ err off_end
  | some i ↦ step (class_of i.code) i packet pc a x >>= λ next. elim next [
    | continue pc' a' x' ↦ run_loop fuel program packet pc' a' x'
    | return n ↦ ok n
  ]
]

-- `_Reject` is caught, and keeps no byte of the packet.
abbrev pub catch_reject : Result Exception ℕ → Result Exception ℕ
catch_reject (ok n) = ok n
catch_reject (err reject) = ok 0
catch_reject (err e) = err e

-- `run` with a budget of rounds in place of 10,000.
unfoldable pub run_within : ℕ → List SockFilter → Packet → Result Exception ℕ
run_within rounds program packet = catch_reject (run_loop rounds program packet 0 0 0)

unfoldable pub run : List SockFilter → Packet → Result Exception ℕ
unfolding run_within
run program packet = run_within 10_000 program packet
