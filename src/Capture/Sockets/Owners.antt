-- ===== src/Capture/Sockets/Owners.antt =====
-- The calls of a capture that are on one of its sockets.
use root_wire.Base.{
  ℕ, suc, ◌≤◌, ◌<◌, ◌≡◌, refl, Option, none, some, List, [], ◌∷◌, ◌++◌, ◌==◌, ==_self, lt→ne, gt→ne,
  arith, Bool-cases, inl, inr, if◌then◌else◌,
}
use root_wire.Compiler.Syntax.{Text}
use root_wire.Bpf.{SockFilter}
use root_wire.Capture.Sockets.{
  Call, make, set_timestamps, attach_filter, lock_filter, bind, set_nonblocking, add_reader,
  remove_reader, close_socket, open_calls,
}

abbrev pub socket_of : Call → ℕ
socket_of (make n) = n
socket_of (set_timestamps n) = n
socket_of (attach_filter n program) = n
socket_of (lock_filter n) = n
socket_of (bind n interface) = n
socket_of (set_nonblocking n) = n
socket_of (add_reader n) = n
socket_of (remove_reader n) = n
socket_of (close_socket n) = n

-- The calls on one socket.
unfoldable pub calls_of : ℕ → List Call → List Call
calls_of k [] = []
calls_of k (call ∷ calls) =
    let rest = calls_of k calls in if socket_of call == k then call ∷ rest else rest

pub calls_of-append : (k : ℕ) (s t : List Call) → calls_of k (s ++ t) ≡ calls_of k s ++ calls_of k t
unfolding calls_of
calls_of-append k [] t = refl
calls_of-append k (c ∷ s) t = elim (Bool-cases (socket_of c == k)) [
  | inl e ↦ rw (e, calls_of-append k s t)
  | inr e ↦ rw (e, calls_of-append k s t)
]

-- All calls are on one socket, and on sockets opened earlier.
abbrev pub On : ℕ → List Call → Type 0
On n [] = Unit {0}
On n (c ∷ calls) = (socket_of c ≡ n) × On n calls

abbrev pub Before : ℕ → List Call → Type 0
Before n [] = Unit {0}
Before n (c ∷ calls) = (socket_of c < n) × Before n calls

pub Before-suc : (n : ℕ) (calls : List Call) → Before n calls → Before (suc n) calls
Before-suc n [] h = tt
Before-suc n (c ∷ calls) (h, k) = (omega arith, Before-suc n calls k)

pub calls_of-On : (n : ℕ) (calls : List Call) → On n calls → calls_of n calls ≡ calls
unfolding calls_of
calls_of-On n [] h = refl
calls_of-On n (c ∷ calls) (h, k) = rw (h, ==_self n, calls_of-On n calls k)

pub calls_of-On_other : (k n : ℕ) (calls : List Call) → n < k → On n calls → calls_of k calls ≡ []
unfolding calls_of
calls_of-On_other k n [] l h = refl
calls_of-On_other k n (c ∷ calls) l (h, i) = rw (h, lt→ne n k l, calls_of-On_other k n calls l i)

pub calls_of-On_before : (k n : ℕ) (calls : List Call) → k < n → On n calls → calls_of k calls ≡ []
unfolding calls_of
calls_of-On_before k n [] l h = refl
calls_of-On_before k n (c ∷ calls) l (h, i) = rw (h, gt→ne n k l, calls_of-On_before k n calls l i)

pub calls_of-Before : (k n : ℕ) (calls : List Call) → n ≤ k → Before n calls → calls_of k calls ≡ []
unfolding calls_of
calls_of-Before k n [] l h = refl
calls_of-Before k n (c ∷ calls) l (h, i) =
    rw (lt→ne (socket_of c) k (omega arith), calls_of-Before k n calls l i)

pub open_calls-On :
    (n : ℕ) (interface : Option Text) (program : Option (List SockFilter))
    → On n (open_calls n interface program)
unfolding open_calls
open_calls-On n none none = (refl, (refl, (refl, tt)))
open_calls-On n none (some program) = (refl, (refl, (refl, (refl, (refl, tt)))))
open_calls-On n (some interface) none = (refl, (refl, (refl, (refl, tt))))
open_calls-On n (some interface) (some program) = (refl, (refl, (refl, (refl, (refl, (refl, tt))))))
