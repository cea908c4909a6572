-- ===== src/Capture/Sockets/Followed.antt =====
-- Whichever calls raise, the protocol of the sockets is followed.
use root_wire.Base.{
  ℕ, ◌≡◌, refl, Bool, true, false, Option, none, some, List, [], ◌∷◌, ◌++◌, get_elem?, Bool-cases,
  inl, inr,
}
use root_wire.Compiler.Syntax.{Text}
use root_wire.Bpf.{SockFilter}
use root_wire.Capture.Sockets.{Call, add_reader, open_calls, names_of, attempt, capture_calls}
use root_wire.Capture.Sockets.Owners.{On, open_calls-On, calls_of, socket_of}
use root_wire.Capture.Sockets.Endings.{Lifecycle, unreached, raised, refused, served}
use root_wire.Capture.Sockets.Lifecycle.{capture_calls-Lifecycle}
use root_wire.Capture.Sockets.Protocol.{
  absent, opened, closed, Step, makes, stamps, attaches, locks, binds, unblocks, adds, removes,
  closes, Steps, stop, next, never_made, was_closed, given_up, Setup, Socket, is_given, Left,
}

-- The socket behind `_open_socket`.
abbrev ready : Option (List SockFilter) → Option Text → Setup
ready wanted name = record {
  stamped = true;
  program = wanted;
  locked = is_given wanted;
  bound = name;
  nonblocking = true;
  reading = false;
}

Steps-open_calls :
    (n : ℕ) (wanted : Option (List SockFilter)) (name : Option Text)
    → Steps wanted name absent (open_calls n name wanted) (opened (ready wanted name))
unfolding open_calls
Steps-open_calls n none none = next (makes n) (next (stamps n _) (next (unblocks n _) (stop _)))
Steps-open_calls n none (some interface) = next (makes n) (
    next (stamps n _)
      (next (binds n _ interface refl refl refl refl) (next (unblocks n _) (stop _))))
Steps-open_calls n (some program) none = next (makes n) (
    next (stamps n _) (
      next (attaches n _ program refl refl refl)
        (next (locks n _ refl) (next (unblocks n _) (stop _)))))
Steps-open_calls n (some program) (some interface) = next (makes n) (
    next (stamps n _) (
      next (attaches n _ program refl refl refl) (
        next (locks n _ refl)
          (next (binds n _ interface refl refl refl refl) (next (unblocks n _) (stop _))))))

-- Calls that do not add a reader, and a socket without one.
abbrev Reads : Call → Type 0
Reads (add_reader n) = Unit {0}
Reads _ = ⊥

abbrev NoReader : List Call → Type 0
NoReader [] = Unit {0}
NoReader (call ∷ calls) = (Reads call → ⊥) × NoReader calls

abbrev Quiet : Socket → Type 0
Quiet (opened s) = s.reading ≡ false
Quiet _ = Unit {0}

open_calls-NoReader :
    (n : ℕ) (wanted : Option (List SockFilter)) (name : Option Text)
    → NoReader (open_calls n name wanted)
unfolding open_calls
open_calls-NoReader n none none = (λ r. r, (λ r. r, (λ r. r, tt)))
open_calls-NoReader n none (some interface) = (λ r. r, (λ r. r, (λ r. r, (λ r. r, tt))))
open_calls-NoReader n (some program) none = (λ r. r, (λ r. r, (λ r. r, (λ r. r, (λ r. r, tt)))))
open_calls-NoReader n (some program) (some interface) =
    (λ r. r, (λ r. r, (λ r. r, (λ r. r, (λ r. r, (λ r. r, tt))))))

Quiet-Left :
    (fails : Call → Bool) (n : ℕ) (s : Socket) (call : Call)
    → Quiet s
    → socket_of call ≡ n
    → fails call ≡ true
    → Left fails n s
Quiet-Left fails n absent call q e f = never_made
Quiet-Left fails n (opened s) call q e f = given_up s call q e f
Quiet-Left fails n closed call q e f = was_closed

module _ (wanted : Option (List SockFilter)) (name : Option Text) where
  Step-Quiet :
      {s t : Socket} {call : Call}
      → Step wanted name s call t
      → (Reads call → ⊥)
      → Quiet s
      → Quiet t
  Step-Quiet (makes n) r q = refl
  Step-Quiet (stamps n s) r q = q
  Step-Quiet (attaches n s program w b l) r q = q
  Step-Quiet (locks n s g) r q = q
  Step-Quiet (binds n s interface e b p l) r q = q
  Step-Quiet (unblocks n s) r q = q
  Step-Quiet (adds n s t p l b u q') r q = absurd (r tt)
  Step-Quiet (removes n s e) r q = refl
  Step-Quiet (closes n s e) r q = tt

  Steps-append :
      {s t u : Socket} {before after : List Call}
      → Steps wanted name s before t
      → Steps wanted name t after u
      → Steps wanted name s (before ++ after) u
  Steps-append (stop s) k = k
  Steps-append (next step steps) k = next step (Steps-append steps k)

  attempt-Left :
      (fails : Call → Bool) (n : ℕ) {s t : Socket} {calls : List Call}
      → Steps wanted name s calls t
      → Quiet s
      → NoReader calls
      → On n calls
      → (attempt fails calls).1 ≡ false
      → (u : Socket) × Steps wanted name s (attempt fails calls).0 u × Left fails n u
  unfolding attempt
  attempt-Left fails n (stop s) q r o h = cc
  attempt-Left fails n {s} (next {call = call} {calls = calls} step steps) q (r, rs) (o, os) h =
      elim (Bool-cases (fails call)) [
        | inl e ↦ (s, rw e (stop s), Quiet-Left fails n s call q o e)
        | inr e ↦
            let k = rw (attempt, e) at h in
            let (u, run, left) = attempt-Left fails n steps (Step-Quiet step r q) rs os k in
            (u, rw e (next step run), left)
      ]

  -- A socket is left as `Left` has it, behind steps that `Step` allows.
  abbrev pub Follows : (Call → Bool) → ℕ → List Call → Type 0
  Follows fails n calls = (end : Socket) × Steps wanted name absent calls end × Left fails n end

  Lifecycle-Follows :
      (fails : Call → Bool) (n : ℕ) {calls : List Call}
      → Lifecycle fails wanted n name calls
      → Follows fails n calls
  Lifecycle-Follows fails n (unreached earlier other l e) = (absent, stop absent, never_made)
  Lifecycle-Follows fails n (raised e) =
      attempt-Left fails n (Steps-open_calls n wanted name) tt (open_calls-NoReader n wanted name)
        (open_calls-On n name wanted) e
  Lifecycle-Follows fails n (refused e a) = (
    closed,
    Steps-append (Steps-open_calls n wanted name) (next (closes n _ refl) (stop closed)),
    was_closed,
  )
  Lifecycle-Follows fails n (served e a) = (
    closed,
    Steps-append (Steps-open_calls n wanted name) (
        next (adds n _ refl refl refl refl refl refl)
          (next (removes n _ refl) (next (closes n _ refl) (stop closed)))),
    was_closed,
  )

  -- Whichever calls of `_open_socket` and of `add_reader` raise, the calls of a capture on each of
  -- its sockets follow the protocol of `Step`: the filter, if there is one, is attached and locked
  -- before the socket is bound, a socket is read from only behind its whole set-up, on the interface it
  -- is opened for, and never without its filter, and a reader is removed before its socket is closed.
  -- At the end the socket was never made, or is closed, or one of its own calls raised and it is left
  -- open, with no reader. Every clean-up call takes its effect, also where it raises.
  pub capture_calls-Follows :
      (fails : Call → Bool) (interfaces : Option (List Text)) (i : ℕ)
      → get_elem? (names_of interfaces) i ≡ some name
      → Follows fails i (calls_of i (capture_calls fails wanted interfaces))
  capture_calls-Follows fails interfaces i h =
      Lifecycle-Follows fails i (capture_calls-Lifecycle fails wanted interfaces i name h)
