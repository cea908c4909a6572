-- ===== src/Capture/Sockets.antt =====
-- src/rootwire/capture.py, `_open_socket` and the set-up and clean-up of `capture_async`: the calls
-- made on the sockets, which are known by the order in which they are opened.
pub mod Owners
pub mod Endings
pub mod Lifecycle
pub mod Protocol
pub mod Followed
mod Tests
use root_wire.Base.{
  ℕ, suc, Bool, true, false, Option, none, some, List, [], ◌∷◌, ◌++◌, map, if◌then◌else◌,
}
use root_wire.Compiler.Syntax.{Text}
use root_wire.Bpf.{SockFilter}

pub data Call : Type 0 where
  -- `socket(PF_PACKET, SOCK_RAW, htons(_ETH_P_ALL))`
  make : ℕ → Call
  set_timestamps : ℕ → Call
  attach_filter : ℕ → List SockFilter → Call
  lock_filter : ℕ → Call
  bind : ℕ → Text → Call
  set_nonblocking : ℕ → Call
  add_reader : ℕ → Call
  remove_reader : ℕ → Call
  close_socket : ℕ → Call

-- `if filter_program is not None: …`
unfoldable pub filter_calls : ℕ → Option (List SockFilter) → List Call
filter_calls n none = []
filter_calls n (some program) = attach_filter n program ∷ lock_filter n ∷ []

-- `if interface is not None: sock.bind((interface, 0))`
unfoldable pub bind_calls : ℕ → Option Text → List Call
bind_calls n none = []
bind_calls n (some interface) = bind n interface ∷ []

-- The calls of `_open_socket`, if none raises.
unfoldable pub open_calls : ℕ → Option Text → Option (List SockFilter) → List Call
unfolding filter_calls bind_calls
open_calls n interface program =
    make n ∷ set_timestamps n ∷ filter_calls n program
    ++ (bind_calls n interface ++ set_nonblocking n ∷ [])

-- `interfaces if interfaces else (None,)`
unfoldable pub names_of : Option (List Text) → List (Option Text)
names_of none = none ∷ []
names_of (some []) = none ∷ []
names_of (some (name ∷ names)) = map some (name ∷ names)

-- The calls that raise are given.
module _ (fails : Call → Bool) where
  -- Calls up to the first that raises, and whether none does.
  unfoldable pub attempt : List Call → List Call × Bool
  attempt [] = ([], true)
  attempt (call ∷ calls) =
      let rest = attempt calls in if fails call then ([], false) else (call ∷ rest.0, rest.1)

  module _ (program : Option (List SockFilter)) where
    -- The loop over the names, with the stack of clean-ups, the last first. Behind it the generator
    -- yields until an exception, or its close, leaves the `with`, and the stack is unwound. Each
    -- clean-up is called, also where the one before it raises. A socket whose reader cannot be added
    -- is on the stack already, without a reader to remove.
    unfoldable pub open_all : ℕ → List (Option Text) → List Call → List Call
    open_all n [] stack = stack
    open_all n (name ∷ names) stack =
        let (calls, done) = attempt (open_calls n name program) in
        let rest = open_all (suc n) names (remove_reader n ∷ close_socket n ∷ stack) in
        let read = if fails (add_reader n) then close_socket n ∷ stack else add_reader n ∷ rest in
        if done then calls ++ read else calls ++ stack

    -- `capture_async`, from its start to its end.
    unfoldable pub capture_calls : Option (List Text) → List Call
    unfolding open_all names_of
    capture_calls interfaces = open_all 0 (names_of interfaces) []
