-- ===== src/Capture/Sockets/Protocol.antt =====
-- What may be done to a socket of a capture, and that nothing else is done to it.
use root_wire.Base.{ℕ, ◌≡◌, Bool, true, false, Option, none, some, List, [], ◌∷◌}
use root_wire.Compiler.Syntax.{Text}
use root_wire.Bpf.{SockFilter}
use root_wire.Capture.Sockets.{
  Call, make, set_timestamps, attach_filter, lock_filter, bind, set_nonblocking, add_reader,
  remove_reader, close_socket,
}
use root_wire.Capture.Sockets.Owners.{socket_of}

-- What the kernel and the event loop know of a socket.
pub record Setup : Type 0 where
  pub stamped : Bool
  pub program : Option (List SockFilter)
  pub locked : Bool
  pub bound : Option Text
  pub nonblocking : Bool
  pub reading : Bool

pub data Socket : Type 0 where
  absent : Socket
  opened : Setup → Socket
  closed : Socket

abbrev pub new_setup : Setup
new_setup = record {
  stamped = false;
  program = none;
  locked = false;
  bound = none;
  nonblocking = false;
  reading = false;
}

abbrev pub is_given : Option (List SockFilter) → Bool
is_given none = false
is_given (some program) = true

-- For a capture with a program, if any, on an interface, if any.
module _ (wanted : Option (List SockFilter)) (name : Option Text) where
  -- A filter is attached to a socket that is neither bound nor locked; a socket is bound, once, and
  -- read from behind its filter, which is locked by then; only a socket that does not block and is
  -- bound where it should be is read from; and one that is read from is not closed.
  pub data Step : Socket → Call → Socket → Type 0 where
    makes : (n : ℕ) → Step absent (make n) (opened new_setup)
    stamps :
        (n : ℕ) (s : Setup)
        → Step (opened s) (set_timestamps n) (opened (record s { stamped = true }))
    attaches :
        (n : ℕ) (s : Setup) (program : List SockFilter)
        → wanted ≡ some program
        → s.bound ≡ none
        → s.locked ≡ false
        → Step (opened s) (attach_filter n program) (opened (record s { program = some program }))
    locks :
        (n : ℕ) (s : Setup)
        → is_given s.program ≡ true
        → Step (opened s) (lock_filter n) (opened (record s { locked = true }))
    binds :
        (n : ℕ) (s : Setup) (interface : Text)
        → name ≡ some interface
        → s.bound ≡ none
        → s.program ≡ wanted
        → s.locked ≡ is_given wanted
        → Step (opened s) (bind n interface) (opened (record s { bound = some interface }))
    unblocks :
        (n : ℕ) (s : Setup)
        → Step (opened s) (set_nonblocking n) (opened (record s { nonblocking = true }))
    adds :
        (n : ℕ) (s : Setup)
        → s.stamped ≡ true
        → s.program ≡ wanted
        → s.locked ≡ is_given wanted
        → s.bound ≡ name
        → s.nonblocking ≡ true
        → s.reading ≡ false
        → Step (opened s) (add_reader n) (opened (record s { reading = true }))
    removes :
        (n : ℕ) (s : Setup)
        → s.reading ≡ true
        → Step (opened s) (remove_reader n) (opened (record s { reading = false }))
    closes : (n : ℕ) (s : Setup) → s.reading ≡ false → Step (opened s) (close_socket n) closed

  pub data Steps : Socket → List Call → Socket → Type 0 where
    stop : (s : Socket) → Steps s [] s
    next :
        {s t u : Socket} {call : Call} {calls : List Call}
        → Step s call t
        → Steps t calls u
        → Steps s (call ∷ calls) u

-- How a socket is left: not made, closed, or to the garbage collector, with no reader, where one of
-- its own calls raised.
pub data Left (fails : Call → Bool) (n : ℕ) : Socket → Type 0 where
  never_made : Left fails n absent
  was_closed : Left fails n closed
  given_up :
      (s : Setup) (call : Call)
      → s.reading ≡ false
      → socket_of call ≡ n
      → fails call ≡ true
      → Left fails n (opened s)
