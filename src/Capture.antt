-- ===== src/Capture.antt =====
-- src/rootwire/capture.py: the reader of a socket, and the queue that the sockets share.
pub mod Arrivals
pub mod Order
pub mod Sockets
mod Tests
use root_wire.Base.{
  ℕ, ◌+◌, ◌*◌, Option, none, some, List, [], ◌∷◌, ◌++◌, ◌==◌, ◌&&◌, Bool, true, false,
  if◌then◌else◌, take, Result, ok, err,
}
use root_wire.Compiler.Syntax.{Text}

-- One entry of `recvmsg`'s ancillary data: level, kind and bytes.
pub record Ancillary : Type 0 where
  pub level : ℕ
  pub kind : ℕ
  pub content : List ℕ

-- The native `struct timespec`, "ll": its size, and its seconds and nanoseconds, none where the bytes
-- are not as many. A time since the epoch is not negative.
pub record Platform : Type 0 where
  pub timespec_size : ℕ
  pub timespec : List ℕ → Option (ℕ × ℕ)

-- What stops a reader: `struct.error` leaves the callback, to the event loop.
pub data CallbackError : Type 0 where
  struct_error : CallbackError

-- A frame, its time, and its interface.
abbrev pub CapturedFrame : Type 0
CapturedFrame = List ℕ × ℕ × Option Text

pub data Item : Type 0 where
  frame : CapturedFrame → Item
  os_error : Item

-- What `recvmsg` does: a datagram, a transient condition, or another OSError.
pub data Received : Type 0 where
  datagram : List ℕ → List Ancillary → Received
  transient : Received
  failed : Received

abbrev pub nanoseconds : Option (ℕ × ℕ) → Result CallbackError (Option ℕ)
nanoseconds none = err struct_error
nanoseconds (some (sec, nsec)) = ok (some (sec * 1_000_000_000 + nsec))

module _ (platform : Platform) where
  -- `_parse_timestamp`: the first entry of level SOL_SOCKET and kind SCM_TIMESTAMPNS.
  unfoldable pub parse_timestamp : List Ancillary → Result CallbackError (Option ℕ)
  parse_timestamp [] = ok none
  parse_timestamp (entry ∷ ancdata) =
      let later = parse_timestamp ancdata in
      if entry.level == 1 && entry.kind == 35
      then nanoseconds (platform.timespec (take platform.timespec_size entry.content))
      else later

  -- `timestamp if timestamp is not None else time.time_ns()`
  abbrev pub or_now : ℕ → Option ℕ → ℕ
  or_now now none = now
  or_now now (some timestamp) = timestamp

  -- `_on_readable`: the queue behind it.
  unfoldable pub on_readable :
      Option Text → ℕ → Received → List Item → Result CallbackError (List Item)
  unfolding parse_timestamp
  on_readable interface now transient queue = ok queue
  on_readable interface now failed queue = ok (queue ++ os_error ∷ [])
  on_readable interface now (datagram bytes ancdata) queue = elim (parse_timestamp ancdata) [
    | err e ↦ err e
    | ok timestamp ↦ ok (queue ++ frame (bytes, or_now now timestamp, interface) ∷ [])
  ]

-- The generator: the queue, what was yielded, and whether an OSError was raised.
pub record Capture : Type 0 where
  pub queue : List Item
  pub yielded : List CapturedFrame
  pub is_raised : Bool

-- `item = await queue.get()`, with an item to get.
unfoldable pub get : Item → List Item → Capture → Capture
get (frame f) queue capture = record capture { queue = queue; yielded = capture.yielded ++ f ∷ [] }
get os_error queue capture = record capture { queue = queue; is_raised = true }
