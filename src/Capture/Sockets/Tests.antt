-- ===== src/Capture/Sockets/Tests.antt =====
-- Two interfaces, of which the second cannot be bound, and a socket whose reader cannot be added.
use root_wire.Base.{◌≡◌, refl, Bool, true, false, Option, none, some, List, [], ◌∷◌, ◌==◌}
use root_wire.Bpf
use root_wire.Bpf.{SockFilter}
use root_wire.Compiler.Syntax.{Text}
use root_wire.Compiler.Words.{codes}
use root_wire.Capture.Sockets.{
  Call, make, set_timestamps, attach_filter, lock_filter, bind, set_nonblocking, add_reader,
  remove_reader, close_socket, capture_calls, attempt, open_calls, names_of,
}
use root_wire.Capture.Sockets.Owners.{calls_of}
use root_wire.Capture.Sockets.Followed.{Follows, capture_calls-Follows}

abbrev no_second : Call → Bool
no_second (bind n interface) = n == 1
no_second _ = false

abbrev both : Option (List Text)
both = some (codes "eth0" ∷ codes "eth1" ∷ [])

capture_calls_lem :
    capture_calls no_second (some Bpf.arp) both
    ≡ make 0
      ∷ set_timestamps 0
      ∷ attach_filter 0 Bpf.arp
      ∷ lock_filter 0
      ∷ bind 0 (codes "eth0")
      ∷ set_nonblocking 0
      ∷ add_reader 0
      ∷ make 1
      ∷ set_timestamps 1
      ∷ attach_filter 1 Bpf.arp
      ∷ lock_filter 1
      ∷ remove_reader 0
      ∷ close_socket 0
      ∷ []
unfolding capture_calls attempt open_calls
capture_calls_lem = refl

abbrev no_reader : Call → Bool
no_reader (add_reader n) = true
no_reader _ = false

-- A socket whose reader cannot be added is closed, and has no reader to remove.
capture_calls_lem-no_reader :
    capture_calls no_reader none none
    ≡ make 0 ∷ set_timestamps 0 ∷ set_nonblocking 0 ∷ close_socket 0 ∷ []
unfolding capture_calls attempt open_calls
capture_calls_lem-no_reader = refl

capture_calls-Follows_example :
    Follows
      (some Bpf.arp)
      (some (codes "eth1"))
      no_second
      1
      (calls_of 1 (capture_calls no_second (some Bpf.arp) both))
unfolding names_of
capture_calls-Follows_example =
    capture_calls-Follows (some Bpf.arp) (some (codes "eth1")) no_second both 1 refl
