-- ===== src/Capture/Tests.antt =====
-- Two sockets, a frame from each, and an error.
use root_wire.Base.{ℕ, ◌≡◌, refl, true, false, ◌⊎◌, Option, none, some, List, [], ◌∷◌, ◌++◌}
use root_wire.Compiler.Words.{codes}
use root_wire.Struct.{value}
use root_wire.Capture.{
  Platform, Ancillary, datagram, transient, failed, CapturedFrame, Item, frame, os_error,
  on_readable, Capture, get,
}
use root_wire.Capture.Arrivals.{Arrival, Delivers}
use root_wire.Capture.Order.{
  Consumes, Reachable, frames, error_if, Reachable-conserved, Reachable-drains,
}

-- A platform of two bytes for each number.
abbrev two_bytes : List ℕ → Option (ℕ × ℕ)
two_bytes (a ∷ b ∷ c ∷ d ∷ []) = some (value true (a ∷ b ∷ []), value true (c ∷ d ∷ []))
two_bytes bytes = none

abbrev small : Platform
small = record { timespec_size = 4; timespec = two_bytes }

abbrev first : CapturedFrame
first = (1 ∷ 2 ∷ [], 5_000_000_007, some (codes "eth0"))

abbrev stamped : Ancillary
stamped = record { level = 1; kind = 35; content = 5 ∷ 0 ∷ 7 ∷ 0 ∷ 9 ∷ [] }

-- The first frame is yielded, the error is queued, a wakeup was spurious.
abbrev midway : Capture
midway = record { queue = os_error ∷ []; yielded = first ∷ []; is_raised = false }

abbrev arrived : List Arrival
arrived =
    record {
      interface = some (codes "eth0");
      now = 0;
      received = datagram (1 ∷ 2 ∷ []) (stamped ∷ []);
    }
    ∷ record { interface = none; now = 0; received = transient }
    ∷ record { interface = none; now = 0; received = failed }
    ∷ []

midway-Reachable : Reachable small arrived midway
unfolding on_readable get
midway-Reachable =
    Reachable.readable _ (os_error ∷ [])
      (Reachable.resumed (frame first) []
        (Reachable.readable _ (frame first ∷ [])
          (Reachable.readable
            (record {
              interface = some (codes "eth0");
              now = 0;
              received = datagram (1 ∷ 2 ∷ []) (stamped ∷ []);
            })
            (frame first ∷ []) Reachable.opened refl refl)
          refl refl)
        refl refl)
      refl refl

Reachable-conserved_example :
    (put : List Item) × Delivers small arrived put
    × (put ≡ frames midway.yielded ++ error_if midway.is_raised ++ midway.queue)
Reachable-conserved_example = Reachable-conserved small midway-Reachable

Reachable-drains_example :
    (put : List Item) × (after : Capture) × Delivers small arrived put
    × Consumes midway after
    × ((after.is_raised ≡ true) ⊎ (put ≡ frames after.yielded))
Reachable-drains_example = Reachable-drains small midway-Reachable refl
