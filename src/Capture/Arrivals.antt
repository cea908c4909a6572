-- ===== src/Capture/Arrivals.antt =====
-- What a wakeup of a socket is to bring: the specification of its callback, and that it meets it.
use root_wire.Base.{
  ℕ, ◌+◌, ◌*◌, ◌≡◌, ◌⊎◌, inl, inr, refl, sym, ◌∙◌, true, Option, none, some, List, [], ◌∷◌, ◌++◌,
  ◌==◌, ◌&&◌, take, Result, ok, err, Bool-cases, arith, append-nil,
}
use root_wire.Compiler.Syntax.{Text}
use root_wire.Capture.{
  Platform, Ancillary, CallbackError, struct_error, Received, datagram, transient, failed, Item,
  frame, os_error, parse_timestamp, on_readable,
}

-- A socket that became readable: its interface, the clock, and what `recvmsg` does.
pub record Arrival : Type 0 where
  pub interface : Option Text
  pub now : ℕ
  pub received : Received

-- SOL_SOCKET and SCM_TIMESTAMPNS.
abbrev pub IsStamp : Ancillary → Type 0
IsStamp entry = (entry.level ≡ 1) × (entry.kind ≡ 35)

ok-injective : {a b : List Item} → ◌≡◌ {A = Result CallbackError (List Item)} (ok a) (ok b) → a ≡ b
ok-injective h = cc

module _ (platform : Platform) where
  -- The first stamp holds a time of so many nanoseconds.
  pub data Stamped : List Ancillary → ℕ → Type 0 where
    here :
        (entry : Ancillary) (rest : List Ancillary) (sec nsec : ℕ)
        → IsStamp entry
        → platform.timespec (take platform.timespec_size entry.content) ≡ some (sec, nsec)
        → Stamped (entry ∷ rest) (sec * 1_000_000_000 + nsec)
    later :
        (entry : Ancillary) (rest : List Ancillary) (time : ℕ)
        → (IsStamp entry → ⊥)
        → Stamped rest time
        → Stamped (entry ∷ rest) time

  -- There is no stamp.
  abbrev pub Unstamped : List Ancillary → Type 0
  Unstamped [] = Unit {0}
  Unstamped (entry ∷ rest) = (IsStamp entry → ⊥) × Unstamped rest

  -- The first stamp is too short to be a time.
  pub data Unreadable : List Ancillary → Type 0 where
    short :
        (entry : Ancillary) (rest : List Ancillary)
        → IsStamp entry
        → platform.timespec (take platform.timespec_size entry.content) ≡ none
        → Unreadable (entry ∷ rest)
    behind :
        (entry : Ancillary) (rest : List Ancillary)
        → (IsStamp entry → ⊥)
        → Unreadable rest
        → Unreadable (entry ∷ rest)

  -- What an arrival is to put on the queue: its datagram, once, with the time of the kernel, or else
  -- that of the clock; the error; or nothing.
  pub data Gives : Arrival → List Item → Type 0 where
    by_kernel :
        (bytes : List ℕ) (ancdata : List Ancillary) (interface : Option Text) (now time : ℕ)
        → Stamped ancdata time
        → Gives
            (record { interface = interface; now = now; received = datagram bytes ancdata })
            (frame (bytes, time, interface) ∷ [])
    by_clock :
        (bytes : List ℕ) (ancdata : List Ancillary) (interface : Option Text) (now : ℕ)
        → Unstamped ancdata
        → Gives
            (record { interface = interface; now = now; received = datagram bytes ancdata })
            (frame (bytes, now, interface) ∷ [])
    lost :
        (bytes : List ℕ) (ancdata : List Ancillary) (interface : Option Text) (now : ℕ)
        → Unreadable ancdata
        → Gives (record { interface = interface; now = now; received = datagram bytes ancdata }) []
    spurious :
        (interface : Option Text) (now : ℕ)
        → Gives (record { interface = interface; now = now; received = transient }) []
    failing :
        (interface : Option Text) (now : ℕ)
        → Gives (record { interface = interface; now = now; received = failed }) (os_error ∷ [])

  -- The same of arrivals one after another.
  pub data Delivers : List Arrival → List Item → Type 0 where
    nothing : Delivers [] []
    more :
        {arrivals : List Arrival} {put items : List Item} (arrival : Arrival)
        → Delivers arrivals put
        → Gives arrival items
        → Delivers (arrivals ++ arrival ∷ []) (put ++ items)

  -- How `_parse_timestamp` ends.
  Parses : List Ancillary → Type 0
  unfolding parse_timestamp
  Parses ancdata =
      ((time : ℕ) × Stamped ancdata time × (parse_timestamp platform ancdata ≡ ok (some time)))
      ⊎ ((Unstamped ancdata × (parse_timestamp platform ancdata ≡ ok none))
          ⊎ (Unreadable ancdata × (parse_timestamp platform ancdata ≡ err struct_error)))

  parse_timestamp-Parses : (ancdata : List Ancillary) → Parses ancdata
  unfolding parse_timestamp Parses
  parse_timestamp-Parses [] = inr (inl (tt, refl))
  parse_timestamp-Parses (entry ∷ rest) = elim (Bool-cases (entry.level == 1 && entry.kind == 35)) [
    | inl e ↦
        let stamp : IsStamp entry = (ground arith, ground arith) in
        by_content stamp e (platform.timespec (take platform.timespec_size entry.content)) refl
    | inr e ↦
        let no_stamp : IsStamp entry → ⊥ = λ (p, q). (let k = rw (p, q) at e in cc) in
        elim (parse_timestamp-Parses rest) [
          | inl (time, s, p) ↦ inl (time, later entry rest time no_stamp s, rw (e, p))
          | inr (inl (u, p)) ↦ inr (inl ((no_stamp, u), rw (e, p)))
          | inr (inr (u, p)) ↦ inr (inr (behind entry rest no_stamp u, rw (e, p)))
        ]
  ]
    where
      by_content :
          IsStamp entry
          → (entry.level == 1 && entry.kind == 35) ≡ true
          → (o : Option (ℕ × ℕ)) → platform.timespec (take platform.timespec_size entry.content) ≡ o
          → Parses (entry ∷ rest)
      by_content stamp e none f = inr (inr (short entry rest stamp f, rw (parse_timestamp, e, f)))
      by_content stamp e (some (sec, nsec)) f =
          inl (
            sec * 1_000_000_000 + nsec,
            here entry rest sec nsec stamp f,
            rw (parse_timestamp, e, f),
          )

  -- The callback appends to the queue what the arrival is to give.
  pub on_readable-ok :
      (arrival : Arrival) (queue after : List Item)
      → on_readable platform arrival.interface arrival.now arrival.received queue ≡ ok after
      → (items : List Item) × Gives arrival items × (after ≡ queue ++ items)
  unfolding on_readable Parses
  on_readable-ok arrival queue after h = by_received arrival.received h
    where
      by_received :
          (received : Received)
          → on_readable platform arrival.interface arrival.now received queue ≡ ok after
          → (items : List Item) × Gives
              (record { interface = arrival.interface; now = arrival.now; received = received })
              items
            × (after ≡ queue ++ items)
      by_received transient h = (
        [],
        spurious arrival.interface arrival.now,
        sym (ok-injective h) ∙ sym (append-nil queue),
      )
      by_received failed h =
          (os_error ∷ [], failing arrival.interface arrival.now, sym (ok-injective h))
      by_received (datagram bytes ancdata) h = elim (parse_timestamp-Parses ancdata) [
        | inl (time, s, p) ↦ (
          frame (bytes, time, arrival.interface) ∷ [],
          by_kernel bytes ancdata arrival.interface arrival.now time s,
          sym (ok-injective (rw (on_readable, p) at h)),
        )
        | inr (inl (u, p)) ↦ (
          frame (bytes, arrival.now, arrival.interface) ∷ [],
          by_clock bytes ancdata arrival.interface arrival.now u,
          sym (ok-injective (rw (on_readable, p) at h)),
        )
        | inr (inr (u, p)) ↦ let k = rw (on_readable, p) at h in cc
      ]

  pub on_readable-err :
      (arrival : Arrival) (queue : List Item) (e : CallbackError)
      → on_readable platform arrival.interface arrival.now arrival.received queue ≡ err e
      → Gives arrival []
  unfolding on_readable Parses
  on_readable-err arrival queue e h = by_received arrival.received h
    where
      by_received :
          (received : Received)
          → on_readable platform arrival.interface arrival.now received queue ≡ err e
          → Gives
              (record { interface = arrival.interface; now = arrival.now; received = received })
              []
      by_received transient h = cc
      by_received failed h = cc
      by_received (datagram bytes ancdata) h = elim (parse_timestamp-Parses ancdata) [
        | inl (time, s, p) ↦ let k = rw (on_readable, p) at h in cc
        | inr (inl (u, p)) ↦ let k = rw (on_readable, p) at h in cc
        | inr (inr (u, p)) ↦ lost bytes ancdata arrival.interface arrival.now u
      ]
