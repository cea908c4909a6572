-- ===== src/Capture/Order.antt =====
-- Nothing is lost between the sockets and the consumer, and nothing is reordered.
use root_wire.Base.{
  ◌≡◌, refl, sym, ap, ◌∙◌, Bool, true, false, List, [], ◌∷◌, ◌++◌, ok, err, append_assoc,
  append-nil, ◌⊎◌, inl, inr,
}
use root_wire.Capture.{
  Platform, CallbackError, CapturedFrame, Item, frame, os_error, on_readable, Capture, get,
}
use root_wire.Capture.Arrivals.{Arrival, Delivers, nothing, more, on_readable-ok, on_readable-err}

-- The states of a capture, by what has arrived at its sockets: these become readable in any order,
-- and the consumer asks for the next item at any time, until an error is raised and the sockets are
-- closed. A callback that raises leaves the queue as it is.
pub data Reachable (platform : Platform) : List Arrival → Capture → Type 0 where
  opened : Reachable platform [] (record { queue = []; yielded = []; is_raised = false })
  readable :
      {arrivals : List Arrival} {capture : Capture} (arrival : Arrival) (queue : List Item)
      → Reachable platform arrivals capture
      → capture.is_raised ≡ false
      → on_readable platform arrival.interface arrival.now arrival.received capture.queue ≡ ok queue
      → Reachable platform (arrivals ++ arrival ∷ []) (record capture { queue = queue })
  broken :
      {arrivals : List Arrival} {capture : Capture} (arrival : Arrival) (e : CallbackError)
      → Reachable platform arrivals capture
      → capture.is_raised ≡ false
      → on_readable platform arrival.interface arrival.now arrival.received capture.queue ≡ err e
      → Reachable platform (arrivals ++ arrival ∷ []) capture
  resumed :
      {arrivals : List Arrival} {capture : Capture} (item : Item) (rest : List Item)
      → Reachable platform arrivals capture
      → capture.is_raised ≡ false
      → capture.queue ≡ item ∷ rest
      → Reachable platform arrivals (get item rest capture)

-- The consumer alone, asking again and again.
pub data Consumes : Capture → Capture → Type 0 where
  rests : (capture : Capture) → Consumes capture capture
  asks :
      {capture after : Capture} (item : Item) (rest : List Item)
      → capture.is_raised ≡ false
      → capture.queue ≡ item ∷ rest
      → Consumes (get item rest capture) after
      → Consumes capture after

-- What left the queue: the frames, and the error if one was raised.
abbrev pub error_if : Bool → List Item
error_if true = os_error ∷ []
error_if false = []

abbrev pub frames : List CapturedFrame → List Item
frames [] = []
frames (f ∷ fs) = frame f ∷ frames fs

frames-append :
    (f : CapturedFrame) (fs : List CapturedFrame)
    → frames (fs ++ f ∷ []) ≡ frames fs ++ frame f ∷ []
frames-append f [] = refl
frames-append f (g ∷ fs) = ap (λ is. frame g ∷ is) (frames-append f fs)

Conserved : List Item → Capture → Type 0
Conserved put capture = put ≡ frames capture.yielded ++ error_if capture.is_raised ++ capture.queue

readable-Conserved :
    (put items queue : List Item) (capture : Capture)
    → queue ≡ capture.queue ++ items
    → Conserved put capture
    → Conserved (put ++ items) (record capture { queue = queue })
unfolding Conserved
readable-Conserved put items queue capture e h =
    ap (λ p. p ++ items) h
    ∙ append_assoc (frames capture.yielded ++ error_if capture.is_raised) capture.queue items
    ∙ ap (λ q. frames capture.yielded ++ error_if capture.is_raised ++ q) (sym e)

get-Conserved :
    (put rest : List Item) (item : Item) (capture : Capture)
    → capture.is_raised ≡ false
    → capture.queue ≡ item ∷ rest
    → Conserved put capture
    → Conserved put (get item rest capture)
unfolding Conserved get
get-Conserved put rest (frame f) capture live e h =
    (rw (live, e) at h) ∙ rw live (simp (frames-append f capture.yielded, append-nil, append_assoc))
get-Conserved put rest os_error capture live e h =
    (rw (live, e) at h) ∙ simp (append-nil, append_assoc)

module _ (platform : Platform) where
  -- In every state that a capture reaches, however the sockets and the consumer take turns: what the
  -- arrivals are to give, each datagram once with its time and its interface and each error once, in
  -- the order in which they arrived, is what was yielded, then the error if one was raised, then what
  -- is still queued.
  pub Reachable-conserved :
      {arrivals : List Arrival} {capture : Capture}
      → Reachable platform arrivals capture
      → (put : List Item) × Delivers platform arrivals put
        × (put ≡ frames capture.yielded ++ error_if capture.is_raised ++ capture.queue)
  unfolding Conserved
  Reachable-conserved Reachable.opened = ([], nothing, refl)
  Reachable-conserved (Reachable.readable {capture = capture} arrival queue r live e) =
      let (put, delivers, h) = Reachable-conserved r in
      let (items, gives, appended) = on_readable-ok platform arrival capture.queue queue e in
      (
        put ++ items,
        more arrival delivers gives,
        readable-Conserved put items queue capture appended h,
      )
  Reachable-conserved (Reachable.broken {capture = capture} arrival e r live raised) =
      let (put, delivers, h) = Reachable-conserved r in
      (
        put ++ [],
        more arrival delivers (on_readable-err platform arrival capture.queue e raised),
        append-nil put ∙ h,
      )
  Reachable-conserved (Reachable.resumed item rest r live e) =
      let (put, delivers, h) = Reachable-conserved r in
      (put, delivers, get-Conserved put rest item _ live e h)

  drain :
      (put items : List Item) (c : Capture)
      → Conserved put c
      → c.is_raised ≡ false
      → c.queue ≡ items
      → (after : Capture) × Consumes c after
        × ((after.is_raised ≡ true) ⊎ (put ≡ frames after.yielded))
  unfolding get Conserved
  drain put [] c h l e = (c, rests c, inr ((rw (l, e) at h) ∙ simp append-nil))
  drain put (os_error ∷ items) c h l e =
      (get os_error items c, asks os_error items l e (rests _), inl refl)
  drain put (frame f ∷ items) c h l e =
      let (after, run, end) =
        drain put items (get (frame f) items c) (get-Conserved put items (frame f) c l e h) l
          refl in
      (after, asks (frame f) items l e run, end)

  -- From any state that a capture reaches and in which it has not raised, the consumer alone, asking for
  -- one item after another, comes to where the capture has raised or has yielded all that the arrivals
  -- are to give.
  pub Reachable-drains :
      {arrivals : List Arrival} {capture : Capture}
      → Reachable platform arrivals capture
      → capture.is_raised ≡ false
      → (put : List Item) × (after : Capture) × Delivers platform arrivals put
        × Consumes capture after
        × ((after.is_raised ≡ true) ⊎ (put ≡ frames after.yielded))
  unfolding Conserved
  Reachable-drains {capture = capture} r live =
      let (put, delivers, h) = Reachable-conserved r in
      let (after, run, end) = drain put capture.queue capture h live refl in
      (put, after, delivers, run, end)
