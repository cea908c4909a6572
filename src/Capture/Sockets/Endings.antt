-- ===== src/Capture/Sockets/Endings.antt =====
-- What each socket goes through, and the three ways on from a name of the loop of `capture_async`.
use root_wire.Base.{
  ℕ, suc, ◌<◌, ◌≡◌, refl, ap, Bool, true, false, Option, List, [], ◌∷◌, ◌++◌, Bool-cases, inl, inr,
  ◌⊎◌,
}
use root_wire.Compiler.Syntax.{Text}
use root_wire.Bpf.{SockFilter}
use root_wire.Capture.Sockets.{
  Call, add_reader, remove_reader, close_socket, open_calls, attempt, open_all,
}
use root_wire.Capture.Sockets.Owners.{On, open_calls-On}

module _ (fails : Call → Bool) where
  attempt-On : (n : ℕ) (calls : List Call) → On n calls → On n (attempt fails calls).0
  unfolding attempt
  attempt-On n [] h = tt
  attempt-On n (c ∷ calls) (h, k) = elim (Bool-cases (fails c)) [
    | inl e ↦ rw e tt
    | inr e ↦ rw e (h, attempt-On n calls k)
  ]

  attempt-true :
      (calls : List Call) → (attempt fails calls).1 ≡ true → (attempt fails calls).0 ≡ calls
  unfolding attempt
  attempt-true [] h = refl
  attempt-true (c ∷ calls) h = elim (Bool-cases (fails c)) [
    | inl e ↦ let k = rw (attempt, e) at h in cc
    | inr e ↦ let k = rw (attempt, e) at h in rw e (ap (λ s. c ∷ s) (attempt-true calls k))
  ]

  module _ (program : Option (List SockFilter)) where
    abbrev pub opens : ℕ → Option Text → Bool
    opens n name = (attempt fails (open_calls n name program)).1

    -- A socket that cannot be opened, or whose reader cannot be added.
    pub data Stopped (n : ℕ) (name : Option Text) : Type 0 where
      not_opened : opens n name ≡ false → Stopped n name
      not_added : opens n name ≡ true → fails (add_reader n) ≡ true → Stopped n name

    -- The calls on a socket: none, where an earlier socket stopped the capture; those of its opening up
    -- to the one that raised; its opening and its end, where its reader could not be added; or its
    -- opening, and then its reader added and removed and its end.
    pub data Lifecycle (n : ℕ) (name : Option Text) : List Call → Type 0 where
      unreached :
          (earlier : ℕ) (other : Option Text)
          → earlier < n
          → Stopped earlier other
          → Lifecycle n name []
      raised : opens n name ≡ false → Lifecycle n name (attempt fails (open_calls n name program)).0
      refused :
          opens n name ≡ true
          → fails (add_reader n) ≡ true
          → Lifecycle n name (open_calls n name program ++ close_socket n ∷ [])
      served :
          opens n name ≡ true
          → fails (add_reader n) ≡ false
          → Lifecycle n name
              (open_calls n name program ++ add_reader n ∷ remove_reader n ∷ close_socket n ∷ [])

    pub opened-On :
        (n : ℕ) (name : Option Text) → On n (attempt fails (open_calls n name program)).0
    opened-On n name = attempt-On n _ (open_calls-On n name program)

    -- What is called for a name, and behind it.
    abbrev pub behind : ℕ → List (Option Text) → List Call → List Call
    behind n names stack = open_all fails program n names stack

    abbrev pub pushed : ℕ → List Call → List Call
    pushed n stack = remove_reader n ∷ close_socket n ∷ stack

    pub open_all-not_opened :
        (n : ℕ) (name : Option Text) (names : List (Option Text)) (stack : List Call)
        → opens n name ≡ false
        → behind n (name ∷ names) stack ≡ (attempt fails (open_calls n name program)).0 ++ stack
    unfolding open_all
    open_all-not_opened n name names stack e = rw e

    pub open_all-not_added :
        (n : ℕ) (name : Option Text) (names : List (Option Text)) (stack : List Call)
        → opens n name ≡ true
        → fails (add_reader n) ≡ true
        → behind n (name ∷ names) stack ≡ open_calls n name program ++ close_socket n ∷ stack
    unfolding open_all
    open_all-not_added n name names stack e a =
        rw (e, a, attempt-true (open_calls n name program) e)

    pub open_all-added :
        (n : ℕ) (name : Option Text) (names : List (Option Text)) (stack : List Call)
        → opens n name ≡ true
        → fails (add_reader n) ≡ false
        → behind n (name ∷ names) stack
          ≡ open_calls n name program ++ add_reader n ∷ behind (suc n) names (pushed n stack)
    unfolding open_all
    open_all-added n name names stack e a = rw (e, a, attempt-true (open_calls n name program) e)

    -- The three ways on from a name.
    abbrev pub Ways : ℕ → Option Text → Type 0
    Ways n name =
        (opens n name ≡ false)
        ⊎ ((opens n name ≡ true) × (fails (add_reader n) ≡ true))
        ⊎ ((opens n name ≡ true) × (fails (add_reader n) ≡ false))

    pub ways : (n : ℕ) (name : Option Text) → Ways n name
    ways n name = elim (Bool-cases (opens n name)) [
      | inr e ↦ inl e
      | inl e ↦ elim (Bool-cases (fails (add_reader n))) [
        | inl a ↦ inr (inl (e, a))
        | inr a ↦ inr (inr (e, a))
      ]
    ]
