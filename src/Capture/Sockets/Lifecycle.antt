-- ===== src/Capture/Sockets/Lifecycle.antt =====
-- The calls on each socket are those that `Lifecycle` lists.
use root_wire.Base.{
  ℕ, zero, suc, ◌+◌, ◌<◌, ◌≡◌, refl, sym, ◌∙◌, Bool, true, false, Option, some, List, [], ◌∷◌, ◌++◌,
  ==_self, lt→ne, gt→ne, get_elem?, append-nil, some-injective, arith, inl, inr,
}
use root_wire.Compiler.Syntax.{Text}
use root_wire.Bpf.{SockFilter}
use root_wire.Capture.Sockets.{
  Call, add_reader, remove_reader, close_socket, open_calls, names_of, attempt, open_all,
  capture_calls,
}
use root_wire.Capture.Sockets.Owners.{
  calls_of, calls_of-append, Before, Before-suc, calls_of-On, calls_of-On_other, calls_of-On_before,
  calls_of-Before, open_calls-On,
}
use root_wire.Capture.Sockets.Endings.{
  opens, Stopped, pushed, not_opened, not_added, Lifecycle, unreached, raised, refused, served,
  opened-On, behind, open_all-not_opened, open_all-not_added, open_all-added, ways,
}

module _ (fails : Call → Bool) (program : Option (List SockFilter)) where
  -- The calls on a socket opened earlier.
  calls_of-open_all_before :
      (k n : ℕ) (names : List (Option Text)) (stack : List Call)
      → k < n
      → calls_of k (behind fails program n names stack) ≡ calls_of k stack
  unfolding open_all calls_of
  calls_of-open_all_before k n [] stack h = refl
  calls_of-open_all_before k n (name ∷ names) stack h =
      let before = calls_of-On_before k n _ h (opened-On fails program n name) in
      let whole = calls_of-On_before k n _ h (open_calls-On n name program) in
      elim (ways fails program n name) [
        | inl e ↦ rw (
          open_all-not_opened fails program n name names stack e,
          calls_of-append k _ stack,
          before,
        )
        | inr (inl (e, a)) ↦ rw (
          open_all-not_added fails program n name names stack e a,
          calls_of-append k (open_calls n name program) (close_socket n ∷ stack),
          whole,
          calls_of,
          gt→ne n k h,
        )
        | inr (inr (e, a)) ↦
            rw
              (
                open_all-added fails program n name names stack e a,
                calls_of-append k (open_calls n name program) (
                    add_reader n
                    ∷ behind fails program (suc n) names (pushed fails program n stack)),
                whole,
                calls_of,
                gt→ne n k h,
              )
              (calls_of-open_all_before k (suc n) names _ (omega arith)
                ∙ rw (calls_of, gt→ne n k h))
      ]

  own_calls :
      (n : ℕ) (name : Option Text) (calls : List Call)
      → calls_of n (open_calls n name program ++ calls)
        ≡ open_calls n name program ++ calls_of n calls
  own_calls n name calls =
      rw (calls_of-append n _ calls, calls_of-On n _ (open_calls-On n name program))

  served_calls :
      (n : ℕ) (name : Option Text) (names : List (Option Text)) (stack : List Call)
      → Before n stack
      → opens fails program n name ≡ true
      → fails (add_reader n) ≡ false
      → calls_of n (behind fails program n (name ∷ names) stack)
        ≡ open_calls n name program ++ add_reader n ∷ remove_reader n ∷ close_socket n ∷ []
  unfolding calls_of
  served_calls n name names stack b e a =
      let rest = behind fails program (suc n) names (pushed fails program n stack) in
      let only : calls_of n (pushed fails program n stack) ≡ remove_reader n ∷ close_socket n ∷ [] =
        rw (calls_of, ==_self n, calls_of-Before n n stack (omega arith) b) in
      let later =
        calls_of-open_all_before n (suc n) names (pushed fails program n stack) (omega arith)
        ∙ only in
      let added : calls_of n (add_reader n ∷ rest) ≡ add_reader n ∷ calls_of n rest =
        rw (calls_of, ==_self n) in
      rw (
        open_all-added fails program n name names stack e a,
        own_calls n name (add_reader n ∷ rest),
        added,
        later,
      )

  refused_calls :
      (n : ℕ) (name : Option Text) (names : List (Option Text)) (stack : List Call)
      → Before n stack
      → opens fails program n name ≡ true
      → fails (add_reader n) ≡ true
      → calls_of n (behind fails program n (name ∷ names) stack)
        ≡ open_calls n name program ++ close_socket n ∷ []
  unfolding calls_of
  refused_calls n name names stack b e a =
      let only : calls_of n (close_socket n ∷ stack) ≡ close_socket n ∷ [] =
        rw (calls_of, ==_self n, calls_of-Before n n stack (omega arith) b) in
      rw (
        open_all-not_added fails program n name names stack e a,
        own_calls n name (close_socket n ∷ stack),
        only,
      )

  raised_calls :
      (n : ℕ) (name : Option Text) (names : List (Option Text)) (stack : List Call)
      → Before n stack
      → opens fails program n name ≡ false
      → calls_of n (behind fails program n (name ∷ names) stack)
        ≡ (attempt fails (open_calls n name program)).0
  raised_calls n name names stack b e =
      rw
        (
          open_all-not_opened fails program n name names stack e,
          calls_of-append n (attempt fails (open_calls n name program)).0 stack,
          calls_of-On n _ (opened-On fails program n name),
          calls_of-Before n n stack (omega arith) b,
        )
        (append-nil _)

  -- A socket opened later than the first of the names.
  later_calls :
      (k n : ℕ) (name : Option Text) (names : List (Option Text)) (stack : List Call)
      → n < k
      → opens fails program n name ≡ true
      → fails (add_reader n) ≡ false
      → calls_of k (behind fails program n (name ∷ names) stack)
        ≡ calls_of k (behind fails program (suc n) names (pushed fails program n stack))
  unfolding calls_of
  later_calls k n name names stack l e a =
      let rest = behind fails program (suc n) names (pushed fails program n stack) in
      let skipped : calls_of k (add_reader n ∷ rest) ≡ calls_of k rest =
        rw (calls_of, lt→ne n k l) in
      rw (
        open_all-added fails program n name names stack e a,
        calls_of-append k (open_calls n name program) (add_reader n ∷ rest),
        calls_of-On_other k n _ l (open_calls-On n name program),
        skipped,
      )

  no_later_calls :
      (k n : ℕ) (name : Option Text) (names : List (Option Text)) (stack : List Call)
      → n < k
      → Before n stack
      → Stopped fails program n name
      → calls_of k (behind fails program n (name ∷ names) stack) ≡ []
  unfolding calls_of
  no_later_calls k n name names stack l b (not_opened e) = rw (
    open_all-not_opened fails program n name names stack e,
    calls_of-append k (attempt fails (open_calls n name program)).0 stack,
    calls_of-On_other k n _ l (opened-On fails program n name),
    calls_of-Before k n stack (omega arith) b,
  )
  no_later_calls k n name names stack l b (not_added e a) = rw (
    open_all-not_added fails program n name names stack e a,
    calls_of-append k (open_calls n name program) (close_socket n ∷ stack),
    calls_of-On_other k n _ l (open_calls-On n name program),
    calls_of,
    lt→ne n k l,
    calls_of-Before k n stack (omega arith) b,
  )

  Lifecycle-eq :
      (n : ℕ) (name : Option Text) (s t : List Call)
      → s ≡ t
      → Lifecycle fails program n name t
      → Lifecycle fails program n name s
  Lifecycle-eq n name s t e l = rw e l

  first_Lifecycle :
      (n : ℕ) (name : Option Text) (names : List (Option Text)) (stack : List Call)
      → Before n stack
      → Lifecycle fails program n name (calls_of n (behind fails program n (name ∷ names) stack))
  first_Lifecycle n name names stack b = elim (ways fails program n name) [
    | inl e ↦ Lifecycle-eq n name _ _ (raised_calls n name names stack b e) (raised e)
    | inr (inl (e, a)) ↦
        Lifecycle-eq n name _ _ (refused_calls n name names stack b e a) (refused e a)
    | inr (inr (e, a)) ↦
        Lifecycle-eq n name _ _ (served_calls n name names stack b e a) (served e a)
  ]

  open_all-Lifecycle :
      (i k n : ℕ) (name : Option Text) (names : List (Option Text)) (stack : List Call)
      → k ≡ n + i
      → Before n stack
      → get_elem? names i ≡ some name
      → Lifecycle fails program k name (calls_of k (behind fails program n names stack))
  open_all-Lifecycle i k n name [] stack e b h = cc
  open_all-Lifecycle zero k n name (first ∷ names) stack e b h =
      let same : k ≡ n = omega arith in
      let found : name ≡ first = sym (some-injective h) in
      rw (same, found) (first_Lifecycle n first names stack b)
  open_all-Lifecycle (suc i) k n name (first ∷ names) stack e b h =
      let stops : Stopped fails program n first
          → Lifecycle fails program k name
              (calls_of k (behind fails program n (first ∷ names) stack)) =
        λ s.
          Lifecycle-eq k name _ _ (no_later_calls k n first names stack (omega arith) b s)
            (unreached n first (omega arith) s) in
      elim (ways fails program n first) [
        | inl e0 ↦ stops (not_opened e0)
        | inr (inl (e0, a)) ↦ stops (not_added e0 a)
        | inr (inr (e0, a)) ↦
            Lifecycle-eq k name _ _ (later_calls k n first names stack (omega arith) e0 a) (
              open_all-Lifecycle i k (suc n) name names _ (omega arith)
                (omega arith, (omega arith, Before-suc n stack b)) h)
      ]

  -- Whichever calls raise, the calls on each socket are those that `Lifecycle` lists.
  pub capture_calls-Lifecycle :
      (interfaces : Option (List Text)) (i : ℕ) (name : Option Text)
      → get_elem? (names_of interfaces) i ≡ some name
      → Lifecycle fails program i name (calls_of i (capture_calls fails program interfaces))
  unfolding capture_calls
  capture_calls-Lifecycle interfaces i name h =
      open_all-Lifecycle i i 0 name (names_of interfaces) [] (omega arith) tt h
