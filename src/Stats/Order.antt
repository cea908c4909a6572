-- ===== src/Stats/Order.antt =====
-- The order in which the tallies are reported.
use root_wire.Base.{
  ℕ, ◌≤◌, ◌≡◌, refl, ap, ◌∙◌, [], ◌∷◌, ltb, ltb→lt, ltb→le, ◌==◌, lt→ne, ==_iff, arith,
  if◌then◌else◌, Bool-cases, inl, inr,
}
use root_wire.Compiler.Syntax.{Text}
use root_wire.Stats.{Counter, insert, sorted}

abbrev pub AtMost : ℕ → Counter → Type 0
AtMost bound [] = Unit {0}
AtMost bound (item ∷ counter) = (item.1 ≤ bound) × AtMost bound counter

-- No count is above one in front of it.
abbrev pub Descending : Counter → Type 0
Descending [] = Unit {0}
Descending (item ∷ counter) = AtMost item.1 counter × Descending counter

-- The items of a count, in their order.
abbrev pub of_count : ℕ → Counter → Counter
of_count n [] = []
of_count n (item ∷ counter) =
    let rest = of_count n counter in if item.1 == n then item ∷ rest else rest

AtMost-raise : (a b : ℕ) (counter : Counter) → a ≤ b → AtMost a counter → AtMost b counter
AtMost-raise a b [] h m = tt
AtMost-raise a b (item ∷ counter) h (m, ms) = (omega arith, AtMost-raise a b counter h ms)

AtMost-insert :
    (bound : ℕ) (item : Text × ℕ) (counter : Counter)
    → item.1 ≤ bound
    → AtMost bound counter
    → AtMost bound (insert item counter)
unfolding insert
AtMost-insert bound item [] h m = (h, tt)
AtMost-insert bound item (next ∷ counter) h (m, ms) = elim (Bool-cases (ltb item.1 next.1)) [
  | inl e ↦ rw e (m, AtMost-insert bound item counter h ms)
  | inr e ↦ rw e (h, (m, ms))
]

insert-Descending :
    (item : Text × ℕ) (counter : Counter) → Descending counter → Descending (insert item counter)
unfolding insert
insert-Descending item [] d = (tt, tt)
insert-Descending item (next ∷ counter) (a, d) = elim (Bool-cases (ltb item.1 next.1)) [
  | inl e ↦
      let below = ltb→lt item.1 next.1 e in
      rw e (AtMost-insert next.1 item counter (omega arith) a, insert-Descending item counter d)
  | inr e ↦
      let above = ltb→le item.1 next.1 e in
      rw e ((above, AtMost-raise next.1 item.1 counter above a), (a, d))
]

of_count-insert :
    (n : ℕ) (item : Text × ℕ) (counter : Counter)
    → of_count n (insert item counter) ≡ of_count n (item ∷ counter)
unfolding insert
of_count-insert n item [] = refl
of_count-insert n item (next ∷ counter) = elim (Bool-cases (ltb item.1 next.1)) [
  | inr e ↦ rw e
  | inl e ↦
      let below = ltb→lt item.1 next.1 e in
      rw (e, of_count-insert n item counter)
        (elim (Bool-cases (next.1 == n)) [
          | inr f ↦ rw f
          | inl f ↦ let k = (==_iff next.1 n).0 f in rw (f, lt→ne item.1 n (omega arith))
        ])
]

-- The sort puts items of the higher count first, and leaves those of one count in their order.
pub sorted-Descending :
    (counter : Counter)
    → Descending (sorted counter) × ((n : ℕ) → of_count n (sorted counter) ≡ of_count n counter)
unfolding sorted
sorted-Descending [] = (tt, λ n. refl)
sorted-Descending (item ∷ counter) =
    let (d, same) = sorted-Descending counter in
    (
      insert-Descending item (sorted counter) d,
      λ n.
          of_count-insert n item (sorted counter)
          ∙ ap (λ rest. if item.1 == n then item ∷ rest else rest) (same n),
    )
