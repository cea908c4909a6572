-- ===== src/Stats/Bags.antt =====
-- The tallies of a capture as a function of the bag of its frames.
use mathlib.Core.Logic.{∥∥₁_elim}
use mathlib.Core.List.{Perm, Permᴰ}
use mathlib.Core.Quot
use mathlib.Core.Quot.{Quot}
use native.Mathlib.Nat.{ℕ_set}
use root_wire.Base.{
  ℕ, ◌+◌, ◌≡◌, refl, ap, ◌∙◌, Bool, true, false, List, [], ◌∷◌, arith, Bool-cases, inl, inr, ◌||◌,
  if◌then◌else◌,
}
use root_wire.Compiler.Syntax.{Text}
use root_wire.Compiler.Words.{text_eq, text_eq→eq, text_eq_self}
use root_wire.Frame.{Netprotocols, DecodedFrame}
use root_wire.Stats.{Counter, StatsCollector, new_stats, count, update, add_if, is_some, bucket_of}
use root_wire.Stats.Tallies.{update_all}

-- A sum over a list, in any order.
abbrev pub sum_of {ℓ} : {A : Type ℓ} → (A → ℕ) → List A → ℕ
sum_of f [] = 0
sum_of f (x ∷ xs) = f x + sum_of f xs

sum_of-Permᴰ {ℓ} :
    {A : Type ℓ} (f : A → ℕ) {xs ys : List A} → Permᴰ xs ys → sum_of f xs ≡ sum_of f ys
sum_of-Permᴰ f Permᴰ.nil = refl
sum_of-Permᴰ f (Permᴰ.cons e p) = let k = sum_of-Permᴰ f p in rw (e, k)
sum_of-Permᴰ f (Permᴰ.swap e e') = rw (e, e') (omega arith)
sum_of-Permᴰ f (Permᴰ.trans p q) = sum_of-Permᴰ f p ∙ sum_of-Permᴰ f q

sum_of-Perm {ℓ} : {A : Type ℓ} (f : A → ℕ) {xs ys : List A} → Perm xs ys → sum_of f xs ≡ sum_of f ys
sum_of-Perm f p = ∥∥₁_elim p (ℕ_set _ _) (sum_of-Permᴰ f)

abbrev pub weight : Bool → ℕ
weight true = 1
weight false = 0

add_if-weight : (b : Bool) (n m : ℕ) → add_if b n + m ≡ n + (weight b + m)
add_if-weight true n m = omega arith
add_if-weight false n m = omega arith

-- `self._buckets[key]`
unfoldable pub tally : Text → Counter → ℕ
tally key [] = 0
tally key ((k, n) ∷ counter) = let rest = tally key counter in if text_eq k key then n else rest

tally-count :
    (key k : Text) (counter : Counter)
    → tally key (count k counter) ≡ weight (text_eq k key) + tally key counter
unfolding tally count
tally-count key k [] = elim (Bool-cases (text_eq k key)) [ inl e ↦ rw e | inr e ↦ rw e ]
tally-count key k ((k', n) ∷ counter) = elim (Bool-cases (text_eq k' k)) [
  | inl e ↦
      let same = text_eq→eq k' k e in
      elim (Bool-cases (text_eq k key)) [
        | inl f ↦ rw (e, same, f) (omega arith)
        | inr f ↦ rw (e, same, f) (omega arith)
      ]
  | inr e ↦ elim (Bool-cases (text_eq k' key)) [
    | inr f ↦ rw (e, tally, f) (tally-count key k counter)
    | inl f ↦
        let here = text_eq→eq k' key f in
        let other : text_eq k key ≡ false = elim (Bool-cases (text_eq k key)) [
          | inr g ↦ g
          | inl g ↦
              let there = text_eq→eq k key g in
              let again = rw (here, there, text_eq_self key) at e in cc
        ] in
        rw (e, tally, f, other) (omega arith)
  ]
]

-- A collector as its numbers and what each bucket counts, whatever the order of the buckets.
abbrev pub Summary : Type 0
Summary = ℕ × ℕ × ℕ × ℕ × (Text → ℕ)

abbrev pub summary : StatsCollector → Summary
summary stats =
    (stats.frames, stats.bytes, stats.malformed, stats.truncated, λ key. tally key stats.buckets)

Summary-set : IsSet Summary
Summary-set = hlevel (ℕ_set)

Summary-eq :
    {a b c d a' b' c' d' : ℕ} {t t' : Text → ℕ}
    → a ≡ a'
    → b ≡ b'
    → c ≡ c'
    → d ≡ d'
    → ((key : Text) → t key ≡ t' key)
    → ◌≡◌ {A = Summary} (a, b, c, d, t) (a', b', c', d', t')
Summary-eq e f g h k = λ i. (e i, f i, g i, h i, λ key. k key i)

module _ (lib : Netprotocols) where
  abbrev pub Frames : Type 0
  Frames = Quot (Perm {A = DecodedFrame lib.Layer})

  -- What there is to count of some frames, each number a sum over them.
  abbrev pub counted : List (DecodedFrame lib.Layer) → Summary
  counted frames = (
    sum_of (λ frame. 1) frames,
    sum_of (λ frame. frame.length) frames,
    sum_of (λ frame. weight (is_some frame.error || frame.malformed_length)) frames,
    sum_of (λ frame. weight frame.truncated) frames,
    λ key. sum_of (λ frame. weight (text_eq (bucket_of lib frame.layers) key)) frames,
  )

  -- The same of a bag of frames, in which their order is forgotten.
  pub counted_bag : Frames → Summary
  counted_bag = Quot.lift Summary-set counted (λ s t p.
      Summary-eq (sum_of-Perm _ p) (sum_of-Perm _ p) (sum_of-Perm _ p) (sum_of-Perm _ p)
        (λ key. sum_of-Perm _ p))

  plus : Summary → Summary → Summary
  plus (a, b, c, d, t) (a', b', c', d', t') =
      (a + a', b + b', c + c', d + d', λ key. t key + t' key)

  update_all-plus :
      (frames : List (DecodedFrame lib.Layer)) (stats : StatsCollector)
      → summary (update_all lib frames stats) ≡ plus (summary stats) (counted frames)
  unfolding plus update
  update_all-plus [] stats =
      Summary-eq (omega arith) (omega arith) (omega arith) (omega arith) (λ key. omega arith)
  update_all-plus (frame ∷ frames) stats =
      update_all-plus frames (update lib frame stats)
      ∙ Summary-eq (omega arith) (omega arith)
          (add_if-weight (is_some frame.error || frame.malformed_length) stats.malformed _)
          (add_if-weight frame.truncated stats.truncated _)
          (λ key. omega (arith, tally-count key (bucket_of lib frame.layers) stats.buckets))

  pub update_all-counted :
      (frames : List (DecodedFrame lib.Layer))
      → summary (update_all lib frames new_stats) ≡ counted frames
  unfolding new_stats plus tally
  update_all-counted frames =
      update_all-plus frames new_stats
      ∙ Summary-eq (omega arith) (omega arith) (omega arith) (omega arith) (λ key. omega arith)

  -- The frames of a capture may come in any order, as those of several interfaces do: a new
  -- collector that has seen them holds what there is to count of their bag, which is the number of
  -- frames, of their bytes, of the malformed and of the truncated ones, and for each bucket how many
  -- frames it has.
  pub update_all-counted_bag :
      (arrived sent : List (DecodedFrame lib.Layer))
      → Perm arrived sent
      → summary (update_all lib arrived new_stats) ≡ counted_bag (Quot.mk sent)
  unfolding counted_bag
  update_all-counted_bag arrived sent p = update_all-counted arrived ∙ ap counted_bag (Quot.sound p)
