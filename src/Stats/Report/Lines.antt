-- ===== src/Stats/Report/Lines.antt =====
-- Which lines a report has.
use root_wire.Base.{
  ℕ, ◌+◌, ◌≡◌, refl, sym, append-nil, ap, ◌∙◌, Bool, true, false, not, ◌||◌, ◌==◌, gt→ne, List, [],
  ◌∷◌, ◌++◌, map, length, arith, Bool-cases, inl, inr, ltb,
}
use root_wire.Compiler.Syntax.{Text}
use root_wire.Compiler.Words.{codes, text_eq}
use root_wire.Headers.{Word}
use root_wire.Frame.{Netprotocols, DecodedFrame}
use root_wire.Screen.Format.{join, format, decimal}
use root_wire.Stats.{
  Counter, StatsCollector, new_stats, insert, sorted, count, update, is_some, bucket_of,
}
use root_wire.Stats.Tallies.{sum_lengths, update_all-total, update_all}
use root_wire.Stats.Bags.{sum_of, weight, counted, update_all-counted}
use root_wire.Stats.Report.{report, tally_text, tallies_text, tallies_lines, fault_lines, thousands}

abbrev pub is_empty {ℓ} : {A : Type ℓ} → List A → Bool
is_empty [] = true
is_empty (x ∷ xs) = false

-- Malformed, with an error or a length that cannot be, or truncated.
abbrev pub is_faulty : {Layer : Type 0} → DecodedFrame Layer → Bool
is_faulty frame = (is_some frame.error || frame.malformed_length) || frame.truncated

abbrev pub any_faulty : {Layer : Type 0} → List (DecodedFrame Layer) → Bool
any_faulty [] = false
any_faulty (frame ∷ frames) = is_faulty frame || any_faulty frames

length-insert : (item : Text × ℕ) (counter : Counter) → is_empty (insert item counter) ≡ false
unfolding insert
length-insert item [] = refl
length-insert item (next ∷ counter) = elim (Bool-cases (ltb item.1 next.1)) [
  | inl e ↦ rw e refl
  | inr e ↦ rw e refl
]

is_empty-sorted : (counter : Counter) → is_empty (sorted counter) ≡ is_empty counter
unfolding sorted
is_empty-sorted [] = refl
is_empty-sorted (item ∷ counter) = length-insert item (sorted counter)

is_empty-tally_text : (item : Text × ℕ) (text : Text) → is_empty (tally_text item ++ text) ≡ false
unfolding tally_text format
is_empty-tally_text ([], n) text = refl
is_empty-tally_text (c ∷ name, n) text = refl

is_empty-tally_text_alone : (item : Text × ℕ) → is_empty (tally_text item) ≡ false
unfolding tally_text format
is_empty-tally_text_alone ([], n) = refl
is_empty-tally_text_alone (c ∷ name, n) = refl

is_empty-join :
    (separator : Text) (counter : Counter)
    → is_empty (join separator (map tally_text counter)) ≡ is_empty counter
unfolding join
is_empty-join separator [] = refl
is_empty-join separator (item ∷ []) = is_empty-tally_text_alone item
is_empty-join separator (item ∷ next ∷ counter) = is_empty-tally_text item _

weight-any :
    (a b any : Bool) (m t : ℕ)
    → (not (m == 0) || not (t == 0)) ≡ any
    → (not (weight a + m == 0) || not (weight b + t == 0)) ≡ (a || b) || any
weight-any true b any m t h = rw (gt→ne (1 + m) 0 (omega arith)) refl
weight-any false true any m t h = ground arith
weight-any false false any m t h = ground arith

-- A count is not zero if one frame at least was counted.
counts-any_faulty :
    {Layer : Type 0} (frames : List (DecodedFrame Layer))
    → (not (sum_of (λ frame. weight (is_some frame.error || frame.malformed_length)) frames == 0)
        || not (sum_of (λ frame. weight frame.truncated) frames == 0))
      ≡ any_faulty frames
counts-any_faulty [] = refl
counts-any_faulty (frame ∷ frames) =
    weight-any (is_some frame.error || frame.malformed_length) frame.truncated (any_faulty frames) _
      _ (counts-any_faulty frames)

not_not : (b : Bool) → not (not b) ≡ b
not_not true = refl
not_not false = refl

is_empty-count : (key : Text) (counter : Counter) → is_empty (count key counter) ≡ false
unfolding count
is_empty-count key [] = refl
is_empty-count key ((k, n) ∷ counter) = elim (Bool-cases (text_eq k key)) [
  | inl e ↦ rw e refl
  | inr e ↦ rw e refl
]

module _ (lib : Netprotocols) (duration rate : Word) where
  -- A bucket that is there stays.
  is_empty-update_all :
      (frames : List (DecodedFrame lib.Layer)) (stats : StatsCollector)
      → is_empty stats.buckets ≡ false
      → is_empty (update_all lib frames stats).buckets ≡ false
  unfolding update
  is_empty-update_all [] stats h = h
  is_empty-update_all (frame ∷ frames) stats h =
      is_empty-update_all frames (update lib frame stats) (is_empty-count _ stats.buckets)

  is_empty-buckets :
      (frames : List (DecodedFrame lib.Layer))
      → is_empty (update_all lib frames new_stats).buckets ≡ is_empty frames
  unfolding update new_stats
  is_empty-buckets [] = refl
  is_empty-buckets (frame ∷ frames) =
      is_empty-update_all frames (update lib frame new_stats)
        (is_empty-count (bucket_of lib frame.layers) [])

  -- What is to be reported of some frames, by what there is to count of them.
  abbrev pub headline : ℕ → ℕ → Text
  headline number octets = format (
      codes "[=] "
      ∷ decimal number
      ∷ codes " frames, "
      ∷ thousands octets
      ∷ codes " bytes in "
      ∷ duration.text
      ∷ codes "s ("
      ∷ rate.text
      ∷ codes " frames/s)"
      ∷ [])

  abbrev pub only_if : Bool → Text → List Text
  only_if true line = line ∷ []
  only_if false line = []

  abbrev pub reportable : List (DecodedFrame lib.Layer) → List Text
  reportable frames =
      headline (length frames) (sum_lengths lib frames)
        ∷ only_if (not (is_empty frames))
            (codes "[=] " ++ tallies_text (update_all lib frames new_stats).buckets)
      ++ only_if (any_faulty frames) (
          format (
            codes "[=] malformed: "
            ∷ decimal
                (sum_of (λ frame. weight (is_some frame.error || frame.malformed_length)) frames)
            ∷ codes ", truncated: "
            ∷ decimal (sum_of (λ frame. weight frame.truncated) frames)
            ∷ []))

  tallies_lines-eq :
      (text : Text) (given : Bool)
      → is_empty text ≡ not given
      → tallies_lines text ≡ only_if given (codes "[=] " ++ text)
  unfolding tallies_lines format
  tallies_lines-eq [] true h = cc
  tallies_lines-eq [] false h = refl
  tallies_lines-eq (c ∷ text) true h = rw append-nil
  tallies_lines-eq (c ∷ text) false h = cc

  -- The line of faults, for the numbers that it has.
  abbrev faults_text : ℕ → ℕ → Text
  faults_text malformed truncated =
      format (
        codes "[=] malformed: "
        ∷ decimal malformed
        ∷ codes ", truncated: "
        ∷ decimal truncated
        ∷ [])

  fault_lines-eq :
      (malformed truncated : ℕ)
      → fault_lines malformed truncated
        ≡ only_if (not (malformed == 0) || not (truncated == 0)) (faults_text malformed truncated)
  unfolding fault_lines
  fault_lines-eq malformed truncated =
      elim (Bool-cases (not (malformed == 0) || not (truncated == 0))) [
        | inl e ↦ rw e refl
        | inr e ↦ rw e refl
      ]

  lines-eq :
      {n n' b b' : ℕ} {tallies tallies' faults faults' : List Text}
      → n ≡ n'
      → b ≡ b'
      → tallies ≡ tallies'
      → faults ≡ faults'
      → headline n b ∷ tallies ++ faults ≡ headline n' b' ∷ tallies' ++ faults'
  lines-eq e f g h = λ i. headline (e i) (f i) ∷ g i ++ h i

  -- After any frames the report has a line with their number and their bytes; behind it, if there was
  -- a frame, the line of the tallies; and last, if a frame was malformed or truncated, a line with the
  -- numbers of both. It has no other line.
  pub report-lines :
      (frames : List (DecodedFrame lib.Layer))
      → report duration rate (update_all lib frames new_stats) ≡ reportable frames
  unfolding report
  report-lines frames =
      let stats = update_all lib frames new_stats in
      let (n, b, t₀, m₀, c₀) = update_all-total lib frames in
      let counts = update_all-counted lib frames in
      let m = ap (λ s. s.2) counts in
      let t = ap (λ s. s.3) counts in
      let given =
        is_empty-join _ (sorted stats.buckets)
        ∙ is_empty-sorted stats.buckets
        ∙ is_empty-buckets frames in
      lines-eq n b
        (tallies_lines-eq (tallies_text stats.buckets) (not (is_empty frames))
          (given ∙ sym (not_not _)))
        (ap (λ m. fault_lines m stats.truncated) m
          ∙ ap (λ t. fault_lines (counted lib frames).2 t) t
          ∙ fault_lines-eq (counted lib frames).2 (counted lib frames).3
          ∙ ap (λ any. only_if any (faults_text (counted lib frames).2 (counted lib frames).3))
              (counts-any_faulty frames))
