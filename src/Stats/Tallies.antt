-- ===== src/Stats/Tallies.antt =====
-- The tallies add up, and are reported in order.
use root_wire.Base.{
  ℕ, suc, ◌+◌, ◌≤◌, ◌≡◌, refl, Bool, true, false, List, [], ◌∷◌, arith, length, Bool-cases, inl,
  inr, ◌||◌,
}
use root_wire.Compiler.Syntax.{Text}
use root_wire.Compiler.Words.{text_eq}
use root_wire.Frame.{Netprotocols, DecodedFrame}
use root_wire.Stats.{Counter, StatsCollector, new_stats, count, update, add_if, is_some, bucket_of}

abbrev pub total : Counter → ℕ
total [] = 0
total ((k, n) ∷ counter) = n + total counter

total-count : (key : Text) (counter : Counter) → total (count key counter) ≡ suc (total counter)
unfolding count
total-count key [] = refl
total-count key ((k, n) ∷ counter) = elim (Bool-cases (text_eq k key)) [
  | inl e ↦ rw e (omega arith)
  | inr e ↦ rw e (omega (arith, total-count key counter))
]

add_if_le : (b : Bool) (n : ℕ) → add_if b n ≤ suc n
add_if_le true n = omega arith
add_if_le false n = omega arith

module _ (lib : Netprotocols) where
  -- One update after another.
  abbrev pub update_all : List (DecodedFrame lib.Layer) → StatsCollector → StatsCollector
  update_all [] stats = stats
  update_all (frame ∷ frames) stats = update_all frames (update lib frame stats)

  abbrev pub sum_lengths : List (DecodedFrame lib.Layer) → ℕ
  sum_lengths [] = 0
  sum_lengths (frame ∷ frames) = frame.length + sum_lengths frames

  -- What holds of a collector that has seen so many frames of so many bytes.
  abbrev Tallied : ℕ → ℕ → StatsCollector → Type 0
  Tallied n bytes stats =
      (stats.frames ≡ n)
      × (stats.bytes ≡ bytes)
      × (total stats.buckets ≡ n)
      × (stats.malformed ≤ n)
      × (stats.truncated ≤ n)

  update-Tallied :
      (frame : DecodedFrame lib.Layer) (stats : StatsCollector) (n bytes : ℕ)
      → Tallied n bytes stats
      → Tallied (suc n) (bytes + frame.length) (update lib frame stats)
  unfolding update
  update-Tallied frame stats n bytes (f, b, t, m, c) = (
    omega arith,
    omega arith,
    omega (arith, total-count (bucket_of lib frame.layers) stats.buckets),
    omega (arith, add_if_le (is_some frame.error || frame.malformed_length) stats.malformed),
    omega (arith, add_if_le frame.truncated stats.truncated),
  )

  update_all-Tallied :
      (frames : List (DecodedFrame lib.Layer)) (stats : StatsCollector) (n bytes : ℕ)
      → Tallied n bytes stats
      → Tallied (n + length frames) (bytes + sum_lengths frames) (update_all frames stats)
  update_all-Tallied [] stats n bytes (f, b, t, m, c) =
      (omega arith, omega arith, omega arith, omega arith, omega arith)
  update_all-Tallied (frame ∷ frames) stats n bytes h =
      let (f, b, t, m, c) =
        update_all-Tallied frames (update lib frame stats) (suc n) (bytes + frame.length)
          (update-Tallied frame stats n bytes h) in
      (omega arith, omega arith, omega arith, omega arith, omega arith)

  -- After any frames, a new collector has counted each frame once and each byte once, its buckets
  -- add up to the number of frames, and no more frames are malformed or truncated than there were.
  pub update_all-total :
      (frames : List (DecodedFrame lib.Layer))
      → ((update_all frames new_stats).frames ≡ length frames)
        × ((update_all frames new_stats).bytes ≡ sum_lengths frames)
        × (total (update_all frames new_stats).buckets ≡ length frames)
        × ((update_all frames new_stats).malformed ≤ length frames)
        × ((update_all frames new_stats).truncated ≤ length frames)
  unfolding new_stats
  update_all-total frames =
      let (f, b, t, m, c) =
        update_all-Tallied frames new_stats 0 0 (refl, refl, refl, omega arith, omega arith) in
      (omega arith, omega arith, omega arith, omega arith, omega arith)
