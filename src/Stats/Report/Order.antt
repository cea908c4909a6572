-- ===== src/Stats/Report/Order.antt =====
-- The order of the tallies in a report.
use root_wire.Base.{ℕ, ◌≡◌, refl, map, [], ◌∷◌}
use root_wire.Compiler.Syntax.{Text}
use root_wire.Compiler.Words.{codes}
use root_wire.Screen.Format.{join, format, decimal}
use root_wire.Stats.{Counter, sorted}
use root_wire.Stats.Order.{Descending, of_count, sorted-Descending}
use root_wire.Stats.Report.{tally_text, tallies_text}

-- A bucket and its count.
abbrev pub named : Text × ℕ → Text
named item = format (item.0 ∷ codes ": " ∷ decimal item.1 ∷ [])

-- The line of tallies names and counts every bucket, set off by commas, in an order of falling count
-- in which the buckets of one count stand as they were first counted; none is lost and none is made
-- up.
pub tallies_text-Descending :
    (buckets : Counter)
    → (ordered : Counter) × (tallies_text buckets ≡ join (codes ", ") (map named ordered))
      × Descending ordered
      × ((n : ℕ) → of_count n ordered ≡ of_count n buckets)
unfolding tallies_text tally_text
tallies_text-Descending buckets =
    let (falling, same) = sorted-Descending buckets in (sorted buckets, refl, falling, same)
