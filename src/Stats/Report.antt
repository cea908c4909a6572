-- ===== src/Stats/Report.antt =====
-- src/rootwire/output.py, `StatsCollector.report`: the summary of a capture, line by line. The
-- duration and the rate, floating-point numbers of the clock, are words.
pub mod Lines
pub mod Order
use root_wire.Base.{ℕ, ◌%◌, ◌==◌, not, ◌||◌, Bool, List, [], ◌∷◌, ◌++◌, map, length, if◌then◌else◌}
use root_wire.Compiler.Syntax.{Text}
use root_wire.Compiler.Words.{codes}
use root_wire.Headers.{Word}
use root_wire.Screen.Format.{format, join, decimal}
use root_wire.Stats.{Counter, StatsCollector, sorted}

-- The digits behind the first: a comma in front of every third from the end.
unfoldable pub grouped : Text → Text
grouped [] = []
grouped (digit ∷ digits) =
    let rest = grouped digits in
    if length (digit ∷ digits) % 3 == 0 then b',' ∷ digit ∷ rest else digit ∷ rest

abbrev pub behind_first : Text → Text
behind_first [] = []
behind_first (digit ∷ digits) = digit ∷ grouped digits

-- `f"{n:,}"`
unfoldable pub thousands : ℕ → Text
unfolding decimal grouped
thousands n = behind_first (decimal n)

-- `f"{name}: {count}"`
unfoldable pub tally_text : Text × ℕ → Text
tally_text (name, n) = format (name ∷ codes ": " ∷ decimal n ∷ [])

-- `tallies`
unfoldable pub tallies_text : Counter → Text
unfolding sorted tally_text
tallies_text buckets = join (codes ", ") (map tally_text (sorted buckets))

-- `if tallies:`
unfoldable pub tallies_lines : Text → List Text
tallies_lines [] = []
tallies_lines (c ∷ text) = format (codes "[=] " ∷ (c ∷ text) ∷ []) ∷ []

-- `if self._malformed or self._truncated:`
unfoldable pub fault_lines : ℕ → ℕ → List Text
fault_lines malformed truncated =
    if not (malformed == 0) || not (truncated == 0)
    then format (
        codes "[=] malformed: "
        ∷ decimal malformed
        ∷ codes ", truncated: "
        ∷ decimal truncated
        ∷ [])
      ∷ []
    else []

-- `report`
unfoldable pub report : Word → Word → StatsCollector → List Text
unfolding tallies_text tallies_lines fault_lines thousands
report duration rate stats =
    format (
        codes "[=] "
        ∷ decimal stats.frames
        ∷ codes " frames, "
        ∷ thousands stats.bytes
        ∷ codes " bytes in "
        ∷ duration.text
        ∷ codes "s ("
        ∷ rate.text
        ∷ codes " frames/s)"
        ∷ [])
      ∷ tallies_lines (tallies_text stats.buckets)
    ++ fault_lines stats.malformed stats.truncated
