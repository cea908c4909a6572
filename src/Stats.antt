-- ===== src/Stats.antt =====
-- src/rootwire/output.py, `StatsCollector`: the tallies of a capture.
pub mod Tallies
pub mod Bags
pub mod Report
mod Tests
pub mod Order
use root_wire.Base.{
  ℕ, suc, ◌+◌, Bool, true, false, Option, none, some, List, [], ◌∷◌, ltb, ◌||◌, if◌then◌else◌,
}
use root_wire.Compiler.Syntax.{Text}
use root_wire.Compiler.Words.{codes, text_eq}
use root_wire.Headers.{Header, tcp, udp, icmpv4, icmpv6, arp, class_name}
use root_wire.Frame.{Netprotocols, DecodedFrame}

-- A `Counter`: its keys in the order of their first count.
abbrev pub Counter : Type 0
Counter = List (Text × ℕ)

-- `StatsCollector`, without the time at which it was made.
pub record StatsCollector : Type 0 where
  pub frames : ℕ
  pub bytes : ℕ
  pub malformed : ℕ
  pub truncated : ℕ
  pub buckets : Counter

unfoldable pub new_stats : StatsCollector
new_stats = record { frames = 0; bytes = 0; malformed = 0; truncated = 0; buckets = [] }

-- `self._buckets[key] += 1`
unfoldable pub count : Text → Counter → Counter
unfolding text_eq
count key [] = (key, 1) ∷ []
count key ((k, n) ∷ counter) =
    let rest = count key counter in if text_eq k key then (k, suc n) ∷ counter else (k, n) ∷ rest

abbrev pub is_some {ℓ} : {A : Type ℓ} → Option A → Bool
is_some none = false
is_some (some a) = true

abbrev pub add_if : Bool → ℕ → ℕ
add_if true n = suc n
add_if false n = n

-- `type(layer).__name__` where the class is one of `_STATS_BUCKETS`
unfoldable pub stats_bucket : Header → Option Text
unfolding class_name
stats_bucket (tcp h) = some (class_name (tcp h))
stats_bucket (udp h) = some (class_name (udp h))
stats_bucket (icmpv4 h) = some (class_name (icmpv4 h))
stats_bucket (icmpv6 h) = some (class_name (icmpv6 h))
stats_bucket (arp h) = some (class_name (arp h))
stats_bucket _ = none

module _ (lib : Netprotocols) where
  -- The innermost layer of a class that is tallied: the last one of the list.
  unfoldable pub innermost : List lib.Layer → Option Text
  unfolding stats_bucket
  innermost [] = none
  innermost (l ∷ layers) = elim (innermost layers) [
    | some name ↦ some name
    | none ↦ stats_bucket (lib.header l)
  ]

  -- The `for` over the reversed layers, and its `else`.
  unfoldable pub bucket_of : List lib.Layer → Text
  unfolding innermost
  bucket_of layers = elim (innermost layers) [ some name ↦ name | none ↦ codes "other" ]

  -- `update`
  unfoldable pub update : DecodedFrame lib.Layer → StatsCollector → StatsCollector
  unfolding bucket_of count
  update frame stats = record {
    frames = suc stats.frames;
    bytes = stats.bytes + frame.length;
    malformed = add_if (is_some frame.error || frame.malformed_length) stats.malformed;
    truncated = add_if frame.truncated stats.truncated;
    buckets = count (bucket_of frame.layers) stats.buckets;
  }

-- `sorted(…, key=lambda item: -item[1])`: by falling count, equal counts in their order.
unfoldable pub insert : Text × ℕ → Counter → Counter
insert item [] = item ∷ []
insert item (next ∷ counter) =
    let rest = insert item counter in
    if ltb item.1 next.1 then next ∷ rest else item ∷ next ∷ counter

unfoldable pub sorted : Counter → Counter
unfolding insert
sorted [] = []
sorted (item ∷ counter) = insert item (sorted counter)
