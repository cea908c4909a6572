-- ===== src/Stats/Tests.antt =====
-- The tallies of some frames.
use mathlib.Core.List.{Permᴰ}
use mathlib.Core.Quot
use root_wire.Base.{map, ℕ, ◌≡◌, refl, none, List, [], ◌∷◌}
use root_wire.Compiler.Words.{codes}
use root_wire.Samples.{word, two_layers, web_frame}
use root_wire.Frame.{DecodedFrame}
use root_wire.Decoder.{decode_frame}
use root_wire.Stats.{Counter, new_stats, sorted}
use root_wire.Stats.Tallies.{update_all}
use root_wire.Stats.Bags.{summary, counted_bag, update_all-counted_bag}
use root_wire.Stats.Report.{tallies_text, report, thousands}
use root_wire.Stats.Report.Order.{named, tallies_text-Descending}
use root_wire.Stats.Report.Lines.{reportable, report-lines}
use root_wire.Headers.{Word}
use root_wire.Screen.Format.{format, join}
use root_wire.Stats.Order.{Descending, of_count}

abbrev frames : List (DecodedFrame two_layers.Layer)
frames =
    decode_frame two_layers web_frame 1 5 none
    ∷ decode_frame two_layers (1 ∷ []) 2 6 none
    ∷ decode_frame two_layers web_frame 3 7 none
    ∷ []

-- The last two have changed places.
abbrev sent : List (DecodedFrame two_layers.Layer)
sent =
    decode_frame two_layers web_frame 1 5 none
    ∷ decode_frame two_layers web_frame 3 7 none
    ∷ decode_frame two_layers (1 ∷ []) 2 6 none
    ∷ []

update_all-counted_bag_example :
    summary (update_all two_layers frames new_stats) ≡ counted_bag two_layers (Quot.mk sent)
update_all-counted_bag_example =
    update_all-counted_bag two_layers frames sent ∣ Permᴰ.cons refl (Permᴰ.swap refl refl) ∣₁

abbrev counter : Counter
counter = (codes "UDP", 1) ∷ (codes "TCP", 4) ∷ (codes "ARP", 1) ∷ (codes "other", 2) ∷ []

counter-sorted :
    sorted counter
    ≡ (codes "TCP", 4) ∷ (codes "other", 2) ∷ (codes "UDP", 1) ∷ (codes "ARP", 1) ∷ []
unfolding sorted
counter-sorted = refl

tallies_text-Descending_example :
    (ordered : Counter) × (tallies_text counter ≡ join (codes ", ") (map named ordered))
    × Descending ordered
    × ((n : ℕ) → of_count n ordered ≡ of_count n counter)
tallies_text-Descending_example = tallies_text-Descending counter

abbrev one_second : Word
one_second = word (codes "1.0") refl

abbrev three_a_second : Word
three_a_second = word (codes "3") refl

million : thousands 1_234_567 ≡ codes "1,234,567"
unfolding thousands
million = refl

summary_lines :
    report one_second three_a_second
      (record new_stats { frames = 3; bytes = 1180; truncated = 1; buckets = counter })
    ≡ codes "[=] 3 frames, 1,180 bytes in 1.0s (3 frames/s)"
      ∷ codes "[=] TCP: 4, other: 2, UDP: 1, ARP: 1"
      ∷ codes "[=] malformed: 0, truncated: 1"
      ∷ []
unfolding report new_stats format join
summary_lines = refl

report-lines_example :
    report one_second three_a_second (update_all two_layers frames new_stats)
    ≡ reportable two_layers one_second three_a_second frames
report-lines_example = report-lines two_layers one_second three_a_second frames
