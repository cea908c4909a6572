-- ===== src/Cli/Run/Correct.antt =====
-- A run gives every output every frame, in order.
use root_wire.Base.{
  ℕ, suc, ◌+◌, ◌≡◌, refl, sym, ap, ◌∙◌, Option, some, List, [], ◌∷◌, ◌++◌, Result, ok, err, ◌>>=◌,
  length, arith, drop, append_assoc, append-nil,
}
use root_wire.Compiler.Syntax.{Text}
use root_wire.Frame.{Netprotocols, DecodedFrame}
use root_wire.Decoder.{decode_frame}
use root_wire.Stats.{StatsCollector, new_stats, update}
use root_wire.Stats.Tallies.{update_all}
use root_wire.Pcap.Writer.{WriteError, PcapWriter, write, open_writer}
use root_wire.Pcap.Writer.RoundTrip.{write_all, read_records, AllWritable, captured, write_all-read}
use root_wire.Cli.Run.{Sourced, Outputs, build_outputs, update_pcap, update_outputs, run_from, run}

-- The writes that a source comes to.
abbrev pub calls : List Sourced → List (ℕ × List ℕ × Option ℕ)
calls [] = []
calls ((bytes, timestamp, interface) ∷ source) = (0, bytes, some timestamp) ∷ calls source

>>=-ext {ℓ κ} :
    {A : Type ℓ} {B : Type κ} (r : Result WriteError A) (f g : A → Result WriteError B)
    → ((a : A) → f a ≡ g a)
    → (r >>= f) ≡ (r >>= g)
>>=-ext (ok a) f g h = h a
>>=-ext (err e) f g h = refl

>>=-assoc {ℓ κ μ} :
    {A : Type ℓ} {B : Type κ} {C : Type μ} (r : Result WriteError A) (f : A → Result WriteError B)
    (g : B → Result WriteError C)
    → (r >>= f >>= g) ≡ (r >>= λ a. f a >>= g)
>>=-assoc (ok a) f g = refl
>>=-assoc (err e) f g = refl

module _ (lib : Netprotocols) where
  -- The frames of a source, numbered from the number behind the given one.
  abbrev pub numbered : ℕ → List Sourced → List (DecodedFrame lib.Layer)
  numbered n [] = []
  numbered n ((bytes, timestamp, interface) ∷ source) =
      decode_frame lib bytes (suc n) timestamp interface ∷ numbered (suc n) source

  -- What a run leaves when the capture file is left as given.
  abbrev pub finished :
      ℕ
      → List Sourced
      → List (DecodedFrame lib.Layer)
      → StatsCollector
      → PcapWriter
      → Result WriteError (ℕ × Outputs lib)
  finished n source shown stats writer = ok (
    n + length source,
    record {
      shown = shown ++ numbered n source;
      writer = some writer;
      stats = update_all lib (numbered n source) stats;
    },
  )

  finished_nil :
      (n : ℕ) (shown : List (DecodedFrame lib.Layer)) (stats : StatsCollector) (writer : PcapWriter)
      → ok (n, record { shown = shown; writer = some writer; stats = stats })
        ≡ finished n [] shown stats writer
  finished_nil n shown stats writer =
      ap (λ m. ok (m, record { shown = shown; writer = some writer; stats = stats })) (omega arith)
      ∙ ap (λ s. ok (n + 0, record { shown = s; writer = some writer; stats = stats }))
          (sym (append-nil shown))

  finished_cons :
      (n : ℕ) (bytes : List ℕ) (timestamp : ℕ) (interface : Option Text) (source : List Sourced)
      (shown : List (DecodedFrame lib.Layer)) (stats : StatsCollector) (writer : PcapWriter)
      → finished
          (suc n)
          source
          (shown ++ decode_frame lib bytes (suc n) timestamp interface ∷ [])
          (update lib (decode_frame lib bytes (suc n) timestamp interface) stats)
          writer
        ≡ finished n ((bytes, timestamp, interface) ∷ source) shown stats writer
  finished_cons n bytes timestamp interface source shown stats writer =
      let frame = decode_frame lib bytes (suc n) timestamp interface in
      let frames = numbered (suc n) source in
      let after = update_all lib frames (update lib frame stats) in
      ap
        (λ m. ok (
          m,
          record { shown = shown ++ frame ∷ [] ++ frames; writer = some writer; stats = after },
        ))
        (omega arith)
      ∙ ap
          (λ s.
            ok (n + suc (length source), record { shown = s; writer = some writer; stats = after }))
          (append_assoc shown (frame ∷ []) frames)

  run_from-finished :
      (source : List Sourced) (n : ℕ) (shown : List (DecodedFrame lib.Layer))
      (stats : StatsCollector) (writer : PcapWriter)
      → run_from lib n source (record { shown = shown; writer = some writer; stats = stats })
        ≡ (write_all (calls source) writer >>= finished n source shown stats)
  unfolding run_from update_outputs update_pcap decode_frame
  run_from-finished [] n shown stats writer = finished_nil n shown stats writer
  run_from-finished ((bytes, timestamp, interface) ∷ source) n shown stats writer =
      by_write (write 0 bytes (some timestamp) writer) refl λ writer'.
        run_from-finished source (suc n)
          (shown ++ decode_frame lib bytes (suc n) timestamp interface ∷ [])
          (update lib (decode_frame lib bytes (suc n) timestamp interface) stats) writer'
    where
      by_write :
          (r : Result WriteError PcapWriter)
          → write 0 bytes (some timestamp) writer ≡ r
          → ((writer' : PcapWriter)
              → run_from lib (suc n) source (record {
                shown = shown ++ decode_frame lib bytes (suc n) timestamp interface ∷ [];
                writer = some writer';
                stats = update lib (decode_frame lib bytes (suc n) timestamp interface) stats;
              })
                ≡ (write_all (calls source) writer'
                    >>= finished
                        (suc n)
                        source
                        (shown ++ decode_frame lib bytes (suc n) timestamp interface ∷ [])
                        (update lib (decode_frame lib bytes (suc n) timestamp interface) stats)))
          → run_from lib n
              ((bytes, timestamp, interface) ∷ source)
              (record { shown = shown; writer = some writer; stats = stats })
            ≡ (write_all (calls ((bytes, timestamp, interface) ∷ source)) writer
                >>= finished n ((bytes, timestamp, interface) ∷ source) shown stats)
      by_write (err e) h ih = rw (update_outputs, update_pcap, h)
      by_write (ok writer') h ih =
          rw (update_outputs, update_pcap, h)
            (ih writer'
              ∙ >>=-ext (write_all (calls source) writer') _ _
                  (finished_cons n bytes timestamp interface source shown stats))

  -- A run with a capture file writes the frames of the source one after another and, if no write
  -- raises, returns their number: every frame was shown, decoded, in order and numbered from 1, and
  -- was counted once. Where a write raises, the run raises the same.
  pub run-finished :
      (source : List Sourced) (writer : PcapWriter)
      → run lib source (build_outputs lib (some writer))
        ≡ (write_all (calls source) writer >>= finished 0 source [] new_stats)
  unfolding run build_outputs
  run-finished source writer = run_from-finished source 0 [] new_stats writer

  -- What the outputs of a live run hold in the end.
  abbrev pub recorded : List Sourced → PcapWriter → Outputs lib
  recorded source writer = record {
    shown = numbered 0 source;
    writer = some writer;
    stats = update_all lib (numbered 0 source) new_stats;
  }

  pub run-recorded :
      (source : List Sourced) (writer : PcapWriter)
      → (open_writer >>= write_all (calls source)) ≡ ok writer
      → (open_writer >>= λ writer. run lib source (build_outputs lib (some writer)))
        ≡ ok (length source, recorded source writer)
  run-recorded source writer e =
      >>=-ext open_writer _ _ (run-finished source)
      ∙ sym (>>=-assoc open_writer (write_all (calls source)) (finished 0 source [] new_stats))
      ∙ ap (λ r. r >>= finished 0 source [] new_stats) e
      ∙ ap (λ n. ok (n, recorded source writer)) (omega arith)

  -- A run over frames shorter than 2^32 bytes, stamped below 2^32 seconds, into a new capture file
  -- succeeds, and the file then holds exactly the source's frames with their timestamps, in order.
  pub run-written :
      (source : List Sourced)
      → AllWritable (calls source)
      → (outputs : Outputs lib) × (writer : PcapWriter) × ((open_writer >>= λ writer.
            run lib source (build_outputs lib (some writer)))
          ≡ ok (length source, outputs))
        × (outputs.writer ≡ some writer)
        × (read_records (length writer.file) (drop 24 writer.file) ≡ some (captured (calls source)))
  run-written source h =
      let (writer, e, link, records) = write_all-read (calls source) h in
      (recorded source writer, writer, run-recorded source writer e, refl, records)
