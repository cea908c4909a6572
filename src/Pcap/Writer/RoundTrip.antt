-- ===== src/Pcap/Writer/RoundTrip.antt =====
-- A file that was written holds an Ethernet capture of the frames that were written, in order.
use root_wire.Base.{
  ℕ, zero, suc, ◌+◌, ◌*◌, ◌/◌, ◌%◌, ◌<◌, ◌≤◌, ◌≡◌, refl, sym, ap, ◌∙◌, true, false, Option, none,
  some, List, [], ◌∷◌, ◌++◌, Result, ok, ◌>>=◌, length, take, drop, ltb, if◌then◌else◌, arith,
  le→ltb, append_assoc, append-nil, length-append, leb,
}
use root_wire.Struct.{value}
use root_wire.Struct.Fields.{word_bytes, word-packs, word_lem}
use root_wire.Pcap.Linktype.{done, declared_linktype, slice}
use root_wire.Pcap.Writer.{
  WriteError, PcapWriter, field_of, open_writer, record_header, stamp, write,
}
use root_wire.Pcap.Replay.{Captured, Parser, read_captures}

abbrev pub second : Option (List Captured) → Captured → Option (List Captured)
second none frame = none
second (some frames) frame = some (frame ∷ frames)

-- The records of a classic little-endian capture with nanoseconds, so many at most: sixteen bytes of
-- header and as many bytes of data as the header's third number says. None if bytes are left over or
-- missing.
abbrev pub read_records : ℕ → List ℕ → Option (List Captured)
read_records n [] = some []
read_records (suc n)
      (s₀ ∷ s₁ ∷ s₂ ∷ s₃ ∷ n₀ ∷ n₁ ∷ n₂ ∷ n₃ ∷ i₀ ∷ i₁ ∷ i₂ ∷ i₃ ∷ o₀ ∷ o₁ ∷ o₂ ∷ o₃ ∷ bytes) =
    let size = value true (i₀ ∷ i₁ ∷ i₂ ∷ i₃ ∷ []) in
    let sec = value true (s₀ ∷ s₁ ∷ s₂ ∷ s₃ ∷ []) in
    let nsec = value true (n₀ ∷ n₁ ∷ n₂ ∷ n₃ ∷ []) in
    let rest = read_records n (drop size bytes) in
    if ltb (length bytes) size
    then none
    else second rest (take size bytes, sec * 1_000_000_000 + nsec)
read_records n bytes = none

-- Calls of `write` one after another, each at a time.
abbrev pub write_all : List (ℕ × List ℕ × Option ℕ) → PcapWriter → Result WriteError PcapWriter
write_all [] writer = ok writer
write_all ((now, bytes, timestamp) ∷ calls) writer =
    write now bytes timestamp writer >>= write_all calls

-- A frame shorter than 2^32 bytes, stamped with less than 2^32 seconds.
abbrev pub AllWritable : List (ℕ × List ℕ × Option ℕ) → Type 0
AllWritable [] = Unit {0}
AllWritable ((now, bytes, timestamp) ∷ calls) =
    (length bytes < 0x1_0000_0000)
    × (stamp now timestamp / 1_000_000_000 < 0x1_0000_0000)
    × AllWritable calls

abbrev pub captured : List (ℕ × List ℕ × Option ℕ) → List Captured
captured [] = []
captured ((now, bytes, timestamp) ∷ calls) = (bytes, stamp now timestamp) ∷ captured calls

word-field_of : (n : ℕ) → n < 0x1_0000_0000 → field_of 4 n ≡ ok (word_bytes true n)
unfolding field_of
word-field_of n h = rw (word-packs true n h)

-- The bytes that a call appends.
abbrev record_bytes : ℕ → List ℕ → List ℕ
record_bytes t bytes =
    word_bytes true (t / 1_000_000_000)
    ++ word_bytes true (t % 1_000_000_000)
    ++ word_bytes true (length bytes)
    ++ word_bytes true (length bytes)

write-appends :
    (now : ℕ) (bytes : List ℕ) (timestamp : Option ℕ) (file : List ℕ)
    → length bytes < 0x1_0000_0000
    → stamp now timestamp / 1_000_000_000 < 0x1_0000_0000
    → write now bytes timestamp (record { file = file; is_open = true })
      ≡ ok (record {
        file = file ++ record_bytes (stamp now timestamp) bytes ++ bytes;
        is_open = true;
      })
unfolding write record_header
write-appends now bytes timestamp file h k = rw (
  word-field_of (stamp now timestamp / 1_000_000_000) k,
  word-field_of (stamp now timestamp % 1_000_000_000) (omega arith),
  word-field_of (length bytes) h,
)

take-append : (xs ys : List ℕ) → take (length xs) (xs ++ ys) ≡ xs
take-append [] ys = refl
take-append (x ∷ xs) ys = ap (λ zs. x ∷ zs) (take-append xs ys)

drop-append : (xs ys : List ℕ) → drop (length xs) (xs ++ ys) ≡ ys
drop-append [] ys = refl
drop-append (x ∷ xs) ys = drop-append xs ys

read_records-record :
    (n t : ℕ) (bytes rest : List ℕ)
    → length bytes < 0x1_0000_0000
    → t / 1_000_000_000 < 0x1_0000_0000
    → read_records (suc n) (record_bytes t bytes ++ bytes ++ rest)
      ≡ second (read_records n rest) (bytes, t)
read_records-record n t bytes rest h k =
    rw
      (
        word_lem (length bytes) h,
        word_lem (t / 1_000_000_000) k,
        word_lem (t % 1_000_000_000) (omega arith),
        le→ltb (length (bytes ++ rest)) (length bytes) (omega (arith, length-append bytes rest)),
        take-append bytes rest,
        drop-append bytes rest,
      )
      (ap (λ s. second (read_records n rest) (bytes, s)) (omega arith))

body : List (ℕ × List ℕ × Option ℕ) → List ℕ
body [] = []
body ((now, bytes, timestamp) ∷ calls) =
    record_bytes (stamp now timestamp) bytes ++ bytes ++ body calls

write_all-body :
    (calls : List (ℕ × List ℕ × Option ℕ)) (file : List ℕ)
    → AllWritable calls
    → write_all calls (record { file = file; is_open = true })
      ≡ ok (record { file = file ++ body calls; is_open = true })
unfolding body
write_all-body [] file h =
    ap (λ f. ok (record { file = f; is_open = true })) (sym (append-nil file))
write_all-body ((now, bytes, timestamp) ∷ calls) file (h, k, hs) =
    let t = stamp now timestamp in
    rw (write-appends now bytes timestamp file h k) (
      write_all-body calls (file ++ record_bytes t bytes ++ bytes) hs
      ∙ ap (λ f. ok (record { file = f; is_open = true }))
          (append_assoc (file ++ record_bytes t bytes) bytes (body calls)
            ∙ append_assoc file (record_bytes t bytes) (bytes ++ body calls)))

read_records-body :
    (calls : List (ℕ × List ℕ × Option ℕ)) (n : ℕ)
    → length calls ≤ n
    → AllWritable calls
    → read_records n (body calls) ≡ some (captured calls)
unfolding body
read_records-body [] zero below h = refl
read_records-body [] (suc n) below h = refl
read_records-body (call ∷ calls) zero below h = absurd (omega arith)
read_records-body ((now, bytes, timestamp) ∷ calls) (suc n) below (h, k, hs) =
    read_records-record n (stamp now timestamp) bytes (body calls) h k
    ∙ ap (λ frames. second frames (bytes, stamp now timestamp))
        (read_records-body calls n (omega arith) hs)

length-body : (calls : List (ℕ × List ℕ × Option ℕ)) → length calls ≤ length (body calls)
unfolding body
length-body [] = omega arith
length-body ((now, bytes, timestamp) ∷ calls) =
    omega (arith, length-append bytes (body calls), length-body calls)

header : List ℕ
header =
    0x4d ∷ 0x3c ∷ 0xb2 ∷ 0xa1 ∷ 2 ∷ 0 ∷ 4 ∷ 0 ∷ 0 ∷ 0 ∷ 0 ∷ 0 ∷ 0 ∷ 0 ∷ 0 ∷ 0 ∷ 0x0e ∷ 0 ∷ 1 ∷ 0 ∷ 1
    ∷ 0 ∷ 0 ∷ 0 ∷ []

open_writer-header : open_writer ≡ ok (record { file = header; is_open = true })
unfolding open_writer header
open_writer-header = refl

header-Ethernet : (rest : List ℕ) → declared_linktype (header ++ rest) ≡ done (some 1)
unfolding declared_linktype header
header-Ethernet rest =
    let e : leb 24 (length (header ++ rest)) ≡ true = ground arith in rw (declared_linktype, e)

-- Frames shorter than 2^32 bytes with timestamps below 2^32 seconds are all written. The file then
-- declares the Ethernet link type, and behind its 24 bytes of header stand exactly the frames that
-- were written, in order, each with its timestamp to the nanosecond.
pub write_all-read :
    (calls : List (ℕ × List ℕ × Option ℕ))
    → AllWritable calls
    → (writer : PcapWriter) × ((open_writer >>= write_all calls) ≡ ok writer)
      × (declared_linktype writer.file ≡ done (some 1))
      × (read_records (length writer.file) (drop 24 writer.file) ≡ some (captured calls))
unfolding header
write_all-read calls h = (
  record { file = header ++ body calls; is_open = true },
  rw open_writer-header (write_all-body calls header h),
  header-Ethernet (body calls),
  read_records-body calls (length (header ++ body calls)) (omega (arith, length-body calls)) h,
)

-- A parser that, on a file of the little-endian magic number for nanoseconds, yields its records and
-- raises nothing: what it reads of a written file are the frames that were written, in order, each
-- with its timestamp, and no exception.
pub read_captures-write_all :
    (parser : Parser) (calls : List (ℕ × List ℕ × Option ℕ))
    → ((file : List ℕ) (frames : List Captured)
        → slice file 0 4 ≡ (0x4d ∷ 0x3c ∷ 0xb2 ∷ 0xa1 ∷ [])
        → read_records (length file) (drop 24 file) ≡ some frames
        → parser.parse file ≡ (frames, false))
    → AllWritable calls
    → (writer : PcapWriter) × ((open_writer >>= write_all calls) ≡ ok writer)
      × (read_captures parser writer.file ≡ record { frames = captured calls; error = none })
unfolding read_captures header slice
read_captures-write_all parser calls documented h =
    let file = header ++ body calls in
    let records = read_records-body calls (length file) (omega (arith, length-body calls)) h in
    (
      record { file = file; is_open = true },
      rw open_writer-header (write_all-body calls header h),
      rw (header-Ethernet (body calls), documented file (captured calls) refl records),
    )
