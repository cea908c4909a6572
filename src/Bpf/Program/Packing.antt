-- ===== src/Bpf/Program/Packing.antt =====
-- What is packed is what a reader of `struct sock_filter` finds.
use root_wire.Base.{
  ℕ, suc, ◌%◌, ◌<◌, ◌≡◌, refl, ap, ◌∙◌, Bool, true, false, List, [], ◌∷◌, ◌++◌, ok, length, arith,
}
use root_wire.Bpf.{SockFilter, sock_filter}
use root_wire.Struct.{reverse_onto, value}
use root_wire.Struct.Fields.{
  half_lem, word_lem, half_bytes, word_bytes, half-packs, byte-packs, word-packs,
}
use root_wire.Bpf.Program.{pack_instruction, pack_instructions, FilterProgram, filter_program}

-- An array of the structure as C reads it: so many elements, as far as there are bytes.
abbrev pub read_instructions : Bool → ℕ → List ℕ → List SockFilter
read_instructions little (suc n) (c₀ ∷ c₁ ∷ jt ∷ jf ∷ k₀ ∷ k₁ ∷ k₂ ∷ k₃ ∷ bytes) =
    sock_filter (value little (c₀ ∷ c₁ ∷ [])) jt jf (value little (k₀ ∷ k₁ ∷ k₂ ∷ k₃ ∷ []))
    ∷ read_instructions little n bytes
read_instructions little n bytes = []

-- The widths of `struct sock_filter`.
abbrev pub Encodable : List SockFilter → Type 0
Encodable [] = Unit {0}
Encodable (i ∷ instructions) =
    (i.code < 0x1_0000)
    × (i.jt < 256)
    × (i.jf < 256)
    × (i.k < 0x1_0000_0000)
    × Encodable instructions

abbrev instruction_bytes : Bool → SockFilter → List ℕ
instruction_bytes little i =
    half_bytes little i.code ++ (i.jt ∷ []) ++ (i.jf ∷ []) ++ word_bytes little i.k

instruction-packs :
    (little : Bool) (i : SockFilter)
    → (i.code < 0x1_0000) × (i.jt < 256) × (i.jf < 256) × (i.k < 0x1_0000_0000)
    → pack_instruction little i ≡ ok (instruction_bytes little i)
unfolding pack_instruction
instruction-packs little i (c, t, f, k) = rw (
  half-packs little i.code c,
  byte-packs little i.jt t,
  byte-packs little i.jf f,
  word-packs little i.k k,
)

fields-eq :
    {c k c' k' : ℕ} (jt jf : ℕ) (rest : List SockFilter)
    → c ≡ c'
    → k ≡ k'
    → ◌≡◌ {A = List SockFilter} (sock_filter c jt jf k ∷ rest) (sock_filter c' jt jf k' ∷ rest)
fields-eq {c} {k} {c'} {k'} jt jf rest e f =
    ap (λ c. sock_filter c jt jf k ∷ rest) e ∙ ap (λ k. sock_filter c' jt jf k ∷ rest) f

read_instructions-bytes :
    (little : Bool) (i : SockFilter) (n : ℕ) (bytes : List ℕ)
    → (i.code < 0x1_0000) × (i.jt < 256) × (i.jf < 256) × (i.k < 0x1_0000_0000)
    → read_instructions little (suc n) (instruction_bytes little i ++ bytes)
      ≡ i ∷ read_instructions little n bytes
unfolding reverse_onto
read_instructions-bytes true i n bytes (c, t, f, k) =
    fields-eq i.jt i.jf _ (half_lem i.code c) (word_lem i.k k)
read_instructions-bytes false i n bytes (c, t, f, k) =
    fields-eq i.jt i.jf _ (half_lem i.code c) (word_lem i.k k)

-- Instructions whose fields fit their widths are packed, eight bytes each, in either byte order, and
-- a reader of the structure finds them again.
record Packed (little : Bool) (instructions : List SockFilter) : Type 0 where
  bytes : List ℕ
  packed : pack_instructions little instructions ≡ ok bytes
  read : read_instructions little (length instructions) bytes ≡ instructions

Encodable-Packed :
    (little : Bool) (instructions : List SockFilter)
    → Encodable instructions
    → Packed little instructions
unfolding pack_instructions
Encodable-Packed little [] h = record { bytes = []; packed = refl; read = refl }
Encodable-Packed little (i ∷ instructions) (c, t, f, k, h) =
    let rest = Encodable-Packed little instructions h in
    record {
      bytes = instruction_bytes little i ++ rest.bytes;
      packed = rw (instruction-packs little i (c, t, f, k), rest.packed);
      read =
          read_instructions-bytes little i (length instructions) rest.bytes (c, t, f, k)
          ∙ ap (λ is. i ∷ is) rest.read;
    }

module _ (little : Bool) (instructions : List SockFilter) where
  -- Instructions whose fields fit the widths of `struct sock_filter` are packed in either byte order,
  -- and where there are fewer than 65536 of them, a reader who takes `len` instructions off the
  -- buffer finds them all.
  pub filter_program-read :
      Encodable instructions
      → length instructions < 0x1_0000
      → (fp : FilterProgram) × (filter_program little instructions ≡ ok fp)
        × (read_instructions little fp.len fp.buffer ≡ instructions)
  unfolding filter_program
  filter_program-read h short =
      let p = Encodable-Packed little instructions h in
      let fits : length instructions % 0x1_0000 ≡ length instructions = omega arith in
      (
        record { buffer = p.bytes; len = length instructions % 0x1_0000 },
        rw p.packed,
        ap (λ n. read_instructions little n p.bytes) fits ∙ p.read,
      )
