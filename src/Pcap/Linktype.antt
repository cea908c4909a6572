-- ===== src/Pcap/Linktype.antt =====
pub mod Walk
-- src/rootwire/pcap.py, `_declared_linktype` and `_pcapng_linktype`: what a capture says it holds.
use root_wire.Base.{
  ℕ, zero, suc, ◌+◌, ◌-◌, Bool, true, false, Option, none, some, List, [], ◌∷◌, ltb, leb, ◌==◌,
  ◌&&◌, ◌||◌, if◌then◌else◌, length, take, drop, not,
}
use root_wire.Struct.{value}

-- `data[start:stop]`
unfoldable pub slice : List ℕ → ℕ → ℕ → List ℕ
slice bytes start stop = take (stop - start) (drop start bytes)

unfoldable pub bytes_eq : List ℕ → List ℕ → Bool
bytes_eq [] [] = true
bytes_eq [] (b ∷ t) = false
bytes_eq (a ∷ s) [] = false
bytes_eq (a ∷ s) (b ∷ t) = a == b && bytes_eq s t

-- `struct.unpack_from` of one number, where there are bytes enough.
unfoldable pub unpack_from : Bool → ℕ → List ℕ → ℕ → ℕ
unfolding slice
unpack_from little width bytes offset = value little (slice bytes offset (offset + width))

-- `_SHB_TYPE`
abbrev pub shb_type : List ℕ
shb_type = 0x0a ∷ 0x0d ∷ 0x0d ∷ 0x0a ∷ []

-- `struct.pack("<I", _SHB_BOM)`
abbrev pub little_bom : List ℕ
little_bom = 0x4d ∷ 0x3c ∷ 0x2b ∷ 0x1a ∷ []

-- A block of the walk: the byte order from here on, its type and its length.
pub record Block : Type 0 where
  pub little : Bool
  pub block_type : ℕ
  pub block_len : ℕ

unfoldable pub is_section : List ℕ → ℕ → Bool
unfolding slice bytes_eq
is_section bytes cursor = bytes_eq (slice bytes cursor (cursor + 4)) shb_type

-- A section header says the byte order anew.
unfoldable pub order_at : List ℕ → ℕ → Bool → Bool
unfolding is_section
order_at bytes cursor little =
    if is_section bytes cursor
    then bytes_eq (slice bytes (cursor + 8) (cursor + 12)) little_bom
    else little

-- The block at the cursor, none where the loop ends or breaks.
unfoldable pub block_at : List ℕ → ℕ → Bool → Option Block
unfolding order_at unpack_from
block_at bytes cursor little =
    let order = order_at bytes cursor little in
    let size = unpack_from order 4 bytes (cursor + 4) in
    if ltb (length bytes) (cursor + 8)
      || (is_section bytes cursor && ltb (length bytes) (cursor + 12))
      || ltb size 12
      || ltb (length bytes) (cursor + size)
    then none
    else some
        (record { little = order; block_type = unpack_from order 4 bytes cursor; block_len = size })

-- The link type of an Interface Description Block.
unfoldable pub interface_link : List ℕ → ℕ → Block → Option ℕ
unfolding unpack_from
interface_link bytes cursor block =
    if block.block_type == 1 && leb 16 block.block_len
    then some (unpack_from block.little 2 bytes (cursor + 8))
    else none

pub data Scan : Type 0 where
  done : Option ℕ → Scan
  out_of_fuel : Scan

-- The loop, with fuel for its rounds.
unfoldable pub scan_from : ℕ → List ℕ → ℕ → Bool → Option ℕ → Scan
unfolding block_at interface_link
scan_from zero bytes cursor little found = out_of_fuel
scan_from (suc fuel) bytes cursor little found = elim (block_at bytes cursor little) [
  | none ↦ done found
  | some block ↦ elim (interface_link bytes cursor block) [
    | none ↦ scan_from fuel bytes (cursor + block.block_len) block.little found
    | some link_type ↦
        let rest = scan_from fuel bytes (cursor + block.block_len) block.little (some 1) in
        if link_type == 1 then rest else done (some link_type)
  ]
]

-- `_pcapng_linktype`, with a round for each byte and one more.
unfoldable pub pcapng_linktype : List ℕ → Scan
unfolding scan_from
pcapng_linktype bytes =
    let scan = scan_from (suc (length bytes)) bytes 0 true none in
    if ltb (length bytes) 12 || not (bytes_eq (slice bytes 0 4) shb_type) then done none else scan

-- `_PCAP_MAGICS_LE`
unfoldable pub is_little_magic : List ℕ → Bool
unfolding bytes_eq
is_little_magic magic =
    bytes_eq magic (0xd4 ∷ 0xc3 ∷ 0xb2 ∷ 0xa1 ∷ [])
    || bytes_eq magic (0x4d ∷ 0x3c ∷ 0xb2 ∷ 0xa1 ∷ [])

-- `_PCAP_MAGICS`
unfoldable pub is_magic : List ℕ → Bool
unfolding is_little_magic
is_magic magic =
    is_little_magic magic
    || bytes_eq magic (0xa1 ∷ 0xb2 ∷ 0xc3 ∷ 0xd4 ∷ [])
    || bytes_eq magic (0xa1 ∷ 0xb2 ∷ 0x3c ∷ 0x4d ∷ [])

-- `_declared_linktype`
unfoldable pub declared_linktype : List ℕ → Scan
unfolding is_magic pcapng_linktype
declared_linktype bytes =
    let magic = slice bytes 0 4 in
    if leb 24 (length bytes) && is_magic magic
    then done (some (unpack_from (is_little_magic magic) 4 bytes 20))
    else pcapng_linktype bytes
