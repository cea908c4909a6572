-- ===== src/Screen/Utf8.antt =====
-- `payload.decode(errors="ignore")`: UTF-8, where bytes that are no part of a character are left out.
use root_wire.Base.{
  ℕ, zero, suc, ◌+◌, ◌-◌, ◌*◌, List, [], ◌∷◌, ◌++◌, Option, none, some, leb, ◌&&◌, if◌then◌else◌,
}
use root_wire.Compiler.Syntax.{Text}

-- A character begun: how many bytes behind the next one, the range of the next, and the bits so far.
pub record Pending : Type 0 where
  pub behind : ℕ
  pub low : ℕ
  pub high : ℕ
  pub value : ℕ

abbrev begin : ℕ → ℕ → ℕ → ℕ → Option Pending
begin behind low high value =
    some (record { behind = behind; low = low; high = high; value = value })

-- What a byte begins at the start of a character, if it does not stand alone.
unfoldable pub lead : ℕ → Option Pending
lead byte =
    if leb 0xc2 byte && leb byte 0xdf
    then begin 0 0x80 0xbf (byte - 0xc0)
    else if leb 0xe0 byte && leb byte 0xef
    then begin 1 (if leb byte 0xe0 then 0xa0 else 0x80)
        (if leb 0xed byte && leb byte 0xed then 0x9f else 0xbf) (byte - 0xe0)
    else if leb 0xf0 byte && leb byte 0xf4
    then begin 2 (if leb byte 0xf0 then 0x90 else 0x80) (if leb 0xf4 byte then 0x8f else 0xbf)
        (byte - 0xf0)
    else none

-- A byte at the start of a character: what it is by itself, and what it begins.
unfoldable pub at_start : ℕ → Text × Option Pending
unfolding lead
at_start byte = if leb byte 0x7f then (byte ∷ [], none) else ([], lead byte)

abbrev add_bits : Pending → ℕ → ℕ
add_bits pending byte = pending.value * 64 + (byte - 0x80)

-- A byte that the character begun can have next.
unfoldable pub continue : Pending → ℕ → ℕ → Text × Option Pending
continue pending byte zero = (add_bits pending byte ∷ [], none)
continue pending byte (suc behind) = ([], begin behind 0x80 0xbf (add_bits pending byte))

-- One byte. Where it cannot continue what was begun, that is left out.
unfoldable pub decode_byte : Option Pending → ℕ → Text × Option Pending
unfolding at_start continue
decode_byte none byte = at_start byte
decode_byte (some pending) byte =
    if leb pending.low byte && leb byte pending.high
    then continue pending byte pending.behind
    else at_start byte

unfoldable pub decode_from : Option Pending → List ℕ → Text
unfolding decode_byte
decode_from pending [] = []
decode_from pending (byte ∷ bytes) =
    (decode_byte pending byte).0 ++ decode_from (decode_byte pending byte).1 bytes

unfoldable pub decode_ignore : List ℕ → Text
unfolding decode_from
decode_ignore bytes = decode_from none bytes
