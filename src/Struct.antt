-- ===== src/Struct.antt =====
-- Numbers in bytes, as the `struct` module of the language packs and unpacks them.
pub mod Fields
use root_wire.Base.{
  ℕ, zero, suc, ◌+◌, ◌*◌, ◌/◌, ◌%◌, ◌^◌, Bool, true, false, List, [], ◌∷◌, Result, ok, err, ltb,
  if◌then◌else◌,
}

-- `struct.error`: a field whose number does not fit its width.
pub data PackError : Type 0 where
  struct_error : PackError

-- The bytes of a number, the least significant first.
unfoldable pub little_bytes : ℕ → ℕ → List ℕ
little_bytes zero n = []
little_bytes (suc width) n = n % 256 ∷ little_bytes width (n / 256)

unfoldable pub reverse_onto : List ℕ → List ℕ → List ℕ
reverse_onto acc [] = acc
reverse_onto acc (b ∷ bytes) = reverse_onto (b ∷ acc) bytes

-- A byte order: little-endian or big-endian.
unfoldable pub in_order : Bool → List ℕ → List ℕ
unfolding reverse_onto
in_order little bytes = if little then bytes else reverse_onto [] bytes

unfoldable pub pack_field : Bool → ℕ → ℕ → Result PackError (List ℕ)
unfolding in_order little_bytes
pack_field little width n =
    if ltb n (256 ^ width) then ok (in_order little (little_bytes width n)) else err struct_error

-- The number that bytes stand for.
abbrev pub of_little : List ℕ → ℕ
of_little [] = 0
of_little (b ∷ bytes) = b + 256 * of_little bytes

abbrev pub value : Bool → List ℕ → ℕ
value true bytes = of_little bytes
value false bytes = of_little (reverse_onto [] bytes)
