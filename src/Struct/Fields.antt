-- ===== src/Struct/Fields.antt =====
-- The bytes of fields of two, one and four bytes, and what they stand for.
use root_wire.Base.{
  ℕ, ◌+◌, ◌*◌, ◌/◌, ◌%◌, ◌<◌, ◌≡◌, ap, Bool, true, false, List, [], ◌∷◌, ok, arith, lt→ltb,
}
use root_wire.Struct.{pack_field}

pub half_lem : (n : ℕ) → n < 0x1_0000 → n % 256 + 256 * (n / 256 % 256 + 256 * 0) ≡ n
half_lem n h = omega arith

pub word_lem :
    (n : ℕ)
    → n < 0x1_0000_0000
    → n % 256
        + 256
          * (n / 256 % 256
              + 256 * (n / 256 / 256 % 256 + 256 * (n / 256 / 256 / 256 % 256 + 256 * 0)))
      ≡ n
word_lem n h = omega arith

abbrev pub half_bytes : Bool → ℕ → List ℕ
half_bytes true n = n % 256 ∷ n / 256 % 256 ∷ []
half_bytes false n = n / 256 % 256 ∷ n % 256 ∷ []

abbrev pub word_bytes : Bool → ℕ → List ℕ
word_bytes true n = n % 256 ∷ n / 256 % 256 ∷ n / 256 / 256 % 256 ∷ n / 256 / 256 / 256 % 256 ∷ []
word_bytes false n = n / 256 / 256 / 256 % 256 ∷ n / 256 / 256 % 256 ∷ n / 256 % 256 ∷ n % 256 ∷ []

pub half-packs :
    (little : Bool) (n : ℕ) → n < 0x1_0000 → pack_field little 2 n ≡ ok (half_bytes little n)
unfolding pack_field
half-packs true n h = rw (lt→ltb n 0x1_0000 h)
half-packs false n h = rw (lt→ltb n 0x1_0000 h)

pub byte-packs : (little : Bool) (n : ℕ) → n < 256 → pack_field little 1 n ≡ ok (n ∷ [])
unfolding pack_field
byte-packs true n h = rw (lt→ltb n 256 h) (ap (λ m. ok (m ∷ [])) (omega arith))
byte-packs false n h = rw (lt→ltb n 256 h) (ap (λ m. ok (m ∷ [])) (omega arith))

pub word-packs :
    (little : Bool) (n : ℕ) → n < 0x1_0000_0000 → pack_field little 4 n ≡ ok (word_bytes little n)
unfolding pack_field
word-packs true n h = rw (lt→ltb n 0x1_0000_0000 h)
word-packs false n h = rw (lt→ltb n 0x1_0000_0000 h)
