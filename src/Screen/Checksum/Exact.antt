-- ===== src/Screen/Checksum/Exact.antt =====
-- When a mismatch of a checksum is reported.
use root_wire.Base.{
  ℕ, ◌≡◌, ◌≢◌, ◌↔◌, refl, some, none, arith, ltb, not, ◌==◌, ◌||◌, ◌∷◌, bit_and, Bool, true, false,
  Option, List, [], err, ok, Bool-cases, inl, inr,
}
use root_wire.Headers.{Checked, Header, fragment, Ipv4}
use root_wire.Frame.{as_ipv4, layer, Netprotocols, DecodedFrame}
use root_wire.Screen.Format.{format}
use root_wire.Screen.Checksum.{
  is_fragment_of, is_ipv6_fragment, any_ipv6_fragment, Checksums, mismatch_note, checksum_note,
  transport_note, is_fragmented,
}

mismatch_note_iff :
    (verified : Checked Bool) (computed : Checked ℕ)
    → (mismatch_note verified computed ≢ [])
      ↔ ((verified ≡ ok false) × ((expected : ℕ) × (computed ≡ ok expected)))
unfolding mismatch_note format
mismatch_note_iff (err invalid) computed = (λ h. absurd (h refl), λ h. cc)
mismatch_note_iff (ok true) computed = (λ h. absurd (h refl), λ h. cc)
mismatch_note_iff (ok false) (err invalid) = (λ h. absurd (h refl), λ h. cc)
mismatch_note_iff (ok false) (ok expected) = (λ h. (refl, (expected, refl)), λ h. λ e. cc)

-- An IPv4 header that says: no more fragments, and offset 0. The lowest bit of the flags is set where
-- more follow.
abbrev pub IsWhole : Ipv4 → Type 0
IsWhole ip = (bit_and ip.flags 0b001 ≡ 0) × (ip.fragment_offset ≡ 0)

abbrev pub IsNoFragmentHeader : Header → Type 0
IsNoFragmentHeader (fragment h) = ⊥
IsNoFragmentHeader _ = Unit {0}

-- Both tests fail where each does.
both_false :
    {P Q : Type 0} (a b : Bool)
    → ((a ≡ false) ↔ P)
    → ((b ≡ false) ↔ Q)
    → ((a || b) ≡ false) ↔ (P × Q)
both_false true b f g = (λ h. cc, λ (p, q). f.1 p)
both_false false b f g = (λ h. (f.0 refl, g.0 h), λ (p, q). g.1 q)

flags-IsWhole :
    (bits offset : ℕ) → ((not (bits == 0) || ltb 0 offset) ≡ false) ↔ ((bits ≡ 0) × (offset ≡ 0))
flags-IsWhole bits offset = (λ h. (ground arith, ground arith), λ (p, q). ground arith)

is_ipv6_fragment-no : (h : Header) → (is_ipv6_fragment h ≡ false) ↔ IsNoFragmentHeader h
is_ipv6_fragment-no (fragment g) = (λ e. cc, λ n. absurd n)
is_ipv6_fragment-no _ = (λ e. tt, λ n. refl)

module _ (lib : Netprotocols) where
  -- The first IPv4 header, if there is one, is that of a whole datagram.
  abbrev pub FirstIsWhole : List lib.Layer → Type 0
  FirstIsWhole [] = Unit {0}
  FirstIsWhole (l ∷ layers) = elim (as_ipv4 lib l) [
    | some ip ↦ IsWhole ip
    | none ↦ FirstIsWhole layers
  ]

  -- No layer is a fragment header of IPv6.
  abbrev pub NoFragmentHeader : List lib.Layer → Type 0
  NoFragmentHeader [] = Unit {0}
  NoFragmentHeader (l ∷ layers) = IsNoFragmentHeader (lib.header l) × NoFragmentHeader layers

  first_iff :
      (layers : List lib.Layer)
      → (is_fragment_of (layer (as_ipv4 lib) layers) ≡ false) ↔ FirstIsWhole layers
  unfolding is_fragment_of layer
  first_iff [] = (λ h. tt, λ h. refl)
  first_iff (l ∷ layers) = by_class (as_ipv4 lib l) (first_iff layers)
    where
      by_class :
          (o : Option Ipv4)
          → ((is_fragment_of (layer (as_ipv4 lib) layers) ≡ false) ↔ FirstIsWhole layers)
          → (is_fragment_of (elim o [ some found ↦ some found | none ↦ layer (as_ipv4 lib) layers ])
              ≡ false)
            ↔ (elim o [ some ip ↦ IsWhole ip | none ↦ FirstIsWhole layers ])
      by_class none ih = ih
      by_class (some ip) ih = flags-IsWhole (bit_and ip.flags 0b001) ip.fragment_offset

  headers_iff :
      (layers : List lib.Layer) → (any_ipv6_fragment lib layers ≡ false) ↔ NoFragmentHeader layers
  unfolding any_ipv6_fragment
  headers_iff [] = (λ h. tt, λ h. refl)
  headers_iff (l ∷ layers) =
      let here = is_ipv6_fragment-no (lib.header l) in
      let later = headers_iff layers in
      both_false (is_ipv6_fragment (lib.header l)) (any_ipv6_fragment lib layers) here later

  -- Neither a fragment of IPv4 nor one of IPv6.
  abbrev pub NoFragment : List lib.Layer → Type 0
  NoFragment layers = FirstIsWhole layers × NoFragmentHeader layers

  is_fragmented_iff :
      (frame : DecodedFrame lib.Layer) → (is_fragmented lib frame ≡ false) ↔ NoFragment frame.layers
  unfolding is_fragmented
  is_fragmented_iff frame =
      both_false (is_fragment_of (layer (as_ipv4 lib) frame.layers))
        (any_ipv6_fragment lib frame.layers) (first_iff frame.layers) (headers_iff frame.layers)

module _ (lib : Netprotocols) (checksums : Checksums lib.Layer) where
  -- A mismatch is reported of an ICMP, TCP or UDP checksum exactly if the frame is no fragment, by its
  -- first IPv4 header and by its headers of IPv6, the package finds the checksum wrong, and the
  -- package can tell the right one.
  pub transport_note_iff :
      (frame : DecodedFrame lib.Layer) (l : lib.Layer) (ip : Option lib.Layer) (payload : List ℕ)
      → (transport_note lib checksums frame l ip payload ≢ []) ↔ (
          NoFragment lib frame.layers
          × (checksums.verify l ip payload ≡ ok false)
          × ((expected : ℕ) × (checksums.compute l ip payload ≡ ok expected)))
  unfolding transport_note checksum_note
  transport_note_iff frame l ip payload =
      let note =
        mismatch_note_iff (checksums.verify l ip payload) (checksums.compute l ip payload) in
      let whole = is_fragmented_iff lib frame in
      elim (Bool-cases (is_fragmented lib frame)) [
        | inl e ↦ rw e (λ h. absurd (h refl), λ h. let k = whole.1 h.0 in cc)
        | inr e ↦ rw e (λ h. let k = note.0 h in (whole.0 e, k.0, k.1), λ h. note.1 (h.1, h.2))
      ]
