-- ===== src/Screen/Checksum.antt =====
-- src/rootwire/output.py, `_format_option`, `_trailing_bytes`, `_is_fragmented` and
-- `_checksum_note`. The checksums of the netprotocols package are a parameter.
pub mod Exact
pub mod Trailing
use root_wire.Base.{
  ℕ, zero, suc, ◌+◌, Bool, true, false, Option, none, some, List, [], ◌∷◌, ◌++◌, err, ok, bit_and,
  not, ◌==◌, ltb, ◌||◌, length, drop, if◌then◌else◌,
}
use root_wire.Compiler.Syntax.{Text}
use root_wire.Compiler.Words.{codes}
use root_wire.Headers.{
  Checked, TlvOption, OptionValue, raw, tuple, single, Header, fragment, Ipv4, Ipv6,
}
use root_wire.Frame.{Netprotocols, DecodedFrame, layer, as_ipv4, as_ipv6}
use root_wire.Screen.Format.{format, decimal, hex_number}

-- `_format_option`
unfoldable pub format_option : TlvOption → Text
format_option option = elim option.value [
  | raw ↦
      if length option.content == 0
      then option.kind_name.text
      else format (
          option.kind_name.text
          ∷ codes " ("
          ∷ decimal (length option.content)
          ∷ codes " bytes)"
          ∷ [])
  | tuple value ↦ format (option.kind_name.text ∷ codes " " ∷ value.text ∷ [])
  | single value ↦ format (option.kind_name.text ∷ codes " (" ∷ value.text ∷ codes ")" ∷ [])
]

-- `verify` and `compute` of the package, for a layer, the IP layer around it, and what follows it.
pub record Checksums (Layer : Type 0) : Type 0 where
  pub verify : Layer → Option Layer → List ℕ → Checked Bool
  pub compute : Layer → Option Layer → List ℕ → Checked ℕ

-- `ipv4.flags & 0b001 or ipv4.fragment_offset > 0`
unfoldable pub is_fragment_of : Option Ipv4 → Bool
is_fragment_of none = false
is_fragment_of (some ip) = not (bit_and ip.flags 0b001 == 0) || ltb 0 ip.fragment_offset

abbrev pub is_ipv6_fragment : Header → Bool
is_ipv6_fragment (fragment _) = true
is_ipv6_fragment _ = false

-- What `verify` gives, and `compute`, which the code asks only behind a `verify` that is false.
unfoldable pub mismatch_note : Checked Bool → Checked ℕ → Text
mismatch_note (err invalid) computed = []
mismatch_note (ok true) computed = []
mismatch_note (ok false) (err invalid) = []
mismatch_note (ok false) (ok expected) =
    format (codes " [!] mismatch (expected " ∷ hex_number 4 expected ∷ codes ")" ∷ [])

module _ (lib : Netprotocols) where
  -- The cursor behind the layer at a position, if there is one.
  unfoldable pub cursor_behind : ℕ → ℕ → List lib.Layer → Option ℕ
  cursor_behind cursor position [] = none
  cursor_behind cursor zero (candidate ∷ layers) = some (cursor + lib.header_len candidate)
  cursor_behind cursor (suc position) (candidate ∷ layers) =
      cursor_behind (cursor + lib.header_len candidate) position layers

  -- `_trailing_bytes`, for the layer at a position, which stands for its identity.
  unfoldable pub trailing_bytes : DecodedFrame lib.Layer → ℕ → List ℕ
  unfolding cursor_behind
  trailing_bytes frame position = elim (cursor_behind 0 position frame.layers) [
    | some cursor ↦ drop cursor frame.raw
    | none ↦ frame.payload
  ]

  unfoldable pub any_ipv6_fragment : List lib.Layer → Bool
  any_ipv6_fragment [] = false
  any_ipv6_fragment (l ∷ layers) = is_ipv6_fragment (lib.header l) || any_ipv6_fragment layers

  -- `_is_fragmented`
  unfoldable pub is_fragmented : DecodedFrame lib.Layer → Bool
  unfolding layer is_fragment_of any_ipv6_fragment
  is_fragmented frame =
      is_fragment_of (layer (as_ipv4 lib) frame.layers) || any_ipv6_fragment frame.layers

  module _ (checksums : Checksums lib.Layer) where
    -- `_checksum_note`
    unfoldable pub checksum_note : lib.Layer → Option lib.Layer → List ℕ → Text
    unfolding mismatch_note
    checksum_note l ip payload =
        mismatch_note (checksums.verify l ip payload) (checksums.compute l ip payload)

    -- The note of a transport layer, which a fragment does not have.
    unfoldable pub transport_note :
        DecodedFrame lib.Layer → lib.Layer → Option lib.Layer → List ℕ → Text
    unfolding is_fragmented checksum_note
    transport_note frame l ip payload =
        if is_fragmented frame then [] else checksum_note l ip payload

  -- The layer itself, if it is an `IPv4`, or an `IPv6`.
  abbrev pub ipv4_layer : lib.Layer → Option lib.Layer
  ipv4_layer l = elim (as_ipv4 lib l) [ none ↦ none | some ip ↦ some l ]

  abbrev pub ipv6_layer : lib.Layer → Option lib.Layer
  ipv6_layer l = elim (as_ipv6 lib l) [ none ↦ none | some ip ↦ some l ]

  -- `frame.layer(IPv4) or frame.layer(IPv6)`
  unfoldable pub ip_layer : List lib.Layer → Option lib.Layer
  unfolding layer
  ip_layer layers = elim (layer ipv4_layer layers) [
    | some ip ↦ some ip
    | none ↦ layer ipv6_layer layers
  ]
