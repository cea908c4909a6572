-- ===== src/Decoder.antt =====
-- src/rootwire/decoder.py: a frame's bytes to a decoded frame.
pub mod Correct
mod Tests
use root_wire.Base.{
  ℕ, ◌+◌, Bool, true, false, Option, none, some, List, [], ◌∷◌, ltb, ◌&&◌, length, drop,
}
use root_wire.Compiler.Syntax.{Text}
use root_wire.Headers.{Ipv4, Ipv6}
use root_wire.Frame.{as_ipv4, as_ipv6, Packet, Netprotocols, DecodedFrame, layer}

module _ (lib : Netprotocols) where
  -- `_declared_length`: the length that the first IP layer implies.
  unfoldable pub declared_length : List lib.Layer → Option ℕ
  declared_length [] = none
  declared_length (l ∷ layers) = elim (as_ipv4 lib l) [
    | some ip ↦ some (14 + ip.total_length)
    | none ↦ elim (as_ipv6 lib l) [
      | some ip ↦ some (14 + ip.header_len + ip.payload_length)
      | none ↦ declared_length layers
    ]
  ]

  -- `0 < layer.total_length < layer.header_len`
  abbrev pub lies : Ipv4 → Bool
  lies ip = ltb 0 ip.total_length && ltb ip.total_length ip.header_len

  -- `_ip_length_malformed`
  unfoldable pub ip_length_malformed : List lib.Layer → Bool
  ip_length_malformed [] = false
  ip_length_malformed (l ∷ layers) = elim (as_ipv4 lib l) [
    | some ip ↦ lies ip
    | none ↦ ip_length_malformed layers
  ]

  -- `declared is not None and declared > len(data)`
  abbrev pub is_truncated : Option ℕ → List ℕ → Bool
  is_truncated none bytes = false
  is_truncated (some declared) bytes = ltb (length bytes) declared

  -- `decode_frame`, with `_MAX_LAYERS`
  unfoldable pub decode_frame : List ℕ → ℕ → ℕ → Option Text → DecodedFrame lib.Layer
  unfolding declared_length ip_length_malformed
  decode_frame bytes number timestamp interface =
      let packet = lib.decode_chain 16 bytes in
      record {
        number = number;
        timestamp = timestamp;
        interface = interface;
        length = length bytes;
        layers = packet.layers;
        payload = drop packet.consumed bytes;
        truncated = is_truncated (declared_length packet.layers) bytes;
        malformed_length = ip_length_malformed packet.layers;
        error = packet.stopped_by;
        raw = bytes;
      }
