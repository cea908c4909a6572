-- ===== src/Decoder/Tests.antt =====
-- A frame cut short.
use root_wire.Base.{◌+◌, ◌<◌, ◌≡◌, ◌↔◌, refl, true, none, [], ◌∷◌, length}
use root_wire.Samples.{two_layers, web_frame, SomeLayer, some_ipv4, word}
use root_wire.Compiler.Words.{codes}
use root_wire.Headers.{Header, Ipv6}
use root_wire.Frame.{Netprotocols}
use root_wire.Decoder.{decode_frame}
use root_wire.Decoder.Correct.{decode_frame-ipv4, decode_frame-ipv6}

decode_frame-ipv4_example :
    (((decode_frame two_layers web_frame 1 5 none).truncated ≡ true)
      ↔ (length web_frame < 14 + some_ipv4.total_length))
    × (((decode_frame two_layers web_frame 1 5 none).malformed_length ≡ true)
        ↔ ((0 < some_ipv4.total_length) × (some_ipv4.total_length < some_ipv4.header_len)))
decode_frame-ipv4_example =
    decode_frame-ipv4 two_layers web_frame 1 5 none some_ipv4 SomeLayer.ipv4
      (SomeLayer.ethernet ∷ []) (SomeLayer.tcp ∷ []) refl (refl, refl, tt) refl

abbrev v6_header : Ipv6
v6_header = record {
  src = word (codes "fe80::1") refl;
  dst = word (codes "fe80::2") refl;
  hop_limit = 255;
  traffic_class_hex_str = word (codes "0x00") refl;
  flow_label_hex_str = word (codes "0x00000") refl;
  payload_length = 8;
  header_len = 40;
  next_header_name = word (codes "ICMPv6") refl;
}

-- A package whose frames hold an IPv6 header of forty bytes and a payload of eight.
abbrev v6_only : Netprotocols
v6_only = record {
  Layer = SomeLayer;
  header = λ l. Header.ipv6 v6_header;
  header_len = λ l. 40;
  decode_chain =
      λ depth bytes. record { layers = SomeLayer.tcp ∷ []; consumed = 54; stopped_by = none };
}

decode_frame-ipv6_example :
    ((decode_frame v6_only web_frame 1 5 none).truncated ≡ true)
    ↔ (length web_frame < 14 + v6_header.header_len + v6_header.payload_length)
decode_frame-ipv6_example =
    decode_frame-ipv6 v6_only web_frame 1 5 none v6_header SomeLayer.tcp [] [] refl tt refl refl
