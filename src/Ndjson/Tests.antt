-- ===== src/Ndjson/Tests.antt =====
-- A frame as a line of JSON, and the theorems at concrete inputs.
use root_wire.Base.{◌≡◌, refl, none, some, [], ◌∷◌, Result, ok, err}
use root_wire.Compiler.Syntax.{Text}
use root_wire.Compiler.Words.{codes, text_eq}
use root_wire.Decoder.{decode_frame}
use root_wire.Samples.{two_layers, web_frame, SomeLayer}
use root_wire.Terminal.{hex}
use root_wire.Terminal.Safe.{AllAscii}
use root_wire.Screen.Format.{decimal, hex_bytes}
use root_wire.Ndjson.Json.{
  number, bytes, array, cons, nil, Fields, end, field, TypeError, not_serializable, dumps, quote,
}
use root_wire.Ndjson.{ndjson_line, layer_object, json_safe}
use root_wire.Ndjson.Line.{FlatBytes, ndjson_line-Dumped}
use root_wire.Ndjson.Key.{lookup, IsDict, lookup-layer_object}

abbrev some_dict : SomeLayer → Fields
some_dict SomeLayer.tcp =
    field (codes "src_port") (number 443) (field (codes "options") (bytes (1 ∷ 255 ∷ [])) end)
some_dict _ = end

line : Result TypeError Text
unfolding ndjson_line
line = ndjson_line two_layers some_dict (decode_frame two_layers web_frame 1 5 none)

line_text :
    line
    ≡ ok (
        codes
          "{\"number\":1,\"timestamp\":5,\"interface\":null,\"length\":44,\"truncated\":true,\"malformed_length\":false,\"error\":null,\"payload_len\":0,\"layers\":[{\"type\":\"Ethernet\"},{\"type\":\"IPv4\"},{\"type\":\"TCP\",\"src_port\":443,\"options\":\"01ff\"}]}")
unfolding line decode_frame decimal hex_bytes text_eq
line_text = refl

-- A quotation mark, an escape, a right-to-left override and a character of two units.
quoted : quote (34 ∷ 27 ∷ 0x202e ∷ 0x1f600 ∷ []) ≡ codes "\"\\\"\\u001b\\u202e\\ud83d\\ude00\""
unfolding quote hex
quoted = refl

nested_bytes : dumps (array (cons (bytes []) nil)) ≡ err not_serializable
unfolding dumps
nested_bytes = refl

some_dict-flat : (l : SomeLayer) → FlatBytes (some_dict l)
unfolding json_safe
some_dict-flat SomeLayer.ethernet = tt
some_dict-flat SomeLayer.ipv4 = tt
some_dict-flat SomeLayer.tcp = (tt, (tt, tt))

ndjson_line-Dumped_example :
    (line : Text) × (ndjson_line two_layers some_dict (decode_frame two_layers web_frame 1 5 none)
      ≡ ok line)
    × AllAscii line
ndjson_line-Dumped_example =
    ndjson_line-Dumped two_layers some_dict some_dict-flat
      (decode_frame two_layers web_frame 1 5 none)

-- An echo request: its own field `type` stands where the name of its class should.
abbrev echo : Fields
echo = field (codes "type") (number 8) (field (codes "code") (number 0) end)

lookup-layer_object_example :
    lookup (codes "type") (layer_object (codes "ICMPv4") echo) ≡ some (number 8)
unfolding lookup text_eq json_safe IsDict
lookup-layer_object_example =
    lookup-layer_object (codes "type") (codes "ICMPv4") echo (refl, (refl, tt))
