-- ===== src/Screen/Render/Network.antt =====
-- The renderers of IPv4, IPv6 and its extension headers, and GRE.
use root_wire.Base.{ℕ, ◌*◌, Bool, List, [], ◌∷◌, ◌++◌, err, ok, ◌==◌, map, if◌then◌else◌}
use root_wire.Compiler.Syntax.{Text}
use root_wire.Compiler.Words.{codes}
use root_wire.Headers.{Checked, TlvOption, Ipv4, Ipv6, Ipv6Options, Ipv6Routing, Ipv6Fragment, Gre}
use root_wire.Screen.Format.{format, join, decimal, hex_number, indent, detail_indent}
use root_wire.Screen.Checksum.{format_option}

-- `_render_options_line`, behind its test of the options.
unfoldable pub options_line : Checked (List TlvOption) → List Text
unfolding format_option
options_line (err invalid) =
    format (detail_indent ∷ codes "[!] Options malformed: " ∷ invalid.text ∷ []) ∷ []
options_line (ok options) =
    format (detail_indent ∷ codes "Options: " ∷ join (codes ", ") (map format_option options) ∷ [])
    ∷ []

-- `_render_options_line`
unfoldable pub render_options_line : List ℕ → Checked (List TlvOption) → List Text
unfolding options_line
render_options_line [] parsed = []
render_options_line (byte ∷ options) parsed = options_line parsed

-- With the note on the checksum.
unfoldable pub render_ipv4 : Text → Ipv4 → List Text
unfolding render_options_line
render_ipv4 note layer =
    format (indent ∷ codes "[+] IPv4 " ∷ layer.src.text ∷ codes " -> " ∷ layer.dst.text ∷ [])
    ∷ format (
        detail_indent
        ∷ codes "TTL: "
        ∷ decimal layer.ttl
        ∷ codes " | Flags: "
        ∷ layer.flags_name.text
        ∷ codes " | Total Length: "
        ∷ decimal layer.total_length
        ∷ codes " | ID: "
        ∷ decimal layer.identification
        ∷ [])
    ∷ format (
        detail_indent
        ∷ codes "Protocol: "
        ∷ layer.protocol_name.text
        ∷ codes " | Checksum: "
        ∷ layer.checksum_hex_str.text
        ∷ note
        ∷ [])
    ∷ render_options_line layer.options layer.parsed_options

unfoldable pub render_ipv6 : Ipv6 → List Text
render_ipv6 layer =
    format (indent ∷ codes "[+] IPv6 " ∷ layer.src.text ∷ codes " -> " ∷ layer.dst.text ∷ [])
    ∷ format (
        detail_indent
        ∷ codes "Hop Limit: "
        ∷ decimal layer.hop_limit
        ∷ codes " | Traffic Class: "
        ∷ layer.traffic_class_hex_str.text
        ∷ codes " | Flow Label: "
        ∷ layer.flow_label_hex_str.text
        ∷ [])
    ∷ format (
        detail_indent
        ∷ codes "Payload Length: "
        ∷ decimal layer.payload_length
        ∷ codes " | Next Header: "
        ∷ layer.next_header_name.text
        ∷ [])
    ∷ []

-- `_render_options_header`
unfoldable pub render_options_header : Text → Ipv6Options → List Text
render_options_header title layer =
    format (indent ∷ codes "[+] " ∷ title ∷ [])
    ∷ format (
        detail_indent
        ∷ codes "Length: "
        ∷ decimal layer.header_len
        ∷ codes " bytes | Next Header: "
        ∷ layer.next_header_name.text
        ∷ [])
    ∷ []

unfoldable pub render_routing : Ipv6Routing → List Text
render_routing layer =
    format (indent ∷ codes "[+] IPv6 Routing (type " ∷ decimal layer.routing_type ∷ codes ")" ∷ [])
    ∷ format (
        detail_indent
        ∷ codes "Segments Left: "
        ∷ decimal layer.segments_left
        ∷ codes " | Length: "
        ∷ decimal layer.header_len
        ∷ codes " bytes | Next Header: "
        ∷ layer.next_header_name.text
        ∷ [])
    ∷ []

unfoldable pub fragment_position : ℕ → Text
fragment_position offset =
    if offset == 0
    then codes "first fragment"
    else format (codes "fragment at offset " ∷ decimal (offset * 8) ∷ [])

unfoldable pub render_fragment : Ipv6Fragment → List Text
unfolding fragment_position
render_fragment layer =
    format (
      indent
      ∷ codes "[+] IPv6 Fragment ("
      ∷ fragment_position layer.fragment_offset
      ∷ codes ")"
      ∷ [])
    ∷ format (
        detail_indent
        ∷ codes "ID: "
        ∷ decimal layer.identification
        ∷ codes " | More Fragments: "
        ∷ (if layer.m_flag then codes "yes" else codes "no")
        ∷ codes " | Next Header: "
        ∷ layer.next_header_name.text
        ∷ [])
    ∷ []

-- `if present: optional.append(text)`
unfoldable pub optional : Bool → Text → List Text
optional present text = if present then text ∷ [] else []

unfoldable pub gre_fields : Gre → List Text
unfolding optional
gre_fields layer =
    optional layer.checksum_present (format (codes "Checksum: " ∷ layer.checksum_hex_str.text ∷ []))
    ++ optional layer.key_present (format (codes "Key: " ∷ hex_number 8 layer.key ∷ []))
    ++ optional layer.sequence_present
        (format (codes "Sequence: " ∷ decimal layer.sequence_number ∷ []))

-- `' | '.join(optional) if optional else 'No optional fields'`
unfoldable pub or_no_fields : List Text → Text
or_no_fields [] = codes "No optional fields"
or_no_fields (text ∷ texts) = join (codes " | ") (text ∷ texts)

unfoldable pub render_gre : Gre → List Text
unfolding gre_fields or_no_fields
render_gre layer =
    format (indent ∷ codes "[+] GRE (protocol: " ∷ layer.protocol_name.text ∷ codes ")" ∷ [])
    ∷ format (detail_indent ∷ or_no_fields (gre_fields layer) ∷ [])
    ∷ []
