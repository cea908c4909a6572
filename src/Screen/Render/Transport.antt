-- ===== src/Screen/Render/Transport.antt =====
-- The renderers of TCP and UDP, each with the note on its checksum.
use root_wire.Base.{List, [], ◌∷◌}
use root_wire.Compiler.Syntax.{Text}
use root_wire.Compiler.Words.{codes}
use root_wire.Headers.{Tcp, Udp}
use root_wire.Screen.Format.{format, decimal, indent, detail_indent}
use root_wire.Screen.Render.Network.{render_options_line}

unfoldable pub render_tcp : Text → Tcp → List Text
unfolding render_options_line
render_tcp note layer =
    format (
      indent
      ∷ codes "[+] TCP "
      ∷ decimal layer.src_port
      ∷ codes " -> "
      ∷ decimal layer.dst_port
      ∷ [])
    ∷ format (
        detail_indent
        ∷ codes "Flags: "
        ∷ layer.flags_hex_str.text
        ∷ codes " ("
        ∷ layer.flags_str.text
        ∷ codes ") | Seq: "
        ∷ decimal layer.seq
        ∷ codes " | Ack: "
        ∷ decimal layer.ack
        ∷ [])
    ∷ format (
        detail_indent
        ∷ codes "Window: "
        ∷ decimal layer.window
        ∷ codes " | Checksum: "
        ∷ layer.checksum_hex_str.text
        ∷ note
        ∷ [])
    ∷ render_options_line layer.options layer.parsed_options

unfoldable pub render_udp : Text → Udp → List Text
render_udp note layer =
    format (
      indent
      ∷ codes "[+] UDP "
      ∷ decimal layer.src_port
      ∷ codes " -> "
      ∷ decimal layer.dst_port
      ∷ [])
    ∷ format (
        detail_indent
        ∷ codes "Length: "
        ∷ decimal layer.length
        ∷ codes " | Checksum: "
        ∷ layer.checksum_hex_str.text
        ∷ note
        ∷ [])
    ∷ []
