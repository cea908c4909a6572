-- ===== src/Screen/Block.antt =====
-- src/rootwire/output.py, `OutputToScreen.update` and `_render`: the lines printed for a frame.
use root_wire.Base.{
  ℕ, suc, Bool, true, false, Option, none, some, List, [], ◌∷◌, ◌++◌, ◌==◌, length, if◌then◌else◌,
}
use root_wire.Compiler.Syntax.{Text}
use root_wire.Compiler.Words.{codes}
use root_wire.Headers.{
  Word, Header, ethernet, vlan, arp, ipv4, ipv6, hop_by_hop, destination, routing, fragment, gre,
  igmp, icmpv4, icmpv6, tcp, udp, dns, dns_over_tcp, dhcp, other, Ipv4, Ipv6,
}
use root_wire.Frame.{Netprotocols, DecodedFrame, layer, as_ipv4, as_ipv6}
use root_wire.Terminal.{Printability, sanitize_for_terminal}
use root_wire.Screen.Format.{format, decimal, or_text, indent, detail_indent}
use root_wire.Screen.Utf8.{decode_ignore}
use root_wire.Screen.Checksum.{
  Checksums, trailing_bytes, checksum_note, transport_note, ip_layer, ipv6_layer,
}
use root_wire.Screen.Render.Link.{render_ethernet, render_vlan, render_arp, render_other}
use root_wire.Screen.Render.Network.{
  render_ipv4, render_ipv6, render_options_header, render_routing, render_fragment, render_gre,
}
use root_wire.Screen.Render.Control.{render_igmp, render_icmp, render_ndp}
use root_wire.Screen.Render.Transport.{render_tcp, render_udp}
use root_wire.Screen.Render.Application.{render_dns, render_dns_over_tcp, render_dhcp}

-- `text.replace(chr(10), chr(10) + _II)`
unfoldable pub indent_lines : Text → Text
indent_lines [] = []
indent_lines (c ∷ text) =
    let rest = indent_lines text in if c == 10 then 10 ∷ detail_indent ++ rest else c ∷ rest

-- `f" {ip.src} -> {ip.dst}" if ip is not None else ""`
unfoldable pub ipv4_route : Option Ipv4 → Text
ipv4_route none = []
ipv4_route (some ip) = format (codes " " ∷ ip.src.text ∷ codes " -> " ∷ ip.dst.text ∷ [])

unfoldable pub ipv6_route : Option Ipv6 → Text
ipv6_route none = []
ipv6_route (some ip) = format (codes " " ∷ ip.src.text ∷ codes " -> " ∷ ip.dst.text ∷ [])

-- `if frame.error is not None: …`
unfoldable pub error_line : Option Text → List Text
error_line none = []
error_line (some error) = format (indent ∷ codes "[!] Malformed header: " ∷ error ∷ []) ∷ []

unfoldable pub truncated_line : Bool → List Text
truncated_line false = []
truncated_line true =
    format
      (indent ∷ codes "[!] Truncated: the IP datagram declares more bytes than were captured" ∷ [])
    ∷ []

-- `if frame.malformed_length and (ip := frame.layer(IPv4)) is not None: …`
unfoldable pub malformed_line : Bool → Option Ipv4 → List Text
malformed_line false ip = []
malformed_line true none = []
malformed_line true (some ip) =
    format (
      indent
      ∷ codes "[!] Malformed: IPv4 total_length ("
      ∷ decimal ip.total_length
      ∷ codes ") is smaller than its header ("
      ∷ decimal ip.header_len
      ∷ codes " bytes)"
      ∷ [])
    ∷ []

module _ (lib : Netprotocols) (checksums : Checksums lib.Layer) (unicode : Printability) where
  -- `if self._display_payload and frame.payload: …`
  unfoldable pub payload_lines : Bool → List ℕ → List Text
  unfolding indent_lines
  payload_lines false payload = []
  payload_lines true [] = []
  payload_lines true (byte ∷ payload) =
      format
        (indent ∷ codes "[+] Payload (" ∷ decimal (length (byte ∷ payload)) ∷ codes " bytes):" ∷ [])
      ∷ format (
          detail_indent
          ∷ indent_lines (sanitize_for_terminal unicode (decode_ignore (byte ∷ payload)))
          ∷ [])
      ∷ []

  -- The note of a TCP or UDP header at a position.
  unfoldable pub payload_note : DecodedFrame lib.Layer → ℕ → lib.Layer → Text
  unfolding transport_note ip_layer trailing_bytes
  payload_note frame position l =
      transport_note lib checksums frame l (ip_layer lib frame.layers)
        (trailing_bytes lib frame position)

  -- `_render`, by the class of the layer at a position.
  unfoldable pub render_header : DecodedFrame lib.Layer → ℕ → lib.Layer → Header → List Text
  unfolding payload_note transport_note checksum_note layer ipv4_route ipv6_route
  render_header frame position l (ethernet h) = render_ethernet h
  render_header frame position l (vlan h) = render_vlan h
  render_header frame position l (arp h) = render_arp h
  render_header frame position l (ipv4 h) = render_ipv4 (checksum_note lib checksums l none []) h
  render_header frame position l (ipv6 h) = render_ipv6 h
  render_header frame position l (hop_by_hop h) =
      render_options_header (codes "IPv6 Hop-by-Hop Options") h
  render_header frame position l (destination h) =
      render_options_header (codes "IPv6 Destination Options") h
  render_header frame position l (routing h) = render_routing h
  render_header frame position l (fragment h) = render_fragment h
  render_header frame position l (gre h) = render_gre h
  render_header frame position l (igmp h) = render_igmp h
  render_header frame position l (icmpv4 h) =
      render_icmp 4 (ipv4_route (layer (as_ipv4 lib) frame.layers))
        (transport_note lib checksums frame l none []) h
  render_header frame position l (icmpv6 h) =
      render_icmp 6 (ipv6_route (layer (as_ipv6 lib) frame.layers))
        (transport_note lib checksums frame l (layer (ipv6_layer lib) frame.layers) []) h.message
      ++ render_ndp h
  render_header frame position l (tcp h) = render_tcp (payload_note frame position l) h
  render_header frame position l (udp h) = render_udp (payload_note frame position l) h
  render_header frame position l (dns h) = render_dns unicode h
  render_header frame position l (dns_over_tcp h) = render_dns_over_tcp h
  render_header frame position l (dhcp h) = render_dhcp h
  render_header frame position l (other name) = render_other name

  -- `for layer in frame.layers: self._render(layer, frame)`
  unfoldable pub render_layers : DecodedFrame lib.Layer → ℕ → List lib.Layer → List Text
  render_layers frame position [] = []
  render_layers frame position (l ∷ layers) =
      render_header frame position l (lib.header l) ++ render_layers frame (suc position) layers

  -- `OutputToScreen.update`, with `_display_payload` and the local time of the frame.
  unfoldable pub render_frame : Bool → Word → DecodedFrame lib.Layer → List Text
  unfolding error_line truncated_line malformed_line payload_lines layer
  render_frame display_payload local_time frame =
      format (
          codes "[>] Frame #"
          ∷ decimal frame.number
          ∷ codes " at "
          ∷ local_time.text
          ∷ codes " ("
          ∷ or_text frame.interface (codes "all")
          ∷ codes ", "
          ∷ decimal frame.length
          ∷ codes " bytes)"
          ∷ [])
        ∷ render_layers frame 0 frame.layers
      ++ error_line frame.error
      ++ truncated_line frame.truncated
      ++ malformed_line frame.malformed_length (layer (as_ipv4 lib) frame.layers)
      ++ payload_lines display_payload frame.payload
      ++ [] ∷ []
