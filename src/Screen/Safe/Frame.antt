-- ===== src/Screen/Safe/Frame.antt =====
-- All lines of a frame.
use root_wire.Base.{
  ◌==◌, ℕ, suc, refl, Bool, true, false, Option, none, some, List, [], ◌∷◌, err, ok, Bool-cases,
  inl, inr,
}
use root_wire.Compiler.Syntax.{Text}
use root_wire.Compiler.Words.{codes}
use root_wire.Headers.{
  Word, Checked, Header, ethernet, vlan, arp, ipv4, ipv6, hop_by_hop, destination, routing,
  fragment, gre, igmp, icmpv4, icmpv6, tcp, udp, dns, dns_over_tcp, dhcp, other, Ipv4, Ipv6,
}
use root_wire.Frame.{Netprotocols, DecodedFrame}
use root_wire.Terminal.{Printability}
use root_wire.Screen.Format.{or_text, detail_indent}
use root_wire.Screen.Checksum.{
  mismatch_note, Checksums, checksum_note, transport_note, is_fragmented,
}
use root_wire.Screen.Block.{
  indent_lines, ipv4_route, ipv6_route, error_line, truncated_line, malformed_line, payload_lines,
  payload_note, render_header, render_layers, render_frame,
}
use root_wire.Screen.Safe.Parts.{
  Safe, Safe-append, Each, nil, parts, Each-append, or_text-Safe, detail_indent-Safe,
}
use root_wire.Screen.Safe.Link.{
  render_other-Safe, render_ethernet-Safe, render_arp-Safe, render_vlan-Safe,
}
use root_wire.Screen.Safe.Network.{
  render_ipv4-Safe, render_ipv6-Safe, render_options_header-Safe, render_routing-Safe,
  render_fragment-Safe, render_gre-Safe,
}
use root_wire.Screen.Safe.Control.{render_igmp-Safe, render_icmp-Safe, render_ndp-Safe}
use root_wire.Screen.Safe.Transport.{render_tcp-Safe, render_udp-Safe}
use root_wire.Screen.Safe.Application.{render_dns-Safe, render_dns_over_tcp-Safe, render_dhcp-Safe}

module _ (unicode : Printability) where
  -- A text that is there is safe.
  abbrev pub OptionSafe : Option Text → Type 0
  OptionSafe none = Unit {0}
  OptionSafe (some text) = Safe unicode text

  indent_lines-Safe : (text : Text) → Safe unicode text → Safe unicode (indent_lines text)
  unfolding indent_lines
  indent_lines-Safe [] h = h
  indent_lines-Safe (c ∷ text) h =
      let rest = indent_lines-Safe text (record { all = h.all.1 }) in
      let indented =
        Safe-append unicode detail_indent (indent_lines text) (detail_indent-Safe unicode) rest in
      elim (Bool-cases (c == 10)) [
        | inl e ↦ rw e (record { all = (refl, indented.all) })
        | inr e ↦ rw e (record { all = (h.all.0, rest.all) })
      ]

  mismatch_note-Safe :
      (verified : Checked Bool) (computed : Checked ℕ)
      → Safe unicode (mismatch_note verified computed)
  unfolding mismatch_note
  mismatch_note-Safe (err invalid) computed = record { all = tt }
  mismatch_note-Safe (ok true) computed = record { all = tt }
  mismatch_note-Safe (ok false) (err invalid) = record { all = tt }
  mismatch_note-Safe (ok false) (ok expected) = search (parts) depth 20

  ipv4_route-Safe : (ip : Option Ipv4) → Safe unicode (ipv4_route ip)
  unfolding ipv4_route
  ipv4_route-Safe none = record { all = tt }
  ipv4_route-Safe (some ip) = search (parts) depth 20

  ipv6_route-Safe : (ip : Option Ipv6) → Safe unicode (ipv6_route ip)
  unfolding ipv6_route
  ipv6_route-Safe none = record { all = tt }
  ipv6_route-Safe (some ip) = search (parts) depth 20

  error_line-Safe :
      (error : Option Text) → OptionSafe error → Each (Safe unicode) (error_line error)
  unfolding error_line
  error_line-Safe none h = nil
  error_line-Safe (some error) h = search (parts) depth 20

  truncated_line-Safe : (truncated : Bool) → Each (Safe unicode) (truncated_line truncated)
  unfolding truncated_line
  truncated_line-Safe false = nil
  truncated_line-Safe true = search (parts) depth 20

  malformed_line-Safe :
      (malformed : Bool) (ip : Option Ipv4) → Each (Safe unicode) (malformed_line malformed ip)
  unfolding malformed_line
  malformed_line-Safe false ip = nil
  malformed_line-Safe true none = nil
  malformed_line-Safe true (some ip) = search (parts) depth 20

  interface-Safe :
      (interface : Option Text)
      → OptionSafe interface
      → Safe unicode (or_text interface (codes "all"))
  interface-Safe none h = search (parts)
  interface-Safe (some text) h = or_text-Safe unicode text _ h (search (parts))

  module _ (lib : Netprotocols) (checksums : Checksums lib.Layer) where
    checksum_note-Safe :
        (l : lib.Layer) (ip : Option lib.Layer) (payload : List ℕ)
        → Safe unicode (checksum_note lib checksums l ip payload)
    unfolding checksum_note
    checksum_note-Safe l ip payload = mismatch_note-Safe _ _

    transport_note-Safe :
        (frame : DecodedFrame lib.Layer) (l : lib.Layer) (ip : Option lib.Layer) (payload : List ℕ)
        → Safe unicode (transport_note lib checksums frame l ip payload)
    unfolding transport_note
    transport_note-Safe frame l ip payload = elim (Bool-cases (is_fragmented lib frame)) [
      | inl e ↦ rw e (record { all = tt })
      | inr e ↦ rw e (checksum_note-Safe l ip payload)
    ]

    payload_lines-Safe :
        (display : Bool) (payload : List ℕ)
        → Each (Safe unicode) (payload_lines lib checksums unicode display payload)
    unfolding payload_lines
    payload_lines-Safe false payload = nil
    payload_lines-Safe true [] = nil
    payload_lines-Safe true (byte ∷ payload) = search (parts, indent_lines-Safe) depth 20

    payload_note-Safe :
        (frame : DecodedFrame lib.Layer) (position : ℕ) (l : lib.Layer)
        → Safe unicode (payload_note lib checksums unicode frame position l)
    unfolding payload_note
    payload_note-Safe frame position l = transport_note-Safe frame l _ _

    render_header-Safe :
        (frame : DecodedFrame lib.Layer) (position : ℕ) (l : lib.Layer) (h : Header)
        → Each (Safe unicode) (render_header lib checksums unicode frame position l h)
    unfolding render_header
    render_header-Safe frame position l (ethernet h) = render_ethernet-Safe unicode h
    render_header-Safe frame position l (vlan h) = render_vlan-Safe unicode h
    render_header-Safe frame position l (arp h) = render_arp-Safe unicode h
    render_header-Safe frame position l (ipv4 h) =
        render_ipv4-Safe unicode _ h (checksum_note-Safe l none [])
    render_header-Safe frame position l (ipv6 h) = render_ipv6-Safe unicode h
    render_header-Safe frame position l (hop_by_hop h) =
        render_options_header-Safe unicode _ h (search (parts))
    render_header-Safe frame position l (destination h) =
        render_options_header-Safe unicode _ h (search (parts))
    render_header-Safe frame position l (routing h) = render_routing-Safe unicode h
    render_header-Safe frame position l (fragment h) = render_fragment-Safe unicode h
    render_header-Safe frame position l (gre h) = render_gre-Safe unicode h
    render_header-Safe frame position l (igmp h) = render_igmp-Safe unicode h
    render_header-Safe frame position l (icmpv4 h) =
        render_icmp-Safe unicode 4 _ _ h (ipv4_route-Safe _) (transport_note-Safe frame l _ _)
    render_header-Safe frame position l (icmpv6 h) =
        Each-append (Safe unicode)
          (render_icmp-Safe unicode 6 _ _ h.message (ipv6_route-Safe _)
            (transport_note-Safe frame l _ _))
          (render_ndp-Safe unicode h)
    render_header-Safe frame position l (tcp h) =
        render_tcp-Safe unicode _ h (payload_note-Safe frame position l)
    render_header-Safe frame position l (udp h) =
        render_udp-Safe unicode _ h (payload_note-Safe frame position l)
    render_header-Safe frame position l (dns h) = render_dns-Safe unicode h
    render_header-Safe frame position l (dns_over_tcp h) = render_dns_over_tcp-Safe unicode h
    render_header-Safe frame position l (dhcp h) = render_dhcp-Safe unicode h
    render_header-Safe frame position l (other name) = render_other-Safe unicode name

    render_layers-Safe :
        (frame : DecodedFrame lib.Layer) (position : ℕ) (layers : List lib.Layer)
        → Each (Safe unicode) (render_layers lib checksums unicode frame position layers)
    unfolding render_layers
    render_layers-Safe frame position [] = nil
    render_layers-Safe frame position (l ∷ layers) =
        Each-append (Safe unicode) (render_header-Safe frame position l (lib.header l))
          (render_layers-Safe frame (suc position) layers)

    -- The lines that are printed for a frame, whatever its DNS names, its record data and its payload
    -- hold and whether or not the payload is displayed, have only printable characters and newlines, if
    -- the name of its interface and the reason for which decoding stopped have. The other texts of
    -- netprotocols, each a `Word`, are taken to be printable ASCII.
    pub render_frame-Safe :
        (display_payload : Bool) (local_time : Word) (frame : DecodedFrame lib.Layer)
        → OptionSafe frame.interface
        → OptionSafe frame.error
        → Each (Safe unicode) (render_frame lib checksums unicode display_payload local_time frame)
    unfolding render_frame
    render_frame-Safe display_payload local_time frame h k =
        search
          (
            parts, Each-append, interface-Safe, render_layers-Safe, error_line-Safe,
            truncated_line-Safe, malformed_line-Safe, payload_lines-Safe,
          )
          depth 30
