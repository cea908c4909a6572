-- ===== src/Screen/Render/Link.antt =====
-- The renderers of Ethernet, VLAN tags and ARP, and of layers without one.
use root_wire.Base.{List, [], ◌∷◌, ◌==◌, if◌then◌else◌}
use root_wire.Compiler.Syntax.{Text}
use root_wire.Compiler.Words.{codes}
use root_wire.Headers.{Word, Ethernet, Vlan, Arp}
use root_wire.Screen.Format.{format, decimal, indent, detail_indent}

unfoldable pub render_other : Word → List Text
render_other name = format (indent ∷ codes "[+] " ∷ name.text ∷ codes " (no renderer)" ∷ []) ∷ []

unfoldable pub render_ethernet : Ethernet → List Text
render_ethernet layer =
    format (indent ∷ codes "[+] Ethernet " ∷ layer.src.text ∷ codes " -> " ∷ layer.dst.text ∷ [])
    ∷ format (detail_indent ∷ codes "EtherType: " ∷ layer.ethertype_name.text ∷ [])
    ∷ []

unfoldable pub arp_summary : Arp → Text
arp_summary layer =
    if layer.oper == 1
    then format (codes "who has " ∷ layer.tpa.text ∷ codes "? tell " ∷ layer.spa.text ∷ [])
    else format (layer.spa.text ∷ codes " is at " ∷ layer.sha.text ∷ [])

unfoldable pub render_arp : Arp → List Text
unfolding arp_summary
render_arp layer =
    format (indent ∷ codes "[+] ARP " ∷ arp_summary layer ∷ [])
    ∷ format (
        detail_indent
        ∷ codes "Operation: "
        ∷ decimal layer.oper
        ∷ codes " ("
        ∷ layer.oper_name.text
        ∷ codes ") | Protocol Type: "
        ∷ layer.ptype_name.text
        ∷ codes " ("
        ∷ layer.ptype_hex_str.text
        ∷ codes ")"
        ∷ [])
    ∷ format (detail_indent ∷ codes "Sender: " ∷ layer.sha.text ∷ codes " / " ∷ layer.spa.text ∷ [])
    ∷ format (detail_indent ∷ codes "Target: " ∷ layer.tha.text ∷ codes " / " ∷ layer.tpa.text ∷ [])
    ∷ []

unfoldable pub render_vlan : Vlan → List Text
render_vlan layer =
    format (
      indent
      ∷ codes "[+] 802.1Q VLAN (VID "
      ∷ decimal layer.vid
      ∷ codes ", PCP "
      ∷ decimal layer.pcp
      ∷ codes ", DEI "
      ∷ decimal layer.dei
      ∷ codes ")"
      ∷ [])
    ∷ format (detail_indent ∷ codes "EtherType: " ∷ layer.ethertype_name.text ∷ [])
    ∷ []
