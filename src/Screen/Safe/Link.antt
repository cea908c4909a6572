-- ===== src/Screen/Safe/Link.antt =====
-- The lines of Ethernet, VLAN tags, ARP, and layers without a renderer.

use root_wire.Headers.{Word, Ethernet, Vlan, Arp}
use root_wire.Terminal.{Printability}
use root_wire.Screen.Render.Link.{
  render_ethernet, render_vlan, render_arp, arp_summary, render_other,
}
use root_wire.Screen.Safe.Parts.{Safe, Each, parts}

module _ (unicode : Printability) where
  pub render_other-Safe : (name : Word) → Each (Safe unicode) (render_other name)
  unfolding render_other
  render_other-Safe name = search (parts) depth 30

  pub render_ethernet-Safe : (layer : Ethernet) → Each (Safe unicode) (render_ethernet layer)
  unfolding render_ethernet
  render_ethernet-Safe layer = search (parts) depth 30

  arp_summary-Safe : (layer : Arp) → Safe unicode (arp_summary layer)
  unfolding arp_summary
  arp_summary-Safe layer = search (parts) depth 30

  pub render_arp-Safe : (layer : Arp) → Each (Safe unicode) (render_arp layer)
  unfolding render_arp
  render_arp-Safe layer = search (parts, arp_summary-Safe) depth 30

  pub render_vlan-Safe : (layer : Vlan) → Each (Safe unicode) (render_vlan layer)
  unfolding render_vlan
  render_vlan-Safe layer = search (parts) depth 30
