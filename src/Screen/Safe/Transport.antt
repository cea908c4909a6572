-- ===== src/Screen/Safe/Transport.antt =====
-- The lines of TCP and UDP.

use root_wire.Compiler.Syntax.{Text}
use root_wire.Headers.{Tcp, Udp}
use root_wire.Terminal.{Printability}
use root_wire.Screen.Render.Transport.{render_tcp, render_udp}
use root_wire.Screen.Safe.Parts.{Safe, Each, parts}
use root_wire.Screen.Safe.Network.{render_options_line-Safe}

module _ (unicode : Printability) where
  pub render_tcp-Safe :
      (note : Text) (layer : Tcp) → Safe unicode note → Each (Safe unicode) (render_tcp note layer)
  unfolding render_tcp
  render_tcp-Safe note layer h = search (parts, render_options_line-Safe) depth 30

  pub render_udp-Safe :
      (note : Text) (layer : Udp) → Safe unicode note → Each (Safe unicode) (render_udp note layer)
  unfolding render_udp
  render_udp-Safe note layer h = search (parts) depth 30
