-- ===== src/Screen/Safe/Network.antt =====
-- The lines of IPv4, IPv6 and its extension headers, and GRE.
use root_wire.Base.{ℕ, ◌≡◌, refl, true, false, Bool, List, [], ◌∷◌, err, ok}
use root_wire.Compiler.Syntax.{Text}
use root_wire.Headers.{
  Checked, TlvOption, OptionValue, raw, tuple, single, Ipv4, Ipv6, Ipv6Options, Ipv6Routing,
  Ipv6Fragment, Gre,
}
use root_wire.Terminal.{Printability}
use root_wire.Screen.Render.Network.{
  options_line, render_options_line, render_ipv4, render_ipv6, render_options_header,
  render_routing, fragment_position, render_fragment, optional, gre_fields, or_no_fields,
  render_gre,
}
use root_wire.Screen.Safe.Parts.{Safe, Each, nil, cons, parts, Each-append, Each-map}
use root_wire.Screen.Checksum.{format_option}

module _ (unicode : Printability) where
  format_option-Safe : (option : TlvOption) → Safe unicode (format_option option)
  unfolding format_option
  format_option-Safe option = by_value option.value refl
    where
      by_value : (value : OptionValue) → option.value ≡ value → Safe unicode (format_option option)
      by_value raw e = rw (format_option, e) (search (parts) depth 20)
      by_value (tuple value) e = rw (format_option, e) (search (parts) depth 20)
      by_value (single value) e = rw (format_option, e) (search (parts) depth 20)

  options_line-Safe :
      (parsed : Checked (List TlvOption)) → Each (Safe unicode) (options_line parsed)
  unfolding options_line
  options_line-Safe (err invalid) = search (parts) depth 20
  options_line-Safe (ok options) =
      let each = Each-map (Safe unicode) format_option format_option-Safe options in
      search (parts) depth 20

  pub render_options_line-Safe :
      (options : List ℕ) (parsed : Checked (List TlvOption))
      → Each (Safe unicode) (render_options_line options parsed)
  unfolding render_options_line
  render_options_line-Safe [] parsed = nil
  render_options_line-Safe (byte ∷ options) parsed = options_line-Safe parsed

  pub render_ipv4-Safe :
      (note : Text) (layer : Ipv4)
      → Safe unicode note
      → Each (Safe unicode) (render_ipv4 note layer)
  unfolding render_ipv4
  render_ipv4-Safe note layer h = search (parts, render_options_line-Safe) depth 30

  pub render_ipv6-Safe : (layer : Ipv6) → Each (Safe unicode) (render_ipv6 layer)
  unfolding render_ipv6
  render_ipv6-Safe layer = search (parts) depth 30

  pub render_options_header-Safe :
      (title : Text) (layer : Ipv6Options)
      → Safe unicode title
      → Each (Safe unicode) (render_options_header title layer)
  unfolding render_options_header
  render_options_header-Safe title layer h = search (parts) depth 30

  pub render_routing-Safe : (layer : Ipv6Routing) → Each (Safe unicode) (render_routing layer)
  unfolding render_routing
  render_routing-Safe layer = search (parts) depth 30

  fragment_position-Safe : (offset : ℕ) → Safe unicode (fragment_position offset)
  unfolding fragment_position
  fragment_position-Safe offset = search (parts) depth 30

  pub render_fragment-Safe : (layer : Ipv6Fragment) → Each (Safe unicode) (render_fragment layer)
  unfolding render_fragment
  render_fragment-Safe layer = search (parts, fragment_position-Safe) depth 30

  optional-Safe :
      (present : Bool) (text : Text)
      → Safe unicode text
      → Each (Safe unicode) (optional present text)
  unfolding optional
  optional-Safe true text h = cons h nil
  optional-Safe false text h = nil

  gre_fields-Safe : (layer : Gre) → Each (Safe unicode) (gre_fields layer)
  unfolding gre_fields
  gre_fields-Safe layer = search (parts, optional-Safe, Each-append) depth 30

  or_no_fields-Safe :
      (texts : List Text) → Each (Safe unicode) texts → Safe unicode (or_no_fields texts)
  unfolding or_no_fields
  or_no_fields-Safe [] h = search (parts) depth 20
  or_no_fields-Safe (text ∷ texts) h = search (parts) depth 20

  pub render_gre-Safe : (layer : Gre) → Each (Safe unicode) (render_gre layer)
  unfolding render_gre
  render_gre-Safe layer = search (parts, gre_fields-Safe, or_no_fields-Safe) depth 30
