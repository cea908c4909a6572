-- ===== src/Screen/Safe/Control.antt =====
-- The lines of IGMP and of the two ICMP.
use root_wire.Base.{ℕ, Option, none, some, List, [], ◌∷◌, err, ok}
use root_wire.Compiler.Syntax.{Text}
use root_wire.Headers.{Word, Checked, GroupRecord, Igmp, Icmp, NdpOption, Icmpv6}
use root_wire.Terminal.{Printability}
use root_wire.Screen.Render.Control.{
  render_record, render_optional, render_each, igmp_body, render_igmp, render_icmp, detail_of,
  render_ndp_option, ndp_options_lines, render_ndp,
}
use root_wire.Screen.Safe.Parts.{Safe, Each, nil, parts, Each-append, Each-map, word-Safe}

module _ (unicode : Printability) where
  render_record-Safe : (item : GroupRecord) → Safe unicode (render_record item)
  unfolding render_record
  render_record-Safe item =
      let each = Each-map (Safe unicode) (λ w. w.text) (word-Safe unicode) item.source_addresses in
      search (parts) depth 20

  render_optional-Safe :
      (label : Text) (o : Option Word)
      → Safe unicode label
      → Each (Safe unicode) (render_optional label o)
  unfolding render_optional
  render_optional-Safe label none h = nil
  render_optional-Safe label (some word) h = search (parts) depth 20

  render_each-Safe :
      {A : Type 0} (line : A → Text) (h : (a : A) → Safe unicode (line a)) (o : Option (List A))
      → Each (Safe unicode) (render_each line o)
  unfolding render_each
  render_each-Safe line h none = nil
  render_each-Safe line h (some items) = Each-map (Safe unicode) line h items

  igmp_body-Safe :
      (body : Checked (Option Word × Option (List GroupRecord)))
      → Each (Safe unicode) (igmp_body body)
  unfolding igmp_body
  igmp_body-Safe (err invalid) = search (parts) depth 20
  igmp_body-Safe (ok (group, records)) =
      Each-append (Safe unicode) (render_optional-Safe _ group (search (parts) depth 20))
        (render_each-Safe render_record render_record-Safe records)

  pub render_igmp-Safe : (layer : Igmp) → Each (Safe unicode) (render_igmp layer)
  unfolding render_igmp
  render_igmp-Safe layer = search (parts, igmp_body-Safe) depth 30

  pub render_icmp-Safe :
      (version : ℕ) (route note : Text) (layer : Icmp)
      → Safe unicode route
      → Safe unicode note
      → Each (Safe unicode) (render_icmp version route note layer)
  unfolding render_icmp
  render_icmp-Safe version route note layer h k = search (parts) depth 30

  detail_of-Safe : (detail : Text) → Safe unicode detail → Safe unicode (detail_of detail)
  unfolding detail_of
  detail_of-Safe [] h = h
  detail_of-Safe (c ∷ detail) h = search (parts) depth 20

  render_ndp_option-Safe : (option : NdpOption) → Safe unicode (render_ndp_option option)
  unfolding render_ndp_option
  render_ndp_option-Safe option = search (parts, detail_of-Safe) depth 30

  ndp_options_lines-Safe :
      (options : Checked (Option (List NdpOption)))
      → Each (Safe unicode) (ndp_options_lines options)
  unfolding ndp_options_lines
  ndp_options_lines-Safe (err invalid) = search (parts) depth 20
  ndp_options_lines-Safe (ok options) =
      render_each-Safe render_ndp_option render_ndp_option-Safe options

  pub render_ndp-Safe : (layer : Icmpv6) → Each (Safe unicode) (render_ndp layer)
  unfolding render_ndp
  render_ndp-Safe layer =
      Each-append (Safe unicode)
        (render_optional-Safe _ layer.ndp_target_address (search (parts) depth 20))
        (ndp_options_lines-Safe layer.ndp_options)
