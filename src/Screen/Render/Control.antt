-- ===== src/Screen/Render/Control.antt =====
-- The renderers of IGMP and of the two ICMP.
use root_wire.Base.{ℕ, Option, none, some, List, [], ◌∷◌, ◌++◌, err, ok, map}
use root_wire.Compiler.Syntax.{Text}
use root_wire.Compiler.Words.{codes}
use root_wire.Headers.{Word, Checked, GroupRecord, Igmp, Icmp, NdpOption, Icmpv6}
use root_wire.Screen.Format.{
  both_read, format, join, decimal, hex_bytes, or_text, text_of, indent, detail_indent,
}

abbrev pub texts_of : List Word → List Text
texts_of words = map (λ w. w.text) words

unfoldable pub render_record : GroupRecord → Text
render_record group_record = format (
    detail_indent
    ∷ codes "Record: "
    ∷ group_record.record_type_name.text
    ∷ codes " "
    ∷ group_record.multicast_address.text
    ∷ codes " (sources: "
    ∷ or_text (some (join (codes ", ") (texts_of group_record.source_addresses))) (codes "none")
    ∷ codes ")"
    ∷ [])

-- `if target is not None: …`, with the words in front of it.
unfoldable pub render_optional : Text → Option Word → List Text
render_optional label none = []
render_optional label (some word) = format (detail_indent ∷ label ∷ word.text ∷ []) ∷ []

-- `for item in items or (): …`
unfoldable pub render_each : {A : Type 0} → (A → Text) → Option (List A) → List Text
render_each line none = []
render_each line (some items) = map line items

-- What the `try` read, and the lines behind it.
unfoldable pub igmp_body : Checked (Option Word × Option (List GroupRecord)) → List Text
unfolding render_optional render_each render_record
igmp_body (err invalid) =
    format (detail_indent ∷ codes "[!] Body malformed: " ∷ invalid.text ∷ []) ∷ []
igmp_body (ok (group_address, records)) =
    render_optional (codes "Group: ") group_address ++ render_each render_record records

unfoldable pub render_igmp : Igmp → List Text
unfolding igmp_body
render_igmp layer =
    format (indent ∷ codes "[+] IGMP " ∷ layer.type_name.text ∷ [])
    ∷ format (
        detail_indent
        ∷ codes "Max Resp Code: "
        ∷ decimal layer.max_resp_code
        ∷ codes " | Checksum: "
        ∷ layer.checksum_hex_str.text
        ∷ [])
    ∷ igmp_body (both_read layer.group_address layer.group_records)

-- `_render_icmp`, with the version, the route and the note on the checksum.
unfoldable pub render_icmp : ℕ → Text → Text → Icmp → List Text
render_icmp version route note layer =
    format (indent ∷ codes "[+] ICMPv" ∷ decimal version ∷ route ∷ [])
    ∷ format (
        detail_indent
        ∷ codes "Type: "
        ∷ decimal layer.type
        ∷ codes " ("
        ∷ layer.type_name.text
        ∷ codes ") | Code: "
        ∷ decimal layer.code
        ∷ codes " | Checksum: "
        ∷ layer.checksum_hex_str.text
        ∷ note
        ∷ [])
    ∷ []

-- `f" ({detail})" if detail else ""`
unfoldable pub detail_of : Text → Text
detail_of [] = []
detail_of (c ∷ detail) = format (codes " (" ∷ (c ∷ detail) ∷ codes ")" ∷ [])

unfoldable pub render_ndp_option : NdpOption → Text
unfolding detail_of
render_ndp_option option = format (
    detail_indent
    ∷ codes "Option: "
    ∷ option.type_name.text
    ∷ detail_of (or_text (text_of option.link_layer_address) (hex_bytes option.content))
    ∷ [])

unfoldable pub ndp_options_lines : Checked (Option (List NdpOption)) → List Text
unfolding render_each render_ndp_option
ndp_options_lines (err invalid) =
    format (detail_indent ∷ codes "[!] NDP options malformed: " ∷ invalid.text ∷ []) ∷ []
ndp_options_lines (ok options) = render_each render_ndp_option options

-- `_render_ndp`
unfoldable pub render_ndp : Icmpv6 → List Text
unfolding render_optional ndp_options_lines
render_ndp layer =
    render_optional (codes "Target: ") layer.ndp_target_address
    ++ ndp_options_lines layer.ndp_options
