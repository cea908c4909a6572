-- ===== src/Screen/Render/Application.antt =====
-- The renderers of DNS, DNS over TCP and DHCP.
use root_wire.Base.{ℕ, zero, suc, Option, List, [], ◌∷◌, ◌++◌, err, ok, length, map, if◌then◌else◌}
use root_wire.Compiler.Syntax.{Text}
use root_wire.Compiler.Words.{codes}
use root_wire.Headers.{Word, Checked, Question, Answer, Dns, DnsOverTcp, Dhcp}
use root_wire.Terminal.{Printability, sanitize_for_terminal}
use root_wire.Screen.Format.{
  both_read, format, decimal, hex_number, or_text, text_of, indent, detail_indent,
}

module _ (unicode : Printability) where
  unfoldable pub render_question : Question → Text
  render_question question = format (
      detail_indent
      ∷ codes "Q: "
      ∷ sanitize_for_terminal unicode question.name
      ∷ codes " (type "
      ∷ decimal question.qtype
      ∷ codes ")"
      ∷ [])

  unfoldable pub render_answer : Answer → Text
  render_answer answer = format (
      detail_indent
      ∷ codes "A: "
      ∷ sanitize_for_terminal unicode answer.name
      ∷ codes " "
      ∷ answer.rtype_name.text
      ∷ codes " "
      ∷ decimal answer.ttl
      ∷ codes "s -> "
      ∷ sanitize_for_terminal unicode answer.rdata_text
      ∷ [])

  -- What the `try` read, and the lines behind it.
  unfoldable pub dns_body : Checked (List Question × List Answer) → List Text
  unfolding render_question render_answer
  dns_body (err invalid) =
      format (detail_indent ∷ codes "[!] Records malformed: " ∷ invalid.text ∷ []) ∷ []
  dns_body (ok (questions, answers)) = map render_question questions ++ map render_answer answers

  unfoldable pub render_dns : Dns → List Text
  unfolding dns_body
  render_dns layer =
      format (
        indent
        ∷ codes "[+] DNS "
        ∷ (if layer.qr then codes "response" else codes "query")
        ∷ codes " (id "
        ∷ hex_number 4 layer.transaction_id
        ∷ codes ")"
        ∷ [])
      ∷ format (
          detail_indent
          ∷ codes "Flags: "
          ∷ layer.flags_hex_str.text
          ∷ codes " | Opcode: "
          ∷ decimal layer.opcode
          ∷ codes " | RCODE: "
          ∷ decimal layer.rcode
          ∷ [])
      ∷ dns_body (both_read layer.questions layer.answers)

unfoldable pub render_dns_over_tcp : DnsOverTcp → List Text
render_dns_over_tcp layer =
    format (
      indent
      ∷ codes "[+] DNS over TCP (message length: "
      ∷ decimal layer.message_length
      ∷ codes " bytes)"
      ∷ [])
    ∷ []

-- `message_type or layer.op_name`, with no message type where reading it raises.
unfoldable pub dhcp_title : Checked (Option Word) → Word → Text
dhcp_title (err invalid) op_name = op_name.text
dhcp_title (ok message_type) op_name = or_text (text_of message_type) op_name.text

-- `f"Options: {option_count} parsed"`, if there are any.
unfoldable pub options_parsed : ℕ → List Text
options_parsed zero = []
options_parsed (suc n) =
    format (detail_indent ∷ codes "Options: " ∷ decimal (suc n) ∷ codes " parsed" ∷ []) ∷ []

unfoldable pub dhcp_options : Checked (List (ℕ × List ℕ)) → List Text
unfolding options_parsed
dhcp_options (err invalid) =
    format (detail_indent ∷ codes "[!] Options malformed: " ∷ invalid.text ∷ []) ∷ []
dhcp_options (ok options) = options_parsed (length options)

unfoldable pub render_dhcp : Dhcp → List Text
unfolding dhcp_title dhcp_options
render_dhcp layer =
    format (indent ∷ codes "[+] DHCP " ∷ dhcp_title layer.message_type_name layer.op_name ∷ [])
    ∷ format (
        detail_indent
        ∷ codes "Client: "
        ∷ or_text (text_of layer.client_mac) (codes "n/a")
        ∷ codes " | XID: "
        ∷ hex_number 8 layer.xid
        ∷ [])
    ∷ format (
        detail_indent
        ∷ codes "Client Addr: "
        ∷ layer.ciaddr.text
        ∷ codes " | Your Addr: "
        ∷ layer.yiaddr.text
        ∷ codes " | Server Addr: "
        ∷ layer.siaddr.text
        ∷ codes " | Gateway Addr: "
        ∷ layer.giaddr.text
        ∷ [])
    ∷ dhcp_options layer.parsed_options
