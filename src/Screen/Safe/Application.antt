-- ===== src/Screen/Safe/Application.antt =====
-- The lines of DNS, DNS over TCP and DHCP.
use root_wire.Base.{ℕ, Option, List, err, ok, zero, suc}
use root_wire.Headers.{Word, Checked, Question, Answer, Dns, DnsOverTcp, Dhcp}
use root_wire.Terminal.{Printability}
use root_wire.Screen.Render.Application.{
  render_question, render_answer, dns_body, render_dns, render_dns_over_tcp, dhcp_title,
  options_parsed, dhcp_options, render_dhcp,
}
use root_wire.Screen.Safe.Parts.{Safe, Each, nil, parts, Each-append, Each-map, word-Safe}

module _ (unicode : Printability) where
  render_question-Safe : (question : Question) → Safe unicode (render_question unicode question)
  unfolding render_question
  render_question-Safe question = search (parts) depth 30

  render_answer-Safe : (answer : Answer) → Safe unicode (render_answer unicode answer)
  unfolding render_answer
  render_answer-Safe answer = search (parts) depth 30

  dns_body-Safe :
      (body : Checked (List Question × List Answer)) → Each (Safe unicode) (dns_body unicode body)
  unfolding dns_body
  dns_body-Safe (err invalid) = search (parts) depth 20
  dns_body-Safe (ok (questions, answers)) =
      Each-append (Safe unicode)
        (Each-map (Safe unicode) (render_question unicode) render_question-Safe questions)
        (Each-map (Safe unicode) (render_answer unicode) render_answer-Safe answers)

  pub render_dns-Safe : (layer : Dns) → Each (Safe unicode) (render_dns unicode layer)
  unfolding render_dns
  render_dns-Safe layer = search (parts, dns_body-Safe) depth 30

  pub render_dns_over_tcp-Safe :
      (layer : DnsOverTcp) → Each (Safe unicode) (render_dns_over_tcp layer)
  unfolding render_dns_over_tcp
  render_dns_over_tcp-Safe layer = search (parts) depth 30

  dhcp_title-Safe :
      (message_type : Checked (Option Word)) (op_name : Word)
      → Safe unicode (dhcp_title message_type op_name)
  unfolding dhcp_title
  dhcp_title-Safe (err invalid) op_name = word-Safe unicode op_name
  dhcp_title-Safe (ok message_type) op_name = search (parts) depth 20

  options_parsed-Safe : (n : ℕ) → Each (Safe unicode) (options_parsed n)
  unfolding options_parsed
  options_parsed-Safe zero = nil
  options_parsed-Safe (suc n) = search (parts) depth 20

  dhcp_options-Safe :
      (parsed : Checked (List (ℕ × List ℕ))) → Each (Safe unicode) (dhcp_options parsed)
  unfolding dhcp_options
  dhcp_options-Safe (err invalid) = search (parts) depth 20
  dhcp_options-Safe (ok options) = options_parsed-Safe _

  pub render_dhcp-Safe : (layer : Dhcp) → Each (Safe unicode) (render_dhcp layer)
  unfolding render_dhcp
  render_dhcp-Safe layer = search (parts, dhcp_title-Safe, dhcp_options-Safe) depth 30
