-- ===== src/Screen/Tests.antt =====
-- The screen at a frame of three layers, and the theorems at concrete inputs.
use root_wire.Base.{
  ℕ, ◌≡◌, ◌≢◌, ◌↔◌, refl, Bool, true, false, none, some, List, [], ◌∷◌, ◌++◌, ok, drop, map,
}
use root_wire.Compiler.Syntax.{Text}
use root_wire.Compiler.Words.{codes}
use root_wire.Headers.{Word, Checked}
use root_wire.Frame.{DecodedFrame}
use root_wire.Decoder.{decode_frame}
use root_wire.Samples.{two_layers, SomeLayer, word, web_frame, ascii_only}
use root_wire.Terminal.{sanitize_for_terminal}
use root_wire.Screen.Format.{format, join, decimal, hex_number, indent, detail_indent}
use root_wire.Screen.Utf8.{decode_ignore}
use root_wire.Screen.Checksum.{Checksums, trailing_bytes, transport_note, format_option}
use root_wire.Screen.Checksum.Exact.{NoFragment, transport_note_iff}
use root_wire.Screen.Checksum.Trailing.{header_bytes, trailing_bytes-decode_frame}
use root_wire.Screen.Block.{render_frame, render_layers, render_header, payload_lines}
use root_wire.Screen.Render.Link.{render_ethernet}
use root_wire.Screen.Render.Network.{render_ipv4}
use root_wire.Screen.Render.Transport.{render_tcp}
use root_wire.Screen.Render.Application.{render_question}
use root_wire.Screen.Lines.{lines, payload_lines-indented, render_question-forges}
use root_wire.Screen.Safe.Parts.{Safe, Each, ascii-Safe}
use root_wire.Screen.Safe.Frame.{render_frame-Safe}

-- Every checksum of TCP is wrong, and should be 0x1234.
abbrev some_checksums : Checksums SomeLayer
some_checksums = record {
  verify = λ l ip payload. elim l [ SomeLayer.tcp ↦ ok false | _ ↦ ok true ];
  compute = λ l ip payload. ok 0x1234;
}

abbrev noon : Word
noon = word (codes "12:00:00") refl

abbrev shown : DecodedFrame SomeLayer
shown = decode_frame two_layers web_frame 1 5 (some (codes "eth0"))

screen : List Text
unfolding render_frame decode_frame
screen = render_frame two_layers some_checksums ascii_only true noon shown

screen_lines :
    screen
    ≡ codes "[>] Frame #1 at 12:00:00 (eth0, 44 bytes)"
      ∷ codes "    [+] Ethernet 02:00:00:00:00:01 -> 02:00:00:00:00:02"
      ∷ codes "        EtherType: IPv4"
      ∷ codes "    [+] IPv4 10.0.0.1 -> 10.0.0.2"
      ∷ codes "        TTL: 64 | Flags: DF | Total Length: 40 | ID: 7"
      ∷ codes "        Protocol: TCP | Checksum: 0x66c5"
      ∷ codes "    [+] TCP 443 -> 50000"
      ∷ codes "        Flags: 0x12 (SYN, ACK) | Seq: 1 | Ack: 2"
      ∷ codes "        Window: 512 | Checksum: 0xbeef [!] mismatch (expected 0x1234)"
      ∷ codes "        Options: NOP"
      ∷ codes "    [!] Truncated: the IP datagram declares more bytes than were captured"
      ∷ []
      ∷ []
unfolding screen render_ethernet render_ipv4 render_tcp format_option format join decimal hex_number
    indent detail_indent render_layers render_header
screen_lines = refl

-- A character of two bytes, a stray byte, one of three bytes, and a character cut short.
utf8 :
    decode_ignore (0xc3 ∷ 0xa9 ∷ 0x80 ∷ 0xe2 ∷ 0x82 ∷ 0xac ∷ 0x41 ∷ 0xf0 ∷ 0x9f ∷ [])
    ≡ 0xe9 ∷ 0x20ac ∷ 0x41 ∷ []
unfolding decode_ignore
utf8 = refl

render_frame-Safe_example :
    Each (Safe ascii_only) (render_frame two_layers some_checksums ascii_only true noon shown)
unfolding decode_frame
render_frame-Safe_example =
    render_frame-Safe ascii_only two_layers some_checksums true noon shown
      (ascii-Safe ascii_only (codes "eth0") refl) tt

payload_lines-indented_example :
    (text : Text) × (payload_lines two_layers some_checksums ascii_only true (27 ∷ 10 ∷ [])
      ≡ codes "    [+] Payload (2 bytes):" ∷ text ∷ [])
    × (lines text
        ≡ map
            (λ l. detail_indent ++ l)
            (lines (sanitize_for_terminal ascii_only (decode_ignore (27 ∷ 10 ∷ [])))))
unfolding format indent decimal
payload_lines-indented_example =
    payload_lines-indented two_layers some_checksums ascii_only 27 (10 ∷ [])

transport_note_iff_example :
    (transport_note two_layers some_checksums shown SomeLayer.tcp none [] ≢ []) ↔ (
      NoFragment two_layers shown.layers
      × (◌≡◌ {A = Checked Bool} (ok false) (ok false))
      × ((expected : ℕ) × (◌≡◌ {A = Checked ℕ} (ok 0x1234) (ok expected))))
transport_note_iff_example =
    transport_note_iff two_layers some_checksums shown SomeLayer.tcp none []

trailing_bytes-decode_frame_example :
    (trailing_bytes two_layers shown 1 ≡ drop 34 web_frame)
    × (drop 20 (trailing_bytes two_layers shown 1) ≡ drop 54 web_frame)
unfolding header_bytes decode_frame
trailing_bytes-decode_frame_example =
    trailing_bytes-decode_frame two_layers web_frame 1 5 (some (codes "eth0")) SomeLayer.ipv4
      (SomeLayer.ethernet ∷ []) (SomeLayer.tcp ∷ []) refl refl

render_question-forges_example :
    lines (
      render_question ascii_only (record { name = codes "a" ++ 10 ∷ codes "[>] Frame"; qtype = 1 }))
    ≡ format (detail_indent ∷ codes "Q: " ∷ codes "a" ∷ [])
      ∷ format (codes "[>] Frame" ∷ codes " (type " ∷ decimal 1 ∷ codes ")" ∷ [])
      ∷ []
render_question-forges_example =
    render_question-forges ascii_only (codes "a") (codes "[>] Frame") 1 (refl, tt)
      (refl, (refl, (refl, (refl, (refl, (refl, (refl, (refl, (refl, tt)))))))))
      (ascii-Safe ascii_only (codes "a") refl) (ascii-Safe ascii_only (codes "[>] Frame") refl)
