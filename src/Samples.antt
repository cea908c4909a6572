-- ===== src/Samples.antt =====
-- Concrete inputs that the tests share.
use root_wire.Base.{
  ◌≤◌, true, ok, List, ℕ, zero, suc, ◌+◌, ◌-◌, ◌<◌, ◌≡◌, Option, refl, none, some, [], ◌∷◌, ◌==◌,
  ◌&&◌, ◌||◌, leb, if◌then◌else◌, arith, length, Bool, false, drop, ap,
}
use root_wire.Terminal.{Printability}
use root_wire.Vm.{Packet}
use root_wire.Frame as Protocols
use root_wire.Frame.{Netprotocols}
use root_wire.Headers.{Word, is_ascii, Ethernet, Ipv4, Tcp, Header, raw}
use root_wire.Pcap.Linktype.{slice}
use root_wire.Pcap.Replay.{Captured, Parser}
use root_wire.Pcap.Writer.RoundTrip.{read_records}
use root_wire.Compiler.Words.{codes}
use root_wire.Compiler.Lexer.{is_letter}
use root_wire.Compiler.Lexer.Spacing.{AsciiClasses}
use root_wire.Compiler.Syntax.{Unicode}

abbrev pub ascii_value : ℕ → Option ℕ
ascii_value c = if leb 48 c && leb c 57 then some (c - 48) else none

pub ascii_value_lem : (d : ℕ) → d < 10 → ascii_value (48 + d) ≡ some d
ascii_value_lem d h = ground arith

-- The Unicode data of the ASCII characters.
abbrev pub ascii : Unicode
ascii = record {
  digit = ascii_value;
  is_space = λ c. c == 32 || (leb 9 c && leb c 13);
  ascii_digit = ascii_value_lem;
  dot_digit = refl;
}

pub printable_ascii : (c : ℕ) → 32 ≤ c → c ≤ 126 → (leb 32 c && leb c 126) ≡ true
printable_ascii c h k = ground arith

-- The printable characters of ASCII.
abbrev pub ascii_only : Printability
ascii_only = record { is_printable = λ c. leb 32 c && leb c 126; ascii_printable = printable_ascii }

abbrev pub zeros : ℕ → Packet
zeros zero = []
zeros (suc n) = 0 ∷ zeros n

-- A frame of an EtherType with a body of zeros.
abbrev pub frame : ℕ → ℕ → ℕ → Packet
frame e₁ e₂ n = 1 ∷ 2 ∷ 3 ∷ 4 ∷ 5 ∷ 6 ∷ 7 ∷ 8 ∷ 9 ∷ 10 ∷ 11 ∷ 12 ∷ e₁ ∷ e₂ ∷ zeros n

abbrev pub word : (text : List ℕ) → is_ascii text ≡ true → Word
word text ascii = record { text = text; ascii = ascii }

-- A package whose frames of twenty bytes or more hold an IPv4 header, and others nothing.
pub data SomeLayer : Type 0 where
  ethernet ipv4 tcp : SomeLayer

abbrev pub some_ethernet : Ethernet
some_ethernet = record {
  src = word (codes "02:00:00:00:00:01") refl;
  dst = word (codes "02:00:00:00:00:02") refl;
  ethertype_name = word (codes "IPv4") refl;
}

abbrev pub some_ipv4 : Ipv4
some_ipv4 = record {
  src = word (codes "10.0.0.1") refl;
  dst = word (codes "10.0.0.2") refl;
  ttl = 64;
  flags = 0b010;
  flags_name = word (codes "DF") refl;
  fragment_offset = 0;
  total_length = 40;
  header_len = 20;
  identification = 7;
  protocol_name = word (codes "TCP") refl;
  checksum_hex_str = word (codes "0x66c5") refl;
  options = [];
  parsed_options = ok [];
}

abbrev pub some_tcp : Tcp
some_tcp = record {
  src_port = 443;
  dst_port = 50_000;
  flags_hex_str = word (codes "0x12") refl;
  flags_str = word (codes "SYN, ACK") refl;
  seq = 1;
  ack = 2;
  window = 512;
  checksum_hex_str = word (codes "0xbeef") refl;
  options = 1 ∷ [];
  parsed_options =
      ok (record { kind_name = word (codes "NOP") refl; value = raw; content = [] } ∷ []);
}

abbrev pub some_header : SomeLayer → Header
some_header SomeLayer.ethernet = Header.ethernet some_ethernet
some_header SomeLayer.ipv4 = Header.ipv4 some_ipv4
some_header SomeLayer.tcp = Header.tcp some_tcp

abbrev pub some_header_len : SomeLayer → ℕ
some_header_len SomeLayer.ethernet = 14
some_header_len _ = 20

abbrev pub some_chain : ℕ → List ℕ → Protocols.Packet SomeLayer
some_chain depth bytes =
    if leb 20 (length bytes)
    then record {
      layers = SomeLayer.ethernet ∷ SomeLayer.ipv4 ∷ SomeLayer.tcp ∷ [];
      consumed = 54;
      stopped_by = none;
    }
    else record { layers = []; consumed = 0; stopped_by = some (63 ∷ []) }

abbrev pub two_layers : Netprotocols
two_layers = record {
  Layer = SomeLayer;
  header = some_header;
  header_len = some_header_len;
  decode_chain = some_chain;
}

abbrev pub web_frame : List ℕ
web_frame = frame 8 0 30

-- A parser that reads records and nothing else.
abbrev records_outcome : Option (List Captured) → List Captured × Bool
records_outcome none = ([], true)
records_outcome (some frames) = (frames, false)

abbrev pub records_parser : Parser
records_parser = record {
  parse = λ file. records_outcome (read_records (length file) (drop 24 file));
}

pub records_parser-documented :
    (file : List ℕ) (frames : List Captured)
    → slice file 0 4 ≡ (0x4d ∷ 0x3c ∷ 0xb2 ∷ 0xa1 ∷ [])
    → read_records (length file) (drop 24 file) ≡ some frames
    → records_parser.parse file ≡ (frames, false)
records_parser-documented file frames h k = ap records_outcome k

-- The ASCII characters are in their classes.
pub ascii-AsciiClasses : AsciiClasses ascii
unfolding is_letter
ascii-AsciiClasses = record {
  space_is_space = refl;
  space_no_digit = refl;
  letter_no_digit = λ c h. ground arith;
  lparen_no_digit = refl;
  rparen_no_digit = refl;
  digit_no_space = λ c d h. ground arith;
  letter_no_space = λ c h. ground arith;
  lparen_no_space = refl;
  rparen_no_space = refl;
}
