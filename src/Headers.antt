-- ===== src/Headers.antt =====
-- The protocol classes of the netprotocols package, as far as src/rootwire/output.py and
-- src/rootwire/decoder.py read them. A property that may raise InvalidFieldError is a result.
use root_wire.Base.{ℕ, ◌≡◌, Bool, true, Option, none, some, List, [], ◌∷◌, ◌&&◌, Result, leb}
use root_wire.Compiler.Syntax.{Text}
use root_wire.Compiler.Words.{codes}

abbrev pub is_ascii : Text → Bool
is_ascii [] = true
is_ascii (c ∷ text) = leb 32 c && leb c 126 && is_ascii text

-- What the package makes of numbers and of names that it knows. It is not read here: that these texts
-- are printable ASCII is an assumption, which the type states.
pub record Word : Type 0 where
  pub text : Text
  pub ascii : is_ascii text ≡ true

-- `InvalidFieldError`, with its message.
abbrev pub Checked : Type 0 → Type 0
Checked A = Result Word A

-- The value of an option: none, a tuple, or something else, as `str` shows them.
pub data OptionValue : Type 0 where
  raw : OptionValue
  tuple : Word → OptionValue
  single : Word → OptionValue

-- `IPv4Option`, `TCPOption`
pub record TlvOption : Type 0 where
  pub kind_name : Word
  pub value : OptionValue
  pub content : List ℕ

pub record Ethernet : Type 0 where
  pub src : Word
  pub dst : Word
  pub ethertype_name : Word

pub record Vlan : Type 0 where
  pub vid : ℕ
  pub pcp : ℕ
  pub dei : ℕ
  pub ethertype_name : Word

pub record Arp : Type 0 where
  pub oper : ℕ
  pub oper_name : Word
  pub ptype_name : Word
  pub ptype_hex_str : Word
  pub sha : Word
  pub spa : Word
  pub tha : Word
  pub tpa : Word

pub record Ipv4 : Type 0 where
  pub src : Word
  pub dst : Word
  pub ttl : ℕ
  pub flags : ℕ
  pub flags_name : Word
  pub fragment_offset : ℕ
  pub total_length : ℕ
  pub header_len : ℕ
  pub identification : ℕ
  pub protocol_name : Word
  pub checksum_hex_str : Word
  pub options : List ℕ
  pub parsed_options : Checked (List TlvOption)

pub record Ipv6 : Type 0 where
  pub src : Word
  pub dst : Word
  pub hop_limit : ℕ
  pub traffic_class_hex_str : Word
  pub flow_label_hex_str : Word
  pub payload_length : ℕ
  pub header_len : ℕ
  pub next_header_name : Word

-- `IPv6HopByHopOptions`, `IPv6DestinationOptions`
pub record Ipv6Options : Type 0 where
  pub header_len : ℕ
  pub next_header_name : Word

pub record Ipv6Routing : Type 0 where
  pub routing_type : ℕ
  pub segments_left : ℕ
  pub header_len : ℕ
  pub next_header_name : Word

pub record Ipv6Fragment : Type 0 where
  pub fragment_offset : ℕ
  pub identification : ℕ
  pub m_flag : Bool
  pub next_header_name : Word

pub record Gre : Type 0 where
  pub protocol_name : Word
  pub checksum_present : Bool
  pub checksum_hex_str : Word
  pub key_present : Bool
  pub key : ℕ
  pub sequence_present : Bool
  pub sequence_number : ℕ

pub record GroupRecord : Type 0 where
  pub record_type_name : Word
  pub multicast_address : Word
  pub source_addresses : List Word

pub record Igmp : Type 0 where
  pub type_name : Word
  pub max_resp_code : ℕ
  pub checksum_hex_str : Word
  pub group_address : Checked (Option Word)
  pub group_records : Checked (Option (List GroupRecord))

-- What `ICMPv4` and `ICMPv6` share.
pub record Icmp : Type 0 where
  pub type : ℕ
  pub type_name : Word
  pub code : ℕ
  pub checksum_hex_str : Word

pub record NdpOption : Type 0 where
  pub type_name : Word
  pub link_layer_address : Option Word
  pub content : List ℕ

pub record Icmpv6 : Type 0 where
  pub message : Icmp
  pub ndp_target_address : Option Word
  pub ndp_options : Checked (Option (List NdpOption))

pub record Tcp : Type 0 where
  pub src_port : ℕ
  pub dst_port : ℕ
  pub flags_hex_str : Word
  pub flags_str : Word
  pub seq : ℕ
  pub ack : ℕ
  pub window : ℕ
  pub checksum_hex_str : Word
  pub options : List ℕ
  pub parsed_options : Checked (List TlvOption)

pub record Udp : Type 0 where
  pub src_port : ℕ
  pub dst_port : ℕ
  pub length : ℕ
  pub checksum_hex_str : Word

-- A name comes off the wire, whatever it holds.
pub record Question : Type 0 where
  pub name : Text
  pub qtype : ℕ

pub record Answer : Type 0 where
  pub name : Text
  pub rtype_name : Word
  pub ttl : ℕ
  pub rdata_text : Text

pub record Dns : Type 0 where
  pub qr : Bool
  pub transaction_id : ℕ
  pub flags_hex_str : Word
  pub opcode : ℕ
  pub rcode : ℕ
  pub questions : Checked (List Question)
  pub answers : Checked (List Answer)

pub record DnsOverTcp : Type 0 where
  pub message_length : ℕ

pub record Dhcp : Type 0 where
  pub message_type_name : Checked (Option Word)
  pub op_name : Word
  pub client_mac : Option Word
  pub xid : ℕ
  pub ciaddr : Word
  pub yiaddr : Word
  pub siaddr : Word
  pub giaddr : Word
  pub parsed_options : Checked (List (ℕ × List ℕ))

-- A layer by its class; `other` is a class that no renderer is registered for.
pub data Header : Type 0 where
  ethernet : Ethernet → Header
  vlan : Vlan → Header
  arp : Arp → Header
  ipv4 : Ipv4 → Header
  ipv6 : Ipv6 → Header
  hop_by_hop : Ipv6Options → Header
  destination : Ipv6Options → Header
  routing : Ipv6Routing → Header
  fragment : Ipv6Fragment → Header
  gre : Gre → Header
  igmp : Igmp → Header
  icmpv4 : Icmp → Header
  icmpv6 : Icmpv6 → Header
  tcp : Tcp → Header
  udp : Udp → Header
  dns : Dns → Header
  dns_over_tcp : DnsOverTcp → Header
  dhcp : Dhcp → Header
  other : Word → Header

-- `type(layer).__name__`
unfoldable pub class_name : Header → Text
class_name (ethernet _) = codes "Ethernet"
class_name (vlan _) = codes "VLAN"
class_name (arp _) = codes "ARP"
class_name (ipv4 _) = codes "IPv4"
class_name (ipv6 _) = codes "IPv6"
class_name (hop_by_hop _) = codes "IPv6HopByHopOptions"
class_name (destination _) = codes "IPv6DestinationOptions"
class_name (routing _) = codes "IPv6Routing"
class_name (fragment _) = codes "IPv6Fragment"
class_name (gre _) = codes "GRE"
class_name (igmp _) = codes "IGMP"
class_name (icmpv4 _) = codes "ICMPv4"
class_name (icmpv6 _) = codes "ICMPv6"
class_name (tcp _) = codes "TCP"
class_name (udp _) = codes "UDP"
class_name (dns _) = codes "DNS"
class_name (dns_over_tcp _) = codes "DNSOverTCP"
class_name (dhcp _) = codes "DHCP"
class_name (other name) = name.text

abbrev pub ipv4_of : Header → Option Ipv4
ipv4_of (ipv4 ip) = some ip
ipv4_of _ = none

abbrev pub ipv6_of : Header → Option Ipv6
ipv6_of (ipv6 ip) = some ip
ipv6_of _ = none
