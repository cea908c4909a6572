-- ===== src/Frame.antt =====
-- src/rootwire/frame.py: a decoded frame. The netprotocols package is a parameter.
use root_wire.Base.{ℕ, Bool, Option, none, some, List, [], ◌∷◌}
use root_wire.Compiler.Syntax.{Text}
use root_wire.Headers.{Header, Ipv4, Ipv6, ipv4_of, ipv6_of}

-- The layers of a frame, how many bytes their headers take, and why the walk stopped early.
pub record Packet (Layer : Type 0) : Type 0 where
  pub layers : List Layer
  pub consumed : ℕ
  pub stopped_by : Option Text

-- The package: its layers, what is read off each, how many bytes a header takes, and its decoder.
pub record Netprotocols : Type 1 where
  pub Layer : Type 0
  pub header : Layer → Header
  pub header_len : Layer → ℕ
  -- `decode_frame(data, lax=True, max_depth=…)`
  pub decode_chain : ℕ → List ℕ → Packet Layer

module _ (lib : Netprotocols) where
  -- The layer as an `IPv4`, and as an `IPv6`.
  abbrev pub as_ipv4 : lib.Layer → Option Ipv4
  as_ipv4 l = ipv4_of (lib.header l)

  abbrev pub as_ipv6 : lib.Layer → Option Ipv6
  as_ipv6 l = ipv6_of (lib.header l)

-- `DecodedFrame`
pub record DecodedFrame (Layer : Type 0) : Type 0 where
  pub number : ℕ
  pub timestamp : ℕ
  pub interface : Option Text
  pub length : ℕ
  pub layers : List Layer
  pub payload : List ℕ
  pub truncated : Bool
  pub malformed_length : Bool
  pub error : Option Text
  pub raw : List ℕ

-- `DecodedFrame.layer`: the first layer of a class.
unfoldable pub layer {ℓ} : {A : Type 0} {B : Type ℓ} → (A → Option B) → List A → Option B
layer class [] = none
layer class (candidate ∷ layers) = elim (class candidate) [
  | some found ↦ some found
  | none ↦ layer class layers
]
