-- ===== src/Decoder/Correct.antt =====
-- What the diagnoses of a decoded frame say of its first IP header.
use root_wire.Base.{
  ℕ, ◌+◌, ◌<◌, ◌≡◌, ◌↔◌, true, Option, none, some, List, [], ◌∷◌, ◌++◌, ltb→lt, lt→ltb, length,
  arith,
}
use root_wire.Compiler.Syntax.{Text}
use root_wire.Headers.{Ipv4, Ipv6}
use root_wire.Frame.{as_ipv4, as_ipv6, Netprotocols}
use root_wire.Decoder.{declared_length, ip_length_malformed, lies, decode_frame}

lies_iff :
    (lib : Netprotocols) (ip : Ipv4)
    → (lies lib ip ≡ true) ↔ ((0 < ip.total_length) × (ip.total_length < ip.header_len))
lies_iff lib ip = (λ h. ((ground arith), (ground arith)), λ (p, q). ground arith)

module _ (lib : Netprotocols) where
  -- No layer is an IP header.
  abbrev pub NoIp : List lib.Layer → Type 0
  NoIp [] = Unit {0}
  NoIp (l ∷ layers) = (as_ipv4 lib l ≡ none) × (as_ipv6 lib l ≡ none) × NoIp layers

  module _ (ip : Ipv4) (l : lib.Layer) (h : as_ipv4 lib l ≡ some ip) (after : List lib.Layer) where
    declared_length-ipv4 :
        (before : List lib.Layer)
        → NoIp before
        → declared_length lib (before ++ l ∷ after) ≡ some (14 + ip.total_length)
    unfolding declared_length
    declared_length-ipv4 [] n = rw (declared_length, h)
    declared_length-ipv4 (b ∷ before) (p, q, n) =
        rw (declared_length, p, q) (declared_length-ipv4 before n)

    ip_length_malformed-ipv4 :
        (before : List lib.Layer)
        → NoIp before
        → ip_length_malformed lib (before ++ l ∷ after) ≡ lies lib ip
    unfolding ip_length_malformed
    ip_length_malformed-ipv4 [] n = rw (ip_length_malformed, h)
    ip_length_malformed-ipv4 (b ∷ before) (p, q, n) =
        rw (ip_length_malformed, p) (ip_length_malformed-ipv4 before n)

  module _ (bytes : List ℕ) (number timestamp : ℕ) (interface : Option Text) where
    -- A frame whose first IP layer is an IPv4 header, whatever layers stand in front of it, is called
    -- truncated exactly if it has fewer bytes than 14 and the declared length of the datagram, and
    -- malformed exactly if that length is shorter than the header and not 0.
    pub decode_frame-ipv4 :
        (ip : Ipv4) (l : lib.Layer) (before after : List lib.Layer)
        → (lib.decode_chain 16 bytes).layers ≡ before ++ l ∷ after
        → NoIp before
        → as_ipv4 lib l ≡ some ip
        → (((decode_frame lib bytes number timestamp interface).truncated ≡ true)
            ↔ (length bytes < 14 + ip.total_length))
          × (((decode_frame lib bytes number timestamp interface).malformed_length ≡ true)
              ↔ ((0 < ip.total_length) × (ip.total_length < ip.header_len)))
    unfolding decode_frame
    decode_frame-ipv4 ip l before after layers n h =
        rw
          (
            layers,
            declared_length-ipv4 ip l h after before n,
            ip_length_malformed-ipv4 ip l h after before n,
          )
          ((ltb→lt _ _, lt→ltb _ _), lies_iff lib ip)

  declared_length-ipv6 :
      (ip : Ipv6) (l : lib.Layer) (after before : List lib.Layer)
      → as_ipv4 lib l ≡ none
      → as_ipv6 lib l ≡ some ip
      → NoIp before
      → declared_length lib (before ++ l ∷ after) ≡ some (14 + ip.header_len + ip.payload_length)
  unfolding declared_length
  declared_length-ipv6 ip l after [] h k n = rw (declared_length, h, k)
  declared_length-ipv6 ip l after (b ∷ before) h k (p, q, n) =
      rw (declared_length, p, q) (declared_length-ipv6 ip l after before h k n)

  -- A frame whose first IP layer is an IPv6 header, whatever layers stand in front of it, is called
  -- truncated exactly if it has fewer bytes than 14, the header and the declared payload.
  pub decode_frame-ipv6 :
      (bytes : List ℕ) (number timestamp : ℕ) (interface : Option Text) (ip : Ipv6) (l : lib.Layer)
      (before after : List lib.Layer)
      → (lib.decode_chain 16 bytes).layers ≡ before ++ l ∷ after
      → NoIp before
      → as_ipv4 lib l ≡ none
      → as_ipv6 lib l ≡ some ip
      → ((decode_frame lib bytes number timestamp interface).truncated ≡ true)
        ↔ (length bytes < 14 + ip.header_len + ip.payload_length)
  unfolding decode_frame
  decode_frame-ipv6 bytes number timestamp interface ip l before after layers n h k =
      rw (layers, declared_length-ipv6 ip l after before h k n) (ltb→lt _ _, lt→ltb _ _)
