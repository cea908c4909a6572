-- ===== src/Pcap/Replay/Refuses.antt =====
-- A capture with an interface that is not Ethernet is not replayed.
use root_wire.Base.{
  ℕ, ◌≤◌, ◌≡◌, refl, ◌∙◌, Bool, true, false, Option, none, some, List, ◌==◌, ◌⊎◌, inl, inr, length,
  Bool-cases, ==_iff, leb, ◌&&◌,
}
use root_wire.Pcap.Linktype.{
  done, declared_linktype, pcapng_linktype, slice, shb_type, is_magic, bytes_eq,
}
use root_wire.Pcap.Linktype.Walk.{Walk, Contains, AllEthernet, Describes, pcapng_linktype-Describes}
use root_wire.Pcap.Replay.{Parser, replayed, read_captures, not_ethernet, refused}

and-false : (b : Bool) → (b && false) ≡ false
and-false true = refl
and-false false = refl

declared-pcapng :
    (bytes : List ℕ) → slice bytes 0 4 ≡ shb_type → declared_linktype bytes ≡ pcapng_linktype bytes
unfolding declared_linktype is_magic bytes_eq
declared-pcapng bytes h = rw (declared_linktype, h, and-false (leb 24 (length bytes)))

-- Whatever the parser makes of a pcapng buffer: its frames are replayed only if every interface that
-- the walk over the blocks meets is Ethernet; otherwise nothing is yielded, and the exception names
-- the link type of one of the interfaces.
pub read_captures-AllEthernet :
    (parser : Parser) (bytes : List ℕ)
    → 12 ≤ length bytes
    → slice bytes 0 4 ≡ shb_type
    → (links : List ℕ) × Walk bytes 0 true links
      × ((AllEthernet links × (read_captures parser bytes ≡ replayed (parser.parse bytes)))
          ⊎ ((n : ℕ) × Contains n links × (read_captures parser bytes ≡ refused (not_ethernet n))))
unfolding read_captures
read_captures-AllEthernet parser bytes h k =
    let (links, w, answer, e, d) = pcapng_linktype-Describes bytes h k in
    (links, w, by_answer links answer (declared-pcapng bytes k ∙ e) d)
  where
    by_answer :
        (links : List ℕ) (answer : Option ℕ)
        → declared_linktype bytes ≡ done answer
        → Describes answer links
        → (AllEthernet links × (read_captures parser bytes ≡ replayed (parser.parse bytes)))
          ⊎ ((n : ℕ) × Contains n links × (read_captures parser bytes ≡ refused (not_ethernet n)))
    by_answer links none e d = inl (rw d tt, rw e)
    by_answer links (some n) e (c, all) = elim (Bool-cases (n == 1)) [
      | inl is_one ↦ inl (all ((==_iff n 1).0 is_one), rw (e, is_one))
      | inr foreign ↦ inr (n, c, rw (e, foreign))
    ]
