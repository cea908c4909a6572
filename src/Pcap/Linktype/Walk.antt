-- ===== src/Pcap/Linktype/Walk.antt =====
-- The blocks of a pcapng buffer, and what the scan answers about them.
use root_wire.Base.{
  ℕ, zero, suc, ◌+◌, ◌≤◌, ◌<◌, ◌≡◌, refl, ap, ◌∙◌, Bool, true, false, Option, none, some, List, [],
  ◌∷◌, ltb, ◌==◌, ◌&&◌, ◌||◌, if◌then◌else◌, length, arith, Bool-cases, Option-cases,
  some-injective, ltb→le, le→ltb, sym, ==_iff, inl, inr, ◌⊎◌,
}
use root_wire.Pcap.Linktype.{
  Block, block_at, interface_link, is_section, order_at, unpack_from, done, scan_from,
  pcapng_linktype, slice, bytes_eq, shb_type,
}

-- From a cursor and a byte order on, block by block to where no whole block follows: the link types
-- of the interfaces, in order.
pub data Walk (bytes : List ℕ) : ℕ → Bool → List ℕ → Type 0 where
  ends :
      {cursor : ℕ} {little : Bool}
      → block_at bytes cursor little ≡ none
      → Walk bytes cursor little []
  interface :
      {cursor link : ℕ} {little : Bool} {block : Block} {links : List ℕ}
      → block_at bytes cursor little ≡ some block
      → interface_link bytes cursor block ≡ some link
      → Walk bytes (cursor + block.block_len) block.little links
      → Walk bytes cursor little (link ∷ links)
  other :
      {cursor : ℕ} {little : Bool} {block : Block} {links : List ℕ}
      → block_at bytes cursor little ≡ some block
      → interface_link bytes cursor block ≡ none
      → Walk bytes (cursor + block.block_len) block.little links
      → Walk bytes cursor little links

abbrev pub Contains : ℕ → List ℕ → Type 0
Contains n [] = ⊥
Contains n (link ∷ links) = (link ≡ n) ⊎ Contains n links

abbrev pub AllEthernet : List ℕ → Type 0
AllEthernet [] = Unit {0}
AllEthernet (link ∷ links) = (link ≡ 1) × AllEthernet links

-- What an answer says of the interfaces: none that there are none, Ethernet that all of them are,
-- another link type that one of them has it.
abbrev pub Describes : Option ℕ → List ℕ → Type 0
Describes none links = links ≡ []
Describes (some n) links = Contains n links × (n ≡ 1 → AllEthernet links)

verdict : Option ℕ → List ℕ → Option ℕ
verdict found [] = found
verdict found (link ∷ links) = if link == 1 then verdict (some 1) links else some link

none_holds : (p q r s : Bool) → (p || q || r || s) ≡ false → (r ≡ false) × (s ≡ false)
none_holds true q r s h = cc
none_holds false true r s h = cc
none_holds false false true s h = cc
none_holds false false false s h = (refl, h)

block_at-fits :
    (bytes : List ℕ) (cursor : ℕ) (little : Bool) (block : Block)
    → block_at bytes cursor little ≡ some block
    → (12 ≤ block.block_len) × (cursor + block.block_len ≤ length bytes)
unfolding block_at
block_at-fits bytes cursor little block h =
    let order = order_at bytes cursor little in
    let size = unpack_from order 4 bytes (cursor + 4) in
    let short = ltb (length bytes) (cursor + 8) in
    let cut = is_section bytes cursor && ltb (length bytes) (cursor + 12) in
    let tiny = ltb size 12 in
    let long = ltb (length bytes) (cursor + size) in
    elim (Bool-cases (short || cut || tiny || long)) [
      | inl e ↦ let k = rw (block_at, e) at h in cc
      | inr e ↦
          let (p, q) = none_holds short cut tiny long e in
          let e' : size ≡ block.block_len =
            (let k = some-injective (rw (block_at, e) at h) in ap (λ b. b.block_len) k) in
          rw (← e') (ltb→le size 12 p, ltb→le (length bytes) (cursor + size) q)
    ]

if-done : (b : Bool) (x y : Option ℕ) → (if b then done x else done y) ≡ done (if b then x else y)
if-done true x y = refl
if-done false x y = refl

module _ (bytes : List ℕ) where
  scan_from-verdict :
      (fuel cursor : ℕ) (little : Bool) (found : Option ℕ)
      → cursor ≤ length bytes
      → length bytes < cursor + fuel
      → (links : List ℕ) × Walk bytes cursor little links
        × (scan_from fuel bytes cursor little found ≡ done (verdict found links))
  unfolding scan_from verdict
  scan_from-verdict zero cursor little found below enough = absurd (omega arith)
  scan_from-verdict (suc fuel) cursor little found below enough =
      elim (Option-cases (block_at bytes cursor little)) [
        | inl e ↦ ([], Walk.ends e, rw (scan_from, e))
        | inr (block, e) ↦ elim (Option-cases (interface_link bytes cursor block)) [
          | inl i ↦
              let (size, fits) = block_at-fits bytes cursor little block e in
              let (links, w, h) =
                scan_from-verdict fuel (cursor + block.block_len) block.little found fits
                  (omega arith) in
              (links, Walk.other e i w, rw (scan_from, e, i) h)
          | inr (link, i) ↦
              let (size, fits) = block_at-fits bytes cursor little block e in
              let (links, w, h) =
                scan_from-verdict fuel (cursor + block.block_len) block.little (some 1) fits
                  (omega arith) in
              (
                link ∷ links,
                Walk.interface e i w,
                rw (scan_from, e, i, h) (if-done (link == 1) _ _),
              )
        ]
      ]

-- The answer once an Ethernet interface was found.
record Later (links : List ℕ) : Type 0 where
  answer : ℕ
  answers : verdict (some 1) links ≡ some answer
  all : answer ≡ 1 → AllEthernet links
  among : (answer ≡ 1) ⊎ Contains answer links

links-Later : (links : List ℕ) → Later links
unfolding verdict
links-Later [] = record { answer = 1; answers = refl; all = λ k. tt; among = inl refl }
links-Later (link ∷ links) = elim (Bool-cases (link == 1)) [
  | inl e ↦
      let l = links-Later links in
      let is_one = (==_iff link 1).0 e in
      record {
        answer = l.answer;
        answers = rw e l.answers;
        all = λ k. (is_one, l.all k);
        among = elim l.among [ inl k ↦ inl k | inr c ↦ inr (inr c) ];
      }
  | inr e ↦ record {
    answer = link;
    answers = rw e;
    all = λ k. absurd (foreign link e k);
    among = inr (inl refl);
  }
]
  where
    foreign : (link : ℕ) → (link == 1) ≡ false → link ≡ 1 → ⊥
    foreign link e k = let k' = (==_iff link 1).1 k in cc

verdict-Describes : (links : List ℕ) → Describes (verdict none links) links
unfolding verdict
verdict-Describes [] = refl
verdict-Describes (link ∷ links) = elim (Bool-cases (link == 1)) [
  | inl e ↦
      let l = links-Later links in
      let is_one = (==_iff link 1).0 e in
      rw (e, l.answers)
        (elim l.among [ inl k ↦ inl (is_one ∙ sym k) | inr c ↦ inr c ], λ k. (is_one, l.all k))
  | inr e ↦ rw e (inl refl, λ k. let k' = (==_iff link 1).1 k in cc)
]

-- The scan of a pcapng buffer always ends, and its answer is about every interface that the walk over
-- the blocks meets: none if there are none, Ethernet only if all of them are Ethernet, and another
-- link type only if one of them has it.
pub pcapng_linktype-Describes :
    (bytes : List ℕ)
    → 12 ≤ length bytes
    → slice bytes 0 4 ≡ shb_type
    → (links : List ℕ) × Walk bytes 0 true links
      × (answer : Option ℕ) × (pcapng_linktype bytes ≡ done answer)
      × Describes answer links
unfolding pcapng_linktype bytes_eq
pcapng_linktype-Describes bytes h k =
    let (links, w, e) =
      scan_from-verdict bytes (suc (length bytes)) 0 true none (omega arith) (omega arith) in
    (
      links,
      w,
      verdict none links,
      rw (le→ltb (length bytes) 12 h, ap (λ b. bytes_eq b shb_type) k) e,
      verdict-Describes links,
    )
