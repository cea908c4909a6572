-- ===== src/Compiler/Linking/Locations.antt =====
-- What the first loop of `_resolve` records of code whose labels stand once, and what the second
-- loop makes of jumps whose labels are all ahead.
use root_wire.Base.{
  ℕ, suc, ◌+◌, ◌-◌, ◌≤◌, ◌<◌, ◌≡◌, refl, ap, ◌∙◌, true, false, Option, none, some, List, [], ◌∷◌,
  Result, ok, err, ◌>>=◌, ◌==◌, leb, length, arith, Bool-cases, ==_iff, ==_self, ◌⊎◌, inl, inr,
}
use root_wire.Bpf.{SockFilter}
use root_wire.Compiler.Syntax.{Error, jump_out_of_range}
use root_wire.Compiler.Codegen.{Label, PInsn, Item, label, insn}
use root_wire.Compiler.Symbolic.{placed}
use root_wire.Compiler.Resolve.{
  Positions, lookup, positions_from, instructions, offset_to, offset_of, resolve_from,
}
use root_wire.Compiler.Linking.{Located, Complete, resolve_from-eq_ok}

pub lookup-positions_from :
    (l base : ℕ) (items : List Item) (positions : Positions)
    → placed l items ≡ false
    → lookup l (positions_from base items positions) ≡ lookup l positions
unfolding positions_from placed lookup
lookup-positions_from l base [] positions h = refl
lookup-positions_from l base (label l' ∷ items) positions h =
    ground (arith, lookup-positions_from l base items ((l', base) ∷ positions))
lookup-positions_from l base (insn i ∷ items) positions h =
    lookup-positions_from l (suc base) items positions h

-- Every label stands once.
abbrev pub Once : List Item → Type 0
Once [] = Unit
Once (label l ∷ items) = (placed l items ≡ false) × Once items
Once (insn i ∷ items) = Once items

pub positions_from-Located :
    (base : ℕ) (items : List Item) (positions : Positions)
    → Once items
    → Located (positions_from base items positions) base items
unfolding positions_from lookup
positions_from-Located base [] positions w = tt
positions_from-Located base (label l ∷ items) positions (once, w) = (
  lookup-positions_from l base items ((l, base) ∷ positions) once ∙ ground (arith, ==_self l),
  positions_from-Located base items ((l, base) ∷ positions) w,
)
positions_from-Located base (insn i ∷ items) positions w =
    positions_from-Located (suc base) items positions w

pub positions_from-Complete : (items : List Item) → Complete (positions_from 0 items []) 0 items
unfolding lookup
positions_from-Complete items l p h above = elim (Bool-cases (placed l items)) [
  | inl here ↦ here
  | inr absent ↦ cc (lookup-positions_from l 0 items [] absent)
]

-- A label that stands in the code is recorded at one of the code's indices.
lookup-placed :
    (positions : Positions) (l base : ℕ) (items : List Item)
    → Located positions base items
    → placed l items ≡ true
    → (p : ℕ) × (lookup l positions ≡ some p)
      × (base ≤ p)
      × (p ≤ base + length (instructions items))
unfolding placed instructions
lookup-placed positions l base [] loc h = cc
lookup-placed positions l base (label l' ∷ items) (found, loc) h = elim (Bool-cases (l == l')) [
  | inl same ↦ (base, cc ((==_iff l l').0 same), omega arith, omega arith)
  | inr other ↦ lookup-placed positions l base items loc (rw other at h)
]
lookup-placed positions l base (insn i ∷ items) loc h =
    let (p, q, r, s) = lookup-placed positions l (suc base) items loc h in
    (p, q, omega arith, omega arith)

-- All targets of the code are ahead.
abbrev pub TargetAhead : List Item → Option Label → Type 0
TargetAhead items none = Unit
TargetAhead items (some l) = placed l items ≡ true

abbrev pub AllAhead : List Item → Type 0
AllAhead [] = Unit
AllAhead (label l ∷ items) = AllAhead items
AllAhead (insn i ∷ items) = TargetAhead items i.jt × TargetAhead items i.jf × AllAhead items

-- Offsets are found, or one exceeds 255, for which 256 instructions are too few.
abbrev pub Fits {ℓ} : {A : Type ℓ} → ℕ → Result Error A → Type ℓ
Fits {A} n r = ((a : A) × (r ≡ ok a)) ⊎ ((r ≡ err jump_out_of_range) × (256 < n))

offset_of-Fits :
    (positions : Positions) (base : ℕ) (items : List Item) (target : Option Label)
    → Located positions (suc base) items
    → TargetAhead items target
    → Fits (suc (length (instructions items))) (offset_of positions target base)
unfolding offset_of offset_to
offset_of-Fits positions base items none loc h = inl (0, refl)
offset_of-Fits positions base items (some l) loc h =
    let (p, q, r, s) = lookup-placed positions l (suc base) items loc h in
    elim (Bool-cases (leb (p - suc base) 255)) [
      | inl small ↦ inl (p - suc base, ground arith)
      | inr large ↦ inr (ground arith, ground arith)
    ]

Fits-mono {ℓ} : {A : Type ℓ} (n : ℕ) (r : Result Error A) → Fits n r → Fits (suc n) r
Fits-mono n r (inl h) = inl h
Fits-mono n r (inr (h, k)) = inr (h, omega arith)

Fits-bind {ℓ κ} :
    {A : Type ℓ} {B : Type κ} (n : ℕ) (r : Result Error A) (f : A → Result Error B)
    → Fits n r
    → ((a : A) → Fits n (f a))
    → Fits n (r >>= f)
Fits-bind n r f (inl (a, h)) k = rw h (k a)
Fits-bind n r f (inr (h, above)) k = inr (rw h, above)

pub resolve_from-Fits :
    (positions : Positions) (base : ℕ) (items : List Item)
    → Located positions base items
    → AllAhead items
    → Fits (length (instructions items)) (resolve_from positions base (instructions items))
unfolding resolve_from instructions
resolve_from-Fits positions base [] loc h = inl ([], refl)
resolve_from-Fits positions base (label l ∷ items) loc h =
    resolve_from-Fits positions base items loc.1 h
resolve_from-Fits positions base (insn i ∷ items) loc (jt, jf, h) =
    let n = length (instructions items) in
    Fits-bind (suc n) (offset_of positions i.jt base) _
      (offset_of-Fits positions base items i.jt loc jt)
      λ _.
        Fits-bind (suc n) (offset_of positions i.jf base) _
          (offset_of-Fits positions base items i.jf loc jf)
          λ _.
            Fits-bind (suc n) (resolve_from positions (suc base) (instructions items)) _
              (Fits-mono n _ (resolve_from-Fits positions (suc base) items loc h))
              λ _. inl (_, refl)

pub length-resolve_from :
    (positions : Positions) (base : ℕ) (is : List PInsn) (program : List SockFilter)
    → resolve_from positions base is ≡ ok program
    → length program ≡ length is
unfolding resolve_from
length-resolve_from positions base [] program h = ground arith
length-resolve_from positions base (i ∷ is) program h =
    let (jt, jf, rest, p, q, r, s) = resolve_from-eq_ok positions base i is program h in
    ap length s ∙ ap suc (length-resolve_from positions (suc base) is rest r)
