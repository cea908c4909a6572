-- ===== src/Compiler/Symbolic/Code.antt =====
-- The labels of a piece of code: fresh, placed once, and every target ahead.
use root_wire.Base.{
  ℕ, ◌≤◌, ◌<◌, ◌≡◌, refl, true, false, Option, none, some, List, [], ◌∷◌, ◌++◌, ◌==◌, ◌||◌, ◌⊎◌,
  inl, inr, arith,
}
use root_wire.Vm.{Packet}
use root_wire.Compiler.Codegen.{Label, Item, label, insn}
use root_wire.Compiler.Symbolic.{seeking, exec, placed}

-- Every label of the code lies above `lo` and not above `hi`, and stands there once.
abbrev pub Within : ℕ → ℕ → List Item → Type 0
Within lo hi [] = Unit
Within lo hi (label l ∷ items) = (lo < l) × (l ≤ hi) × (placed l items ≡ false) × Within lo hi items
Within lo hi (insn i ∷ items) = Within lo hi items

-- The target is none, one of the two exits, or a label further down.
abbrev pub Ahead : Label → Label → List Item → Option Label → Type 0
Ahead t f items none = Unit
Ahead t f items (some l) = (placed l items || (l == t || l == f)) ≡ true

abbrev pub Forward : Label → Label → List Item → Type 0
Forward t f [] = Unit
Forward t f (label l ∷ items) = Forward t f items
Forward t f (insn i ∷ items) = Ahead t f items i.jt × Ahead t f items i.jf × Forward t f items

pub placed-append :
    (l : Label) (xs ys : List Item) → placed l (xs ++ ys) ≡ (placed l xs || placed l ys)
unfolding placed
placed-append l [] ys = refl
placed-append l (label l' ∷ xs) ys = ground (arith, placed-append l xs ys)
placed-append l (insn i ∷ xs) ys = placed-append l xs ys

-- A label outside the range stands nowhere in the code.
pub placed_outside :
    (l lo hi : ℕ) (items : List Item)
    → Within lo hi items
    → (l ≤ lo) ⊎ (hi < l)
    → placed l items ≡ false
unfolding placed
placed_outside l lo hi [] w out = refl
placed_outside l lo hi (label l' ∷ items) (above, below, once, w) (inl h) =
    ground (arith, placed_outside l lo hi items w (inl h))
placed_outside l lo hi (label l' ∷ items) (above, below, once, w) (inr h) =
    ground (arith, placed_outside l lo hi items w (inr h))
placed_outside l lo hi (insn i ∷ items) w out = placed_outside l lo hi items w out

-- A search passes over code that does not hold its label.
pub exec-seeking :
    (packet : Packet) (l a x : ℕ) (items rest : List Item)
    → placed l items ≡ false
    → exec packet (seeking l a x) (items ++ rest) ≡ exec packet (seeking l a x) rest
unfolding exec placed
exec-seeking packet l a x [] rest h = refl
exec-seeking packet l a x (label l' ∷ items) rest h =
    ground (arith, exec-seeking packet l a x items rest)
exec-seeking packet l a x (insn i ∷ items) rest h = exec-seeking packet l a x items rest h

pub Within-mono :
    (lo hi lo' hi' : ℕ) (items : List Item)
    → lo' ≤ lo
    → hi ≤ hi'
    → Within lo hi items
    → Within lo' hi' items
Within-mono lo hi lo' hi' [] p q w = tt
Within-mono lo hi lo' hi' (label l ∷ items) p q (above, below, once, w) =
    (omega arith, omega arith, once, Within-mono lo hi lo' hi' items p q w)
Within-mono lo hi lo' hi' (insn i ∷ items) p q w = Within-mono lo hi lo' hi' items p q w

-- Two pieces of code with a label between them. Their ranges do not meet, and the label lies
-- outside both.
pub Within-insert :
    (lo₁ hi₁ m lo₂ hi₂ lo hi : ℕ) (xs ys : List Item)
    → (m ≤ lo₁) ⊎ (hi₁ < m)
    → m ≤ lo₂
    → hi₁ ≤ lo₂
    → (lo ≤ lo₁) × (lo < m) × (m ≤ hi) × (hi₁ ≤ hi) × (hi₂ ≤ hi)
    → Within lo₁ hi₁ xs
    → Within lo₂ hi₂ ys
    → Within lo hi (xs ++ label m ∷ ys)
unfolding placed
Within-insert lo₁ hi₁ m lo₂ hi₂ lo hi [] ys apart p q (b₁, b₂, b₃, b₄, b₅) wx wy = (
  b₂,
  b₃,
  placed_outside m lo₂ hi₂ ys wy (inl p),
  Within-mono lo₂ hi₂ lo hi ys (omega arith) b₅ wy,
)
Within-insert lo₁ hi₁ m lo₂ hi₂ lo hi (label l ∷ xs) ys apart p q b (above, below, once, wx) wy = (
  omega arith,
  omega arith,
  ground (
    arith,
    placed-append l xs (label m ∷ ys),
    placed_outside l lo₂ hi₂ ys wy (inl (omega arith)),
  ),
  Within-insert lo₁ hi₁ m lo₂ hi₂ lo hi xs ys apart p q b wx wy,
)
Within-insert lo₁ hi₁ m lo₂ hi₂ lo hi (insn i ∷ xs) ys apart p q b wx wy =
    Within-insert lo₁ hi₁ m lo₂ hi₂ lo hi xs ys apart p q b wx wy

Ahead-append :
    (t f t' f' : Label) (xs ys : List Item) (target : Option Label)
    → Ahead t f ys (some t')
    → Ahead t f ys (some f')
    → Ahead t' f' xs target
    → Ahead t f (xs ++ ys) target
Ahead-append t f t' f' xs ys none p q h = tt
Ahead-append t f t' f' xs ys (some l) p q h = ground (arith, placed-append l xs ys)

-- Code between exits that the code behind it holds or shares.
pub Forward-append :
    (t f t' f' : Label) (xs ys : List Item)
    → Ahead t f ys (some t')
    → Ahead t f ys (some f')
    → Forward t' f' xs
    → Forward t f ys
    → Forward t f (xs ++ ys)
Forward-append t f t' f' [] ys p q hx hy = hy
Forward-append t f t' f' (label l ∷ xs) ys p q hx hy = Forward-append t f t' f' xs ys p q hx hy
Forward-append t f t' f' (insn i ∷ xs) ys p q (ht, hf, hx) hy = (
  Ahead-append t f t' f' xs ys i.jt p q ht,
  Ahead-append t f t' f' xs ys i.jf p q hf,
  Forward-append t f t' f' xs ys p q hx hy,
)
