-- ===== src/Terminal/Safe.antt =====
-- Nothing but printable characters and newlines reaches the terminal.
use root_wire.Base.{
  ℕ, zero, suc, ◌-◌, ◌/◌, ◌%◌, ◌≤◌, ◌<◌, ◌≡◌, refl, ap, Bool, true, false, [], ◌∷◌, ◌++◌, ltb, leb,
  ◌==◌, ◌||◌, length, arith, Bool-cases, inl, inr,
}
use root_wire.Compiler.Syntax.{Text}
use root_wire.Terminal.{
  Printability, hex_digit, hex_digits, zeros, hex, escape, is_safe, sanitize_for_terminal,
}

-- Every character lies between the space and the tilde of ASCII.
abbrev pub AllAscii : Text → Type 0
AllAscii [] = Unit {0}
AllAscii (c ∷ text) = (32 ≤ c) × (c ≤ 126) × AllAscii text

pub AllAscii-append : (s t : Text) → AllAscii s → AllAscii t → AllAscii (s ++ t)
AllAscii-append [] t h k = k
AllAscii-append (c ∷ s) t (l, u, h) k = (l, u, AllAscii-append s t h k)

hex_digit-le : (d : ℕ) → d < 16 → (32 ≤ hex_digit d) × (hex_digit d ≤ 126)
unfolding hex_digit
hex_digit-le d h = (ground arith, ground arith)

hex_digits-AllAscii :
    (fuel n : ℕ) (digits : Text) → AllAscii digits → AllAscii (hex_digits fuel n digits)
unfolding hex_digits
hex_digits-AllAscii zero n digits h = h
hex_digits-AllAscii (suc fuel) n digits h =
    let (l, u) = hex_digit-le (n % 16) (omega arith) in
    elim (Bool-cases (ltb n 16)) [
      | inl e ↦ rw e (l, u, h)
      | inr e ↦ rw e (hex_digits-AllAscii fuel (n / 16) (hex_digit (n % 16) ∷ digits) (l, u, h))
    ]

zeros-AllAscii : (n : ℕ) → AllAscii (zeros n)
unfolding zeros
zeros-AllAscii zero = tt
zeros-AllAscii (suc n) = (omega arith, omega arith, zeros-AllAscii n)

pub hex-AllAscii : (width code : ℕ) → AllAscii (hex width code)
unfolding hex
hex-AllAscii width code =
    AllAscii-append (zeros (width - length (hex_digits (suc code) code []))) _ (zeros-AllAscii _)
      (hex_digits-AllAscii (suc code) code [] tt)

escape-AllAscii : (code : ℕ) → AllAscii (escape code)
unfolding escape
escape-AllAscii code = elim (Bool-cases (leb code 0xff)) [
  | inl e ↦ rw e (omega arith, omega arith, (omega arith, omega arith, hex-AllAscii 2 code))
  | inr e ↦ rw e (omega arith, omega arith, (omega arith, omega arith, hex-AllAscii 4 code))
]

module _ (unicode : Printability) where
  -- Every character is a newline or printable.
  abbrev pub AllSafe : Text → Type 0
  AllSafe [] = Unit {0}
  AllSafe (c ∷ text) = (is_safe unicode c ≡ true) × AllSafe text

  pub AllAscii-AllSafe : (text rest : Text) → AllAscii text → AllSafe rest → AllSafe (text ++ rest)
  AllAscii-AllSafe [] rest h k = k
  AllAscii-AllSafe (c ∷ text) rest (l, u, h) k =
      (or_true (c == 10) _ (unicode.ascii_printable c l u), AllAscii-AllSafe text rest h k)
    where
      or_true : (p q : Bool) → q ≡ true → (p || q) ≡ true
      or_true true q e = refl
      or_true false q e = e

  -- Whatever the text: all that is written of it are newlines and printable characters, and if it was
  -- so to begin with it is left as it is; so a second pass changes nothing.
  pub sanitize_for_terminal-AllSafe :
      (text : Text)
      → AllSafe (sanitize_for_terminal unicode text)
        × (AllSafe text → sanitize_for_terminal unicode text ≡ text)
  unfolding sanitize_for_terminal
  sanitize_for_terminal-AllSafe [] = (tt, λ h. refl)
  sanitize_for_terminal-AllSafe (c ∷ text) =
      let (safe, same) = sanitize_for_terminal-AllSafe text in
      elim (Bool-cases (is_safe unicode c)) [
        | inl e ↦ rw e ((e, safe), λ h. ap (λ t. c ∷ t) (same h.1))
        | inr e ↦
            rw e (AllAscii-AllSafe (escape c) _ (escape-AllAscii c) safe, λ h. let k = h.0 in cc)
      ]
