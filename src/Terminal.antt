-- ===== src/Terminal.antt =====
-- src/rootwire/output.py, `_sanitize_for_terminal`: payload text on its way to a terminal.
pub mod Safe
mod Tests
use root_wire.Base.{
  ℕ, zero, suc, ◌+◌, ◌-◌, ◌/◌, ◌%◌, ◌≤◌, ◌≡◌, Bool, true, List, [], ◌∷◌, ◌++◌, ltb, leb, ◌==◌, ◌||◌,
  if◌then◌else◌, length,
}
use root_wire.Compiler.Syntax.{Text}

-- `str.isprintable` of one character, which the printable characters of ASCII satisfy.
pub record Printability : Type 0 where
  pub is_printable : ℕ → Bool
  pub ascii_printable : (c : ℕ) → 32 ≤ c → c ≤ 126 → is_printable c ≡ true

-- A digit of a hexadecimal numeral, in lower case.
unfoldable pub hex_digit : ℕ → ℕ
hex_digit d = if ltb d 10 then b'0' + d else b'a' + (d - 10)

-- The digits of a number, in front of those found already, with fuel for each.
unfoldable pub hex_digits : ℕ → ℕ → Text → Text
unfolding hex_digit
hex_digits zero n digits = digits
hex_digits (suc fuel) n digits =
    let more = hex_digits fuel (n / 16) (hex_digit (n % 16) ∷ digits) in
    if ltb n 16 then hex_digit (n % 16) ∷ digits else more

unfoldable pub zeros : ℕ → Text
zeros zero = []
zeros (suc n) = b'0' ∷ zeros n

-- `f"{code:0{width}x}"`
unfoldable pub hex : ℕ → ℕ → Text
unfolding hex_digits zeros
hex width code =
    let digits = hex_digits (suc code) code [] in zeros (width - length digits) ++ digits

-- `f"\\x{code:02x}" if code <= 0xFF else f"\\u{code:04x}"`
unfoldable pub escape : ℕ → Text
unfolding hex
escape code = if leb code 0xff then 92 ∷ b'x' ∷ hex 2 code else 92 ∷ b'u' ∷ hex 4 code

module _ (unicode : Printability) where
  -- `char == "\n" or char.isprintable()`
  abbrev pub is_safe : ℕ → Bool
  is_safe c = c == 10 || unicode.is_printable c

  unfoldable pub sanitize_for_terminal : Text → Text
  unfolding escape
  sanitize_for_terminal [] = []
  sanitize_for_terminal (c ∷ text) =
      let out = sanitize_for_terminal text in if is_safe c then c ∷ out else escape c ++ out
