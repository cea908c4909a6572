-- ===== src/Screen/Format.antt =====
-- The formatting that src/rootwire/output.py uses of the language: f-strings, `str` of a number,
-- `join`, `or`, and hexadecimal numerals.
use root_wire.Base.{
  err, ok, ℕ, zero, suc, ◌+◌, ◌/◌, ◌%◌, Option, none, some, List, [], ◌∷◌, ◌++◌, ltb, if◌then◌else◌,
}
use root_wire.Compiler.Syntax.{Text}
use root_wire.Compiler.Words.{codes}
use root_wire.Headers.{Word, Checked}
use root_wire.Terminal.{hex}

-- An f-string: its parts one after another.
unfoldable pub format : List Text → Text
format [] = []
format (part ∷ parts) = part ++ format parts

-- `separator.join(texts)`
unfoldable pub join : Text → List Text → Text
join separator [] = []
join separator (text ∷ []) = text
join separator (text ∷ next ∷ texts) = text ++ (separator ++ join separator (next ∷ texts))

-- The digits of a number, in front of those found already, with fuel for each.
unfoldable pub decimal_digits : ℕ → ℕ → Text → Text
decimal_digits zero n digits = digits
decimal_digits (suc fuel) n digits =
    let more = decimal_digits fuel (n / 10) ((b'0' + n % 10) ∷ digits) in
    if ltb n 10 then (b'0' + n % 10) ∷ digits else more

-- `str(n)`
unfoldable pub decimal : ℕ → Text
unfolding decimal_digits
decimal n = decimal_digits (suc n) n []

-- `f"{n:#06x}"`, with four digits, and `f"{n:#010x}"`, with eight.
unfoldable pub hex_number : ℕ → ℕ → Text
unfolding hex
hex_number width n = b'0' ∷ b'x' ∷ hex width n

-- `data.hex()`
unfoldable pub hex_bytes : List ℕ → Text
unfolding hex
hex_bytes [] = []
hex_bytes (byte ∷ bytes) = hex 2 byte ++ hex_bytes bytes

-- `text or default`: an empty text is false.
abbrev pub or_text : Option Text → Text → Text
or_text none default = default
or_text (some []) default = default
or_text (some (c ∷ text)) default = c ∷ text

abbrev pub text_of : Option Word → Option Text
text_of none = none
text_of (some word) = some word.text

-- `_I` and `_II`
unfoldable pub indent : Text
indent = codes "    "

unfoldable pub detail_indent : Text
detail_indent = codes "        "

-- Two properties that one `try` reads: the first to raise decides.
abbrev pub both_read : {A B : Type 0} → Checked A → Checked B → Checked (A × B)
both_read (err invalid) second = err invalid
both_read (ok first) (err invalid) = err invalid
both_read (ok first) (ok second) = ok (first, second)
