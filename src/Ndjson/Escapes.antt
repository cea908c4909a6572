-- ===== src/Ndjson/Escapes.antt =====
-- A JSON string is printable ASCII.
use root_wire.Base.{
  ℕ, ◌≡◌, refl, Bool, true, false, Option, none, some, [], ◌∷◌, ltb, leb, ◌==◌, ◌&&◌, arith,
  Bool-cases, inl, inr, if◌then◌else◌,
}
use root_wire.Compiler.Syntax.{Text}
use root_wire.Terminal.Safe.{AllAscii, AllAscii-append, hex-AllAscii}
use root_wire.Ndjson.Json.{
  short_escape, unit_escape, high_unit, low_unit, unicode_escape, json_char, json_chars, quote,
}

-- An escape, if there is one.
abbrev OptionAscii : Option Text → Type 0
OptionAscii none = Unit {0}
OptionAscii (some t) = AllAscii t

if-OptionAscii :
    (b : Bool) (s t : Option Text)
    → OptionAscii s
    → OptionAscii t
    → OptionAscii (if b then s else t)
if-OptionAscii true s t h k = h
if-OptionAscii false s t h k = k

short_escape-OptionAscii : (c : ℕ) → OptionAscii (short_escape c)
unfolding short_escape
short_escape-OptionAscii c = if-OptionAscii (c == 34) _ _ (omega arith) (
    if-OptionAscii (c == 92) _ _ (omega arith) (
      if-OptionAscii (c == 10) _ _ (omega arith) (
        if-OptionAscii (c == 13) _ _ (omega arith) (
          if-OptionAscii (c == 9) _ _ (omega arith) (
            if-OptionAscii (c == 12) _ _ (omega arith)
              (if-OptionAscii (c == 8) _ _ (omega arith) tt))))))

unit_escape-AllAscii : (unit : ℕ) → AllAscii (unit_escape unit)
unfolding unit_escape
unit_escape-AllAscii unit =
    (omega arith, omega arith, (omega arith, omega arith, hex-AllAscii 4 unit))

unicode_escape-AllAscii : (c : ℕ) → AllAscii (unicode_escape c)
unfolding unicode_escape
unicode_escape-AllAscii c = elim (Bool-cases (ltb c 0x1_0000)) [
  | inl e ↦ rw e (unit_escape-AllAscii c)
  | inr e ↦ rw e (
      AllAscii-append (unit_escape (high_unit c)) (unit_escape (low_unit c))
        (unit_escape-AllAscii (high_unit c)) (unit_escape-AllAscii (low_unit c)))
]

json_char-AllAscii : (c : ℕ) → AllAscii (json_char c)
unfolding json_char
json_char-AllAscii c = by_escape (short_escape c) refl
  where
    by_escape : (o : Option Text) → short_escape c ≡ o → AllAscii (json_char c)
    by_escape (some escape) e = rw (json_char, e) (rw e at (short_escape-OptionAscii c))
    by_escape none e = elim (Bool-cases (leb 32 c && leb c 126)) [
      | inl f ↦ rw (json_char, e, f) (ground arith, ground arith, tt)
      | inr f ↦ rw (json_char, e, f) (unicode_escape-AllAscii c)
    ]

json_chars-AllAscii : (t : Text) → AllAscii (json_chars t)
unfolding json_chars
json_chars-AllAscii [] = tt
json_chars-AllAscii (c ∷ t) =
    AllAscii-append (json_char c) (json_chars t) (json_char-AllAscii c) (json_chars-AllAscii t)

pub quote-AllAscii : (t : Text) → AllAscii (quote t)
unfolding quote
quote-AllAscii t =
    AllAscii-append (34 ∷ json_chars t) (34 ∷ []) (omega arith, omega arith, json_chars-AllAscii t)
      (omega arith)
