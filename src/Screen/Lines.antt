-- ===== src/Screen/Lines.antt =====
-- The lines that a terminal shows of a text, and those of a payload.
use root_wire.Base.{
  append_assoc, arith, append-nil, length, ℕ, ◌≡◌, refl, ap, ◌∙◌, true, false, List, [], ◌∷◌, ◌++◌,
  ◌==◌, map, Bool-cases, inl, inr, if◌then◌else◌,
}
use root_wire.Compiler.Syntax.{Text}
use root_wire.Terminal.{Printability, sanitize_for_terminal}
use root_wire.Screen.Format.{format, decimal, indent, detail_indent}
use root_wire.Screen.Utf8.{decode_ignore}
use root_wire.Frame.{Netprotocols}
use root_wire.Screen.Checksum.{Checksums}
use root_wire.Compiler.Words.{codes}
use root_wire.Screen.Safe.Parts.{Safe, Safe-append, decimal-AllAscii}
use root_wire.Screen.Render.Application.{render_question}
use root_wire.Terminal.Safe.{AllAscii, sanitize_for_terminal-AllSafe}
use root_wire.Screen.Block.{indent_lines, payload_lines}

-- A character, in front of the first line.
abbrev add_char : ℕ → Text × List Text → Text × List Text
add_char c (first, rest) = if c == 10 then ([], first ∷ rest) else (c ∷ first, rest)

-- The first line, and the others.
pub split_lines : Text → Text × List Text
split_lines [] = ([], [])
split_lines (c ∷ text) = add_char c (split_lines text)

pub lines : Text → List Text
unfolding split_lines
lines text = (split_lines text).0 ∷ (split_lines text).1

-- No character is a newline.
abbrev pub IsLine : Text → Type 0
IsLine [] = Unit {0}
IsLine (c ∷ text) = ((c == 10) ≡ false) × IsLine text

pub split_lines-append :
    (s t : Text) → IsLine s → split_lines (s ++ t) ≡ (s ++ (split_lines t).0, (split_lines t).1)
unfolding split_lines
split_lines-append [] t h = refl
split_lines-append (c ∷ s) t (h, k) = rw (split_lines-append s t k, h)

detail_indent-IsLine : IsLine detail_indent
unfolding detail_indent
detail_indent-IsLine = (refl, (refl, (refl, (refl, (refl, (refl, (refl, (refl, tt))))))))

split_lines-indent_lines :
    (text : Text)
    → split_lines (indent_lines text)
      ≡ ((split_lines text).0, map (λ l. detail_indent ++ l) (split_lines text).1)
unfolding split_lines indent_lines
split_lines-indent_lines [] = refl
split_lines-indent_lines (c ∷ text) =
    let indented = split_lines-append detail_indent (indent_lines text) detail_indent-IsLine in
    let rest = split_lines-indent_lines text in
    elim (Bool-cases (c == 10)) [ inl e ↦ rw (e, indented, rest) | inr e ↦ rw (e, rest, e) ]

module _ (lib : Netprotocols) (checksums : Checksums lib.Layer) (unicode : Printability) where
  -- `[+] Payload (N bytes):`
  abbrev pub payload_heading : List ℕ → Text
  payload_heading payload =
      format (indent ∷ codes "[+] Payload (" ∷ decimal (length payload) ∷ codes " bytes):" ∷ [])

  -- A payload that is displayed comes to the heading with its length, behind four spaces, and a text,
  -- and the lines of the text are those of the sanitised payload, each behind eight spaces.
  pub payload_lines-indented :
      (byte : ℕ) (payload : List ℕ)
      → (text : Text) × (payload_lines lib checksums unicode true (byte ∷ payload)
          ≡ payload_heading (byte ∷ payload) ∷ text ∷ [])
        × (lines text
            ≡ map
                (λ l. detail_indent ++ l)
                (lines (sanitize_for_terminal unicode (decode_ignore (byte ∷ payload)))))
  unfolding payload_lines lines format
  payload_lines-indented byte payload =
      let shown = sanitize_for_terminal unicode (decode_ignore (byte ∷ payload)) in
      let indented =
        split_lines-append detail_indent (indent_lines shown) detail_indent-IsLine
        ∙ ap (λ s. (detail_indent ++ s.0, s.1)) (split_lines-indent_lines shown) in
      (
        detail_indent ++ (indent_lines shown ++ []),
        refl,
        rw append-nil (ap (λ s. s.0 ∷ s.1) indented),
      )

IsLine-append : (s t : Text) → IsLine s → IsLine t → IsLine (s ++ t)
IsLine-append [] t h k = k
IsLine-append (c ∷ s) t (h, i) k = (h, IsLine-append s t i k)

AllAscii-IsLine : (text : Text) → AllAscii text → IsLine text
AllAscii-IsLine [] h = tt
AllAscii-IsLine (c ∷ text) (l, u, h) = (ground arith, AllAscii-IsLine text h)

split_lines-line : (s : Text) → IsLine s → split_lines s ≡ (s, [])
unfolding split_lines
split_lines-line s h = let e = split_lines-append s [] h in rw append-nil at e

-- A line, a newline, and another line.
lines_two : (s t : Text) → IsLine s → IsLine t → lines (s ++ 10 ∷ t) ≡ s ∷ t ∷ []
unfolding lines split_lines
lines_two s t h k =
    rw (split_lines-append s (10 ∷ t) h, split_lines, split_lines-line t k, append-nil)

format-IsLine :
    (part : Text) (parts : List Text)
    → IsLine part
    → IsLine (format parts)
    → IsLine (format (part ∷ parts))
unfolding format
format-IsLine part parts h k = IsLine-append part (format parts) h k

format_nil-IsLine : IsLine (format [])
unfolding format
format_nil-IsLine = tt

-- A newline in one part of an f-string.
format_newline :
    (first second before after : Text) (parts : List Text)
    → format (first ∷ second ∷ (before ++ 10 ∷ after) ∷ parts)
      ≡ format (first ∷ second ∷ before ∷ []) ++ 10 ∷ format (after ∷ parts)
unfolding format
format_newline first second before after parts = simp (append_assoc, append-nil)

module _ (unicode : Printability) where
  -- A printable name with a newline in it ends the line of its
  -- question, and what stands behind the newline begins a line of its own.
  pub render_question-forges :
      (before after : Text) (qtype : ℕ)
      → IsLine before
      → IsLine after
      → Safe unicode before
      → Safe unicode after
      → lines (render_question unicode (record { name = before ++ 10 ∷ after; qtype = qtype }))
        ≡ format (detail_indent ∷ codes "Q: " ∷ before ∷ [])
          ∷ format (after ∷ codes " (type " ∷ decimal qtype ∷ codes ")" ∷ [])
          ∷ []
  unfolding render_question
  render_question-forges before after qtype p q h k =
      let name_Safe = Safe-append unicode before (10 ∷ after) h (record { all = (refl, k.all) }) in
      let same = (sanitize_for_terminal-AllSafe unicode (before ++ 10 ∷ after)).1 name_Safe.all in
      let number = AllAscii-IsLine (decimal qtype) (decimal-AllAscii qtype) in
      rw (same, format_newline)
        (lines_two _ _
          (format-IsLine detail_indent _ detail_indent-IsLine (
            format-IsLine (codes "Q: ") _ (AllAscii-IsLine (codes "Q: ") (omega arith))
              (format-IsLine before [] p format_nil-IsLine)))
          (format-IsLine after _ q (
            format-IsLine (codes " (type ") _ (AllAscii-IsLine (codes " (type ") (omega arith)) (
              format-IsLine (decimal qtype) _ number (
                format-IsLine (codes ")") [] (AllAscii-IsLine (codes ")") (omega arith))
                  format_nil-IsLine)))))
