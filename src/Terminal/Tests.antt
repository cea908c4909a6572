-- ===== src/Terminal/Tests.antt =====
-- An escape sequence in a payload.
use root_wire.Base.{◌≡◌, refl, [], ◌∷◌, ◌++◌}
use root_wire.Compiler.Syntax.{Text}
use root_wire.Compiler.Words.{codes}
use root_wire.Samples.{ascii_only}
use root_wire.Terminal.{sanitize_for_terminal}
use root_wire.Terminal.Safe.{AllSafe, sanitize_for_terminal-AllSafe}

-- The title of a window, set by a payload, with a right-to-left override.
abbrev attack : Text
attack = 27 ∷ 93 ∷ 48 ∷ 7 ∷ 10 ∷ 0x202e ∷ []

attack-shown :
    sanitize_for_terminal ascii_only attack ≡ codes "\\x1b]0\\x07" ++ 10 ∷ codes "\\u202e"
unfolding sanitize_for_terminal
attack-shown = refl

sanitize_for_terminal-AllSafe_example :
    AllSafe ascii_only (sanitize_for_terminal ascii_only attack)
    × (AllSafe ascii_only attack → sanitize_for_terminal ascii_only attack ≡ attack)
sanitize_for_terminal-AllSafe_example = sanitize_for_terminal-AllSafe ascii_only attack
