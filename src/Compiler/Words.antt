-- ===== src/Compiler/Words.antt =====
-- The words of the grammar, and the comparison of texts.
use Prim.Native.Char.{code}
use Prim.Native.String.{String}
use root_wire.Base.{
  ◌≡◌, refl, arith, ==_self, Bool, true, false, Option, none, some, List, [], ◌∷◌, ◌==◌, ◌&&◌, ◌||◌,
  if◌then◌else◌,
}
use root_wire.Compiler.Syntax.{Text, Protocol, tcp, udp, icmp, arp, ip, ip6, Kind, word, Token}

-- The code points of a text.
abbrev pub codes : String → Text
codes String.[] = []
codes (String.◌∷◌ c s) = code c ∷ codes s

unfoldable pub text_eq : Text → Text → Bool
text_eq [] [] = true
text_eq [] (b ∷ t) = false
text_eq (a ∷ s) [] = false
text_eq (a ∷ s) (b ∷ t) = a == b && text_eq s t

pub text_eq→eq : (s t : Text) → text_eq s t ≡ true → s ≡ t
unfolding text_eq
text_eq→eq [] [] h = refl
text_eq→eq [] (b ∷ t) h = cc
text_eq→eq (a ∷ s) [] h = cc
text_eq→eq (a ∷ s) (b ∷ t) h = ground (arith, text_eq→eq s t)

pub text_eq_self : (s : Text) → text_eq s s ≡ true
unfolding text_eq
text_eq_self [] = refl
text_eq_self (c ∷ s) = rw (==_self c) (text_eq_self s)

-- `token.text in _PROTOCOLS`
unfoldable pub protocol_of : Text → Option Protocol
unfolding text_eq
protocol_of text =
    if text_eq text (codes "tcp")
    then some tcp
    else if text_eq text (codes "udp")
    then some udp
    else if text_eq text (codes "icmp")
    then some icmp
    else if text_eq text (codes "arp")
    then some arp
    else if text_eq text (codes "ip")
    then some ip
    else if text_eq text (codes "ip6")
    then some ip6
    else none

abbrev is_some {ℓ} : {A : Type ℓ} → Option A → Bool
is_some none = false
is_some (some a) = true

-- `token.text in _KEYWORDS`
unfoldable pub is_keyword : Text → Bool
unfolding text_eq protocol_of
is_keyword text =
    is_some (protocol_of text)
    || text_eq text (codes "host")
    || text_eq text (codes "port")
    || text_eq text (codes "src")
    || text_eq text (codes "dst")
    || text_eq text (codes "and")
    || text_eq text (codes "or")
    || text_eq text (codes "not")

abbrev pub is_word : Kind → Bool
is_word word = true
is_word _ = false

-- `_match_word`: the tokens behind the word, if it stands next.
unfoldable pub match_word : Text → List Token → Option (List Token)
unfolding text_eq
match_word text [] = none
match_word text (t ∷ tokens) = if is_word t.kind && text_eq t.text text then some tokens else none
