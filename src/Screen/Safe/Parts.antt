-- ===== src/Screen/Safe/Parts.antt =====
-- Texts without control characters, and the formatting that keeps them so.
use root_wire.Base.{
  append-nil, ℕ, zero, suc, ◌+◌, ◌/◌, ◌%◌, ◌≡◌, refl, Bool, true, false, Option, none, some, List,
  [], ◌∷◌, ◌++◌, ltb, arith, Bool-cases, inl, inr, if◌then◌else◌, map,
}
use root_wire.Compiler.Syntax.{Text}
use root_wire.Headers.{Word, is_ascii}
use root_wire.Terminal.{Printability, sanitize_for_terminal, hex}
use root_wire.Terminal.Safe.{
  AllSafe, sanitize_for_terminal-AllSafe, hex-AllAscii, AllAscii, AllAscii-AllSafe,
}
use root_wire.Screen.Format.{
  format, join, decimal_digits, decimal, hex_number, hex_bytes, or_text, text_of, indent,
  detail_indent,
}

-- Every item has the property.
pub data Each {A : Type 0} (P : A → Type 0) : List A → Type 0 where
  nil : Each P []
  cons : {x : A} {xs : List A} → P x → Each P xs → Each P (x ∷ xs)

module _ {A : Type 0} (P : A → Type 0) where
  pub Each-append : {xs ys : List A} → Each P xs → Each P ys → Each P (xs ++ ys)
  Each-append nil k = k
  Each-append (cons p h) k = cons p (Each-append h k)

  pub Each-map : {B : Type 0} (f : B → A) → ((b : B) → P (f b)) → (xs : List B) → Each P (map f xs)
  Each-map f h [] = nil
  Each-map f h (x ∷ xs) = cons (h x) (Each-map f h xs)

is_ascii-AllAscii : (text : Text) → is_ascii text ≡ true → AllAscii text
is_ascii-AllAscii [] h = tt
is_ascii-AllAscii (c ∷ text) h = (ground arith, ground arith, is_ascii-AllAscii text (ground arith))

decimal_digits-AllAscii :
    (fuel n : ℕ) (digits : Text) → AllAscii digits → AllAscii (decimal_digits fuel n digits)
unfolding decimal_digits
decimal_digits-AllAscii zero n digits h = h
decimal_digits-AllAscii (suc fuel) n digits h = elim (Bool-cases (ltb n 10)) [
  | inl e ↦ rw e (omega arith, omega arith, h)
  | inr e ↦ rw e (
      decimal_digits-AllAscii fuel (n / 10) ((b'0' + n % 10) ∷ digits)
        (omega arith, omega arith, h))
]

pub decimal-AllAscii : (n : ℕ) → AllAscii (decimal n)
unfolding decimal
decimal-AllAscii n = decimal_digits-AllAscii (suc n) n [] tt

module _ (unicode : Printability) where
  -- Every character is printable or a newline.
  pub record Safe (text : Text) : Type 0 where
    pub all : AllSafe unicode text

  pub Safe-append : (s t : Text) → Safe s → Safe t → Safe (s ++ t)
  Safe-append [] t h k = k
  Safe-append (c ∷ s) t h k =
      let rest = Safe-append s t (record { all = h.all.1 }) k in
      record { all = (h.all.0, rest.all) }

  AllAscii-Safe : (text : Text) → AllAscii text → Safe text
  AllAscii-Safe text h =
      let safe = AllAscii-AllSafe unicode text [] h tt in record { all = rw append-nil at safe }

  pub ascii-Safe : (text : Text) → is_ascii text ≡ true → Safe text
  ascii-Safe text h = AllAscii-Safe text (is_ascii-AllAscii text h)

  pub word-Safe : (w : Word) → Safe w.text
  word-Safe w = ascii-Safe w.text w.ascii

  pub sanitize-Safe : (text : Text) → Safe (sanitize_for_terminal unicode text)
  sanitize-Safe text = record { all = (sanitize_for_terminal-AllSafe unicode text).0 }

  pub decimal-Safe : (n : ℕ) → Safe (decimal n)
  decimal-Safe n = AllAscii-Safe _ (decimal-AllAscii n)

  pub hex_number-Safe : (width n : ℕ) → Safe (hex_number width n)
  unfolding hex_number
  hex_number-Safe width n =
      AllAscii-Safe _ (omega arith, omega arith, (omega arith, omega arith, hex-AllAscii width n))

  pub hex_bytes-Safe : (bytes : List ℕ) → Safe (hex_bytes bytes)
  unfolding hex_bytes
  hex_bytes-Safe [] = record { all = tt }
  hex_bytes-Safe (byte ∷ bytes) =
      Safe-append (hex 2 byte) (hex_bytes bytes) (AllAscii-Safe _ (hex-AllAscii 2 byte))
        (hex_bytes-Safe bytes)

  pub indent-Safe : Safe indent
  unfolding indent
  indent-Safe = ascii-Safe _ refl

  pub detail_indent-Safe : Safe detail_indent
  unfolding detail_indent
  detail_indent-Safe = ascii-Safe _ refl

  pub or_text-Safe :
      (text default : Text) → Safe text → Safe default → Safe (or_text (some text) default)
  or_text-Safe [] default h k = k
  or_text-Safe (c ∷ text) default h k = h

  pub or_word-Safe :
      (o : Option Word) (default : Text) → Safe default → Safe (or_text (text_of o) default)
  or_word-Safe none default h = h
  or_word-Safe (some w) default h = or_text-Safe w.text default (word-Safe w) h

  pub if-Safe : (b : Bool) (s t : Text) → Safe s → Safe t → Safe (if b then s else t)
  if-Safe true s t h k = h
  if-Safe false s t h k = k

  pub format-Safe : {parts : List Text} → Each Safe parts → Safe (format parts)
  unfolding format
  format-Safe nil = record { all = tt }
  format-Safe (cons p h) = Safe-append _ _ p (format-Safe h)

  pub join-Safe :
      {separator : Text} {texts : List Text}
      → Safe separator
      → Each Safe texts
      → Safe (join separator texts)
  unfolding join
  join-Safe s nil = record { all = tt }
  join-Safe s (cons p nil) = p
  join-Safe s (cons p (cons q h)) = Safe-append _ _ p (Safe-append _ _ s (join-Safe s (cons q h)))

pub ruleset parts = (
  cons, nil, format-Safe, join-Safe, indent-Safe, detail_indent-Safe, word-Safe, decimal-Safe,
  hex_number-Safe, hex_bytes-Safe, sanitize-Safe, or_word-Safe, or_text-Safe, if-Safe, ascii-Safe,
)
