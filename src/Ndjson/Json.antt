-- ===== src/Ndjson/Json.antt =====
-- `json.dumps(record, separators=(",", ":"))` of the language, for the values that a frame holds.
use root_wire.Base.{
  Option, none, some, ℕ, ◌+◌, ◌-◌, ◌/◌, ◌%◌, Bool, true, false, List, [], ◌∷◌, ◌++◌, Result, ok,
  err, ◌>>=◌, ltb, leb, ◌==◌, ◌&&◌, if◌then◌else◌,
}
use root_wire.Compiler.Syntax.{Text}
use root_wire.Compiler.Words.{codes}
use root_wire.Terminal.{hex}
use root_wire.Screen.Format.{decimal}

mutual
  pub data Value : Type 0 where
    null : Value
    boolean : Bool → Value
    number : ℕ → Value
    text : Text → Value
    bytes : List ℕ → Value
    array : Items → Value
    object : Fields → Value

  pub data Items : Type 0 where
    nil : Items
    cons : Value → Items → Items

  pub data Fields : Type 0 where
    end : Fields
    field : Text → Value → Fields → Fields

-- What `dumps` raises on a value that JSON has no form for.
pub data TypeError : Type 0 where
  not_serializable : TypeError

-- The escapes that JSON has names for.
unfoldable pub short_escape : ℕ → Option Text
short_escape c =
    if c == 34
    then some (codes "\\\"")
    else if c == 92
    then some (codes "\\\\")
    else if c == 10
    then some (codes "\\n")
    else if c == 13
    then some (codes "\\r")
    else if c == 9
    then some (codes "\\t")
    else if c == 12
    then some (codes "\\f")
    else if c == 8
    then some (codes "\\b")
    else none

-- A unit of UTF-16.
unfoldable pub unit_escape : ℕ → Text
unit_escape unit = b'\\' ∷ b'u' ∷ hex 4 unit

-- The two units of a character beyond the first plane.
unfoldable pub high_unit : ℕ → ℕ
high_unit c = 0xd800 + (c - 0x1_0000) / 1024 % 1024

unfoldable pub low_unit : ℕ → ℕ
low_unit c = 0xdc00 + (c - 0x1_0000) % 1024

unfoldable pub unicode_escape : ℕ → Text
unfolding unit_escape high_unit low_unit
unicode_escape c =
    if ltb c 0x1_0000 then unit_escape c else unit_escape (high_unit c) ++ unit_escape (low_unit c)

-- A character of a string: by a short escape, as it is if it is printable ASCII, or by its units.
unfoldable pub json_char : ℕ → Text
unfolding short_escape unicode_escape
json_char c = elim (short_escape c) [
  | some escape ↦ escape
  | none ↦ if leb 32 c && leb c 126 then c ∷ [] else unicode_escape c
]

unfoldable pub json_chars : Text → Text
unfolding json_char
json_chars [] = []
json_chars (c ∷ t) = json_char c ++ json_chars t

-- A string in its quotes.
unfoldable pub quote : Text → Text
unfolding json_chars
quote t = 34 ∷ json_chars t ++ 34 ∷ []

abbrev json_boolean : Bool → Text
json_boolean true = codes "true"
json_boolean false = codes "false"

unfoldable mutual
  unfolding quote decimal

  pub dumps : Value → Result TypeError Text
  dumps null = ok (codes "null")
  dumps (boolean b) = ok (json_boolean b)
  dumps (number n) = ok (decimal n)
  dumps (text t) = ok (quote t)
  dumps (bytes b) = err not_serializable
  dumps (array items) = dump_items items >>= λ t. ok (b'[' ∷ t ++ b']' ∷ [])
  dumps (object fields) = dump_fields fields >>= λ t. ok (b'{' ∷ t ++ b'}' ∷ [])

  -- With a comma between two.
  pub dump_items : Items → Result TypeError Text
  dump_items nil = ok []
  dump_items (cons value nil) = dumps value
  dump_items (cons value (cons next items)) =
      dumps value >>= λ t. dump_items (cons next items) >>= λ rest. ok (t ++ b',' ∷ rest)

  pub dump_fields : Fields → Result TypeError Text
  dump_fields end = ok []
  dump_fields (field key value end) = dumps value >>= λ t. ok (quote key ++ b':' ∷ t)
  dump_fields (field key value (field k v fields)) = dumps value >>= λ t.
      dump_fields (field k v fields) >>= λ rest. ok (quote key ++ (b':' ∷ t ++ b',' ∷ rest))
