-- ===== src/Ndjson/Line.antt =====
-- A frame comes to one line of printable ASCII.
use root_wire.Base.{
  ℕ, ◌≤◌, ◌≡◌, refl, true, false, Option, none, some, List, [], ◌∷◌, ◌++◌, Result, ok, arith,
  Bool-cases, inl, inr, ◌>>=◌,
}
use root_wire.Compiler.Syntax.{Text}
use root_wire.Compiler.Words.{text_eq}
use root_wire.Frame.{Netprotocols, DecodedFrame}
use root_wire.Terminal.Safe.{AllAscii, AllAscii-append}
use root_wire.Screen.Safe.Parts.{decimal-AllAscii}
use root_wire.Ndjson.Json.{
  Value, null, boolean, number, text, bytes, array, object, Items, nil, cons, Fields, end, field,
  TypeError, quote, dumps, dump_items, dump_fields,
}
use root_wire.Ndjson.Escapes.{quote-AllAscii}
use root_wire.Ndjson.{
  json_safe, set_key, update_fields, layer_object, optional_text, layer_objects, frame_record,
  ndjson_line,
}

-- A value holds no bytes, at any depth.
abbrev mutual
  pub NoBytes : Value → Type 0
  NoBytes (bytes b) = ⊥
  NoBytes (array items) = NoBytesItems items
  NoBytes (object fields) = NoBytesFields fields
  NoBytes value = Unit {0}

  pub NoBytesItems : Items → Type 0
  NoBytesItems nil = Unit {0}
  NoBytesItems (cons value items) = NoBytes value × NoBytesItems items

  pub NoBytesFields : Fields → Type 0
  NoBytesFields end = Unit {0}
  NoBytesFields (field key value fields) = NoBytes value × NoBytesFields fields

-- The text that comes back, of printable ASCII.
pub record Dumped (r : Result TypeError Text) : Type 0 where
  pub line : Text
  pub returned : r ≡ ok line
  pub ascii : AllAscii line

Dumped-bind :
    (r : Result TypeError Text) (f : Text → Result TypeError Text)
    → Dumped r
    → ((t : Text) → AllAscii t → Dumped (f t))
    → Dumped (r >>= f)
Dumped-bind r f d h =
    let next = h d.line d.ascii in
    record { line = next.line; returned = rw d.returned next.returned; ascii = next.ascii }

Dumped-ok : (t : Text) → AllAscii t → Dumped (ok t)
Dumped-ok t h = record { line = t; returned = refl; ascii = h }

around :
    (a b : ℕ) (t : Text)
    → 32 ≤ a
    → a ≤ 126
    → 32 ≤ b
    → b ≤ 126
    → AllAscii t
    → AllAscii (a ∷ t ++ b ∷ [])
around a b t h i k l m = (h, i, AllAscii-append t (b ∷ []) m (k, l, tt))

mutual
  unfolding dumps

  dumps-Dumped : (value : Value) → NoBytes value → Dumped (dumps value)
  dumps-Dumped null h = Dumped-ok _ (omega arith)
  dumps-Dumped (boolean true) h = Dumped-ok _ (omega arith)
  dumps-Dumped (boolean false) h = Dumped-ok _ (omega arith)
  dumps-Dumped (number n) h = Dumped-ok _ (decimal-AllAscii n)
  dumps-Dumped (text t) h = Dumped-ok _ (quote-AllAscii t)
  dumps-Dumped (bytes b) h = absurd h
  dumps-Dumped (array items) h = Dumped-bind (dump_items items) _ (dump_items-Dumped items h) λ t k.
      Dumped-ok _ (around b'[' b']' t (omega arith) (omega arith) (omega arith) (omega arith) k)
  dumps-Dumped (object fields) h =
      Dumped-bind (dump_fields fields) _ (dump_fields-Dumped fields h) λ t k.
        Dumped-ok _ (around b'{' b'}' t (omega arith) (omega arith) (omega arith) (omega arith) k)

  dump_items-Dumped : (items : Items) → NoBytesItems items → Dumped (dump_items items)
  dump_items-Dumped nil h = Dumped-ok [] tt
  dump_items-Dumped (cons value nil) h = dumps-Dumped value h.0
  dump_items-Dumped (cons value (cons next items)) h =
      Dumped-bind (dumps value) _ (dumps-Dumped value h.0) λ t k.
        Dumped-bind (dump_items (cons next items)) _ (dump_items-Dumped (cons next items) h.1)
          λ rest l. Dumped-ok _ (AllAscii-append t (b',' ∷ rest) k (omega arith, omega arith, l))

  dump_fields-Dumped : (fields : Fields) → NoBytesFields fields → Dumped (dump_fields fields)
  dump_fields-Dumped end h = Dumped-ok [] tt
  dump_fields-Dumped (field key value end) h =
      Dumped-bind (dumps value) _ (dumps-Dumped value h.0) λ t k.
        Dumped-ok _ (
          AllAscii-append (quote key) (b':' ∷ t) (quote-AllAscii key) (omega arith, omega arith, k))
  dump_fields-Dumped (field key value (field k v fields)) h =
      Dumped-bind (dumps value) _ (dumps-Dumped value h.0) λ t i.
        Dumped-bind (dump_fields (field k v fields)) _ (dump_fields-Dumped (field k v fields) h.1)
          λ rest l. Dumped-ok _ (
            AllAscii-append (quote key) (b':' ∷ t ++ b',' ∷ rest) (quote-AllAscii key) (
              omega arith,
              omega arith,
              AllAscii-append t (b',' ∷ rest) i (omega arith, omega arith, l),
            ))

set_key-NoBytesFields :
    (key : Text) (value : Value) (fields : Fields)
    → NoBytes value
    → NoBytesFields fields
    → NoBytesFields (set_key key value fields)
unfolding set_key
set_key-NoBytesFields key value end h k = (h, tt)
set_key-NoBytesFields key value (field k v fields) h (i, j) = elim (Bool-cases (text_eq k key)) [
  | inl e ↦ rw e (h, j)
  | inr e ↦ rw e (i, set_key-NoBytesFields key value fields h j)
]

-- The fields of a layer hold bytes at the top only: a value is bytes, or has none inside.
abbrev pub BytesOrNone : Value → Type 0
BytesOrNone (bytes b) = Unit {0}
BytesOrNone value = NoBytes value

abbrev pub FlatBytes : Fields → Type 0
FlatBytes end = Unit {0}
FlatBytes (field key value fields) = BytesOrNone value × FlatBytes fields

-- What `_json_safe` leaves has no bytes.
json_safe-NoBytes : (value : Value) → BytesOrNone value → NoBytes (json_safe value)
unfolding json_safe
json_safe-NoBytes null h = tt
json_safe-NoBytes (boolean b) h = tt
json_safe-NoBytes (number n) h = tt
json_safe-NoBytes (text t) h = tt
json_safe-NoBytes (bytes b) h = tt
json_safe-NoBytes (array items) h = h
json_safe-NoBytes (object fields) h = h

update_fields-NoBytesFields :
    (fields entries : Fields)
    → NoBytesFields entries
    → FlatBytes fields
    → NoBytesFields (update_fields entries fields)
unfolding update_fields
update_fields-NoBytesFields end entries h k = h
update_fields-NoBytesFields (field key value fields) entries h (i, j) =
    update_fields-NoBytesFields fields (set_key key (json_safe value) entries)
      (set_key-NoBytesFields key (json_safe value) entries (json_safe-NoBytes value i) h) j

optional_text-NoBytes : (t : Option Text) → NoBytes (optional_text t)
optional_text-NoBytes none = tt
optional_text-NoBytes (some t) = tt

module _ (lib : Netprotocols) (as_dict : lib.Layer → Fields) where
  layer_objects-NoBytesItems :
      ((l : lib.Layer) → FlatBytes (as_dict l))
      → (layers : List lib.Layer) → NoBytesItems (layer_objects lib as_dict layers)
  unfolding layer_objects layer_object
  layer_objects-NoBytesItems flat [] = tt
  layer_objects-NoBytesItems flat (l ∷ layers) = (
    update_fields-NoBytesFields (as_dict l) _ (tt, tt) (flat l),
    layer_objects-NoBytesItems flat layers,
  )

  -- If each value of a layer's fields is bytes or has none inside it, a frame comes to a text without
  -- an exception, and all characters of the text are printable ASCII, whatever the interface, the error
  -- and the fields hold.
  pub ndjson_line-Dumped :
      ((l : lib.Layer) → FlatBytes (as_dict l))
      → (frame : DecodedFrame lib.Layer)
      → (line : Text) × (ndjson_line lib as_dict frame ≡ ok line) × AllAscii line
  unfolding ndjson_line frame_record
  ndjson_line-Dumped flat frame =
      let dumped = dumps-Dumped (frame_record lib as_dict frame) (
        tt,
        (
          tt,
          (
            optional_text-NoBytes frame.interface,
            (
              tt,
              (
                tt,
                (
                  tt,
                  (
                    optional_text-NoBytes frame.error,
                    (tt, (layer_objects-NoBytesItems flat frame.layers, tt)),
                  ),
                ),
              ),
            ),
          ),
        ),
      ) in
      (dumped.line, dumped.returned, dumped.ascii)
