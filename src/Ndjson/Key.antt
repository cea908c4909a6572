-- ===== src/Ndjson/Key.antt =====
-- What stands under the key "type" of a layer's object.
use root_wire.Base.{
  Bool, sym, ◌∙◌, ap, ◌≡◌, refl, true, false, Option, none, some, Bool-cases, inl, inr,
  if◌then◌else◌,
}
use root_wire.Compiler.Syntax.{Text}
use root_wire.Compiler.Words.{codes, text_eq, text_eq→eq, text_eq_self}
use root_wire.Ndjson.Json.{Value, text, Fields, end, field}
use root_wire.Ndjson.{json_safe, set_key, update_fields, layer_object}

unfoldable pub lookup : Text → Fields → Option Value
lookup key end = none
lookup key (field k v fields) =
    let rest = lookup key fields in if text_eq k key then some v else rest

-- No key stands twice.
unfoldable pub IsDict : Fields → Type 0
IsDict end = Unit {0}
IsDict (field k v fields) = (lookup k fields ≡ none) × IsDict fields

abbrev pub or_default : Option Value → Option Value → Option Value
or_default none default = default
or_default (some value) default = some (json_safe value)

shadowed :
    (b : Bool) (value v : Value) (o : Option Value)
    → (if b then some value else o) ≡ (if b then some value else if b then some v else o)
shadowed true value v o = refl
shadowed false value v o = refl

swapped :
    (a b : Bool) (v value : Value) (o : Option Value)
    → (a ≡ true → b ≡ false)
    → (if a then some v else if b then some value else o)
      ≡ (if b then some value else if a then some v else o)
swapped true true v value o h = let e = h refl in cc
swapped true false v value o h = refl
swapped false true v value o h = refl
swapped false false v value o h = refl

-- A text is not equal to two others that differ.
apart :
    (k key other : Text)
    → text_eq k key ≡ false
    → text_eq k other ≡ true
    → text_eq key other ≡ false
apart k key other e f = elim (Bool-cases (text_eq key other)) [
  | inr g ↦ g
  | inl g ↦
      let same = text_eq→eq k other f ∙ sym (text_eq→eq key other g) in
      let self = ap (λ t. text_eq t key) same ∙ text_eq_self key in cc
]

defaults :
    (b : Bool) (value : Value) (own entry : Option Value)
    → (b ≡ true → own ≡ none)
    → or_default own (if b then some (json_safe value) else entry)
      ≡ or_default (if b then some value else own) entry
defaults true value own entry h = rw (h refl)
defaults false value own entry h = refl

lookup-set_key :
    (key other : Text) (value : Value) (fields : Fields)
    → lookup other (set_key key value fields)
      ≡ (if text_eq key other then some value else lookup other fields)
unfolding lookup set_key
lookup-set_key key other value end = refl
lookup-set_key key other value (field k v fields) =
    let ih = lookup-set_key key other value fields in
    elim (Bool-cases (text_eq k key)) [
      | inl e ↦
          let same = text_eq→eq k key e in
          rw (e, same) (shadowed (text_eq key other) value v (lookup other fields))
      | inr e ↦
          rw (e, ih)
            (swapped (text_eq k other) (text_eq key other) v value (lookup other fields)
              (apart k key other e))
    ]

lookup-update_fields :
    (key : Text) (fields entries : Fields)
    → IsDict fields
    → lookup key (update_fields entries fields)
      ≡ or_default (lookup key fields) (lookup key entries)
unfolding update_fields lookup IsDict
lookup-update_fields key end entries h = refl
lookup-update_fields key (field k value fields) entries (h, i) =
    lookup-update_fields key fields (set_key k (json_safe value) entries) i
    ∙ ap (or_default (lookup key fields)) (lookup-set_key k key (json_safe value) entries)
    ∙ defaults (text_eq k key) value (lookup key fields) (lookup key entries)
        (λ e. ap (λ t. lookup t fields) (sym (text_eq→eq k key e)) ∙ h)

-- The object of a layer has the layer's fields, with their bytes in hexadecimal, and under "type" the
-- name of its class if the layer has no field of that name; if it has, the field's value stands there
-- and the name of the class nowhere.
pub lookup-layer_object :
    (key name : Text) (fields : Fields)
    → IsDict fields
    → lookup key (layer_object name fields)
      ≡ or_default
          (lookup key fields)
          (if text_eq (codes "type") key then some (text name) else none)
unfolding layer_object lookup
lookup-layer_object key name fields h =
    lookup-update_fields key fields (field (codes "type") (text name) end) h
