-- ===== src/Ndjson.antt =====
-- src/rootwire/output.py, `OutputToNDJSON` and `_json_safe`, with `json.dumps`.
pub mod Json
pub mod Escapes
pub mod Line
pub mod Key
mod Tests
use root_wire.Base.{ℕ, Option, none, some, List, [], ◌∷◌, Result, ok, err, length, if◌then◌else◌}
use root_wire.Compiler.Syntax.{Text}
use root_wire.Compiler.Words.{codes, text_eq}
use root_wire.Headers.{class_name}
use root_wire.Frame.{Netprotocols, DecodedFrame}
use root_wire.Screen.Format.{hex_bytes}
use Json.{
  Value, null, boolean, number, text, bytes, array, object, Items, nil, cons, Fields, end, field,
  TypeError, dumps,
}

-- `_json_safe`
unfoldable pub json_safe : Value → Value
json_safe (bytes b) = text (hex_bytes b)
json_safe value = value

-- An entry of a dictionary: in place, where the key is there, and else behind the others.
unfoldable pub set_key : Text → Value → Fields → Fields
set_key key value end = field key value end
set_key key value (field k v fields) =
    let rest = set_key key value fields in
    if text_eq k key then field k value fields else field k v rest

-- `**{key: _json_safe(value) for key, value in …}`, on top of the entries in front.
unfoldable pub update_fields : Fields → Fields → Fields
unfolding set_key json_safe
update_fields entries end = entries
update_fields entries (field key value fields) =
    update_fields (set_key key (json_safe value) entries) fields

-- `{"type": type(layer).__name__, **{…}}`, from the fields that `dataclasses.asdict` gives.
unfoldable pub layer_object : Text → Fields → Fields
unfolding update_fields
layer_object name fields = update_fields (field (codes "type") (text name) end) fields

abbrev pub optional_text : Option Text → Value
optional_text none = null
optional_text (some t) = text t

module _ (lib : Netprotocols) (as_dict : lib.Layer → Fields) where
  unfoldable pub layer_objects : List lib.Layer → Items
  unfolding layer_object class_name
  layer_objects [] = nil
  layer_objects (l ∷ layers) =
      cons (object (layer_object (class_name (lib.header l)) (as_dict l))) (layer_objects layers)

  -- The `record` of `update`.
  unfoldable pub frame_record : DecodedFrame lib.Layer → Value
  unfolding layer_objects
  frame_record frame = object (
      field (codes "number") (number frame.number) (
        field (codes "timestamp") (number frame.timestamp) (
          field (codes "interface") (optional_text frame.interface) (
            field (codes "length") (number frame.length) (
              field (codes "truncated") (boolean frame.truncated) (
                field (codes "malformed_length") (boolean frame.malformed_length) (
                  field (codes "error") (optional_text frame.error) (
                    field (codes "payload_len") (number (length frame.payload))
                      (field (codes "layers") (array (layer_objects frame.layers)) end)))))))))

  -- `OutputToNDJSON.update`: the line printed.
  unfoldable pub ndjson_line : DecodedFrame lib.Layer → Result TypeError Text
  unfolding frame_record dumps
  ndjson_line frame = dumps (frame_record frame)
