-- ===== src/Screen/Checksum/Trailing.antt =====
-- What follows a layer on the wire.
use root_wire.Base.{
  ℕ, zero, suc, ◌+◌, ◌≡◌, refl, sym, ap, ◌∙◌, Option, some, List, [], ◌∷◌, ◌++◌, length, drop,
  arith,
}
use root_wire.Compiler.Syntax.{Text}
use root_wire.Frame.{Netprotocols}
use root_wire.Decoder.{decode_frame}
use root_wire.Screen.Checksum.{cursor_behind, trailing_bytes}

drop_nil : (n : ℕ) → drop {A = ℕ} n [] ≡ []
drop_nil zero = refl
drop_nil (suc n) = refl

drop-add : (m n : ℕ) (bytes : List ℕ) → drop n (drop m bytes) ≡ drop (m + n) bytes
drop-add zero n bytes = ap (λ k. drop k bytes) (omega arith)
drop-add (suc m) n [] = drop_nil n ∙ sym (drop_nil (suc m + n))
drop-add (suc m) n (b ∷ bytes) =
    let e : suc (m + n) ≡ suc m + n = omega arith in
    drop-add m n bytes ∙ ap (λ k. drop k (b ∷ bytes)) e

module _ (lib : Netprotocols) where
  -- The bytes of the headers of some layers.
  unfoldable pub header_bytes : List lib.Layer → ℕ
  header_bytes [] = 0
  header_bytes (l ∷ layers) = lib.header_len l + header_bytes layers

  header_bytes-append :
      (before after : List lib.Layer)
      → header_bytes (before ++ after) ≡ header_bytes before + header_bytes after
  unfolding header_bytes
  header_bytes-append [] after = omega arith
  header_bytes-append (l ∷ before) after = omega (arith, header_bytes-append before after)

  cursor_behind-append :
      (cursor : ℕ) (l : lib.Layer) (after before : List lib.Layer)
      → cursor_behind lib cursor (length before) (before ++ l ∷ after)
        ≡ some (cursor + header_bytes before + lib.header_len l)
  unfolding cursor_behind header_bytes
  cursor_behind-append cursor l after [] = ap some (omega arith)
  cursor_behind-append cursor l after (b ∷ before) =
      cursor_behind-append (cursor + lib.header_len b) l after before ∙ ap some (omega arith)

  -- Where the package consumes the headers of the layers that it finds, what follows a layer of a
  -- decoded frame begins right behind the layer's header, and is the headers of the later layers
  -- with the payload behind them; behind the last layer it is the payload.
  pub trailing_bytes-decode_frame :
      (bytes : List ℕ) (number timestamp : ℕ) (interface : Option Text) (l : lib.Layer)
      (before after : List lib.Layer)
      → (lib.decode_chain 16 bytes).layers ≡ before ++ l ∷ after
      → (lib.decode_chain 16 bytes).consumed ≡ header_bytes (before ++ l ∷ after)
      → let frame = decode_frame lib bytes number timestamp interface in
        let trailing = trailing_bytes lib frame (length before) in
        (trailing ≡ drop (header_bytes before + lib.header_len l) bytes)
        × (drop (header_bytes after) trailing ≡ frame.payload)
  unfolding trailing_bytes decode_frame header_bytes
  trailing_bytes-decode_frame bytes number timestamp interface l before after h k =
      let found = cursor_behind-append 0 l after before in
      let trailing : trailing_bytes lib (decode_frame lib bytes number timestamp interface)
            (length before)
          ≡ drop (header_bytes before + lib.header_len l) bytes =
        rw (trailing_bytes, h, found) (ap (λ k. drop k bytes) (omega arith)) in
      (
        trailing,
        ap (drop (header_bytes after)) trailing
            ∙ drop-add (header_bytes before + lib.header_len l) (header_bytes after) bytes
            ∙ ap (λ k. drop k bytes) (omega (arith, header_bytes-append before (l ∷ after), k)),
      )
