-- ===== src/Server/Cursor.antt =====
-- encodeCursor and decodeCursor of pkg/server/providers.go, over the encodings of base64 and of a
-- JSON object with one integer, which come as a parameter.
use mcp_sdk_go.Base.Int.{ℤ, pos, negsuc, max_int}
use mcp_sdk_go.Base.Text.{Text, text_eq, text_eq_iff}
use mcp_sdk_go.Base.{ℕ, ◌≤◌, ◌≡◌, ◌≢◌, refl, false, [], Option, none, some, arith, if◌then◌else◌}

-- base64.StdEncoding, and json.Marshal and json.Unmarshal at the struct PaginationCursor.
pub record Encoding : Type 0 where
  pub encode_to_string : Text → Text
  pub decode_string : Text → Option Text
  pub marshal : ℤ → Text
  pub unmarshal : Text → Option ℤ
  pub decode-encode : (t : Text) → decode_string (encode_to_string t) ≡ some t
  pub encode_empty : (t : Text) → encode_to_string t ≡ [] → t ≡ []
  pub unmarshal-marshal : (n : ℕ) → n ≤ max_int → unmarshal (marshal (pos n)) ≡ some (pos n)
  pub marshal_nonempty : (z : ℤ) → marshal z ≢ []

pub data CursorError : Type 0 where
  invalid_cursor_format invalid_cursor_data : CursorError
  negative_offset : ℤ → CursorError

pub data Decoded : Type 0 where
  offset : ℕ → Decoded
  bad : CursorError → Decoded

module _ (c : Encoding) where
  unfoldable pub encode_cursor : ℤ → Text
  encode_cursor n = c.encode_to_string (c.marshal n)

  abbrev check_offset : Option ℤ → Decoded
  check_offset none = bad invalid_cursor_data
  check_offset (some (pos n)) = offset n
  check_offset (some (negsuc n)) = bad (negative_offset (negsuc n))

  unfoldable pub decode_cursor : Text → Decoded
  decode_cursor cursor = if text_eq cursor [] then offset 0 else elim (c.decode_string cursor) [
    | none ↦ bad invalid_cursor_format
    | some bytes ↦ check_offset (c.unmarshal bytes)
  ]

  pub encode_cursor_nonempty : (n : ℤ) → text_eq (encode_cursor n) [] ≡ false
  unfolding encode_cursor
  encode_cursor_nonempty n = ground (
    arith,
    text_eq_iff (c.encode_to_string (c.marshal n)) [],
    c.encode_empty (c.marshal n),
    c.marshal_nonempty n,
  )

  pub decode_cursor-nil : decode_cursor [] ≡ offset 0
  unfolding decode_cursor text_eq
  decode_cursor-nil = refl

  -- A cursor that the server hands out stands for the offset that went into it.
  pub decode_cursor-encode_cursor :
      (n : ℕ) → n ≤ max_int → decode_cursor (encode_cursor (pos n)) ≡ offset n
  unfolding decode_cursor
  decode_cursor-encode_cursor n h = rw (encode_cursor_nonempty (pos n)) (
      unfold encode_cursor in
      rw (c.decode-encode (c.marshal (pos n))) (rw (c.unmarshal-marshal n h)))
