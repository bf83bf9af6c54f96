-- ===== src/Compact/Encode.antt =====
-- encodeCompactValue and what it calls.
use adaptivemsg_go.Attach.Options.{encoded}
use adaptivemsg_go.Bytes.{Bytes}
use adaptivemsg_go.Compact.Msgpack.{Msgpack}
use adaptivemsg_go.Compact.Values.{
  Entries, GoType, Value, Values, array_of, basic, boxed, byte_slice, count_entries, count_values,
  custom, entry_then, is_custom, is_struct_key, map_of, nil_value, no_entries, no_values,
  pointer_to, slice_of, struct_of, value_then,
}
use adaptivemsg_go.Errors.{Result, err, invalid_message, ok}
use adaptivemsg_go.Prelude.{Bool, [], false, if◌then◌else◌, true, ℕ, ◌&&◌, ◌++◌}

-- `compactKeyComparable`: a key that would become an array, or is nil, does not stay a key.
unfoldable pub stays_comparable : Value → Bool
stays_comparable nil_value = false
stays_comparable (boxed v) = stays_comparable v
stays_comparable (pointer_to v) = stays_comparable v
stays_comparable (array_of vs) = false
stays_comparable (struct_of vs) = false
stays_comparable v = true

-- The bytes of both calls; the buffer of a call that fails is dropped whole.
abbrev pub then_bytes : Result Bytes → Result Bytes → Result Bytes
then_bytes (err e) second_part = err e
then_bytes (ok bs) (err e) = err e
then_bytes (ok bs) (ok cs) = ok (bs ++ cs)

abbrev pub after_bytes : Bytes → Result Bytes → Result Bytes
after_bytes bs r = then_bytes (ok bs) r

module _ (m : Msgpack) where
  -- The pointer case of `encodeCompactValue`, with the encoding of what the pointer points to.
  abbrev pub encode_pointer : Value → Result Bytes → Result Bytes
  encode_pointer v encoded = if is_custom v then m.encode (pointer_to v) else encoded

  -- `encodeCompactStruct` on a type that is not encoded by its fields
  abbrev pub encode_custom : Bool → Bool → Value → Result Bytes
  encode_custom can_addr ptr_marshals v =
      if can_addr && ptr_marshals then m.encode (pointer_to v) else m.encode v

  -- The error is the one of the first key that is refused, or of the first part that fails.
  abbrev pub encode_entry : Value → Result Bytes → Result Bytes → Result Bytes → Result Bytes
  encode_entry key key_bytes value_bytes rest =
      if stays_comparable key
      then then_bytes key_bytes (then_bytes value_bytes rest)
      else err (invalid_message "compact encoding requires comparable map keys")

  -- `encodeCompactMap`
  abbrev pub encode_map : GoType → ℕ → Result Bytes → Result Bytes
  encode_map key_shape n entries =
      if is_struct_key key_shape
      then err (invalid_message "compact encoding does not support struct map keys")
      else after_bytes (m.encode_map_len n) entries

  -- `encodeCompactValue`. `can_addr` is reflect's CanAddr: what a pointer or a slice holds can be
  -- addressed, what an interface or a map holds cannot, and fields and array elements can if the whole
  -- can.
  unfoldable mutual
    pub encode_value : Bool → Value → Result Bytes
    encode_value can_addr nil_value = ok m.encode_nil
    encode_value can_addr (basic k c) = m.encode (basic k c)
    encode_value can_addr (custom p k c) = encode_custom can_addr p (custom p k c)
    encode_value can_addr (boxed v) = encode_value false v
    encode_value can_addr (pointer_to v) = encode_pointer v (encode_value true v)
    encode_value can_addr (struct_of vs) =
        after_bytes (m.encode_array_len (count_values vs)) (encode_values can_addr vs)
    encode_value can_addr (byte_slice bs) = ok (m.encode_bytes bs)
    encode_value can_addr (slice_of vs) =
        after_bytes (m.encode_array_len (count_values vs)) (encode_values true vs)
    encode_value can_addr (array_of vs) =
        after_bytes (m.encode_array_len (count_values vs)) (encode_values can_addr vs)
    encode_value can_addr (map_of t es) = encode_map t (count_entries es) (encode_entries es)

    pub encode_values : Bool → Values → Result Bytes
    encode_values can_addr no_values = ok []
    encode_values can_addr (value_then v vs) =
        then_bytes (encode_value can_addr v) (encode_values can_addr vs)

    pub encode_entries : Entries → Result Bytes
    encode_entries no_entries = ok []
    encode_entries (entry_then k v es) =
        encode_entry k (encode_value false k) (encode_value false v) (encode_entries es)
