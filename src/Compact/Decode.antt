-- ===== src/Compact/Decode.antt =====
-- decodeCompactValue and what it calls. Every destination is settable: the code takes exported fields
-- of a pointer's target, and variables that reflect.New makes.
use adaptivemsg_go.Bytes.{Bytes}
use adaptivemsg_go.Compact.Msgpack.{Msgpack, nil_code}
use adaptivemsg_go.Compact.Values.{
  Entries, FieldTypes, GoType, Value, Values, any_type, array_of, array_type, basic, basic_type,
  boxed, byte_slice, bytes_type, count_fields, custom_type, entry_then, field_type, is_struct_key,
  map_of, map_type, nil_value, no_entries, no_fields, no_values, pointer_to, pointer_type, slice_of,
  slice_type, struct_of, struct_type, value_then,
}
use adaptivemsg_go.Errors.{Result, codec_failed, compact_field_count, err, invalid_message, ok}
use adaptivemsg_go.Prelude.{
  Bool, Option, String, false, if◌then◌else◌, none, not, some, suc, true, zero, ℕ, ◌&&◌, ◌==◌,
}

-- `isComparableKey`: reflect's Comparable of the value in an interface key.
abbrev pub is_comparable : Value → Bool
is_comparable nil_value = false
is_comparable (byte_slice bs) = false
is_comparable (slice_of vs) = false
is_comparable (map_of t es) = false
is_comparable v = true

abbrev pub is_comparable_key : Value → Bool
is_comparable_key (boxed v) = is_comparable v
is_comparable_key v = false

abbrev pub is_any : GoType → Bool
is_any any_type = true
is_any t = false

-- `==` on map keys; pointers that were made by decoding are all different.
unfoldable mutual
  pub same_key : Value → Value → Bool
  same_key nil_value nil_value = true
  same_key (basic k c) (basic j d) = k == j && c == d
  same_key (boxed v) (boxed w) = same_key v w
  same_key (array_of vs) (array_of ws) = same_keys vs ws
  same_key v w = false

  pub same_keys : Values → Values → Bool
  same_keys no_values no_values = true
  same_keys (value_then v vs) (value_then w ws) = same_key v w && same_keys vs ws
  same_keys vs ws = false

-- `SetMapIndex`: a key that is there gets the new value.
unfoldable pub set_map_index : Value → Value → Entries → Entries
set_map_index k v no_entries = entry_then k v no_entries
set_map_index k v (entry_then j w es) =
    if same_key j k then entry_then j v es else entry_then j w (set_map_index k v es)

abbrev pub Read : Type 0 → Type 0
Read A = Bytes → Result (A × Bytes)

-- The results of a call and of what follows it.
abbrev pub read_then : {A B : Type 0} → Result (A × Bytes) → (A → Read B) → Result (B × Bytes)
read_then (ok (a, rest)) f = f a rest
read_then (err e) f = err e

-- What a loop over `n` elements makes of the body.
unfoldable pub read_times : ℕ → Read Value → Read Values
read_times zero body bs = ok (no_values, bs)
read_times (suc n) body bs =
    read_then (body bs)
      λ v rest. read_then (read_times n body rest) λ vs rest'. ok (value_then v vs, rest')

abbrev pub or_zero : Option ℕ → ℕ
or_zero none = 0
or_zero (some n) = n

-- What nil does to a destination, by its kind: it is set to nil, refused, or decoded as any value.
pub data NilCase : Type 0 where
  set_nil : NilCase
  refuse_nil : String → NilCase
  decode_nil_too : NilCase

abbrev pub nil_case : GoType → NilCase
nil_case (basic_type k) = refuse_nil "compact decode cannot assign nil to value"
nil_case (array_type n t) = refuse_nil "compact decode cannot assign nil to array"
nil_case (custom_type p k) = decode_nil_too
nil_case (struct_type ts) = decode_nil_too
nil_case any_type = set_nil
nil_case (pointer_type t) = set_nil
nil_case bytes_type = set_nil
nil_case (slice_type t) = set_nil
nil_case (map_type k t) = set_nil

module _ (m : Msgpack) where
  abbrev pub read_nil_value : Result Bytes → Result (Value × Bytes)
  read_nil_value (ok rest) = ok (nil_value, rest)
  read_nil_value (err e) = err e

  abbrev pub read_nil_case : NilCase → Bytes → Result (Value × Bytes) → Result (Value × Bytes)
  read_nil_case set_nil bs otherwise = read_nil_value (m.decode_nil bs)
  read_nil_case (refuse_nil reason) bs otherwise = err (codec_failed reason)
  read_nil_case decode_nil_too bs otherwise = otherwise

  -- The test of the first byte in `decodeCompactValue`
  abbrev pub read_by_code :
      Result ℕ → NilCase → Bytes → Result (Value × Bytes) → Result (Value × Bytes)
  read_by_code (err e) c bs otherwise = err e
  read_by_code (ok code) c bs otherwise =
      if code == nil_code then read_nil_case c bs otherwise else otherwise

  -- `decodeCompactSlice`
  abbrev pub read_slice : Read Value → Read Value
  read_slice body bs =
      read_then (m.decode_array_len bs)
        λ n rest. read_then (read_times (or_zero n) body rest) λ vs rest'. ok (slice_of vs, rest')

  -- `decodeCompactArray`; the length that is compared is the signed one, -1 for nil.
  abbrev pub read_array_of_len : ℕ → Option ℕ → Read Value → Read Value
  read_array_of_len expected none body rest = err (compact_field_count expected 0)
  read_array_of_len expected (some n) body rest =
      if n == expected
      then (read_then (read_times n body rest) λ vs rest'. ok (array_of vs, rest'))
      else err (compact_field_count expected n)

  abbrev pub read_array : ℕ → Read Value → Read Value
  read_array expected body bs =
      read_then (m.decode_array_len bs) λ n rest. read_array_of_len expected n body rest

  -- `decodeCompactStruct`, with the decoding of the fields
  abbrev pub read_struct : ℕ → Read Values → Read Value
  read_struct expected fields bs = read_then (m.decode_array_len bs) λ n rest.
      if or_zero n == expected
      then (read_then (fields rest) λ vs rest'. ok (struct_of vs, rest'))
      else err (compact_field_count expected (or_zero n))

  -- A round of `decodeCompactMap`, with the map so far and the rest of the loop
  abbrev pub read_entry : GoType → Read Value → Entries → (Entries → Read Entries) → Read Entries
  read_entry key_shape body so_far loop bs = read_then (m.decode key_shape bs) λ k rest.
      if is_any key_shape && not (is_comparable_key k)
      then err (invalid_message "compact decode requires comparable map keys")
      else (read_then (body rest) λ v rest'. loop (set_map_index k v so_far) rest')

  unfoldable pub read_entries : ℕ → GoType → Read Value → Entries → Read Entries
  read_entries zero key_shape body so_far bs = ok (so_far, bs)
  read_entries (suc n) key_shape body so_far bs =
      read_entry key_shape body so_far (read_entries n key_shape body) bs

  abbrev pub read_map_entries : GoType → Option ℕ → Read Value → Read Value
  read_map_entries key_shape none body rest = ok (nil_value, rest)
  read_map_entries key_shape (some n) body rest =
      read_then (read_entries n key_shape body no_entries rest)
        λ es rest'. ok (map_of key_shape es, rest')

  -- `decodeCompactMap`
  abbrev pub read_map : GoType → Read Value → Read Value
  read_map key_shape body bs =
      if is_struct_key key_shape
      then err (invalid_message "compact decode does not support struct map keys")
      else (read_then (m.decode_map_len bs) λ n rest. read_map_entries key_shape n body rest)

  abbrev pub read_bytes_value : Read Value
  read_bytes_value bs =
      read_then (m.decode_bytes bs) λ data_bytes rest. ok (byte_slice data_bytes, rest)

  -- `dec.Decode(&out)` with an interface as its target
  abbrev pub read_any : Read Value
  read_any bs = m.decode any_type bs

  abbrev pub by_code : GoType → Bytes → Result (Value × Bytes) → Result (Value × Bytes)
  by_code t bs otherwise = read_by_code (m.peek_code bs) (nil_case t) bs otherwise

  -- `decodeCompactValue`, by the type of the destination
  unfoldable mutual
    pub decode_value : GoType → Read Value
    decode_value (basic_type k) bs = by_code (basic_type k) bs (m.decode (basic_type k) bs)
    decode_value (custom_type p k) bs = by_code (custom_type p k) bs (m.decode (custom_type p k) bs)
    decode_value any_type bs = by_code any_type bs (read_any bs)
    decode_value (pointer_type t) bs =
        by_code (pointer_type t) bs
          (read_then (decode_value t bs) λ v rest. ok (pointer_to v, rest))
    decode_value (struct_type ts) bs =
        by_code (struct_type ts) bs (read_struct (count_fields ts) (decode_fields ts) bs)
    decode_value bytes_type bs = by_code bytes_type bs (read_bytes_value bs)
    decode_value (slice_type t) bs = by_code (slice_type t) bs (read_slice (decode_value t) bs)
    decode_value (array_type n t) bs =
        by_code (array_type n t) bs (read_array n (decode_value t) bs)
    decode_value (map_type k t) bs = by_code (map_type k t) bs (read_map k (decode_value t) bs)

    pub decode_fields : FieldTypes → Read Values
    decode_fields no_fields bs = ok (no_values, bs)
    decode_fields (field_type t ts) bs =
        read_then (decode_value t bs)
          λ v rest. read_then (decode_fields ts rest) λ vs rest'. ok (value_then v vs, rest')
