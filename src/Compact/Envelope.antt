-- ===== src/Compact/Envelope.antt =====
-- The envelopes: encodeCompact, decodeCompactEnvelope, decodeCompactInto and decodeMapEnvelope. A
-- string is the list of its bytes.
use adaptivemsg_go.Bytes.{Bytes, big_endian, same_bytes}
use adaptivemsg_go.Compact.Decode.{decode_fields, or_zero, read_then}
use adaptivemsg_go.Compact.Encode.{after_bytes, encode_values}
use adaptivemsg_go.Compact.Msgpack.{Msgpack}
use adaptivemsg_go.Compact.Values.{FieldTypes, Values, count_fields, count_values}
use adaptivemsg_go.Errors.{
  Result, and_then, codec_failed, compact_field_count, err, invalid_message, ok,
}
use adaptivemsg_go.Prelude.{
  Bool, List, Option, [], drop, false, if◌then◌else◌, leb, length, ltb, none, some, suc, take, true,
  zero, ℕ, ◌%◌, ◌&&◌, ◌+◌, ◌-◌, ◌==◌, ◌||◌, ◌∷◌,
}

-- The first bytes of the MessagePack format (msgpcode).
abbrev pub array16_code : ℕ
array16_code = 0xdc

abbrev pub array32_code : ℕ
array32_code = 0xdd

abbrev pub str8_code : ℕ
str8_code = 0xd9

abbrev pub str16_code : ℕ
str16_code = 0xda

abbrev pub str32_code : ℕ
str32_code = 0xdb

abbrev pub bin8_code : ℕ
bin8_code = 0xc4

abbrev pub bin16_code : ℕ
bin16_code = 0xc5

abbrev pub bin32_code : ℕ
bin32_code = 0xc6

abbrev pub is_fixed_array : ℕ → Bool
is_fixed_array c = leb 0x90 c && leb c 0x9f

abbrev pub is_fixed_string : ℕ → Bool
is_fixed_string c = leb 0xa0 c && leb c 0xbf

-- `readArrayHeader`, on the bytes behind the first; `c & 0x0f` is the remainder by 16.
abbrev pub array_header_from : ℕ → Bytes → Option (ℕ × Bytes)
array_header_from c bs =
    if is_fixed_array c
    then some (c % 16, bs)
    else if c == array16_code && leb 2 (length bs)
    then some (big_endian 0 (take 2 bs), drop 2 bs)
    else if c == array32_code && leb 4 (length bs)
    then some (big_endian 0 (take 4 bs), drop 4 bs)
    else none

unfoldable pub read_array_header : Bytes → Option (ℕ × Bytes)
read_array_header [] = none
read_array_header (c ∷ bs) = array_header_from c bs

-- The header of `readStringValue`: the length, and the bytes behind the header.
abbrev pub string_header_from : ℕ → Bytes → Option (ℕ × Bytes)
string_header_from c bs =
    if is_fixed_string c
    then some (c % 32, bs)
    else if (c == str8_code || c == bin8_code) && leb 1 (length bs)
    then some (big_endian 0 (take 1 bs), drop 1 bs)
    else if (c == str16_code || c == bin16_code) && leb 2 (length bs)
    then some (big_endian 0 (take 2 bs), drop 2 bs)
    else if (c == str32_code || c == bin32_code) && leb 4 (length bs)
    then some (big_endian 0 (take 4 bs), drop 4 bs)
    else none

abbrev pub string_behind : Option (ℕ × Bytes) → Option (Bytes × Bytes)
string_behind none = none
string_behind (some (n, bs)) = if ltb (length bs) n then none else some (take n bs, drop n bs)

unfoldable pub read_string_header : Bytes → Option (ℕ × Bytes)
read_string_header [] = none
read_string_header (c ∷ bs) = string_header_from c bs

unfoldable pub read_string_value : Bytes → Option (Bytes × Bytes)
read_string_value bs = string_behind (read_string_header bs)

pub record CompactBody : Type 0 where
  pub fields : Bytes
  pub field_count : ℕ

abbrev pub name_and_body : ℕ → Option (Bytes × Bytes) → Result (Bytes × CompactBody)
name_and_body n none = err (codec_failed "compact message name must be a string")
name_and_body n (some (name, rest)) = ok (name, record { fields = rest; field_count = n - 1 })

abbrev pub envelope_behind : Option (ℕ × Bytes) → Result (Bytes × CompactBody)
envelope_behind none = err (codec_failed "compact payload must be a non-empty array")
envelope_behind (some (n, rest)) =
    if n == 0
    then err (codec_failed "compact payload must be a non-empty array")
    else name_and_body n (read_string_value rest)

-- `decodeCompactEnvelope`
unfoldable pub decode_compact_envelope : Bytes → Result (Bytes × CompactBody)
decode_compact_envelope payload = envelope_behind (read_array_header payload)

-- A message as `encodeCompact` takes it: nil, a nil pointer, something other than a struct, or a
-- struct, by value or by pointer, with the flags of its fields that are exported and their values.
pub data Message : Type 0 where
  nil_message : Message
  nil_pointer_message : Message
  other_message : Message
  struct_message : Bool → List Bool → Values → Message

-- The fields of `compactInfoFor`: all of them, or the error of one that is not exported.
unfoldable pub field_indices : ℕ → List Bool → Result (List ℕ)
field_indices i [] = ok []
field_indices i (false ∷ flags) =
    err (invalid_message "compact encoding does not support unexported fields")
field_indices i (true ∷ flags) = elim (field_indices (suc i) flags) [
  | ok is ↦ ok (i ∷ is)
  | err e ↦ err e
]

abbrev pub if_ok {ℓ κ} : {A : Type ℓ} {B : Type κ} → Result A → Result B → Result B
if_ok (ok a) r = r
if_ok (err e) r = err e

-- What `decodeCompactInto` decodes into
pub data Destination : Type 0 where
  no_destination : Destination
  not_a_pointer : Destination
  not_a_struct : Destination
  into_struct : List Bool → FieldTypes → Destination

abbrev pub type_key : Bytes
type_key = b't' ∷ b'y' ∷ b'p' ∷ b'e' ∷ []

abbrev pub data_key : Bytes
data_key = b'd' ∷ b'a' ∷ b't' ∷ b'a' ∷ []

module _ (m : Msgpack) where
  -- `encodeCompactFields`
  abbrev pub encode_compact_fields : Bytes → Bool → Values → Result Bytes
  encode_compact_fields wire can_addr vs =
      after_bytes (m.encode_array_len (1 + count_values vs))
        (after_bytes (m.encode_string wire) (encode_values m can_addr vs))

  abbrev pub encode_named : Message → Bytes → Result Bytes
  encode_named nil_message wire = err (codec_failed "compact encode requires non-nil message")
  encode_named nil_pointer_message wire =
      err (codec_failed "compact encode requires non-nil message")
  encode_named other_message wire = err (codec_failed "compact encode requires struct message")
  encode_named (struct_message by_pointer exported vs) wire =
      if_ok (field_indices 0 exported) (encode_compact_fields wire by_pointer vs)

  -- `encodeCompact`, with the result of WireNameOf
  unfoldable pub encode_compact : Message → Result Bytes → Result Bytes
  encode_compact nil_message wire = err (codec_failed "compact encode requires non-nil message")
  encode_compact msg wire = and_then wire (encode_named msg)

  abbrev pub values_of : Result (Values × Bytes) → Result Values
  values_of (ok (vs, rest)) = ok vs
  values_of (err e) = err e

  -- `decodeCompactInto`; bytes behind the last field are not looked at.
  unfoldable pub decode_compact_into : CompactBody → Destination → Result Values
  decode_compact_into body no_destination =
      err (invalid_message "compact decode requires non-nil destination")
  decode_compact_into body not_a_pointer =
      err (invalid_message "compact decode requires pointer destination")
  decode_compact_into body not_a_struct =
      err (invalid_message "compact decode requires struct destination")
  decode_compact_into body (into_struct exported ts) = if_ok (field_indices 0 exported) (
      if body.field_count == count_fields ts
      then values_of (decode_fields m ts body.fields)
      else err (compact_field_count (count_fields ts) body.field_count))

  -- The loop of `decodeMapEnvelope`: the wire name and the data so far, and the input.
  abbrev pub after_skip :
      Bytes → Result Bytes → (Bytes → Bytes → Result (Bytes × Bytes)) → Result (Bytes × Bytes)
  after_skip bs (err e) k = err e
  after_skip bs (ok rest) k = k (take (length bs - length rest) bs) rest

  abbrev pub map_entry :
      Bytes
      → Bytes
      → Bytes
      → Bytes
      → (Bytes → Bytes → Bytes → Result (Bytes × Bytes))
      → Result (Bytes × Bytes)
  map_entry wire body key bs loop =
      if same_bytes key type_key
      then (read_then (m.decode_string bs) λ name rest. loop name body rest)
      else after_skip bs (m.skip bs) λ passed_over rest.
        if same_bytes key data_key then loop wire passed_over rest else loop wire body rest

  unfoldable pub read_map_envelope : ℕ → Bytes → Bytes → Bytes → Result (Bytes × Bytes)
  read_map_envelope zero wire body bs = ok (wire, body)
  read_map_envelope (suc n) wire body bs =
      read_then (m.decode_string bs) λ key rest. map_entry wire body key rest (read_map_envelope n)

  abbrev pub named_envelope : Result (Bytes × Bytes) → Result (Bytes × Bytes)
  named_envelope (err e) = err e
  named_envelope (ok ([], body)) = err (codec_failed "map payload missing type")
  named_envelope (ok (b ∷ bs, body)) = ok (b ∷ bs, body)

  -- `decodeMapEnvelope`
  unfoldable pub decode_map_envelope : Bytes → Result (Bytes × Bytes)
  decode_map_envelope payload =
      read_then (m.decode_map_len payload)
        λ n rest. named_envelope (read_map_envelope (or_zero n) [] [] rest)
