-- ===== src/Compact/Tests.antt =====
-- A library that always writes the longest header, and messages that are encoded with it.
use adaptivemsg_go.Bytes.{Bytes, put_u32}
use adaptivemsg_go.Compact.Decode.{or_zero, read_then, same_key, set_map_index}
use adaptivemsg_go.Compact.Envelope.{
  CompactBody, decode_compact_envelope, decode_compact_into, decode_map_envelope, encode_compact,
  into_struct, read_array_header, read_string_header, read_string_value, struct_message,
}
use adaptivemsg_go.Compact.Fitting.{
  FitsFields, fits_basic, fits_bytes, fits_custom, fits_entry, fits_field, fits_map, fits_next,
  fits_nil, fits_no_entries, fits_no_fields, fits_none, fits_pointer, fits_slice, settle,
  settle_values,
}
use adaptivemsg_go.Compact.Headers.{array_four, string_four}
use adaptivemsg_go.Compact.MapItems.{
  Item, SkipLaws, data_item, last_data, last_type, map_envelope_by_keys, map_image, other_item,
  type_item,
}
use adaptivemsg_go.Compact.Messages.{MsgpackFormat, compact_field_counts, compact_round_trip}
use adaptivemsg_go.Compact.Msgpack.{Kept, Msgpack, MsgpackLaws, nil_code}
use adaptivemsg_go.Compact.Values.{
  FieldTypes, GoType, Value, Values, basic, basic_type, byte_slice, bytes_type, custom, custom_type,
  entry_then, field_type, map_of, map_type, nil_value, no_entries, no_fields, no_values, pointer_to,
  pointer_type, slice_of, slice_type, value_then,
}
use adaptivemsg_go.Errors.{Result, codec_failed, compact_field_count, eof, err, ok, unexpected_eof}
use adaptivemsg_go.Prelude.{
  Bool, List, Option, [], arith, drop, drop-append, eq_refl, if◌then◌else◌, inl, length, none, refl,
  some, sym, take, take-append, true, ℕ, ◌%◌, ◌*◌, ◌++◌, ◌+◌, ◌/◌, ◌<◌, ◌==◌, ◌^◌, ◌∷◌, ◌≡◌,
}

abbrev take_u32 : Bytes → (ℕ → Bytes → Result (Option ℕ × Bytes)) → Result (Option ℕ × Bytes)
take_u32 (a ∷ b ∷ c ∷ d ∷ rest) k = k (((a * 256 + b) * 256 + c) * 256 + d) rest
take_u32 bs k = err unexpected_eof

abbrev long_len : ℕ → Bytes → Result (Option ℕ × Bytes)
long_len first [] = err eof
long_len first (c ∷ bs) =
    if c == first
    then take_u32 bs (λ n rest. ok (some n, rest))
    else if c == nil_code
    then ok (none, bs)
    else err (codec_failed "unexpected code")

abbrev long_bytes : ℕ → Bytes → Result (Bytes × Bytes)
long_bytes first [] = err eof
long_bytes first (c ∷ bs) =
    if c == first
    then (read_then (take_u32 bs (λ n rest. ok (some n, rest)))
        λ n rest. ok (take (or_zero n) rest, drop (or_zero n) rest))
    else err (codec_failed "unexpected code")

abbrev first_code : Bytes → Result ℕ
first_code [] = err eof
first_code (c ∷ bs) = ok c

abbrev behind_nil : Bytes → Result Bytes
behind_nil [] = err eof
behind_nil (c ∷ bs) = if c == nil_code then ok bs else err (codec_failed "unexpected code")

-- Numbers below 256, and everything else that the tests do not use as an error
abbrev small_value : Value → Result Bytes
small_value (basic k c) = ok (0xcc ∷ c ∷ [])
small_value (custom p k c) = ok (0xcd ∷ c ∷ [])
small_value (pointer_to (custom p k c)) = ok (0xcd ∷ c ∷ [])
small_value v = err (codec_failed "unsupported")

abbrev small_decode : GoType → Bytes → Result (Value × Bytes)
small_decode (basic_type k) (code ∷ c ∷ bs) = ok (basic k c, bs)
small_decode (custom_type p k) (code ∷ c ∷ bs) = ok (custom p k c, bs)
small_decode t bs = err (codec_failed "unsupported")

abbrev long_skip : Bytes → Result Bytes
long_skip (code ∷ c ∷ bs) = ok bs
long_skip bs = err eof

abbrev long_msgpack : Msgpack
long_msgpack = record {
  encode_nil = nil_code ∷ [];
  encode_array_len = λ n. 0xdd ∷ put_u32 n;
  encode_map_len = λ n. 0xdf ∷ put_u32 n;
  encode_string = λ s. 0xdb ∷ (put_u32 (length s) ++ s);
  encode_bytes = λ s. 0xc6 ∷ (put_u32 (length s) ++ s);
  encode = small_value;
  peek_code = first_code;
  decode_nil = behind_nil;
  decode_array_len = long_len 0xdd;
  decode_map_len = long_len 0xdf;
  decode_string = long_bytes 0xdb;
  decode_bytes = long_bytes 0xc6;
  skip = long_skip;
  decode = small_decode;
}

u32_parts :
    (n : ℕ)
    → n < 2 ^ 32
    → ((n / 2 ^ 24 % 256 * 256 + n / 2 ^ 16 % 256) * 256 + n / 2 ^ 8 % 256) * 256 + n % 256 ≡ n
u32_parts n h = omega arith

long_bytes-read :
    (first : ℕ) (bs rest : Bytes)
    → length bs < 2 ^ 32
    → long_bytes first ((first ∷ (put_u32 (length bs) ++ bs)) ++ rest) ≡ ok (bs, rest)
long_bytes-read first bs rest h =
    rw (eq_refl first)
      (rw (u32_parts (length bs) h) (rw (take-append bs rest) (rw (drop-append bs rest))))

long_laws : MsgpackLaws long_msgpack
long_laws = record {
  peek_nil = λ rest. refl;
  read_nil = λ rest. refl;
  array_starts = λ n rest h. (0xdd, refl, refl);
  read_array_len = λ n rest h. rw (u32_parts n h);
  map_starts = λ n rest h. (0xdf, refl, refl);
  read_map_len = λ n rest h. rw (u32_parts n h);
  bytes_start = λ bs rest h. (0xc6, refl, refl);
  read_bytes = λ bs rest h. long_bytes-read 0xc6 bs rest h;
}

long_format : MsgpackFormat long_msgpack
long_format = record {
  array_header = λ n h.
      array_four (n / 2 ^ 24 % 256) (n / 2 ^ 16 % 256) (n / 2 ^ 8 % 256) (n % 256)
        (sym (u32_parts n h)) refl;
  string_header = λ s. 0xdb ∷ put_u32 (length s);
  string_split = λ s h. (
    string_four 0xdb (length s / 2 ^ 24 % 256) (length s / 2 ^ 16 % 256) (length s / 2 ^ 8 % 256)
        (length s % 256) (inl refl) (sym (u32_parts (length s) h)) refl,
    refl,
  );
}

basic-Kept : (k c : ℕ) → Kept long_msgpack (basic_type k) (basic k c) (basic k c)
basic-Kept k c = record {
  image = 0xcc ∷ c ∷ [];
  encodes = refl;
  decodes = λ rest. refl;
  starts = λ rest. (0xcc, refl, refl);
}

custom-Kept :
    (p : Bool) (k c : ℕ) (w : Value)
    → small_value w ≡ ok (0xcd ∷ c ∷ [])
    → Kept long_msgpack (custom_type p k) w (custom p k c)
custom-Kept p k c w e = record {
  image = 0xcd ∷ c ∷ [];
  encodes = e;
  decodes = λ rest. refl;
  starts = λ rest. (0xcd, refl, refl);
}

-- struct { N int; P *[]int; S []T; M map[string][]byte }, where T marshals itself
abbrev order_types : FieldTypes
order_types = field_type (basic_type 1) (
    field_type (pointer_type (slice_type (basic_type 1))) (
      field_type (slice_type (custom_type true 9))
        (field_type (map_type (basic_type 2) bytes_type) no_fields)))

-- P points to a nil slice.
abbrev order_values : Values
order_values = value_then (basic 1 42) (
    value_then (pointer_to nil_value) (
      value_then (slice_of (value_then (custom true 9 7) (value_then (custom true 9 8) no_values)))
        (value_then
          (map_of (basic_type 2) (
            entry_then (basic 2 11) (byte_slice (1 ∷ 2 ∷ []))
              (entry_then (basic 2 12) nil_value no_entries)))
          no_values)))

order-FitsFields : FitsFields long_msgpack order_types order_values
unfolding settle set_map_index same_key
order-FitsFields = fits_field (fits_basic 1 42 (basic-Kept 1 42)) (
    fits_field (fits_pointer (fits_nil (slice_type (basic_type 1)) refl)) (
      fits_field
        (fits_slice
          (fits_next
            (fits_custom true 9 7 (custom-Kept true 9 7 _ refl) (custom-Kept true 9 7 _ refl))
            (fits_next
              (fits_custom true 9 8 (custom-Kept true 9 8 _ refl) (custom-Kept true 9 8 _ refl))
              (fits_none (custom_type true 9))))
          (omega arith))
        (fits_field
          (fits_map 2
            (fits_entry 2 11 (basic-Kept 2 11) (fits_bytes (1 ∷ 2 ∷ []) (omega arith)) (
              fits_entry 2 12 (basic-Kept 2 12) (fits_nil bytes_type refl)
                (fits_no_entries 2 bytes_type)))
            refl (omega arith))
          fits_no_fields)))

abbrev order_name : Bytes
order_name = b'a' ∷ b'm' ∷ b'.' ∷ b'O' ∷ []

abbrev order_exported : List Bool
order_exported = true ∷ true ∷ true ∷ true ∷ []

-- The pointer to a nil slice is a nil pointer afterwards.
order_settled :
    settle_values (value_then (pointer_to nil_value) no_values) ≡ value_then nil_value no_values
unfolding settle_values
order_settled = refl

compact_round_trip_example :
    (payload : Bytes) × (body : CompactBody) × (encode_compact long_msgpack
        (struct_message true order_exported order_values)
        (ok order_name)
      ≡ ok payload)
    × (decode_compact_envelope payload ≡ ok (order_name, body))
    × (decode_compact_into long_msgpack body (into_struct order_exported order_types)
        ≡ ok (settle_values order_values))
compact_round_trip_example =
    compact_round_trip long_msgpack long_laws long_format true order_exported order_types
      order_values order_name order-FitsFields refl (omega arith) (omega arith)

compact_field_counts_example :
    (payload : Bytes) × (body : CompactBody) × (encode_compact long_msgpack
        (struct_message true order_exported order_values)
        (ok order_name)
      ≡ ok payload)
    × (decode_compact_envelope payload ≡ ok (order_name, body))
    × (decode_compact_into long_msgpack body (into_struct [] no_fields)
        ≡ err (compact_field_count 0 4))
compact_field_counts_example =
    compact_field_counts long_msgpack long_laws long_format true order_exported order_types
      order_values order_name [] no_fields order-FitsFields refl (omega arith) (omega arith) refl
      (λ e. absurd (omega (arith, e)))

abbrev IsPair : Bytes → Type 0
IsPair image = (a : ℕ) × (b : ℕ) × (image ≡ a ∷ b ∷ [])

long_skip-pair : (image rest : Bytes) → IsPair image → long_skip (image ++ rest) ≡ ok rest
long_skip-pair image rest (a, b, e) = rw e

long_skips : SkipLaws long_msgpack IsPair
long_skips = record {
  read_string = λ s rest h. long_bytes-read 0xdb s rest h;
  skip_value = long_skip-pair;
  map_len = λ n rest h. rw (u32_parts n h);
}

abbrev shuffled_items : List Item
shuffled_items =
    data_item (1 ∷ 2 ∷ []) ∷ other_item (b'v' ∷ []) (3 ∷ 4 ∷ []) ∷ type_item order_name ∷ []

map_envelope_by_keys_example :
    decode_map_envelope long_msgpack (map_image long_msgpack shuffled_items) ≡ (
      if length (last_type [] shuffled_items) == 0
      then err (codec_failed "map payload missing type")
      else ok (last_type [] shuffled_items, last_data [] shuffled_items))
map_envelope_by_keys_example =
    map_envelope_by_keys long_msgpack IsPair long_skips shuffled_items
      ((1, 2, refl), (((refl, refl), omega arith, (3, 4, refl)), (omega arith, tt))) (omega arith)

-- A fixarray header whose length says more than the payload has is no error of the envelope.
short_payload :
    decode_compact_envelope (0x93 ∷ 0xa1 ∷ b'x' ∷ [])
    ≡ ok (b'x' ∷ [], record { fields = []; field_count = 2 })
unfolding decode_compact_envelope read_array_header read_string_value read_string_header
short_payload = refl
