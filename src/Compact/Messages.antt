-- ===== src/Compact/Messages.antt =====
-- Whole messages in the compact encoding.
use adaptivemsg_go.Bytes.{Bytes}
use adaptivemsg_go.Compact.Decode.{decode_fields}
use adaptivemsg_go.Compact.Encode.{encode_values}
use adaptivemsg_go.Compact.Envelope.{
  CompactBody, decode_compact_envelope, decode_compact_into, encode_compact, encode_compact_fields,
  envelope_behind, field_indices, if_ok, into_struct, name_and_body, read_string_value,
  struct_message, values_of,
}
use adaptivemsg_go.Compact.Fitting.{FitsFields, settle_values}
use adaptivemsg_go.Compact.Headers.{
  ArrayHeader, StringHeader, read_array_header-ArrayHeader, read_string_value-StringHeader,
}
use adaptivemsg_go.Compact.Keeping.{fields-DecodesAll, fields_count}
use adaptivemsg_go.Compact.Msgpack.{Msgpack, MsgpackLaws}
use adaptivemsg_go.Compact.Values.{FieldTypes, Values, count_fields, count_values}
use adaptivemsg_go.Errors.{Result, compact_field_count, err, ok}
use adaptivemsg_go.Prelude.{
  ==_iff, Bool, List, [], ap, append-nil, append_assoc, arith, false, length, refl, some, suc, sym,
  true, ℕ, ◌&&◌, ◌++◌, ◌+◌, ◌-◌, ◌<◌, ◌==◌, ◌^◌, ◌∙◌, ◌∷◌, ◌≡◌, ◌≢◌,
}

-- The headers that the library writes are those of the format.
pub record MsgpackFormat (m : Msgpack) : Type 0 where
  pub array_header : (n : ℕ) → n < 2 ^ 32 → ArrayHeader n (m.encode_array_len n)
  pub string_header : Bytes → Bytes
  pub string_split :
      (s : Bytes)
      → length s < 2 ^ 32
      → StringHeader (length s) (string_header s) × (m.encode_string s ≡ string_header s ++ s)

abbrev pub all_exported : List Bool → Bool
all_exported [] = true
all_exported (flag ∷ flags) = flag && all_exported flags

field_indices-ok :
    (i : ℕ) (flags : List Bool)
    → all_exported flags ≡ true
    → (is : List ℕ) × (field_indices i flags ≡ ok is)
unfolding field_indices
field_indices-ok i [] h = ([], refl)
field_indices-ok i (false ∷ flags) h = absurd (cc)
field_indices-ok i (true ∷ flags) h =
    (i ∷ (field_indices-ok (suc i) flags h).0, rw (field_indices-ok (suc i) flags h).1)

if_exported {ℓ} :
    {A : Type ℓ} (flags : List Bool) (r : Result A)
    → all_exported flags ≡ true
    → if_ok (field_indices 0 flags) r ≡ r
if_exported flags r h = rw (field_indices-ok 0 flags h).1

suc_not_zero : (n : ℕ) → (1 + n == 0) ≡ false
suc_not_zero n = ground arith

behind-suc :
    (n : ℕ) (rest : Bytes)
    → envelope_behind (some (1 + n, rest)) ≡ name_and_body (1 + n) (read_string_value rest)
behind-suc n rest = rw (suc_not_zero n)

differ : (a b : ℕ) → a ≢ b → (a == b) ≡ false
differ a b h = ground arith

minus_one : (n : ℕ) → 1 + n - 1 ≡ n
minus_one n = omega arith

module _ (m : Msgpack) (laws : MsgpackLaws m) (format : MsgpackFormat m) where
  string-read :
      (s fields : Bytes)
      → length s < 2 ^ 32
      → read_string_value (m.encode_string s ++ fields) ≡ some (s, fields)
  string-read s fields h =
      let (sh, e) = format.string_split s h in
      ap (λ (bs : Bytes). read_string_value (bs ++ fields)) e
      ∙ (ap read_string_value (append_assoc (format.string_header s) s fields)
          ∙ read_string_value-StringHeader s fields sh)

  envelope-read :
      (wire fields : Bytes) (n : ℕ)
      → length wire < 2 ^ 32
      → suc n < 2 ^ 32
      → decode_compact_envelope (m.encode_array_len (1 + n) ++ (m.encode_string wire ++ fields))
        ≡ ok (wire, record { fields = fields; field_count = n })
  unfolding decode_compact_envelope
  envelope-read wire fields n hw hn =
      ap envelope_behind (
        read_array_header-ArrayHeader (m.encode_string wire ++ fields)
          (format.array_header (1 + n) (omega (arith, hn))))
      ∙ (behind-suc n (m.encode_string wire ++ fields)
          ∙ (ap (name_and_body (1 + n)) (string-read wire fields hw)
              ∙ ap (λ (k : ℕ). ok (wire, record { fields = fields; field_count = k }))
                  (minus_one n)))

  -- The payload, its envelope, and the fields in it
  payload_of : (wire : Bytes) (n : ℕ) (fields : Bytes) → Bytes
  payload_of wire n fields = m.encode_array_len (1 + n) ++ (m.encode_string wire ++ fields)

  encodes_as :
      (by_pointer : Bool) (exported : List Bool) (vs : Values) (wire image : Bytes)
      → all_exported exported ≡ true
      → encode_values m by_pointer vs ≡ ok image
      → encode_compact m (struct_message by_pointer exported vs) (ok wire)
        ≡ ok (payload_of wire (count_values vs) image)
  unfolding encode_compact payload_of
  encodes_as by_pointer exported vs wire image h e =
      if_exported exported (encode_compact_fields m wire by_pointer vs) h ∙ rw e

  -- The payload of a message, its body, and what the envelope is read as
  abbrev EncodedAs : Bool → List Bool → Values → Bytes → Bytes → CompactBody → Type 0
  EncodedAs by_pointer exported vs wire payload body =
      (encode_compact m (struct_message by_pointer exported vs) (ok wire) ≡ ok payload)
      × (decode_compact_envelope payload ≡ ok (wire, body))

  encoded_as :
      (by_pointer : Bool) (exported : List Bool) (ts : FieldTypes) (vs : Values) (wire : Bytes)
      → (fs : FitsFields m ts vs) → all_exported exported ≡ true
      → length wire < 2 ^ 32
      → suc (count_fields ts) < 2 ^ 32
      → let d = fields-DecodesAll m laws fs by_pointer in
        EncodedAs by_pointer exported vs wire
          (payload_of wire (count_values vs) d.image)
          (record { fields = d.image; field_count = count_values vs })
  unfolding payload_of
  encoded_as by_pointer exported ts vs wire fs h hw hn =
      let d = fields-DecodesAll m laws fs by_pointer in
      let n : count_values vs ≡ count_fields ts = fields_count m laws fs in
      (
        encodes_as by_pointer exported vs wire d.image h d.encodes,
        envelope-read wire d.image (count_values vs) hw (omega (arith, n)),
      )

  -- A message by value or by pointer, of a struct with exported fields only, with a wire name and a
  -- number of fields that 32 bits hold. Its fields fit their types: each is a basic value or one with a
  -- codec of its own that the msgpack library reads back, nil, a byte slice, or a pointer, a struct, a
  -- slice, an array or a map of such values, where all lengths fit 32 bits, the keys of maps are basic
  -- and different, and an interface holds nothing but nil. The message is encoded, and the payload
  -- gives back its wire name and, decoded into that struct, its fields, where a pointer to nil has
  -- become nil.
  pub compact_round_trip :
      (by_pointer : Bool) (exported : List Bool) (ts : FieldTypes) (vs : Values) (wire : Bytes)
      → FitsFields m ts vs
      → all_exported exported ≡ true
      → length wire < 2 ^ 32
      → suc (count_fields ts) < 2 ^ 32
      → (payload : Bytes) × (body : CompactBody) × (encode_compact m
            (struct_message by_pointer exported vs)
            (ok wire)
          ≡ ok payload)
        × (decode_compact_envelope payload ≡ ok (wire, body))
        × (decode_compact_into m body (into_struct exported ts) ≡ ok (settle_values vs))
  unfolding decode_compact_into
  compact_round_trip by_pointer exported ts vs wire fs h hw hn =
      let d = fields-DecodesAll m laws fs by_pointer in
      let n : count_values vs ≡ count_fields ts = fields_count m laws fs in
      let (encoding, envelope) = encoded_as by_pointer exported ts vs wire fs h hw hn in
      (
        payload_of wire (count_values vs) d.image,
        record { fields = d.image; field_count = count_values vs },
        encoding,
        envelope,
        if_exported exported _ h
            ∙ rw ((==_iff (count_values vs) (count_fields ts)).1 n) (
                ap (values_of m)
                  (ap (decode_fields m ts) (sym (append-nil d.image)) ∙ d.decodes [])),
      )

  -- Such a message decoded into a struct with exported fields only and another number of them is
  -- refused, and the error has both numbers.
  pub compact_field_counts :
      (by_pointer : Bool) (exported : List Bool) (ts : FieldTypes) (vs : Values) (wire : Bytes)
      (others : List Bool) (us : FieldTypes)
      → FitsFields m ts vs
      → all_exported exported ≡ true
      → length wire < 2 ^ 32
      → suc (count_fields ts) < 2 ^ 32
      → all_exported others ≡ true
      → count_fields us ≢ count_fields ts
      → (payload : Bytes) × (body : CompactBody) × (encode_compact m
            (struct_message by_pointer exported vs)
            (ok wire)
          ≡ ok payload)
        × (decode_compact_envelope payload ≡ ok (wire, body))
        × (decode_compact_into m body (into_struct others us)
            ≡ err (compact_field_count (count_fields us) (count_fields ts)))
  unfolding decode_compact_into
  compact_field_counts by_pointer exported ts vs wire others us fs h hw hn ho ne =
      let d = fields-DecodesAll m laws fs by_pointer in
      let n : count_values vs ≡ count_fields ts = fields_count m laws fs in
      let (encoding, envelope) = encoded_as by_pointer exported ts vs wire fs h hw hn in
      (
        payload_of wire (count_values vs) d.image,
        record { fields = d.image; field_count = count_values vs },
        encoding,
        envelope,
        if_exported others _ ho
            ∙ rw (differ (count_values vs) (count_fields us) (λ e. ne (sym e ∙ n)))
                (ap (λ (k : ℕ). err (compact_field_count (count_fields us) k)) n),
      )
