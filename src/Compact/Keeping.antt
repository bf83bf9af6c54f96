-- ===== src/Compact/Keeping.antt =====
-- Values that are encoded and decoded again.
use adaptivemsg_go.Bytes.{Bytes}
use adaptivemsg_go.Compact.Decode.{decode_fields, decode_value, read_entries, read_times}
use adaptivemsg_go.Compact.Encode.{
  encode_custom, encode_entries, encode_entry, encode_pointer, encode_value, encode_values,
  stays_comparable, then_bytes,
}
use adaptivemsg_go.Compact.Fitting.{
  Fits, FitsEach, FitsEntries, FitsFields, add_last, fits_array, fits_basic, fits_bytes,
  fits_custom, fits_entry, fits_field, fits_map, fits_next, fits_nil, fits_no_entries,
  fits_no_fields, fits_none, fits_pointer, fits_slice, fits_struct, is_absent, settle,
}
use adaptivemsg_go.Compact.Kinds.{
  Decodes, DecodesAll, DecodesEntries, append3, array-Decodes, basic-Decodes, bytes-Decodes,
  custom-Decodes, map-Decodes, nil_Decodes, pointer-Decodes, slice-Decodes, struct-Decodes,
}
use adaptivemsg_go.Compact.Msgpack.{Kept, Msgpack, MsgpackLaws}
use adaptivemsg_go.Compact.Reading.{set_map_index-new}
use adaptivemsg_go.Compact.Values.{
  Entries, FieldTypes, GoType, Value, Values, basic, basic_type, count_fields, count_values, custom,
  custom_type, entry_then, field_type, no_entries, no_fields, no_values, pointer_to, value_then,
}
use adaptivemsg_go.Errors.{Result, ok}
use adaptivemsg_go.Prelude.{
  &&_left, &&_right, Bool, [], ap, append_assoc, false, refl, suc, true, ℕ, ◌++◌, ◌≡◌,
}

module _ (m : Msgpack) (laws : MsgpackLaws m) where
  none-DecodesAll : (t : GoType) → DecodesAll m (read_times 0 (decode_value m t)) no_values (ok [])
  unfolding read_times settle
  none-DecodesAll t = record { image = []; encodes = refl; decodes = λ rest. refl }

  -- The encodings of two parts, one behind the other
  then_bytes-ok :
      {r s : Result Bytes} {bs cs : Bytes} → r ≡ ok bs → s ≡ ok cs → then_bytes r s ≡ ok (bs ++ cs)
  then_bytes-ok e f = rw (e, then_bytes) (rw f)

  next-DecodesAll :
      {t : GoType} {v : Value} {vs : Values} {r s : Result Bytes}
      → Decodes m t v r
      → DecodesAll m (read_times (count_values vs) (decode_value m t)) vs s
      → DecodesAll m
          (read_times (suc (count_values vs)) (decode_value m t))
          (value_then v vs)
          (then_bytes r s)
  unfolding read_times settle
  next-DecodesAll d ds = record {
    image = d.image ++ ds.image;
    encodes = then_bytes-ok d.encodes ds.encodes;
    decodes = λ rest.
        rw (append_assoc d.image ds.image rest)
          (rw (d.decodes (ds.image ++ rest)) (rw (ds.decodes rest)));
  }

  no_fields-DecodesAll : DecodesAll m (decode_fields m no_fields) no_values (ok [])
  unfolding decode_value settle
  no_fields-DecodesAll = record { image = []; encodes = refl; decodes = λ rest. refl }

  field-DecodesAll :
      {t : GoType} {v : Value} (ts : FieldTypes) {vs : Values} {r s : Result Bytes}
      → Decodes m t v r
      → DecodesAll m (decode_fields m ts) vs s
      → DecodesAll m (decode_fields m (field_type t ts)) (value_then v vs) (then_bytes r s)
  unfolding decode_fields settle
  field-DecodesAll ts d ds = record {
    image = d.image ++ ds.image;
    encodes = then_bytes-ok d.encodes ds.encodes;
    decodes = λ rest.
        rw (append_assoc d.image ds.image rest)
          (rw (d.decodes (ds.image ++ rest)) (rw (ds.decodes rest)));
  }

  no_entries-DecodesEntries : (j : ℕ) (t : GoType) → DecodesEntries m j t no_entries (ok [])
  unfolding read_entries settle
  no_entries-DecodesEntries j t = record {
    image = [];
    encodes = refl;
    decodes = λ so_far rest h. refl;
  }

  entry-DecodesEntries :
      {j c : ℕ} {t : GoType} {v : Value} {es : Entries} {r s : Result Bytes}
      → (kp : Kept m (basic_type j) (basic j c) (basic j c)) → Decodes m t v r
      → DecodesEntries m j t es s
      → DecodesEntries m j t
          (entry_then (basic j c) v es)
          (encode_entry m (basic j c) (m.encode (basic j c)) r s)
  unfolding read_entries settle stays_comparable
  entry-DecodesEntries {j} {c} {t} {v} {es} kp d ds = record {
    image = kp.image ++ (d.image ++ ds.image);
    encodes = then_bytes-ok kp.encodes (then_bytes-ok d.encodes ds.encodes);
    decodes = λ so_far rest h. rw (append3 kp.image d.image ds.image rest) (
        rw (kp.decodes (d.image ++ (ds.image ++ rest))) (
          rw (d.decodes (ds.image ++ rest)) (
            rw
              (set_map_index-new (basic j c) (settle v) so_far
                (&&_left (is_absent (basic j c) so_far) _ h))
              (ds.decodes (add_last (basic j c) (settle v) so_far) rest
                (&&_right (is_absent (basic j c) so_far) _ h)))));
  }

  pub fields_count :
      {ts : FieldTypes} {vs : Values} → FitsFields m ts vs → count_values vs ≡ count_fields ts
  fields_count fits_no_fields = refl
  fields_count (fits_field f fs) = ap suc (fields_count fs)

  -- A struct that encodes itself is encoded through its pointer.
  pointer_value :
      {t : GoType} {v : Value} {r : Result Bytes}
      → Fits m t v
      → Decodes m t v r
      → Decodes m t v (encode_pointer m v r)
  pointer_value (fits_basic k c kp) d = d
  pointer_value (fits_custom p k c kp by_pointer) d =
      custom-Decodes m laws p k c (pointer_to (custom p k c)) by_pointer
  pointer_value (fits_nil t h) d = d
  pointer_value (fits_pointer f) d = d
  pointer_value (fits_struct fs lt) d = d
  pointer_value (fits_bytes bs lt) d = d
  pointer_value (fits_slice fs lt) d = d
  pointer_value (fits_array n fs e lt) d = d
  pointer_value (fits_map j fs distinct lt) d = d

  custom_by :
      (p : Bool) (k c : ℕ) (a : Bool)
      → Kept m (custom_type p k) (custom p k c) (custom p k c)
      → Kept m (custom_type p k) (pointer_to (custom p k c)) (custom p k c)
      → Decodes m (custom_type p k) (custom p k c) (encode_custom m a p (custom p k c))
  custom_by p k c false kp by_pointer = custom-Decodes m laws p k c (custom p k c) kp
  custom_by true k c true kp by_pointer =
      custom-Decodes m laws true k c (pointer_to (custom true k c)) by_pointer
  custom_by false k c true kp by_pointer = custom-Decodes m laws false k c (custom false k c) kp

  mutual
    unfolding encode_value encode_values encode_entries

    Fits-Decodes :
        {t : GoType} {v : Value}
        → Fits m t v
        → (can_addr : Bool) → Decodes m t v (encode_value m can_addr v)
    Fits-Decodes (fits_basic k c kp) a = basic-Decodes m laws k c kp
    Fits-Decodes (fits_custom p k c kp by_pointer) a = custom_by p k c a kp by_pointer
    Fits-Decodes (fits_nil t h) a = nil_Decodes m laws t h
    Fits-Decodes (fits_pointer f) a = pointer-Decodes m laws (pointer_value f (Fits-Decodes f true))
    Fits-Decodes (fits_struct fs lt) a =
        struct-Decodes m laws (fields-DecodesAll fs a) (fields_count fs) lt
    Fits-Decodes (fits_bytes bs lt) a = bytes-Decodes m laws bs lt
    Fits-Decodes (fits_slice fs lt) a = slice-Decodes m laws (each-DecodesAll fs true) lt
    Fits-Decodes (fits_array n fs e lt) a = array-Decodes m laws (each-DecodesAll fs a) e lt
    Fits-Decodes (fits_map j fs distinct lt) a =
        map-Decodes m laws (entries-DecodesEntries fs) distinct lt

    pub fields-DecodesAll :
        {ts : FieldTypes} {vs : Values}
        → FitsFields m ts vs
        → (can_addr : Bool) → DecodesAll m (decode_fields m ts) vs (encode_values m can_addr vs)
    fields-DecodesAll fits_no_fields a = no_fields-DecodesAll
    fields-DecodesAll (fits_field {ts = ts} f fs) a =
        field-DecodesAll ts (Fits-Decodes f a) (fields-DecodesAll fs a)

    each-DecodesAll :
        {t : GoType} {vs : Values}
        → FitsEach m t vs
        → (can_addr : Bool)
        → DecodesAll m
            (read_times (count_values vs) (decode_value m t))
            vs
            (encode_values m can_addr vs)
    each-DecodesAll (fits_none t) a = none-DecodesAll t
    each-DecodesAll (fits_next f fs) a = next-DecodesAll (Fits-Decodes f a) (each-DecodesAll fs a)

    entries-DecodesEntries :
        {j : ℕ} {t : GoType} {es : Entries}
        → FitsEntries m j t es
        → DecodesEntries m j t es (encode_entries m es)
    entries-DecodesEntries (fits_no_entries j t) = no_entries-DecodesEntries j t
    entries-DecodesEntries (fits_entry j c kp f fs) =
        entry-DecodesEntries kp (Fits-Decodes f false) (entries-DecodesEntries fs)
