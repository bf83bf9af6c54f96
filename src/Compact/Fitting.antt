-- ===== src/Compact/Fitting.antt =====
-- The values of a type that the codec keeps, and what it makes of them.
use adaptivemsg_go.Bytes.{Bytes}
use adaptivemsg_go.Compact.Decode.{same_key}
use adaptivemsg_go.Compact.Msgpack.{Kept, Msgpack}
use adaptivemsg_go.Compact.Values.{
  Entries, FieldTypes, GoType, Value, Values, any_type, array_of, array_type, basic, basic_type,
  boxed, byte_slice, bytes_type, count_entries, count_fields, count_values, custom, custom_type,
  entry_then, field_type, map_of, map_type, nil_value, no_entries, no_fields, no_values, pointer_to,
  pointer_type, slice_of, slice_type, struct_of, struct_type, value_then,
}
use adaptivemsg_go.Prelude.{Bool, false, length, not, true, ℕ, ◌&&◌, ◌<◌, ◌^◌, ◌≡◌}

abbrev pub is_nillable : GoType → Bool
is_nillable any_type = true
is_nillable (pointer_type t) = true
is_nillable bytes_type = true
is_nillable (slice_type t) = true
is_nillable (map_type k t) = true
is_nillable t = false

-- A pointer to what is nil itself is encoded as nil, and so becomes nil.
abbrev pub settle_pointer : Value → Value
settle_pointer nil_value = nil_value
settle_pointer v = pointer_to v

unfoldable mutual
  pub settle : Value → Value
  settle (pointer_to v) = settle_pointer (settle v)
  settle (struct_of vs) = struct_of (settle_values vs)
  settle (slice_of vs) = slice_of (settle_values vs)
  settle (array_of vs) = array_of (settle_values vs)
  settle (map_of t es) = map_of t (settle_entries es)
  settle (boxed v) = boxed v
  settle (basic k c) = basic k c
  settle (custom p k c) = custom p k c
  settle (byte_slice bs) = byte_slice bs
  settle nil_value = nil_value

  pub settle_values : Values → Values
  settle_values no_values = no_values
  settle_values (value_then v vs) = value_then (settle v) (settle_values vs)

  pub settle_entries : Entries → Entries
  settle_entries no_entries = no_entries
  settle_entries (entry_then k v es) = entry_then k (settle v) (settle_entries es)

abbrev pub is_absent : Value → Entries → Bool
is_absent k no_entries = true
is_absent k (entry_then j w es) = not (same_key j k) && is_absent k es

abbrev pub add_last : Value → Value → Entries → Entries
add_last k v no_entries = entry_then k v no_entries
add_last k v (entry_then j w es) = entry_then j w (add_last k v es)

-- The keys of the second list are all different, and none is in the first.
abbrev pub are_new : Entries → Entries → Bool
are_new so_far no_entries = true
are_new so_far (entry_then k v es) = is_absent k so_far && are_new (add_last k v so_far) es

-- The values of a type, by its structure: what msgpack itself encodes is kept by it, the keys of a
-- map are of a basic kind and different, and lengths are below 2 ^ 32. An interface is nil.
mutual
  pub data Fits (m : Msgpack) : GoType → Value → Type 0 where
    fits_basic :
        (k c : ℕ)
        → Kept m (basic_type k) (basic k c) (basic k c)
        → Fits m (basic_type k) (basic k c)
    fits_custom :
        (p : Bool) (k c : ℕ)
        → Kept m (custom_type p k) (custom p k c) (custom p k c)
        → Kept m (custom_type p k) (pointer_to (custom p k c)) (custom p k c)
        → Fits m (custom_type p k) (custom p k c)
    fits_nil : (t : GoType) → is_nillable t ≡ true → Fits m t nil_value
    fits_pointer : {t : GoType} {v : Value} → Fits m t v → Fits m (pointer_type t) (pointer_to v)
    fits_struct :
        {ts : FieldTypes} {vs : Values}
        → FitsFields m ts vs
        → count_fields ts < 2 ^ 32
        → Fits m (struct_type ts) (struct_of vs)
    fits_bytes : (bs : Bytes) → length bs < 2 ^ 32 → Fits m bytes_type (byte_slice bs)
    fits_slice :
        {t : GoType} {vs : Values}
        → FitsEach m t vs
        → count_values vs < 2 ^ 32
        → Fits m (slice_type t) (slice_of vs)
    fits_array :
        (n : ℕ) {t : GoType} {vs : Values}
        → FitsEach m t vs
        → count_values vs ≡ n
        → n < 2 ^ 32
        → Fits m (array_type n t) (array_of vs)
    fits_map :
        (j : ℕ) {t : GoType} {es : Entries}
        → FitsEntries m j t es
        → are_new no_entries (settle_entries es) ≡ true
        → count_entries es < 2 ^ 32
        → Fits m (map_type (basic_type j) t) (map_of (basic_type j) es)

  pub data FitsFields (m : Msgpack) : FieldTypes → Values → Type 0 where
    fits_no_fields : FitsFields m no_fields no_values
    fits_field :
        {t : GoType} {v : Value} {ts : FieldTypes} {vs : Values}
        → Fits m t v
        → FitsFields m ts vs
        → FitsFields m (field_type t ts) (value_then v vs)

  pub data FitsEach (m : Msgpack) : GoType → Values → Type 0 where
    fits_none : (t : GoType) → FitsEach m t no_values
    fits_next :
        {t : GoType} {v : Value} {vs : Values}
        → Fits m t v
        → FitsEach m t vs
        → FitsEach m t (value_then v vs)

  pub data FitsEntries (m : Msgpack) : ℕ → GoType → Entries → Type 0 where
    fits_no_entries : (j : ℕ) (t : GoType) → FitsEntries m j t no_entries
    fits_entry :
        (j c : ℕ) {t : GoType} {v : Value} {es : Entries}
        → Kept m (basic_type j) (basic j c) (basic j c)
        → Fits m t v
        → FitsEntries m j t es
        → FitsEntries m j t (entry_then (basic j c) v es)
