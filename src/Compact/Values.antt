-- ===== src/Compact/Values.antt =====
-- Go types and values as reflect shows them to the compact codec.
use adaptivemsg_go.Bytes.{Bytes}
use adaptivemsg_go.Prelude.{Bool, false, suc, true, ℕ}

-- `basic_type k` is a kind that the codec leaves to msgpack (Booleans, numbers, strings), and
-- `custom_type p k` a struct type that is not encoded by its fields: one that marshals itself, or
-- one with unexported fields; `p` tells that only a pointer to it marshals itself (ptrMarshals).
-- A type is a finite tree: one that names itself is unfolded as far as a value goes.
mutual
  pub data GoType : Type 0 where
    basic_type : ℕ → GoType
    custom_type : Bool → ℕ → GoType
    any_type : GoType
    pointer_type : GoType → GoType
    struct_type : FieldTypes → GoType
    bytes_type : GoType
    slice_type : GoType → GoType
    array_type : ℕ → GoType → GoType
    map_type : GoType → GoType → GoType

  pub data FieldTypes : Type 0 where
    no_fields : FieldTypes
    field_type : GoType → FieldTypes → FieldTypes

-- A value with the kind that its type has. `nil_value` is a nil interface, pointer, slice or map;
-- `boxed` is an interface with a value in it. The values of a basic kind, and of a custom type, are
-- numbered. A map has the type of its keys, and its entries in the order of iteration.
mutual
  pub data Value : Type 0 where
    nil_value : Value
    basic : ℕ → ℕ → Value
    custom : Bool → ℕ → ℕ → Value
    boxed : Value → Value
    pointer_to : Value → Value
    struct_of : Values → Value
    byte_slice : Bytes → Value
    slice_of : Values → Value
    array_of : Values → Value
    map_of : GoType → Entries → Value

  pub data Values : Type 0 where
    no_values : Values
    value_then : Value → Values → Values

  pub data Entries : Type 0 where
    no_entries : Entries
    entry_then : Value → Value → Entries → Entries

abbrev pub count_fields : FieldTypes → ℕ
count_fields no_fields = 0
count_fields (field_type t ts) = suc (count_fields ts)

abbrev pub count_values : Values → ℕ
count_values no_values = 0
count_values (value_then v vs) = suc (count_values vs)

abbrev pub count_entries : Entries → ℕ
count_entries no_entries = 0
count_entries (entry_then k v es) = suc (count_entries es)

abbrev pub is_nil_value : Value → Bool
is_nil_value nil_value = true
is_nil_value v = false

abbrev pub is_custom : Value → Bool
is_custom (custom p k c) = true
is_custom v = false

-- `isStructKey`
abbrev pub is_struct : GoType → Bool
is_struct (struct_type ts) = true
is_struct (custom_type p k) = true
is_struct t = false

abbrev pub is_struct_key : GoType → Bool
is_struct_key (pointer_type t) = is_struct t
is_struct_key t = is_struct t
