-- ===== src/Compact/Reading.antt =====
-- Reading by the first byte, and the loops, where the parts read back.
use adaptivemsg_go.Bytes.{Bytes}
use adaptivemsg_go.Compact.Decode.{by_code, decode_value, read_by_code, same_key, set_map_index}
use adaptivemsg_go.Compact.Fitting.{add_last, is_absent, is_nillable}
use adaptivemsg_go.Compact.Msgpack.{Msgpack, MsgpackLaws, StartsValue, nil_code}
use adaptivemsg_go.Compact.Values.{
  Entries, GoType, Value, any_type, array_type, basic_type, bytes_type, custom_type, entry_then,
  map_type, nil_value, no_entries, pointer_type, slice_type, struct_type,
}
use adaptivemsg_go.Errors.{Result, ok}
use adaptivemsg_go.Prelude.{Bool-cases, ap, arith, inl, inr, refl, true, ◌++◌, ◌∙◌, ◌≡◌}

module _ (m : Msgpack) where
  pub by_code-value :
      (t : GoType) (bs : Bytes) (otherwise : Result (Value × Bytes))
      → StartsValue m bs
      → by_code m t bs otherwise ≡ otherwise
  by_code-value t bs otherwise (c, e, h) = rw (e, read_by_code) (rw h)

  pub by_code-nil :
      (t : GoType) (bs rest : Bytes) (otherwise : Result (Value × Bytes))
      → is_nillable t ≡ true
      → m.peek_code bs ≡ ok nil_code
      → m.decode_nil bs ≡ ok rest
      → by_code m t bs otherwise ≡ ok (nil_value, rest)
  by_code-nil any_type bs rest o h e d = rw (e, read_by_code) (rw d)
  by_code-nil (pointer_type t) bs rest o h e d = rw (e, read_by_code) (rw d)
  by_code-nil bytes_type bs rest o h e d = rw (e, read_by_code) (rw d)
  by_code-nil (slice_type t) bs rest o h e d = rw (e, read_by_code) (rw d)
  by_code-nil (map_type k t) bs rest o h e d = rw (e, read_by_code) (rw d)
  by_code-nil (basic_type k) bs rest o h e d = cc
  by_code-nil (custom_type p k) bs rest o h e d = cc
  by_code-nil (struct_type ts) bs rest o h e d = cc
  by_code-nil (array_type n t) bs rest o h e d = cc

  pub decode_value-nil :
      MsgpackLaws m
      → (t : GoType) (rest : Bytes) → is_nillable t ≡ true
      → decode_value m t (m.encode_nil ++ rest) ≡ ok (nil_value, rest)
  unfolding decode_value
  decode_value-nil laws any_type rest h =
      by_code-nil any_type _ rest _ h (laws.peek_nil rest) (laws.read_nil rest)
  decode_value-nil laws (pointer_type t) rest h =
      by_code-nil (pointer_type t) _ rest _ h (laws.peek_nil rest) (laws.read_nil rest)
  decode_value-nil laws bytes_type rest h =
      by_code-nil bytes_type _ rest _ h (laws.peek_nil rest) (laws.read_nil rest)
  decode_value-nil laws (slice_type t) rest h =
      by_code-nil (slice_type t) _ rest _ h (laws.peek_nil rest) (laws.read_nil rest)
  decode_value-nil laws (map_type k t) rest h =
      by_code-nil (map_type k t) _ rest _ h (laws.peek_nil rest) (laws.read_nil rest)
  decode_value-nil laws (basic_type k) rest h = cc
  decode_value-nil laws (custom_type p k) rest h = cc
  decode_value-nil laws (struct_type ts) rest h = cc
  decode_value-nil laws (array_type n t) rest h = cc

pub set_map_index-new :
    (k v : Value) (es : Entries) → is_absent k es ≡ true → set_map_index k v es ≡ add_last k v es
unfolding set_map_index
set_map_index-new k v no_entries h = refl
set_map_index-new k v (entry_then j w es) h = elim (Bool-cases (same_key j k)) [
  | inl same ↦ ground (arith, same, h)
  | inr other ↦ rw other (ap (entry_then j w) (set_map_index-new k v es (ground (arith, other, h))))
]

abbrev pub add_all : Entries → Entries → Entries
add_all so_far no_entries = so_far
add_all so_far (entry_then k v es) = add_all (add_last k v so_far) es

pub add_all-entry :
    (j w : Value) (so_far es : Entries)
    → add_all (entry_then j w so_far) es ≡ entry_then j w (add_all so_far es)
add_all-entry j w so_far no_entries = refl
add_all-entry j w so_far (entry_then k v es) = add_all-entry j w (add_last k v so_far) es

pub add_all-none : (es : Entries) → add_all no_entries es ≡ es
add_all-none no_entries = refl
add_all-none (entry_then k v es) =
    add_all-entry k v no_entries es ∙ ap (entry_then k v) (add_all-none es)
