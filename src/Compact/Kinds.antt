-- ===== src/Compact/Kinds.antt =====
-- The values of each kind, when their parts are encoded and decoded again.
use adaptivemsg_go.Bytes.{Bytes}
use adaptivemsg_go.Compact.Decode.{
  Read, decode_fields, decode_value, read_entries, read_then, read_times,
}
use adaptivemsg_go.Compact.Encode.{after_bytes, encode_map}
use adaptivemsg_go.Compact.Fitting.{
  are_new, is_nillable, settle, settle_entries, settle_pointer, settle_values,
}
use adaptivemsg_go.Compact.Msgpack.{Kept, Msgpack, MsgpackLaws, StartsValue}
use adaptivemsg_go.Compact.Reading.{add_all, add_all-none, by_code-value, decode_value-nil}
use adaptivemsg_go.Compact.Values.{
  Entries, FieldTypes, GoType, Value, Values, array_of, array_type, basic, basic_type, boxed,
  byte_slice, bytes_type, count_entries, count_fields, count_values, custom, custom_type,
  is_nil_value, map_of, map_type, nil_value, no_entries, pointer_to, pointer_type, slice_of,
  slice_type, struct_of, struct_type,
}
use adaptivemsg_go.Errors.{Result, ok}
use adaptivemsg_go.Prelude.{
  ==_iff, Bool, Bool-cases, ap, append_assoc, arith, false, inl, inr, length, refl, sym, true, ℕ,
  ◌++◌, ◌<◌, ◌^◌, ◌∙◌, ◌≡◌,
}

-- What the encoding `r` of a value must be for its type to read it back.
pub record Decodes (m : Msgpack) (t : GoType) (v : Value) (r : Result Bytes) : Type 0 where
  pub image : Bytes
  pub encodes : r ≡ ok image
  pub decodes : (rest : Bytes) → decode_value m t (image ++ rest) ≡ ok (settle v, rest)
  pub when_nil : is_nil_value (settle v) ≡ true → image ≡ m.encode_nil
  pub when_value : is_nil_value (settle v) ≡ false → (rest : Bytes) → StartsValue m (image ++ rest)

pub record DecodesAll (m : Msgpack) (reads : Read Values) (vs : Values) (r : Result Bytes)
    : Type 0 where
  pub image : Bytes
  pub encodes : r ≡ ok image
  pub decodes : (rest : Bytes) → reads (image ++ rest) ≡ ok (settle_values vs, rest)

pub record DecodesEntries (m : Msgpack) (j : ℕ) (t : GoType) (es : Entries) (r : Result Bytes)
    : Type 0 where
  pub image : Bytes
  pub encodes : r ≡ ok image
  pub decodes :
      (so_far : Entries) (rest : Bytes)
      → are_new so_far (settle_entries es) ≡ true
      → read_entries m (count_entries es) (basic_type j) (decode_value m t) so_far (image ++ rest)
        ≡ ok (add_all so_far (settle_entries es), rest)

pub append3 : (xs bs cs rest : Bytes) → (xs ++ (bs ++ cs)) ++ rest ≡ xs ++ (bs ++ (cs ++ rest))
append3 xs bs cs rest =
    append_assoc xs (bs ++ cs) rest ∙ ap (λ (t : Bytes). xs ++ t) (append_assoc bs cs rest)

settle_pointer-nil : (w : Value) → is_nil_value w ≡ true → settle_pointer w ≡ nil_value
settle_pointer-nil nil_value h = refl
settle_pointer-nil (basic k c) h = cc
settle_pointer-nil (custom p k c) h = cc
settle_pointer-nil (boxed v) h = cc
settle_pointer-nil (pointer_to v) h = cc
settle_pointer-nil (struct_of vs) h = cc
settle_pointer-nil (byte_slice bs) h = cc
settle_pointer-nil (slice_of vs) h = cc
settle_pointer-nil (array_of vs) h = cc
settle_pointer-nil (map_of t es) h = cc

settle_pointer-value : (w : Value) → is_nil_value w ≡ false → settle_pointer w ≡ pointer_to w
settle_pointer-value nil_value h = cc
settle_pointer-value (basic k c) h = refl
settle_pointer-value _ h = refl

settle_pointer-is_nil : (w : Value) → is_nil_value w ≡ is_nil_value (settle_pointer w)
settle_pointer-is_nil nil_value = refl
settle_pointer-is_nil _ = refl

module _ (m : Msgpack) (laws : MsgpackLaws m) where
  pub basic-Decodes :
      (k c : ℕ) (kp : Kept m (basic_type k) (basic k c) (basic k c))
      → Decodes m (basic_type k) (basic k c) (m.encode (basic k c))
  unfolding decode_value settle
  basic-Decodes k c kp = record {
    image = kp.image;
    encodes = kp.encodes;
    decodes = λ rest. by_code-value m (basic_type k) _ _ (kp.starts rest) ∙ kp.decodes rest;
    when_nil = λ h. absurd (cc);
    when_value = λ h. kp.starts;
  }

  pub custom-Decodes :
      (p : Bool) (k c : ℕ) (w : Value) (kp : Kept m (custom_type p k) w (custom p k c))
      → Decodes m (custom_type p k) (custom p k c) (m.encode w)
  unfolding decode_value settle
  custom-Decodes p k c w kp = record {
    image = kp.image;
    encodes = kp.encodes;
    decodes = λ rest. by_code-value m (custom_type p k) _ _ (kp.starts rest) ∙ kp.decodes rest;
    when_nil = λ h. absurd (cc);
    when_value = λ h. kp.starts;
  }

  pub nil_Decodes : (t : GoType) → is_nillable t ≡ true → Decodes m t nil_value (ok m.encode_nil)
  unfolding settle
  nil_Decodes t h = record {
    image = m.encode_nil;
    encodes = refl;
    decodes = λ rest. decode_value-nil m laws t rest h;
    when_nil = λ h. refl;
    when_value = λ h. absurd (cc);
  }

  nil_pointer :
      (t : GoType) (w : Value) (image rest : Bytes)
      → is_nil_value w ≡ true
      → image ≡ m.encode_nil
      → decode_value m (pointer_type t) (image ++ rest) ≡ ok (settle_pointer w, rest)
  nil_pointer t w image rest h e =
      ap (λ (bs : Bytes). decode_value m (pointer_type t) (bs ++ rest)) e
      ∙ (decode_value-nil m laws (pointer_type t) rest refl
          ∙ ap (λ (x : Value). ok (x, rest)) (sym (settle_pointer-nil w h)))

  value_pointer :
      (t : GoType) (w : Value) (bs rest : Bytes)
      → is_nil_value w ≡ false
      → StartsValue m bs
      → decode_value m t bs ≡ ok (w, rest)
      → decode_value m (pointer_type t) bs ≡ ok (settle_pointer w, rest)
  unfolding decode_value
  value_pointer t w bs rest h st d =
      by_code-value m (pointer_type t) bs _ st
      ∙ (ap (λ (r : Result (Value × Bytes)). read_then r (λ v rest. ok (pointer_to v, rest))) d
          ∙ ap (λ (x : Value). ok (x, rest)) (sym (settle_pointer-value w h)))

  pub pointer-Decodes :
      {t : GoType} {v : Value} {r : Result Bytes}
      → Decodes m t v r
      → Decodes m (pointer_type t) (pointer_to v) r
  unfolding settle
  pointer-Decodes {t} {v} d = record {
    image = d.image;
    encodes = d.encodes;
    decodes = λ rest. elim (Bool-cases (is_nil_value (settle v))) [
      | inl h ↦ nil_pointer t (settle v) d.image rest h (d.when_nil h)
      | inr h ↦ value_pointer t (settle v) _ rest h (d.when_value h rest) (d.decodes rest)
    ];
    when_nil = λ h. d.when_nil (settle_pointer-is_nil (settle v) ∙ h);
    when_value = λ h. d.when_value (settle_pointer-is_nil (settle v) ∙ h);
  }

  -- A value whose image is a header of its own and then the parts.
  headed-Decodes :
      {t : GoType} {v : Value} {r : Result Bytes} (header image : Bytes)
      → r ≡ ok image
      → is_nil_value (settle v) ≡ false
      → ((rest : Bytes) → StartsValue m (header ++ rest))
      → ((rest : Bytes) → decode_value m t (header ++ (image ++ rest)) ≡ ok (settle v, rest))
      → Decodes m t v (after_bytes header r)
  headed-Decodes {t} {v} header image e n st d = record {
    image = header ++ image;
    encodes = ap (after_bytes header) e;
    decodes = λ rest. rw (append_assoc header image rest) (d rest);
    when_nil = λ h. absurd (cc);
    when_value = λ h rest. rw (append_assoc header image rest) (st (image ++ rest));
  }

  pub struct-Decodes :
      {ts : FieldTypes} {vs : Values} {r : Result Bytes}
      → DecodesAll m (decode_fields m ts) vs r
      → count_values vs ≡ count_fields ts
      → count_fields ts < 2 ^ 32
      → Decodes m
          (struct_type ts)
          (struct_of vs)
          (after_bytes (m.encode_array_len (count_values vs)) r)
  unfolding settle decode_value
  struct-Decodes {ts} {vs} d n h =
      let lt : count_values vs < 2 ^ 32 = omega (arith, n) in
      headed-Decodes (m.encode_array_len (count_values vs)) d.image d.encodes refl
        (λ rest. laws.array_starts (count_values vs) rest lt)
        (λ rest.
          by_code-value m (struct_type ts) _ _
            (laws.array_starts (count_values vs) (d.image ++ rest) lt)
          ∙ rw (laws.read_array_len (count_values vs) (d.image ++ rest) lt)
              (rw ((==_iff (count_values vs) (count_fields ts)).1 n) (rw (d.decodes rest))))

  pub slice-Decodes :
      {t : GoType} {vs : Values} {r : Result Bytes}
      → DecodesAll m (read_times (count_values vs) (decode_value m t)) vs r
      → count_values vs < 2 ^ 32
      → Decodes m
          (slice_type t)
          (slice_of vs)
          (after_bytes (m.encode_array_len (count_values vs)) r)
  unfolding settle decode_value
  slice-Decodes {t} {vs} d lt =
      headed-Decodes (m.encode_array_len (count_values vs)) d.image d.encodes refl
        (λ rest. laws.array_starts (count_values vs) rest lt)
        (λ rest.
          by_code-value m (slice_type t) _ _
            (laws.array_starts (count_values vs) (d.image ++ rest) lt)
          ∙ rw (laws.read_array_len (count_values vs) (d.image ++ rest) lt) (rw (d.decodes rest)))

  pub array-Decodes :
      {n : ℕ} {t : GoType} {vs : Values} {r : Result Bytes}
      → DecodesAll m (read_times (count_values vs) (decode_value m t)) vs r
      → count_values vs ≡ n
      → n < 2 ^ 32
      → Decodes m
          (array_type n t)
          (array_of vs)
          (after_bytes (m.encode_array_len (count_values vs)) r)
  unfolding settle decode_value
  array-Decodes {n} {t} {vs} d e h =
      let lt : count_values vs < 2 ^ 32 = omega (arith, e) in
      headed-Decodes (m.encode_array_len (count_values vs)) d.image d.encodes refl
        (λ rest. laws.array_starts (count_values vs) rest lt)
        (λ rest.
          by_code-value m (array_type n t) _ _
            (laws.array_starts (count_values vs) (d.image ++ rest) lt)
          ∙ rw (laws.read_array_len (count_values vs) (d.image ++ rest) lt)
              (rw ((==_iff (count_values vs) n).1 e) (rw (d.decodes rest))))

  pub map-Decodes :
      {j : ℕ} {t : GoType} {es : Entries} {r : Result Bytes}
      → DecodesEntries m j t es r
      → are_new no_entries (settle_entries es) ≡ true
      → count_entries es < 2 ^ 32
      → Decodes m
          (map_type (basic_type j) t)
          (map_of (basic_type j) es)
          (encode_map m (basic_type j) (count_entries es) r)
  unfolding settle decode_value
  map-Decodes {j} {t} {es} d distinct lt =
      headed-Decodes (m.encode_map_len (count_entries es)) d.image d.encodes refl
        (λ rest. laws.map_starts (count_entries es) rest lt)
        (λ rest.
          by_code-value m (map_type (basic_type j) t) _ _
            (laws.map_starts (count_entries es) (d.image ++ rest) lt)
          ∙ rw (laws.read_map_len (count_entries es) (d.image ++ rest) lt)
              (rw (d.decodes no_entries rest distinct) (rw (add_all-none (settle_entries es)))))

  pub bytes-Decodes :
      (bs : Bytes)
      → length bs < 2 ^ 32
      → Decodes m bytes_type (byte_slice bs) (ok (m.encode_bytes bs))
  unfolding settle decode_value
  bytes-Decodes bs lt = record {
    image = m.encode_bytes bs;
    encodes = refl;
    decodes = λ rest.
        by_code-value m bytes_type _ _ (laws.bytes_start bs rest lt)
        ∙ rw (laws.read_bytes bs rest lt);
    when_nil = λ h. absurd (cc);
    when_value = λ h rest. laws.bytes_start bs rest lt;
  }
