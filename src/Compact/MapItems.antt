-- ===== src/Compact/MapItems.antt =====
-- decodeMapEnvelope on a map with any keys in any order.
use adaptivemsg_go.Bytes.{Bytes, same_bytes}
use adaptivemsg_go.Compact.Envelope.{
  data_key, decode_map_envelope, named_envelope, read_map_envelope, type_key,
}
use adaptivemsg_go.Compact.Msgpack.{Msgpack}
use adaptivemsg_go.Errors.{codec_failed, err, ok}
use adaptivemsg_go.Prelude.{
  All, List, [], ap, append_assoc, arith, false, if◌then◌else◌, length, length-append, refl, some,
  take, take-append, ℕ, ◌++◌, ◌-◌, ◌<◌, ◌==◌, ◌^◌, ◌∙◌, ◌∷◌, ◌≡◌,
}

-- An item of the map: the wire name, the data as it is encoded, or a key that is neither.
pub data Item : Type 0 where
  type_item : Bytes → Item
  data_item : Bytes → Item
  other_item : Bytes → Bytes → Item

-- `same_bytes key type_key` and `data_key`, for a key that the code does not know.
abbrev pub IsOther : Bytes → Type 0
IsOther key = (same_bytes key type_key ≡ false) × (same_bytes key data_key ≡ false)

-- The library reads strings and skips values.
pub record SkipLaws (m : Msgpack) (Encoded : Bytes → Type 0) : Type 0 where
  pub read_string :
      (s rest : Bytes)
      → length s < 2 ^ 32
      → m.decode_string (m.encode_string s ++ rest) ≡ ok (s, rest)
  pub skip_value : (image rest : Bytes) → Encoded image → m.skip (image ++ rest) ≡ ok rest
  pub map_len :
      (n : ℕ) (rest : Bytes)
      → n < 2 ^ 32
      → m.decode_map_len (m.encode_map_len n ++ rest) ≡ ok (some n, rest)

abbrev pub IsItem : (Bytes → Type 0) → Item → Type 0
IsItem Encoded (type_item wire) = length wire < 2 ^ 32
IsItem Encoded (data_item image) = Encoded image
IsItem Encoded (other_item key image) = IsOther key × (length key < 2 ^ 32) × Encoded image

abbrev pub last_type : Bytes → List Item → Bytes
last_type wire [] = wire
last_type wire (type_item w ∷ items) = last_type w items
last_type wire (data_item image ∷ items) = last_type wire items
last_type wire (other_item key image ∷ items) = last_type wire items

abbrev pub last_data : Bytes → List Item → Bytes
last_data body [] = body
last_data body (type_item w ∷ items) = last_data body items
last_data body (data_item image ∷ items) = last_data image items
last_data body (other_item key image ∷ items) = last_data body items

module _ (m : Msgpack) where
  abbrev pub item_image : Item → Bytes
  item_image (type_item wire) = m.encode_string type_key ++ m.encode_string wire
  item_image (data_item image) = m.encode_string data_key ++ image
  item_image (other_item key image) = m.encode_string key ++ image

  abbrev pub items_image : List Item → Bytes
  items_image [] = []
  items_image (item ∷ items) = item_image item ++ items_image items

  abbrev pub map_image : List Item → Bytes
  map_image items = m.encode_map_len (length items) ++ items_image items

passed_len : (image rest : Bytes) → length (image ++ rest) - length rest ≡ length image
passed_len image rest = omega (arith, length-append image rest)

named_by :
    (m : Msgpack) (wire body : Bytes)
    → named_envelope m (ok (wire, body)) ≡ (
        if length wire == 0 then err (codec_failed "map payload missing type") else ok (wire, body))
named_by m [] body = refl
named_by m (b ∷ bs) body = ground arith

module _ (m : Msgpack) (Encoded : Bytes → Type 0) (laws : SkipLaws m Encoded) where
  passed :
      (image rest : Bytes) → take (length (image ++ rest) - length rest) (image ++ rest) ≡ image
  passed image rest =
      ap (λ (n : ℕ). take n (image ++ rest)) (passed_len image rest) ∙ take-append image rest

  items-read :
      (items : List Item) (wire body : Bytes)
      → All (IsItem Encoded) items
      → read_map_envelope m (length items) wire body (items_image m items)
        ≡ ok (last_type wire items, last_data body items)
  unfolding read_map_envelope
  items-read [] wire body h = refl
  items-read (type_item w ∷ items) wire body h =
      rw (append_assoc (m.encode_string type_key) (m.encode_string w) (items_image m items)) (
        rw (laws.read_string type_key (m.encode_string w ++ items_image m items) (omega arith))
          (rw (laws.read_string w (items_image m items) h.0) (items-read items w body h.1)))
  items-read (data_item image ∷ items) wire body h =
      rw (append_assoc (m.encode_string data_key) image (items_image m items)) (
        rw (laws.read_string data_key (image ++ items_image m items) (omega arith)) (
          rw (laws.skip_value image (items_image m items) h.0)
            (rw (passed image (items_image m items)) (items-read items wire image h.1))))
  items-read (other_item key image ∷ items) wire body h =
      rw (append_assoc (m.encode_string key) image (items_image m items)) (
        rw (laws.read_string key (image ++ items_image m items) h.0.1) (
          rw h.0.0.0 (
            rw (laws.skip_value image (items_image m items) h.0.2)
              (rw h.0.0.1 (items-read items wire body h.1)))))

  -- A map with fewer than 2 ^ 32 items, whose keys are "type", "data" and unknown ones in any order and
  -- number: the envelope has the wire name of the last "type" and the encoded data of the last "data",
  -- empty if there is none; without a "type", or with an empty one in the end, it is refused.
  pub map_envelope_by_keys :
      (items : List Item)
      → All (IsItem Encoded) items
      → length items < 2 ^ 32
      → decode_map_envelope m (map_image m items) ≡ (
          if length (last_type [] items) == 0
          then err (codec_failed "map payload missing type")
          else ok (last_type [] items, last_data [] items))
  unfolding decode_map_envelope
  map_envelope_by_keys items h lt =
      rw (laws.map_len (length items) (items_image m items) lt)
        (rw (items-read items [] [] h) (named_by m (last_type [] items) (last_data [] items)))
