-- ===== src/Compact/Msgpack.antt =====
-- What the codec calls of github.com/vmihailenco/msgpack, as parameters, with what its documentation
-- says of them.
use adaptivemsg_go.Bytes.{Bytes}
use adaptivemsg_go.Compact.Values.{GoType, Value}
use adaptivemsg_go.Errors.{Result, ok}
use adaptivemsg_go.Prelude.{Option, false, length, some, ℕ, ◌++◌, ◌<◌, ◌==◌, ◌^◌, ◌≡◌}

-- The first byte of an encoded nil (msgpcode.Nil).
abbrev pub nil_code : ℕ
nil_code = 0xc0

-- The methods of Encoder give the bytes that they append; those of Decoder take the input that is
-- left, and give a result and the rest. DecodeArrayLen and DecodeMapLen return -1, here `none`, for
-- nil. An error stands for the ErrCodec that the code wraps it in. `encode` is EncodeValue, and `decode` is Decode into a variable of the type.
pub record Msgpack : Type 0 where
  pub encode_nil : Bytes
  pub encode_array_len : ℕ → Bytes
  pub encode_map_len : ℕ → Bytes
  pub encode_string : Bytes → Bytes
  pub encode_bytes : Bytes → Bytes
  pub encode : Value → Result Bytes
  pub peek_code : Bytes → Result ℕ
  pub decode_nil : Bytes → Result Bytes
  pub decode_array_len : Bytes → Result (Option ℕ × Bytes)
  pub decode_map_len : Bytes → Result (Option ℕ × Bytes)
  pub decode_string : Bytes → Result (Bytes × Bytes)
  pub decode_bytes : Bytes → Result (Bytes × Bytes)
  pub skip : Bytes → Result Bytes
  pub decode : GoType → Bytes → Result (Value × Bytes)

-- The input begins with a byte that is not nil's.
abbrev pub StartsValue : Msgpack → Bytes → Type 0
StartsValue m bs = (c : ℕ) × (m.peek_code bs ≡ ok c) × (c == nil_code ≡ false)

-- The library itself keeps the value: EncodeValue gives bytes, not nil's, which Decode into its type
-- reads back.
pub record Kept (m : Msgpack) (t : GoType) (w v : Value) : Type 0 where
  pub image : Bytes
  pub encodes : m.encode w ≡ ok image
  pub decodes : (rest : Bytes) → m.decode t (image ++ rest) ≡ ok (v, rest)
  pub starts : (rest : Bytes) → StartsValue m (image ++ rest)

-- Lengths are 32-bit numbers in the format.
pub record MsgpackLaws (m : Msgpack) : Type 0 where
  pub peek_nil : (rest : Bytes) → m.peek_code (m.encode_nil ++ rest) ≡ ok nil_code
  pub read_nil : (rest : Bytes) → m.decode_nil (m.encode_nil ++ rest) ≡ ok rest
  pub array_starts :
      (n : ℕ) (rest : Bytes) → n < 2 ^ 32 → StartsValue m (m.encode_array_len n ++ rest)
  pub read_array_len :
      (n : ℕ) (rest : Bytes)
      → n < 2 ^ 32
      → m.decode_array_len (m.encode_array_len n ++ rest) ≡ ok (some n, rest)
  pub map_starts : (n : ℕ) (rest : Bytes) → n < 2 ^ 32 → StartsValue m (m.encode_map_len n ++ rest)
  pub read_map_len :
      (n : ℕ) (rest : Bytes)
      → n < 2 ^ 32
      → m.decode_map_len (m.encode_map_len n ++ rest) ≡ ok (some n, rest)
  pub bytes_start :
      (bs rest : Bytes) → length bs < 2 ^ 32 → StartsValue m (m.encode_bytes bs ++ rest)
  pub read_bytes :
      (bs rest : Bytes)
      → length bs < 2 ^ 32
      → m.decode_bytes (m.encode_bytes bs ++ rest) ≡ ok (bs, rest)
