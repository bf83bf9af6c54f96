-- ===== src/Frame/HeaderBytes.antt =====
-- Header bytes: what `build_header` writes is what `parse_header` reads.
use adaptivemsg_go.Bytes.{get_u32-put_u32, get_u64-put_u64, put_u32, put_u64}
use adaptivemsg_go.Errors.{ok}
use adaptivemsg_go.Frame.{
  ConnConfig, Frame, conn_header_len, frame_header_len, frame_header_len_for_version,
  frame_header_len_v3, header_array, parse_header, protocol_version_v2, protocol_version_v3,
  unsupported_frame_flags,
}
use adaptivemsg_go.Prelude.{
  Bool-cases, all_below, all_below_lem, ap, arith, bit_and, if◌then◌else◌, inl, inr, length, ltb,
  refl, take, true, ℕ, ◌++◌, ◌<◌, ◌==◌, ◌^◌, ◌∙◌, ◌∷◌, ◌≡◌, ◌≢◌, ◌≤◌, ◌⊎◌,
}

-- A config as `newConnConfig` makes it; a header length of 0 stands for one not computed yet.
pub record IsValidConfig (c : ConnConfig) : Type 0 where
  pub version_known : (c.version ≡ protocol_version_v2) ⊎ (c.version ≡ protocol_version_v3)
  pub header_len_fits :
      (c.header_len ≡ 0) ⊎ (ok c.header_len ≡ frame_header_len_for_version c.version)
  pub max_frame_u32 : c.max_frame < 2 ^ 32

-- A frame that the connection may send: fields of the right width, no flag but FIN, and a payload
-- within the limit.
pub record IsSendable (c : ConnConfig) (f : Frame) : Type 0 where
  pub stream_id_u32 : f.stream_id < 2 ^ 32
  pub seq_u64 : f.seq < 2 ^ 64
  pub flags_known : f.flags < 2
  pub payload_fits : length f.payload ≤ c.max_frame

-- The frame as the peer sees it: v2 headers have no sequence number.
abbrev pub received : ConnConfig → Frame → Frame
received c f = record f { seq = if c.version == protocol_version_v3 then f.seq else 0 }

unfoldable pub header_len_of : ℕ → ℕ
header_len_of version =
    if version == protocol_version_v3 then frame_header_len_v3 else frame_header_len

pub conn_header_len-eq :
    (c : ConnConfig) → IsValidConfig c → conn_header_len c ≡ ok (header_len_of c.version)
unfolding conn_header_len header_len_of
conn_header_len-eq c v = ground arith

flags_table :
    all_below (λ x. if bit_and x unsupported_frame_flags == 0 then ltb x 2 else ltb 1 x) 256 ≡ true
unfolding all_below
flags_table = refl

pub flags_known_lem : (x : ℕ) → x < 2 → bit_and x unsupported_frame_flags ≡ 0
flags_known_lem x h = ground (
  arith,
  all_below_lem (λ x. if bit_and x unsupported_frame_flags == 0 then ltb x 2 else ltb 1 x) {x = x}
      256 flags_table,
)

pub flags_unknown_lem : (x : ℕ) → 1 < x → x < 256 → bit_and x unsupported_frame_flags ≢ 0
flags_unknown_lem x h k = ground (
  arith,
  all_below_lem (λ x. if bit_and x unsupported_frame_flags == 0 then ltb x 2 else ltb 1 x) {x = x}
      256 flags_table,
)

header_array_v2 :
    (c : ConnConfig) (id seq flags size : ℕ)
    → c.version ≡ 2
    → take 10 (header_array c id seq flags size) ≡ 2 ∷ flags ∷ put_u32 id ++ put_u32 size
unfolding header_array
header_array_v2 c id seq flags size e = rw e refl

header_array_v3 :
    (c : ConnConfig) (id seq flags size : ℕ)
    → c.version ≡ 3
    → take 18 (header_array c id seq flags size)
      ≡ 3 ∷ flags ∷ put_u32 id ++ put_u32 size ++ put_u64 seq
unfolding header_array
header_array_v3 c id seq flags size e = rw e refl

parse_header_v2 :
    (c : ConnConfig) (id seq flags size : ℕ)
    → c.version ≡ 2
    → flags < 2
    → id < 2 ^ 32
    → size < 2 ^ 32
    → parse_header c (2 ∷ flags ∷ put_u32 id ++ put_u32 size)
      ≡ ok (record { stream_id = id; seq = 0; flags = flags; payload_len = size })
unfolding parse_header
parse_header_v2 c id seq flags size e hf hi hs =
    rw (e, flags_known_lem flags hf, get_u32-put_u32 id hi, get_u32-put_u32 size hs) refl

parse_header_v3 :
    (c : ConnConfig) (id seq flags size : ℕ)
    → c.version ≡ 3
    → flags < 2
    → id < 2 ^ 32
    → size < 2 ^ 32
    → seq < 2 ^ 64
    → parse_header c (3 ∷ flags ∷ put_u32 id ++ put_u32 size ++ put_u64 seq)
      ≡ ok (record { stream_id = id; seq = seq; flags = flags; payload_len = size })
unfolding parse_header
parse_header_v3 c id seq flags size e hf hi hs hq =
    rw
      (
        e,
        flags_known_lem flags hf,
        get_u32-put_u32 id hi,
        get_u32-put_u32 size hs,
        get_u64-put_u64 seq hq,
      )
      refl

-- The header of a frame of either version, read back.
pub parse_header-header_array :
    (c : ConnConfig) (id seq flags size : ℕ)
    → IsValidConfig c
    → flags < 2
    → id < 2 ^ 32
    → size < 2 ^ 32
    → seq < 2 ^ 64
    → parse_header c (take (header_len_of c.version) (header_array c id seq flags size))
      ≡ ok (record {
        stream_id = id;
        seq = if c.version == protocol_version_v3 then seq else 0;
        flags = flags;
        payload_len = size;
      })
unfolding header_len_of
parse_header-header_array c id seq flags size v hf hi hs hq = elim v.version_known [
  | inl e ↦
      ap (parse_header c) (
        ap (λ k. take (header_len_of k) (header_array c id seq flags size)) e
        ∙ header_array_v2 c id seq flags size e)
      ∙ parse_header_v2 c id seq flags size e hf hi hs
      ∙ rw e refl
  | inr e ↦
      ap (parse_header c) (
        ap (λ k. take (header_len_of k) (header_array c id seq flags size)) e
        ∙ header_array_v3 c id seq flags size e)
      ∙ parse_header_v3 c id seq flags size e hf hi hs hq
      ∙ rw e refl
]

pub length-header_array :
    (c : ConnConfig) (id seq flags size : ℕ)
    → length (take (header_len_of c.version) (header_array c id seq flags size))
      ≡ header_len_of c.version
unfolding header_len_of header_array
length-header_array c id seq flags size = elim (Bool-cases (c.version == 3)) [
  | inl e ↦ rw e refl
  | inr e ↦ rw e refl
]
