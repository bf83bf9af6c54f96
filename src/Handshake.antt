-- ===== src/Handshake.antt =====
-- protocol.go: the version and codec handshake of a client and a server.
mod Tests
pub mod Selection
pub mod Ends
mod Replies
mod Joining
pub mod Agreement
use adaptivemsg_go.Bytes.{Bytes, get_u32, put_u32}
use adaptivemsg_go.Codecs.{CodecRegistry, codec_by_id}
use adaptivemsg_go.Errors.{
  Error, Result, bad_handshake_magic, err, invalid_message, no_common_codec, ok, too_many_codecs,
  unsupported_codec, unsupported_frame_version,
}
use adaptivemsg_go.Frame.{
  ConnConfig, frame_header_len_for_version, protocol_version_v2, protocol_version_v3,
}
use adaptivemsg_go.Port.{Io, fail, ignore, lift, read_full, return, write_full, ◌>>=◌, ◌>>◌}
use adaptivemsg_go.Prelude.{
  Bool, List, Option, [], copy_at, false, get_or, if◌then◌else◌, leb, length, ltb, none, not,
  replicate, set, slice, some, true, ℕ, ◌%◌, ◌&&◌, ◌+◌, ◌==◌, ◌||◌, ◌∷◌,
}

abbrev pub handshake_header_len : ℕ
handshake_header_len = 12

abbrev pub max_codec_count : ℕ
max_codec_count = 16

-- 'A' and 'M'
abbrev magic_0 : ℕ
magic_0 = 65

abbrev magic_1 : ℕ
magic_1 = 77

pub is_supported_protocol_version : ℕ → Bool
is_supported_protocol_version version =
    version == protocol_version_v2 || version == protocol_version_v3

pub supported_protocol_version : Bool → ℕ
supported_protocol_version recovery_enabled =
    if recovery_enabled then protocol_version_v3 else protocol_version_v2

pub negotiate_max_frame : ℕ → ℕ → ℕ
negotiate_max_frame client_max_frame server_max_frame =
    if client_max_frame == 0
    then 0
    else if ltb client_max_frame server_max_frame
    then client_max_frame
    else server_max_frame

pub contains_codec : List ℕ → ℕ → Bool
contains_codec [] id = false
contains_codec (codec ∷ codecs) id = if codec == id then true else contains_codec codecs id

-- The inner loop of `selectCodec`: the supported codec that a byte of the client names.
find_supported : ℕ → List ℕ → Option ℕ
find_supported raw [] = none
find_supported raw (sup ∷ supported) = if raw == sup then some sup else find_supported raw supported

pub select_codec : List ℕ → List ℕ → Option ℕ
unfolding find_supported
select_codec [] supported = none
select_codec (raw ∷ client_codecs) supported = elim (find_supported raw supported) [
  | some sup ↦ some sup
  | none ↦ select_codec client_codecs supported
]

module _ (registry : CodecRegistry) where
  -- The loop of `validateCodecList`
  pub validate_codec_ids : List ℕ → Option Error
  validate_codec_ids [] = none
  validate_codec_ids (id ∷ ids) =
      let rest = validate_codec_ids ids in
      if id == 0
      then some (invalid_message "codec ID must be non-zero")
      else elim (codec_by_id registry id) [ none ↦ some (unsupported_codec id) | some c ↦ rest ]

  pub validate_codec_list : List ℕ → Option Error
  unfolding validate_codec_ids
  validate_codec_list codecs =
      if length codecs == 0
      then some (invalid_message "codec list must be non-empty")
      else if ltb max_codec_count (length codecs)
      then some (too_many_codecs (length codecs))
      else validate_codec_ids codecs

  pub new_conn_config : ℕ → ℕ → ℕ → Result ConnConfig
  new_conn_config version id max_frame = elim (codec_by_id registry id) [
    | none ↦ err (unsupported_codec id)
    | some c ↦ elim (frame_header_len_for_version version) [
      | err e ↦ err e
      | ok n ↦ ok (record {
        version = version;
        codec_id = id;
        codec = c;
        max_frame = max_frame;
        header_len = n;
      })
    ]
  ]

-- `if err != nil { return err }`
abbrev pub check : Option Error → Io (Unit {0})
check none = return tt
check (some e) = fail e

-- The request: `copy(request[0:2], magic)`, the fields, and the codec list behind the header.
pub client_request : List ℕ → ℕ → ℕ → Bytes
client_request codecs max_frame version =
    let request = replicate (handshake_header_len + length codecs) 0 in
    let request = copy_at request 0 (magic_0 ∷ magic_1 ∷ []) in
    let request = set request 2 version in
    let request = set request 3 (length codecs % 256) in
    let request = copy_at request 8 (put_u32 max_frame) in
    copy_at request handshake_header_len codecs

pub bad_magic : Bytes → Bool
bad_magic b = not (get_or b 0 0 == magic_0) || not (get_or b 1 0 == magic_1)

-- What the client makes of the reply.
pub accept_reply : CodecRegistry → List ℕ → ℕ → Bytes → Result ConnConfig
unfolding bad_magic contains_codec new_conn_config
accept_reply registry codecs version response =
    if bad_magic response
    then err bad_handshake_magic
    else if not (get_or response 3 0 == version)
    then err (unsupported_frame_version (get_or response 3 0))
    else if get_or response 2 0 == 0
    then err no_common_codec
    else if not (contains_codec codecs (get_or response 4 0))
    then err no_common_codec
    else new_conn_config registry (get_or response 3 0) (get_or response 4 0)
        (get_u32 (slice response 8 12))

pub handshake_client : CodecRegistry → List ℕ → ℕ → ℕ → Io ConnConfig
unfolding validate_codec_list is_supported_protocol_version client_request accept_reply
handshake_client registry codecs max_frame version = do
  check (validate_codec_list registry codecs)
  check (
      if is_supported_protocol_version version
      then none
      else some (unsupported_frame_version version))
  write_full (client_request codecs max_frame version)
  response ← read_full handshake_header_len
  lift (accept_reply registry codecs version response)

pub server_reply : ℕ → ℕ → ℕ → ℕ → Bytes
server_reply accept version id max_frame =
    let response = replicate handshake_header_len 0 in
    let response = copy_at response 0 (magic_0 ∷ magic_1 ∷ []) in
    let response = set response 2 accept in
    let response = set response 3 version in
    let response = set response 4 id in
    let response = set (set (set response 5 0) 6 0) 7 0 in copy_at response 8 (put_u32 max_frame)

pub write_handshake_reply : ℕ → ℕ → ℕ → ℕ → Io (Unit {0})
unfolding server_reply
write_handshake_reply accept version id max_frame =
    write_full (server_reply accept version id max_frame)

pub discard_handshake_codecs : ℕ → Io (Unit {0})
discard_handshake_codecs n = if leb n 0 then return tt else do bytes ← read_full n; return tt

-- Refuse the client: the reply is sent, its own failure is dropped.
refuse : ℕ → Error → Io ConnConfig
unfolding write_handshake_reply
refuse version e = do ignore (write_handshake_reply 0 version 0 0); fail e

-- The last part of `handshakeServer`, once the client's codecs are read.
agree : CodecRegistry → List ℕ → ℕ → ℕ → ℕ → Bytes → Io ConnConfig
agree registry codecs max_frame version client_max_frame client_codecs =
    elim (select_codec client_codecs codecs) [
      | none ↦ refuse version no_common_codec
      | some selected ↦ do
        write_handshake_reply 1 version selected (negotiate_max_frame client_max_frame max_frame)
        lift (
            new_conn_config registry version selected
              (negotiate_max_frame client_max_frame max_frame))
    ]

-- `handshakeServer` behind the check of the magic bytes.
pub answer : CodecRegistry → List ℕ → ℕ → Bool → Bytes → Io ConnConfig
answer registry codecs max_frame recovery_enabled request =
    let version = get_or request 2 0 in
    let codec_count = get_or request 3 0 in
    if not (is_supported_protocol_version version)
      || (version == protocol_version_v3 && not recovery_enabled)
    then (do
      discard_handshake_codecs codec_count
      refuse (supported_protocol_version recovery_enabled) (unsupported_frame_version version))
    else if codec_count == 0
    then refuse version no_common_codec
    else if ltb max_codec_count codec_count
    then (do discard_handshake_codecs codec_count; refuse version (too_many_codecs codec_count))
    else (do
      client_codecs ← read_full codec_count
      agree registry codecs max_frame version (get_u32 (slice request 8 12)) client_codecs)

pub handshake_server : CodecRegistry → List ℕ → ℕ → Bool → Io ConnConfig
unfolding answer validate_codec_list
handshake_server registry codecs max_frame recovery_enabled = do
  check (validate_codec_list registry codecs)
  request ← read_full handshake_header_len
  check (if bad_magic request then some bad_handshake_magic else none)
  answer registry codecs max_frame recovery_enabled request
